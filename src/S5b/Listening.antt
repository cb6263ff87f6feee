-- ===== src/S5b/Listening.antt =====
-- jingle-s5b/s5b.c: what `init` does with a transport, however the module came to it.
use mcabber_jingle.Base.{
  ℕ, ◌+◌, ◌≡◌, refl, ap, inl, inr, Bool, ◌&&◌, Option-cases, subst, Option, none, some, List, [],
  ◌∷◌, map, keep_if, arith,
}
use mcabber_jingle.Stanza.{
  Node, node_name, Host, JingleAction, unknown_action, content_accept, content_add, content_modify,
  content_reject, content_remove, description_info, security_info, session_accept, session_info,
  session_initiate, session_terminate, transport_accept, transport_info, transport_reject,
  transport_replace, JingleContent, GError,
}
use mcabber_jingle.S5b.{
  JingleS5b, S5bCandidate, S5bHost, LocalIp, get_port, Listener, listening, listener_freed,
}
use mcabber_jingle.S5b.Connect.{ListenAnswers, listen_on, init}
use mcabber_jingle.S5b.Transport.{
  newfrommessage, new_own, handle, candidates_of, attribute_of_transport,
}
use mcabber_jingle.S5b.Elements.{no_candidates}

abbrev pub IsTransport : Node → Type 0
IsTransport node = node_name node ≡ "transport"

abbrev pub AreTransports : Option Node → Type 0
AreTransports none = Unit
AreTransports (some node) = IsTransport node

-- The transports that the module makes: by `new`, by `newfrommessage` from a <transport>, and by `handle` from another one
-- and a <transport>.
pub data IsMade (h : Host) (f : S5bHost) (local_ips : List LocalIp) : JingleS5b → Type 0 where
  by_new :
      (a n : ℕ) (js5b : JingleS5b)
      → new_own h f local_ips a n ≡ some js5b
      → IsMade h f local_ips js5b
  from_message :
      (a n : ℕ) (cn : JingleContent) (err err' : Option GError) (js5b : JingleS5b)
      → AreTransports cn.transport
      → newfrommessage h f local_ips a n cn err ≡ some (some js5b, err')
      → IsMade h f local_ips js5b
  handled :
      (action : JingleAction) (a : ℕ) (old js5b : JingleS5b) (node : Node)
      → IsMade h f local_ips old
      → IsTransport node
      → (handle h f local_ips action a old node).1 ≡ js5b
      → IsMade h f local_ips js5b

-- Whether each call of GIO for the socket of a candidate succeeds.
abbrev pub is_served : (ℕ → ListenAnswers) → S5bCandidate → Bool
is_served answers c = let a = answers c.addr in a.makes_socket && a.binds && a.listens && a.adds

abbrev pub socket_of : S5bCandidate → ℕ × ℕ
socket_of c = (c.host, c.port)

abbrev pub listener_on : List (ℕ × ℕ) → Listener
listener_on [] = listener_freed
listener_on (s ∷ ss) = listening (s ∷ ss)

listen_on_lem :
    (answers : ℕ → ListenAnswers) (cs : List S5bCandidate)
    → listen_on answers cs ≡ map socket_of (keep_if (is_served answers) cs)
unfolding listen_on
listen_on_lem answers [] = refl
listen_on_lem answers (c ∷ cs) = ground (arith, listen_on_lem answers cs)

candidates_of-none :
    (h : Host) (f : S5bHost) (a : ℕ) (node : Option Node)
    → AreTransports node
    → candidates_of h f a node ≡ []
candidates_of-none h f a none named = refl
candidates_of-none h f a (some node) named = no_candidates h f a node named

-- What `candidates` is where there is a transport.
abbrev HasNone : Option JingleS5b → Type 0
HasNone none = Unit
HasNone (some js5b) = js5b.candidates ≡ []

abbrev transport_of : Option (Option JingleS5b × Option GError) → Option JingleS5b
transport_of none = none
transport_of (some r) = r.0

module _ (h : Host) (f : S5bHost) (local_ips : List LocalIp) where
  new_own-HasNone : (a n : ℕ) → HasNone (new_own h f local_ips a n)
  unfolding new_own
  new_own-HasNone a n = elim (Option-cases (get_port f (n + 7))) [
    | inl faults ↦ rw faults tt
    | inr (port, found) ↦ rw found refl
  ]

  newfrommessage-HasNone :
      (a n : ℕ) (cn : JingleContent) (err : Option GError)
      → AreTransports cn.transport
      → HasNone (transport_of (newfrommessage h f local_ips a n cn err))
  unfolding newfrommessage
  newfrommessage-HasNone a n cn err named =
      elim (Option-cases (attribute_of_transport h cn.transport "sid")) [
        | inl missing ↦ rw (missing, newfrommessage) tt
        | inr (sid, is_sid) ↦ elim (Option-cases (get_port f n)) [
          | inl faults ↦ rw (is_sid, faults, newfrommessage) tt
          | inr (port, found) ↦
              rw (is_sid, found, newfrommessage) (candidates_of-none h f a cn.transport named)
        ]
      ]

  handle-HasNone :
      (action : JingleAction) (a : ℕ) (js5b : JingleS5b) (node : Node)
      → IsTransport node
      → js5b.candidates ≡ []
      → JingleS5b.candidates ((handle h f local_ips action a js5b node).1) ≡ []
  unfolding handle
  handle-HasNone unknown_action a js5b node named e = e
  handle-HasNone content_accept a js5b node named e = e
  handle-HasNone content_add a js5b node named e = e
  handle-HasNone content_modify a js5b node named e = e
  handle-HasNone content_reject a js5b node named e = e
  handle-HasNone content_remove a js5b node named e = e
  handle-HasNone description_info a js5b node named e = e
  handle-HasNone security_info a js5b node named e = e
  handle-HasNone session_accept a js5b node named e = no_candidates h f a node named
  handle-HasNone session_info a js5b node named e = e
  handle-HasNone session_initiate a js5b node named e = e
  handle-HasNone session_terminate a js5b node named e = e
  handle-HasNone transport_accept a js5b node named e = e
  handle-HasNone transport_info a js5b node named e = e
  handle-HasNone transport_reject a js5b node named e = e
  handle-HasNone transport_replace a js5b node named e = e

  IsMade-none : (js5b : JingleS5b) → IsMade h f local_ips js5b → js5b.candidates ≡ []
  IsMade-none _ (by_new a n js5b e) = subst HasNone e (new_own-HasNone a n)
  IsMade-none _ (from_message a n cn err err' js5b named e) =
      subst HasNone (ap transport_of e) (newfrommessage-HasNone a n cn err named)
  IsMade-none _ (handled action a old js5b node made named e) =
      subst (λ s. JingleS5b.candidates s ≡ []) e
        (handle-HasNone action a old node named (IsMade-none old made))

  -- However the module came to a transport from elements that are named "transport", `init` starts no attempt to connect to
  -- the other party: it makes a listener with just the sockets of our own candidates for which all calls of GIO
  -- succeed, in the order of the candidates, and a pointer to a freed listener where there is none.
  pub init-Listens :
      (js5b : JingleS5b) (answers : ℕ → ListenAnswers)
      → IsMade h f local_ips js5b
      → init answers js5b
        ≡ inl (record js5b {
          listener = listener_on (map socket_of (keep_if (is_served answers) js5b.ourcandidates));
        })
  unfolding init
  init-Listens js5b answers made =
      rw (IsMade-none js5b made, listen_on_lem answers js5b.ourcandidates) refl
