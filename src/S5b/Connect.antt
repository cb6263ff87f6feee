-- ===== src/S5b/Connect.antt =====
-- jingle-s5b/s5b.c: `init`, and the attempts to connect to one candidate after the other.
--
-- `none` is a fault: a read through NULL or of what was freed, or an assertion that fails. A pointer to a
-- candidate is its address. The sources of an attempt run one after the other, as the events of GLib's loop do.
use mcabber_jingle.Base.{
  ℕ, ◌-◌, ◌⊎◌, inl, inr, Bool, true, false, not, Option, none, some, List, [], ◌∷◌, ◌==◌,
  if◌then◌else◌,
}
use mcabber_jingle.Jingle.{◌>>=◌}
use mcabber_jingle.S5b.{JingleS5b, S5bCandidate, listening, listener_freed}

-- The GPtrArray of an attempt: its references, and the candidate that is tried. `timer` is whether the source
-- of its timeout is attached.
pub record Attempt : Type 0 where
  pub refs : ℕ
  pub js5b : JingleS5b
  pub cand : ℕ
  pub timer : Bool

-- The error of `g_socket_client_connect_finish`.
pub data ConnectError : Type 0 where
  io_cancelled io_failed other_domain : ConnectError

-- What an attempt ends with: a connection or an error.
pub data Connected : Type 0 where
  connected : ℕ → Connected
  failed : ConnectError → Connected

abbrev pub is_cancelled : Connected → Bool
is_cancelled (connected c) = false
is_cancelled (failed io_cancelled) = true
is_cancelled (failed io_failed) = false
is_cancelled (failed other_domain) = false

-- `connect_candidate`: the timeout holds the second reference.
unfoldable pub connect_candidate : JingleS5b → ℕ → Attempt
connect_candidate js5b cand = record {
  refs = 2;
  js5b = record js5b { cancelconnect = some false };
  cand = cand;
  timer = true;
}

-- `g_slist_find`: the links from that of `cand` on.
unfoldable pub find_link : ℕ → List S5bCandidate → List S5bCandidate
find_link cand [] = []
find_link cand (c ∷ cs) = if c.addr == cand then c ∷ cs else find_link cand cs

-- `connect_next_candidate`: the assertion fails on no link, and `link->next->data` is read of the last.
unfoldable pub connect_next_candidate : JingleS5b → ℕ → Option Attempt
unfolding find_link connect_candidate
connect_next_candidate js5b cand = elim (find_link cand js5b.candidates) [
  | [] ↦ none
  | c ∷ rest ↦ elim rest [
    | [] ↦ none
    | d ∷ ds ↦ some (connect_candidate js5b (S5bCandidate.addr d))
  ]
]

abbrev cancel : Option Bool → Option Bool
cancel none = none
cancel (some b) = some true

-- `connect_cancel_timeout`: its source is removed as it answers FALSE.
unfoldable pub connect_cancel_timeout : Attempt → Attempt
connect_cancel_timeout a = record a {
  refs = a.refs - 1;
  js5b = record a.js5b { cancelconnect = cancel (JingleS5b.cancelconnect a.js5b) };
  timer = false;
}

-- `handle_client_connect`: the array gives up a reference, and is read again where no one cancelled.
unfoldable pub handle_client_connect : Connected → Attempt → Option Attempt
unfolding connect_next_candidate
handle_client_connect conn a =
    let refs = a.refs - 1 in
    if not (is_cancelled conn)
    then (if refs == 0 then none else connect_next_candidate a.js5b a.cand)
    else elim conn [
      | failed e ↦ connect_next_candidate a.js5b a.cand
      | connected c ↦ some (record a { refs = refs; js5b = record a.js5b { connection = some c } })
    ]

-- How an attempt goes: whether its time is over before it ends, and what it ends with.
abbrev pub Ending : Type 0
Ending = Bool × Connected

unfoldable pub end_attempt : Ending → Attempt → Option Attempt
unfolding handle_client_connect connect_cancel_timeout
end_attempt (timed_out, conn) a =
    if timed_out
    then handle_client_connect conn (connect_cancel_timeout a)
    else handle_client_connect conn a

unfoldable pub run_attempts : List Ending → Attempt → Option Attempt
unfolding end_attempt
run_attempts [] a = some a
run_attempts (e ∷ es) a = end_attempt e a >>= run_attempts es

-- What the calls of GIO for a socket answer, in their order.
pub record ListenAnswers : Type 0 where
  pub makes_socket : Bool
  pub binds : Bool
  pub listens : Bool
  pub adds : Bool

-- The loop of `init`: the sockets that the listener gets.
unfoldable pub listen_on : (ℕ → ListenAnswers) → List S5bCandidate → List (ℕ × ℕ)
listen_on answers [] = []
listen_on answers (c ∷ cs) =
    let rest = listen_on answers cs in
    let a = answers c.addr in
    if a.makes_socket
    then (if a.binds
        then (if a.listens then (if a.adds then (c.host, c.port) ∷ rest else rest) else rest)
        else rest)
    else rest

-- `init`: the pointer to a listener with no socket dangles. The result is the attempt, if one starts.
unfoldable pub init : (ℕ → ListenAnswers) → JingleS5b → JingleS5b ⊎ Attempt
unfolding listen_on connect_candidate
init answers js5b =
    let js5b1 = record js5b {
      listener = elim (listen_on answers js5b.ourcandidates) [
        | [] ↦ listener_freed
        | s ∷ ss ↦ listening (s ∷ ss)
      ];
    } in
    elim js5b.candidates [
      | [] ↦ inl js5b1
      | c ∷ cs ↦ inr (connect_candidate (record js5b1 { client = true }) (S5bCandidate.addr c))
    ]
