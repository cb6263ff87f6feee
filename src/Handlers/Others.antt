-- ===== src/Handlers/Others.antt =====
-- jingle/action-handlers.c: the handlers of session-accept, session-info and transport-info answer
-- the stanza once and keep the store of sessions consistent.
use mcabber_jingle.Base.{
  ℕ, ◌≡◌, refl, ap, subst, inl, inr, Bool, true, false, Option, none, some, List, [], ◌∷◌, arith,
  Option-cases, if◌then◌else◌,
}
use mcabber_jingle.Stanza.{
  Host, Node, node_children, Message, session_accept, JingleContent, JingleNode, GError,
  ContentList, held, freed,
}
use mcabber_jingle.Session.{
  JingleSession, state_active, peer, get_session, session_find_by_sid, session_find_sessioncontent,
  session_changestate_sessioncontent,
}
use mcabber_jingle.Session.Addresses.{ContentsBelow, changestate-Rewritten, Rewritten-ContentsBelow}
use mcabber_jingle.Session.Keys.{key}
use mcabber_jingle.Jingle.{Jingle, Modules, ContentRef, jingle_ack_iq}
use mcabber_jingle.Check.{check_contents}
use mcabber_jingle.Handlers.{store, session_find, refuse}
use mcabber_jingle.Handlers.Active.{
  try_contents, unknown_session, handle_session_info, accept_contents, accept_checked,
  handle_session_accept, handle_transport_info,
}
use mcabber_jingle.Handlers.Keeps.{Keeps, Keeps-refl, Keeps-trans, Stores-Keeps}
use mcabber_jingle.Handlers.Step.{Step, Requests-same, Keeps-IsConsistent, refuse-Step, ack-Step}

module _ (h : Host) {W : Type 0} (m : Modules W) where
  pub unknown_session-Step :
      (jn jn' : JingleNode) (msg : Message) (j j' : Jingle W)
      → unknown_session h jn msg j ≡ some (jn', j')
      → Step h msg j j'
  unfolding unknown_session
  unknown_session-Step jn jn' msg j j' e =
      refuse-Step h msg "cancel" (some "item-not-found") (some "unknown-session") jn jn' j j' e

  -- Steps that start from states with the same store and outbox.
  from_world :
      (msg : Message) (w : W) (j j' : Jingle W)
      → Step h msg (record j { world = w }) j'
      → Step h msg j j'
  from_world msg w j j' s = record {
    consistent = λ c. s.consistent (record {
      keys_distinct = c.keys_distinct;
      keys_below = c.keys_below;
      contents_below = c.contents_below;
    });
    answered = s.answered;
  }

  pub acked-Step : (msg : Message) (j : Jingle W) → Step h msg j (jingle_ack_iq msg j)
  acked-Step msg j = ack-Step h msg j _ (λ c. c) (Requests-same _ _ refl)

  tried-Step :
      (jn jn' : JingleNode) (msg : Message) (tried : Bool) (j j' : Jingle W)
      → (if tried
          then some (jn, jingle_ack_iq msg j)
          else refuse h msg "modify"
              (some "feature-not-implemented")
              (some "unsupported-info")
              jn
              j)
        ≡ some (jn', j')
      → Step h msg j j'
  tried-Step jn jn' msg true j j' e = subst (Step h msg j) (ground arith) (acked-Step msg j)
  tried-Step jn jn' msg false j j' e =
      refuse-Step h msg "modify" (some "feature-not-implemented") (some "unsupported-info") jn jn' j
        j' e

  pub handle_session_info-Step :
      (jn jn' : JingleNode) (msg : Message) (j j' : Jingle W)
      → jn.message ≡ some msg
      → handle_session_info h m jn j ≡ some (jn', j')
      → Step h msg j j'
  unfolding handle_session_info
  handle_session_info-Step jn jn' msg j j' has e = elim (Option-cases (session_find h jn msg j)) [
    | inl missing ↦ unknown_session-Step jn jn' msg j j' (ground arith)
    | inr (s, found) ↦ elim (Option-cases jn.node) [
      | inl no_node ↦ absurd (ground arith)
      | inr (node, is_node) ↦ with_children s found node is_node (node_children node) refl
    ]
  ]
    where
      with_children :
          (s : JingleSession)
          → session_find h jn msg j ≡ some s
          → (node : Node) → jn.node ≡ some node
          → (l : List Node) → node_children node ≡ l
          → Step h msg j j'
      with_children s found node is_node [] empty =
          subst (Step h msg j) (let same : jingle_ack_iq msg j ≡ j' = ground arith in same)
            (acked-Step msg j)
      with_children s found node is_node (n ∷ ns) full =
          elim (Option-cases (try_contents h m s.content (some n) j.world)) [
            | inl fault ↦ absurd (ground arith)
            | inr ((tried, w), answer) ↦
                from_world msg w j j'
                  (tried-Step jn jn' msg tried (record j { world = w }) j' (ground arith))
          ]

  pub handle_transport_info-Step :
      (jn jn' : JingleNode) (msg : Message) (j j' : Jingle W)
      → jn.message ≡ some msg
      → jn.content ≡ held []
      → handle_transport_info h m jn j ≡ some (jn', j')
      → Step h msg j j'
  unfolding handle_transport_info
  handle_transport_info-Step jn jn' msg j j' has none_read e =
      elim (Option-cases (session_find h jn msg j)) [
        | inl missing ↦ unknown_session-Step jn jn' msg j j' (ground arith)
        | inr (s, found) ↦
            refuse-Step h msg "modify" (some "bad-request") none jn jn' j j' (ground arith)
      ]

  -- One session of the store is written.
  pub store-Keeps :
      (a : ℕ) (s t : JingleSession) (w : W) (j : Jingle W)
      → get_session a j.sessions ≡ some s
      → key t ≡ key s
      → ((n : ℕ) → ContentsBelow n s → ContentsBelow n t)
      → Keeps j (record (store h t j) { world = w })
  store-Keeps a s t w j read same below = Stores-Keeps h a s t j.fresh j _ read (record {
    world' = w;
    result = refl;
    key_same = same;
    below = below j.fresh;
    grows = omega arith;
  })

  accept_contents-Keeps :
      (a : ℕ) (cns : List JingleContent) (j j' : Jingle W)
      → accept_contents h m a cns j ≡ some j'
      → Keeps j j'
  unfolding accept_contents
  accept_contents-Keeps a [] j j' e = subst (Keeps j) (ground arith) (Keeps-refl j)
  accept_contents-Keeps a (jc ∷ jcs) j j' e = elim (Option-cases (get_session a j.sessions)) [
    | inl missing ↦ absurd (ground arith)
    | inr (s, read) ↦ elim (Option-cases (session_find_sessioncontent s jc.name)) [
      | inl other ↦ accept_contents-Keeps a jcs j j' (ground arith)
      | inr (sc, found) ↦ elim (Option-cases sc.transfuncs) [
        | inl no_funcs ↦ absurd (ground arith)
        | inr (tf, funcs) ↦
            let t = session_changestate_sessioncontent s jc.name state_active in
            let sc2 : ContentRef = record { sid = s.sid; from = peer s; name = jc.name } in
            let w =
              (Modules.trans_handle m tf session_accept sc.transport jc.transport j.world).1 in
            let j2 : Jingle W = record (store h t j) {
              world = Modules.trans_init m tf sc2 sc.transport w;
            } in
            let r = changestate-Rewritten s jc.name state_active in
            Keeps-trans j j2 j'
              (store-Keeps a s t _ j read (ap key r.result)
                (λ n k. Rewritten-ContentsBelow n s t r k))
              (accept_contents-Keeps a jcs j2 j' (ground arith))
      ]
    ]
  ]

  accept_checked-Step :
      (a : ℕ) (msg : Message) (r : Bool × JingleNode × Option GError) (jn' : JingleNode)
      (j j' : Jingle W)
      → accept_checked h m a msg r j ≡ some (jn', j')
      → Step h msg j j'
  unfolding accept_checked
  accept_checked-Step a msg (false, jn, none) jn' j j' e = absurd (ground arith)
  accept_checked-Step a msg (false, jn, some g) jn' j j' e =
      refuse-Step h msg "cancel" (some "bad-request") none jn jn' j j' e
  accept_checked-Step a msg (true, jn, err) jn' j j' e = with_content jn.content refl
    where
      with_content : (l : ContentList) → jn.content ≡ l → Step h msg j j'
      with_content freed c = absurd (ground arith)
      with_content (held cns) c =
          elim (Option-cases (accept_contents h m a cns (jingle_ack_iq msg j))) [
            | inl fault ↦ absurd (ground arith)
            | inr (j2, accepted) ↦
                let k = accept_contents-Keeps a cns (jingle_ack_iq msg j) j2 accepted in
                let same : j2 ≡ j' = ground arith in
                subst (Step h msg j) same (
                  ack-Step h msg j j2 (Keeps-IsConsistent h _ j2 k) (Requests-same _ _ k.sent_same))
          ]

  pub handle_session_accept-Step :
      (jn jn' : JingleNode) (msg : Message) (j j' : Jingle W)
      → jn.message ≡ some msg
      → handle_session_accept h m jn j ≡ some (jn', j')
      → Step h msg j j'
  unfolding handle_session_accept
  handle_session_accept-Step jn jn' msg j j' has e =
      elim (Option-cases (session_find_by_sid h jn.sid (Host.message_from h msg) j.sessions)) [
        | inl missing ↦ unknown_session-Step jn jn' msg j j' (ground arith)
        | inr (s, found) ↦ elim (Option-cases (check_contents h jn none)) [
          | inl fault ↦ absurd (ground arith)
          | inr (r, checked) ↦ accept_checked-Step s.addr msg r jn' j j' (ground arith)
        ]
      ]
