-- ===== src/Handlers/Terminate.antt =====
-- jingle/action-handlers.c: the handler of session-terminate answers the stanza once and keeps the store
-- of sessions consistent.
use mcabber_jingle.Base.{
  ℕ, String, ◌≡◌, refl, sym, ap, subst, ◌∙◌, inl, inr, Bool, Option, some, List, [], ◌∷◌, arith,
  Bool-cases, Option-cases, str_eq,
}
use mcabber_jingle.Stanza.{Host, Message, JingleNode}
use mcabber_jingle.Session.{
  JingleSession, SessionContent, peer, session_find_by_sid, session_find_sessioncontent,
  session_remove_sessioncontent, session_remove, session_delete, is_linked,
}
use mcabber_jingle.Session.Addresses.{ContentsBelow, remove-ContentsBelow}
use mcabber_jingle.Session.Keys.{key, DistinctKeys-session_remove, All-session_remove, get_found}
use mcabber_jingle.Jingle.{Jingle, Modules, jingle_ack_iq}
use mcabber_jingle.Handlers.{store, session_find}
use mcabber_jingle.Handlers.Active.{stop_one, stop_contents, handle_session_terminate}
use mcabber_jingle.Handlers.Step.{IsConsistent, Answered, Step, Keeps-IsConsistent}
use mcabber_jingle.Handlers.Others.{unknown_session-Step, acked-Step, store-Keeps}

module _ (h : Host) {W : Type 0} (m : Modules W) where
  key-remove :
      (s : JingleSession) (name : Option String)
      → key (session_remove_sessioncontent s name).1 ≡ key s
  unfolding session_remove_sessioncontent
  key-remove s name = elim (Option-cases (session_find_sessioncontent s name)) [
    | inl missing ↦ rw (missing, session_remove_sessioncontent)
    | inr (c, found) ↦ rw (found, session_remove_sessioncontent)
  ]

  -- The loop over the contents only takes contents out of the session.
  stop_contents_lem :
      (from_peer : Bool) (cs : List SessionContent) (s t : JingleSession) (w w' : W)
      → stop_contents h m from_peer cs s w ≡ some (t, w')
      → (key t ≡ key s) × ((n : ℕ) → ContentsBelow n s → ContentsBelow n t)
  unfolding stop_contents
  stop_contents_lem from_peer [] s t w w' e =
      let same : s ≡ t = ground arith in (ap key (sym same), λ n k. subst (ContentsBelow n) same k)
  stop_contents_lem from_peer (c ∷ cs) s t w w' e =
      let s' = (session_remove_sessioncontent s c.name).1 in
      elim (Option-cases (stop_one h m from_peer c w)) [
        | inl fault ↦ absurd (ground arith)
        | inr (w1, stopped) ↦ elim (Bool-cases (is_linked c.addr s')) [
          | inr gone ↦ absurd (ground arith)
          | inl linked ↦
              let (same, below) = stop_contents_lem from_peer cs s' t w1 w' (ground arith) in
              (same ∙ key-remove s c.name, λ n k. below n (remove-ContentsBelow n s c.name k))
        ]
      ]

  deleted :
      (a : ℕ) (j j' : Jingle W) (ss : List JingleSession)
      → session_delete a j.sessions ≡ some ss
      → j' ≡ record j { sessions = ss }
      → IsConsistent h j
      → IsConsistent h j'
  unfolding session_delete
  deleted a j j' ss d e c =
      let removed : ss ≡ session_remove a j.sessions = ground arith in
      let (dk, bk) =
        DistinctKeys-session_remove h j.fresh a j.sessions (c.keys_distinct, c.keys_below) in
      subst (IsConsistent h) (ap (λ x. record j { sessions = x }) (sym removed) ∙ sym e) (record {
        keys_distinct = dk;
        keys_below = bk;
        contents_below = All-session_remove (ContentsBelow j.fresh) a j.sessions c.contents_below;
      })

  ack_last-Step :
      (msg : Message) (j j1 : Jingle W)
      → (IsConsistent h j → IsConsistent h j1)
      → j1.sent ≡ j.sent
      → Step h msg j (jingle_ack_iq msg j1)
  unfolding jingle_ack_iq
  ack_last-Step msg j j1 keep same =
      let s = acked-Step h m msg j1 in
      record {
        consistent = λ c. s.consistent (keep c);
        answered = subst (λ b. Answered msg b (jingle_ack_iq msg j1).sent) same s.answered;
      }

  pub handle_session_terminate-Step :
      (jn jn' : JingleNode) (msg : Message) (j j' : Jingle W)
      → jn.message ≡ some msg
      → handle_session_terminate h m jn j ≡ some (jn', j')
      → Step h msg j j'
  unfolding handle_session_terminate session_find session_find_by_sid
  handle_session_terminate-Step jn jn' msg j j' has e =
      elim (Option-cases (session_find h jn msg j)) [
        | inl missing ↦ unknown_session-Step h m jn jn' msg j j' (ground arith)
        | inr (s, found) ↦
            let by_peer = str_eq (Host.message_from h msg) (peer s) in
            elim (Option-cases (stop_contents h m by_peer s.content s j.world)) [
              | inl fault ↦ absurd (ground arith)
              | inr ((t, w), stopped) ↦
                  let j1 : Jingle W = store h t (record j { world = w }) in
                  let (same, below) = stop_contents_lem by_peer s.content s t j.world w stopped in
                  elim (Option-cases (session_delete s.addr j1.sessions)) [
                    | inl fault ↦ absurd (ground arith)
                    | inr (ss, gone) ↦
                        let j2 : Jingle W = record j1 { sessions = ss } in
                        let end : jingle_ack_iq msg j2 ≡ j' = ground arith in
                        subst (Step h msg j) end (
                          ack_last-Step msg j j2
                            (λ c. deleted s.addr j1 j2 ss gone refl (
                              Keeps-IsConsistent h j j1
                                (store-Keeps h m s.addr s t w j
                                  (get_found h _ j.sessions s found c.keys_distinct) same below)
                                c))
                            refl)
                  ]
            ]
      ]
