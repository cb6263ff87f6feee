-- ===== src/Handlers/Initiate.antt =====
-- jingle/action-handlers.c, `handle_session_initiate`: it answers the stanza once and keeps the store
-- of sessions consistent.
use mcabber_jingle.Base.{
  ℕ, suc, String, ◌≡◌, refl, sym, ap, subst, ◌∙◌, inl, inr, Bool, true, false, Option, none, some,
  List, [], ◌∷◌, ◌++◌, ◌||◌, arith, Bool-cases, Option-cases, All, All-append, map-append,
}
use mathlib.Core.Path.{subst₂}
use mcabber_jingle.Stanza.{
  Host, Message, JingleContent, JingleNode, GError, ContentList, held, freed,
}
use mcabber_jingle.Session.{
  JingleSession, SessionContent, incoming, session_new, get_session, session_delete, session_remove,
}
use mcabber_jingle.Session.Addresses.{ContentsBelow}
use mcabber_jingle.Session.Keys.{
  key, keys, DistinctKeys, KeysBelow, keys_snoc, DistinctKeys-session_remove, All-session_remove,
}
use mcabber_jingle.Jingle.{Jingle, Modules, send, jingle_ack_iq}
use mcabber_jingle.Ack.{jingle_new_ack_handler}
use mcabber_jingle.Send.{jingle_send_session_terminate, terminate_stanza}
use mcabber_jingle.Check.{check_contents}
use mcabber_jingle.Handlers.{
  ErrorPointer, error_pointer, is_null, add_contents, session_find, session_new_from_jinglenode,
  drop_session, offer_session, finish_session, fill_session, initiate_with, initiate_checked,
  some_session_disposition, handle_session_initiate,
}
use mcabber_jingle.Handlers.Keeps.{Keeps, add_contents-Keeps, All-below}
use mcabber_jingle.Handlers.Step.{
  IsConsistent, Requests, Step, Requests-same, KeysBelow-mono, Keeps-IsConsistent, refuse-Step,
  ack-Step,
}

session_delete_removes :
    (a : ℕ) (ss ts : List JingleSession) → session_delete a ss ≡ some ts → ts ≡ session_remove a ss
unfolding session_delete
session_delete_removes a ss ts e = ground arith

module _ (h : Host) {W : Type 0} (m : Modules W) where
  -- A session is sent a request to terminate.
  terminate_result :
      (a : ℕ) (reason : Option String) (j j' : Jingle W)
      → jingle_send_session_terminate a reason j ≡ some j'
      → (js : JingleSession) × (j'
          ≡ send (terminate_stanza js reason) (jingle_new_ack_handler none 0 j))
  unfolding jingle_send_session_terminate
  terminate_result a reason j j' e = elim (Option-cases (get_session a j.sessions)) [
    | inl missing ↦ absurd (ground arith)
    | inr (js, found) ↦ (js, ground arith)
  ]

  -- A part of the handler that sends no reply.
  record Quiet (j j' : Jingle W) : Type 0 where
    consistent : IsConsistent h j → IsConsistent h j'
    requests : Requests j.sent j'.sent

  Keeps-Quiet : (j k l : Jingle W) → Keeps j k → Quiet k l → Quiet j l
  Keeps-Quiet j k l a b = record {
    consistent = λ c. b.consistent (Keeps-IsConsistent h j k a c);
    requests = subst (λ s. Requests s l.sent) a.sent_same b.requests;
  }

  removed-Quiet :
      (a : ℕ) (js : JingleSession) (reason : Option String) (j : Jingle W)
      → Quiet j (record (send (terminate_stanza js reason) (jingle_new_ack_handler none 0 j)) {
        sessions = session_remove a j.sessions;
      })
  unfolding terminate_stanza jingle_new_ack_handler
  removed-Quiet a js reason j = record {
    consistent = λ c.
        let (d, b) =
          DistinctKeys-session_remove h j.fresh a j.sessions (c.keys_distinct, c.keys_below) in
        record {
          keys_distinct = d;
          keys_below = KeysBelow-mono j.fresh (suc j.fresh) _ (omega arith) b;
          contents_below =
              All-below j.fresh (suc j.fresh) _ (omega arith)
                (All-session_remove (ContentsBelow j.fresh) a j.sessions c.contents_below);
        };
    requests = record { rest = terminate_stanza js reason ∷ []; place = refl; no_reply = (tt, tt) };
  }

  drop_session-Quiet : (a : ℕ) (j j' : Jingle W) → drop_session h a j ≡ some j' → Quiet j j'
  unfolding drop_session jingle_new_ack_handler
  drop_session-Quiet a j j' e =
      elim (Option-cases (jingle_send_session_terminate a (some "unsupported-applications") j)) [
        | inl fault ↦ absurd (ground arith)
        | inr (j2, sent) ↦
            let (js, r) = terminate_result a (some "unsupported-applications") j j2 sent in
            elim (Option-cases (session_delete a j2.sessions)) [
              | inl fault ↦ absurd (ground arith)
              | inr (ss, deleted) ↦
                  let fin : j' ≡ record j2 { sessions = ss } = ground arith in
                  let dropped = session_delete_removes a j2.sessions ss deleted in
                  let whole =
                    fin
                    ∙ ap (λ x. record j2 { sessions = x }) dropped
                    ∙ ap (λ (k : Jingle W). record k { sessions = session_remove a k.sessions })
                        r in
                  subst (Quiet j) (sym whole)
                    (removed-Quiet a js (some "unsupported-applications") j)
            ]
      ]

  offer_session-Quiet :
      (a : ℕ) (cs : List SessionContent) (j j' : Jingle W)
      → offer_session h m a cs j ≡ some j'
      → Quiet j j'
  unfolding offer_session
  offer_session-Quiet a cs j j' e = record {
    consistent = λ c. record {
      keys_distinct = subst (λ k. DistinctKeys h (keys k)) (sym same) c.keys_distinct;
      keys_below = subst₂ (λ n k. KeysBelow n (keys k)) (sym as_fresh) (sym same) c.keys_below;
      contents_below =
          subst₂ (λ n k. All (ContentsBelow n) k) (sym as_fresh) (sym same) c.contents_below;
    };
    requests = Requests-same j.sent j'.sent (ground arith);
  }
    where
      same : j'.sessions ≡ j.sessions
      same = ground arith

      as_fresh : j'.fresh ≡ j.fresh
      as_fresh = ground arith

  finish_session-Quiet :
      (a : ℕ) (cs : List SessionContent) (j j' : Jingle W)
      → finish_session h m a cs j ≡ some j'
      → Quiet j j'
  unfolding finish_session
  finish_session-Quiet a [] j j' e = drop_session-Quiet a j j' e
  finish_session-Quiet a (c ∷ cs) j j' e = offer_session-Quiet a (c ∷ cs) j j' e

  fill_session-Quiet :
      (a : ℕ) (cns : List JingleContent) (err : ErrorPointer) (j j' : Jingle W)
      → fill_session h m a cns err j ≡ some j'
      → Quiet j j'
  unfolding fill_session
  fill_session-Quiet a cns err j j' e = elim (Option-cases (add_contents h m a cns err j)) [
    | inl fault ↦ absurd (ground arith)
    | inr ((err1, j1), added) ↦ elim (Option-cases (get_session a j1.sessions)) [
      | inl missing ↦ absurd (ground arith)
      | inr (s, found) ↦
          Keeps-Quiet j j1 j' (add_contents-Keeps h m a cns err err1 j j1 added)
            (finish_session-Quiet a s.content j1 j' (ground arith))
    ]
  ]

  -- The session made for a stanza is new: no search for its identifier and peer found one before.
  new_session-IsConsistent :
      (jn : JingleNode) (msg : Message) (j j' : Jingle W) (a : ℕ)
      → session_find h jn msg j ≡ none
      → session_new_from_jinglenode h jn msg j ≡ (some a, j')
      → IsConsistent h j
      → IsConsistent h j'
  unfolding session_find session_new_from_jinglenode session_new
  new_session-IsConsistent jn msg j j' a absent e c =
      elim (Bool-cases (is_null from || is_null to)) [
        | inl bad ↦ absurd (ground arith)
        | inr good ↦
            subst (IsConsistent h) (let same : stored ≡ j' = ground arith in same) (record {
              keys_distinct = rw (map-append key j.sessions (made ∷ [])) extended.0;
              keys_below = rw (map-append key j.sessions (made ∷ [])) extended.1;
              contents_below =
                  All-append (ContentsBelow (suc j.fresh)) j.sessions (made ∷ [])
                    (All-below j.fresh (suc j.fresh) j.sessions (omega arith) c.contents_below)
                    ((tt, tt), tt);
            })
      ]
    where
      from : Option String
      from = Host.get_attribute h msg.node "from"

      to : Option String
      to = Host.get_attribute h msg.node "to"

      made : JingleSession
      made = record {
        addr = j.fresh;
        sid = jn.sid;
        origin = incoming;
        from = from;
        to = to;
        content = [];
      }

      stored : Jingle W
      stored = record j { fresh = suc j.fresh; sessions = j.sessions ++ made ∷ [] }

      extended :
          DistinctKeys h (keys j.sessions ++ key made ∷ [])
          × KeysBelow (suc j.fresh) (keys j.sessions ++ key made ∷ [])
      extended =
          keys_snoc h j.fresh jn.sid from j.sessions (key made) refl refl refl absent
            c.keys_distinct c.keys_below

  new_session_sent :
      (jn : JingleNode) (msg : Message) (j j' : Jingle W) (a : Option ℕ)
      → session_new_from_jinglenode h jn msg j ≡ (a, j')
      → j'.sent ≡ j.sent
  unfolding session_new_from_jinglenode
  new_session_sent jn msg j j' a e = ground arith

  session_find-ack :
      (jn : JingleNode) (msg : Message) (j : Jingle W)
      → session_find h jn msg (jingle_ack_iq msg j) ≡ session_find h jn msg j
  unfolding session_find jingle_ack_iq
  session_find-ack jn msg j = refl

  initiate_with-Step :
      (jn jn' : JingleNode) (msg : Message) (err : ErrorPointer) (cns : List JingleContent)
      (j j' : Jingle W)
      → initiate_with h m jn msg err cns j ≡ some (jn', j')
      → Step h msg j j'
  unfolding initiate_with
  initiate_with-Step jn jn' msg err cns j j' e = elim (Bool-cases (some_session_disposition cns)) [
    | inr missing ↦ refuse-Step h msg _ _ _ jn jn' j j' (rw missing at e)
    | inl has ↦ elim (Option-cases (session_find h jn msg j)) [
      | inr (s, found) ↦
          refuse-Step h msg "cancel" (some "unexpected-request") (some "out-of-order") jn jn' j j'
            (ground arith)
      | inl absent ↦
          made has absent (session_new_from_jinglenode h jn msg (jingle_ack_iq msg j)) refl
    ]
  ]
    where
      made :
          some_session_disposition cns ≡ true
          → session_find h jn msg j ≡ none
          → (r : Option ℕ × Jingle W)
          → session_new_from_jinglenode h jn msg (jingle_ack_iq msg j) ≡ r
          → Step h msg j j'
      made has absent (none, j1) new = absurd (ground arith)
      made has absent (some a, j1) new = elim (Option-cases (fill_session h m a cns err j1)) [
        | inl fault ↦ absurd (ground arith)
        | inr (j2, filled) ↦
            let q = fill_session-Quiet a cns err j1 j2 filled in
            subst (Step h msg j) (ground arith) (
              ack-Step h msg j j2
                (λ c. q.consistent (
                  new_session-IsConsistent jn msg (jingle_ack_iq msg j) j1 a
                    (session_find-ack jn msg j ∙ absent) new c))
                (subst (λ s. Requests s j2.sent)
                  (new_session_sent jn msg (jingle_ack_iq msg j) j1 (some a) new) q.requests))
      ]

  initiate_checked-Step :
      (msg : Message) (r : Bool × JingleNode × Option GError) (jn' : JingleNode) (j j' : Jingle W)
      → initiate_checked h m msg r j ≡ some (jn', j')
      → Step h msg j j'
  unfolding initiate_checked
  initiate_checked-Step msg (false, jn, none) jn' j j' e = absurd (ground arith)
  initiate_checked-Step msg (false, jn, some g) jn' j j' e = refuse-Step h msg _ _ _ jn jn' j j' e
  initiate_checked-Step msg (true, jn, err) jn' j j' e = with_content jn.content refl
    where
      with_content : (l : ContentList) → jn.content ≡ l → Step h msg j j'
      with_content freed c = absurd (ground arith)
      with_content (held []) c =
          refuse-Step h msg "cancel" (some "bad-request") none jn jn' j j' (ground arith)
      with_content (held (cn ∷ cns)) c =
          initiate_with-Step jn jn' msg (error_pointer err) (cn ∷ cns) j j' (ground arith)

  -- A session-initiate that is handled is answered exactly once, before anything else is sent about
  -- it, and leaves the sessions consistent: the one that it may have made has an address of its own
  -- and is hidden from a search by no older session.
  pub handle_session_initiate-Step :
      (jn jn' : JingleNode) (msg : Message) (j j' : Jingle W)
      → jn.message ≡ some msg
      → handle_session_initiate h m jn j ≡ some (jn', j')
      → Step h msg j j'
  unfolding handle_session_initiate
  handle_session_initiate-Step jn jn' msg j j' has e =
      elim (Bool-cases (Host.in_roster h (Host.message_from h msg))) [
        | inr stranger ↦
            refuse-Step h msg "cancel" (some "service-unavailable") none jn jn' j j' (ground arith)
        | inl known ↦ elim (Option-cases (check_contents h jn none)) [
          | inl fault ↦ absurd (ground arith)
          | inr (r, checked) ↦ initiate_checked-Step msg r jn' j j' (ground arith)
        ]
      ]
