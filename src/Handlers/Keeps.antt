-- ===== src/Handlers/Keeps.antt =====
-- jingle/action-handlers.c: what the loop over the contents of a session-initiate leaves alone, and
-- how it keeps the store of sessions in order.
use mcabber_jingle.Base.{
  ℕ, suc, ◌≤◌, String, ◌≡◌, refl, sym, ap, subst, ◌∙◌, inl, inr, not, Option, some, List, [], ◌∷◌,
  ◌||◌, arith, Bool-cases, Option-cases, All,
}
use mcabber_jingle.Stanza.{Host, JingleContent}
use mcabber_jingle.Registry.{jingle_get_appfuncs, jingle_get_transportfuncs}
use mcabber_jingle.Session.{
  JingleSession, SessionState, state_pending, get_session, put_session, session_add_content,
  session_add_app, session_add_trans, unlink_content,
}
use mcabber_jingle.Session.Addresses.{
  ContentsBelow, ContentsBelow-mono, add_content-ContentsBelow, unlink-ContentsBelow,
  Rewritten-ContentsBelow, session_add_app-Rewritten, session_add_trans-Rewritten,
}
use mcabber_jingle.Session.Keys.{key, keys, keys-put_session, All-get_session, All-put_session}
use mcabber_jingle.Jingle.{Jingle, Modules}
use mcabber_jingle.Handlers.{
  ErrorPointer, is_null, attribute_of, add_transport, session_add_content_from_jinglecontent,
  add_contents, no_error, after_add, add_one,
}

-- Only the contents of sessions, the allocator and the modules' state change, and contents keep
-- distinct addresses.
pub record Keeps {W : Type 0} (j j' : Jingle W) : Type 0 where
  pub sent_same : j'.sent ≡ j.sent
  pub events_same : j'.events ≡ j.events
  pub registry_same : j'.registry ≡ j.registry
  pub keys_same : keys j'.sessions ≡ keys j.sessions
  pub fresh_grows : j.fresh ≤ j'.fresh
  pub contents_below :
      All (ContentsBelow j.fresh) j.sessions → All (ContentsBelow j'.fresh) j'.sessions

pub All-below :
    (m n : ℕ) (ss : List JingleSession)
    → m ≤ n
    → All (ContentsBelow m) ss
    → All (ContentsBelow n) ss
All-below m n [] h a = tt
All-below m n (s ∷ ss) h a = (ContentsBelow-mono m n s h a.0, All-below m n ss h a.1)

key-unlink : (c : ℕ) (s : JingleSession) → key (unlink_content c s) ≡ key s
unfolding unlink_content
key-unlink c s = refl

module _ {W : Type 0} where
  pub Keeps-refl : (j : Jingle W) → Keeps j j
  Keeps-refl j = record {
    sent_same = refl;
    events_same = refl;
    registry_same = refl;
    keys_same = refl;
    fresh_grows = omega arith;
    contents_below = λ a. a;
  }

  pub Keeps-trans : (j k l : Jingle W) → Keeps j k → Keeps k l → Keeps j l
  Keeps-trans j k l a b = record {
    sent_same = b.sent_same ∙ a.sent_same;
    events_same = b.events_same ∙ a.events_same;
    registry_same = b.registry_same ∙ a.registry_same;
    keys_same = b.keys_same ∙ a.keys_same;
    fresh_grows = omega (arith, a.fresh_grows, b.fresh_grows);
    contents_below = λ x. b.contents_below (a.contents_below x);
  }

  -- One session was written, with the key of the one that was read at its address, and the allocator
  -- and the modules' state moved on.
  pub record Stores (h : Host) (s t : JingleSession) (n : ℕ) (j j' : Jingle W) : Type 0 where
    pub world' : W
    pub result : j' ≡ record j { sessions = put_session t j.sessions; fresh = n; world = world' }
    pub key_same : key t ≡ key s
    pub below : ContentsBelow j.fresh s → ContentsBelow n t
    pub grows : j.fresh ≤ n

  pub Stores-Keeps :
      (h : Host) (a : ℕ) (s t : JingleSession) (n : ℕ) (j j' : Jingle W)
      → get_session a j.sessions ≡ some s
      → Stores h s t n j j'
      → Keeps j j'
  Stores-Keeps h a s t n j j' e st = subst (Keeps j) (sym st.result) (record {
    sent_same = refl;
    events_same = refl;
    registry_same = refl;
    keys_same = keys-put_session a j.sessions s t e st.key_same;
    fresh_grows = st.grows;
    contents_below = λ x.
        All-put_session (ContentsBelow n) t j.sessions
          (st.below (All-get_session (ContentsBelow j.fresh) a j.sessions s e x))
          (All-below j.fresh n j.sessions st.grows x);
  })

  module _ (h : Host) (m : Modules W) where
    -- The transport of a content is added, or the content is taken out again.
    add_transport-Stores :
        (c : ℕ) (s : JingleSession) (cn : JingleContent) (err err' : ErrorPointer) (p : Option ℕ)
        (j j' : Jingle W)
        → add_transport h m c s cn err j ≡ some (p, err', j')
        → (t : JingleSession) × Stores h s t j.fresh j j'
    unfolding add_transport
    add_transport-Stores c s cn err err' p j j' e =
        elim (Option-cases
          (jingle_get_transportfuncs (attribute_of h cn.transport "xmlns") j.registry)) [
            | inl unknown ↦ absurd (ground arith)
            | inr (funcs, known) ↦
                let made = Modules.trans_newfrommessage m funcs cn j.world in
                elim (Bool-cases (is_null made.0 || not (is_null made.1))) [
                  | inl bad ↦ (
                    unlink_content c s,
                    record {
                      world' = made.2;
                      result = ground arith;
                      key_same = key-unlink c s;
                      below = unlink-ContentsBelow j.fresh c s;
                      grows = omega arith;
                    },
                  )
                  | inr good ↦
                      let r =
                        session_add_trans j.registry s cn.name (attribute_of h cn.transport "xmlns")
                          made.0 in
                      elim (Option-cases r) [
                        | inl missing ↦ absurd (ground arith)
                        | inr (s', added) ↦
                            let w =
                              session_add_trans-Rewritten j.registry s s' cn.name _ made.0 added in
                            (
                              s',
                              record {
                                world' = made.2;
                                result = ground arith;
                                key_same = ap key w.result;
                                below = Rewritten-ContentsBelow j.fresh s s' w;
                                grows = omega arith;
                              },
                            )
                      ]
                ]
          ]

    key-add_content :
        (c : ℕ) (s : JingleSession) (name : Option String) (state : SessionState)
        → key (session_add_content c s name state) ≡ key s
    unfolding session_add_content
    key-add_content c s name state = refl

    -- The struct of the session after the content was appended and given its application, at the
    -- address that the content takes.
    add_content-Stores :
        (a : ℕ) (cn : JingleContent) (state : SessionState) (err err' : ErrorPointer) (p : Option ℕ)
        (j j' : Jingle W) (s : JingleSession)
        → get_session a j.sessions ≡ some s
        → session_add_content_from_jinglecontent h m a cn state err j ≡ some (p, err', j')
        → (t : JingleSession) × Stores h s t (suc j.fresh) j j'
    unfolding session_add_content_from_jinglecontent
    add_content-Stores a cn state err err' p j j' s read e =
        let xmlns = attribute_of h cn.description "xmlns" in
        let s1 = session_add_content j.fresh s cn.name state in
        elim (Option-cases (jingle_get_appfuncs xmlns j.registry)) [
          | inl unknown ↦ absurd (ground arith)
          | inr (funcs, known) ↦
              let made = Modules.app_newfrommessage m funcs cn j.world in
              let j1 = record j { fresh = suc j.fresh; world = made.2 } in
              elim (Bool-cases (is_null made.0 || not (is_null made.1))) [
                | inl bad ↦ (
                  unlink_content j.fresh s1,
                  record {
                    world' = made.2;
                    result = ground arith;
                    key_same = key-unlink j.fresh s1 ∙ key-add_content j.fresh s cn.name state;
                    below = λ k.
                        unlink-ContentsBelow (suc j.fresh) j.fresh s1
                          (add_content-ContentsBelow j.fresh s cn.name state k);
                    grows = omega arith;
                  },
                )
                | inr good ↦
                    elim (Option-cases (session_add_app j.registry s1 cn.name xmlns made.0)) [
                      | inl missing ↦ absurd (ground arith)
                      | inr (s2, added) ↦
                          let w =
                            session_add_app-Rewritten j.registry s1 s2 cn.name xmlns made.0 added in
                          let (t, st) =
                            add_transport-Stores j.fresh s2 cn err err' p j1 j' (ground arith) in
                          (
                            t,
                            record {
                              world' = st.world';
                              result = st.result;
                              key_same =
                                  st.key_same
                                  ∙ ap key w.result
                                  ∙ key-add_content j.fresh s cn.name state;
                              below = λ k. st.below (
                                  Rewritten-ContentsBelow (suc j.fresh) s1 s2 w
                                    (add_content-ContentsBelow j.fresh s cn.name state k));
                              grows = omega arith;
                            },
                          )
                    ]
              ]
        ]

    session_add_content-Keeps :
        (a : ℕ) (cn : JingleContent) (err err' : ErrorPointer) (p : Option ℕ) (j j' : Jingle W)
        → session_add_content_from_jinglecontent h m a cn state_pending err j ≡ some (p, err', j')
        → Keeps j j'
    session_add_content-Keeps a cn err err' p j j' e =
        elim (Option-cases (get_session a j.sessions)) [
          | inl missing ↦ absurd (unfold session_add_content_from_jinglecontent in ground arith)
          | inr (s, read) ↦
              let (t, st) = add_content-Stores a cn state_pending err err' p j j' s read e in
              Stores-Keeps h a s t (suc j.fresh) j j' read st
        ]

    after_add_lem :
        (p : Option ℕ) (err err' : ErrorPointer) (j j' : Jingle W)
        → after_add h (p, err, j) ≡ some (err', j')
        → j' ≡ j
    unfolding after_add
    after_add_lem p no_error err' j j' e = ground arith
    after_add_lem p _ err' j j' e = ground arith

    add_one-Keeps :
        (a : ℕ) (cn : JingleContent) (err err' : ErrorPointer) (j j' : Jingle W)
        → add_one h m a cn err j ≡ some (err', j')
        → Keeps j j'
    unfolding add_one
    add_one-Keeps a cn err err' j j' e =
        elim (Bool-cases (
          is_null (jingle_get_appfuncs (attribute_of h cn.description "xmlns") j.registry)
          || is_null
              (jingle_get_transportfuncs (attribute_of h cn.transport "xmlns") j.registry))) [
                | inl skipped ↦ subst (Keeps j) (ground arith) (Keeps-refl j)
                | inr served ↦
                    elim (Option-cases
                      (session_add_content_from_jinglecontent h m a cn state_pending err j)) [
                        | inl fault ↦ absurd (ground arith)
                        | inr ((p, err1, j1), added) ↦
                            subst (Keeps j) (sym (after_add_lem p err1 err' j1 j' (ground arith)))
                              (session_add_content-Keeps a cn err err1 p j j1 added)
                      ]
              ]

    -- The loop over the contents of the stanza keeps all but the contents of sessions.
    pub add_contents-Keeps :
        (a : ℕ) (cns : List JingleContent) (err err' : ErrorPointer) (j j' : Jingle W)
        → add_contents h m a cns err j ≡ some (err', j')
        → Keeps j j'
    unfolding add_contents
    add_contents-Keeps a [] err err' j j' e = subst (Keeps j) (ground arith) (Keeps-refl j)
    add_contents-Keeps a (cn ∷ cns) err err' j j' e = elim (Option-cases (add_one h m a cn err j)) [
      | inl fault ↦ absurd (ground arith)
      | inr ((err1, j1), added) ↦
          Keeps-trans j j1 j' (add_one-Keeps a cn err err1 j j1 added)
            (add_contents-Keeps a cns err1 err' j1 j' (ground arith))
    ]
