-- ===== src/Handlers/Stored.antt =====
-- jingle/action-handlers.c, the loop of `handle_session_initiate`, on contents that the modules accept.
use mcabber_jingle.Base.{
  ℕ, suc, String, ◌≡◌, refl, sym, ap, ◌∙◌, false, Option, none, some, List, [], ◌∷◌, ◌++◌, arith,
  All, All-append, str_eq, str_eq_self, append-nil, append_assoc,
}
use mcabber_jingle.Stanza.{Host, JingleContent}
use mcabber_jingle.Registry.{Registry, jingle_get_appfuncs, jingle_get_transportfuncs}
use mcabber_jingle.Session.{
  JingleSession, SessionContent, state_pending, is_named, new_content, set_app, set_trans,
  update_named, session_add_content, session_add_app, get_session, put_session,
}
use mcabber_jingle.Session.Keys.{get_session_addr, get_session-put_session}
use mcabber_jingle.Jingle.{Jingle, Modules}
use mcabber_jingle.Handlers.{
  no_error, attribute_of, add_transport, session_add_content_from_jinglecontent, after_add, add_one,
  add_contents, show_contents,
}

-- A write under a name that only the last content has.
pub update_last :
    (name : Option String) (f : SessionContent → SessionContent) (cs : List SessionContent)
    (c : SessionContent)
    → All (λ d. is_named name d ≡ false) cs
    → c.name ≡ name
    → update_named name f (cs ++ c ∷ []) ≡ some (cs ++ f c ∷ [])
unfolding update_named
update_last name f [] c others e = rw (e, str_eq_self name)
update_last name f (d ∷ ds) c others e =
    let rest = update_last name f ds c others.1 e in ground arith

module _ (h : Host) {W : Type 0} (m : Modules W) (r : Registry) where
  -- Both modules for a content are registered, and make their data from it, whatever their state.
  pub record Accepts (cn : JingleContent) : Type 0 where
    pub app : ℕ
    pub trans : ℕ
    pub has_app : jingle_get_appfuncs (attribute_of h cn.description "xmlns") r ≡ some app
    pub has_trans : jingle_get_transportfuncs (attribute_of h cn.transport "xmlns") r ≡ some trans
    pub app_data : W → ℕ
    pub app_world : W → W
    pub trans_data : W → ℕ
    pub trans_world : W → W
    pub app_made :
        (w : W) → Modules.app_newfrommessage m app cn w ≡ (some (app_data w), none, app_world w)
    pub trans_made :
        (w : W)
        → Modules.trans_newfrommessage m trans cn w ≡ (some (trans_data w), none, trans_world w)

  -- The content that is stored for `cn` at the address `c`, by modules in the state `w`.
  abbrev pub stored_content : (cn : JingleContent) → Accepts cn → ℕ → W → SessionContent
  stored_content cn k c w =
      set_trans (attribute_of h cn.transport "xmlns") (some k.trans)
        (some (k.trans_data (k.app_world w)))
        (set_app (attribute_of h cn.description "xmlns") (some k.app) (some (k.app_data w))
          (new_content c cn.name state_pending))

  abbrev pub with_app_content : (cn : JingleContent) → Accepts cn → ℕ → W → SessionContent
  with_app_content cn k c w =
      set_app (attribute_of h cn.description "xmlns") (some k.app) (some (k.app_data w))
        (new_content c cn.name state_pending)

  abbrev pub with_app : (cn : JingleContent) → Accepts cn → JingleSession → ℕ → W → JingleSession
  with_app cn k s c w = record s { content = s.content ++ with_app_content cn k c w ∷ [] }

  abbrev pub with_stored : (cn : JingleContent) → Accepts cn → JingleSession → ℕ → W → JingleSession
  with_stored cn k s c w = record s { content = s.content ++ stored_content cn k c w ∷ [] }

  abbrev pub after_one : (cn : JingleContent) → Accepts cn → JingleSession → Jingle W → Jingle W
  after_one cn k s j = record j {
    fresh = suc j.fresh;
    sessions = put_session (with_stored cn k s j.fresh j.world) j.sessions;
    world = k.trans_world (k.app_world j.world);
  }

module _ (h : Host) {W : Type 0} (m : Modules W) where
  add_transport_lem :
      (cn : JingleContent) (s : JingleSession) (c : ℕ) (w0 : W) (j : Jingle W)
      (k : Accepts h m j.registry cn)
      → j.world ≡ k.app_world w0
      → All (λ d. is_named cn.name d ≡ false) s.content
      → add_transport h m c (with_app h m j.registry cn k s c w0) cn no_error j
        ≡ some (
          some c,
          no_error,
          record j {
            sessions = put_session (with_stored h m j.registry cn k s c w0) j.sessions;
            world = k.trans_world j.world;
          },
        )
  unfolding add_transport
  add_transport_lem cn s c w0 j k e others =
      let last =
        update_last cn.name
          (set_trans (attribute_of h cn.transport "xmlns") (some k.trans)
            (some (k.trans_data j.world)))
          s.content (with_app_content h m j.registry cn k c w0) others refl in
      rw (k.has_trans, k.trans_made j.world, last)
        (ap
          (λ d. some (
            some c,
            no_error,
            record j {
              sessions =
                  put_session
                    (record s {
                      content =
                          s.content
                          ++ set_trans (attribute_of h cn.transport "xmlns") (some k.trans) (some d)
                              (with_app_content h m j.registry cn k c w0)
                            ∷ [];
                    })
                    j.sessions;
              world = k.trans_world j.world;
            },
          ))
          (ap k.trans_data e))

  add_content_lem :
      (a : ℕ) (cn : JingleContent) (s : JingleSession) (j : Jingle W)
      (k : Accepts h m j.registry cn)
      → get_session a j.sessions ≡ some s
      → All (λ d. is_named cn.name d ≡ false) s.content
      → session_add_content_from_jinglecontent h m a cn state_pending no_error j
        ≡ some (some j.fresh, no_error, after_one h m j.registry cn k s j)
  unfolding session_add_content_from_jinglecontent session_add_content session_add_app
  add_content_lem a cn s j k at others =
      let last =
        update_last cn.name
          (set_app (attribute_of h cn.description "xmlns") (some k.app) (some (k.app_data j.world)))
          s.content (new_content j.fresh cn.name state_pending) others refl in
      rw (at, k.has_app, k.app_made j.world, last)
        (add_transport_lem cn s j.fresh j.world
          (record j { fresh = suc j.fresh; world = k.app_world j.world }) k refl others)

  add_one_lem :
      (a : ℕ) (cn : JingleContent) (s : JingleSession) (j : Jingle W)
      (k : Accepts h m j.registry cn)
      → get_session a j.sessions ≡ some s
      → All (λ d. is_named cn.name d ≡ false) s.content
      → add_one h m a cn no_error j ≡ some (no_error, after_one h m j.registry cn k s j)
  unfolding add_one after_add
  add_one_lem a cn s j k at others =
      rw (add_content_lem a cn s j k at others, k.has_app, k.has_trans)

-- None of these contents has a name of those in the list, or that of another.
abbrev pub Unnamed : JingleContent → List SessionContent → Type 0
Unnamed cn cs = All (λ d. is_named cn.name d ≡ false) cs

abbrev pub DistinctNames : List JingleContent → Type 0
DistinctNames [] = Unit {0}
DistinctNames (cn ∷ cns) = All (λ d. str_eq cn.name d.name ≡ false) cns × DistinctNames cns

Unnamed-snoc :
    (cns : List JingleContent) (cs : List SessionContent) (c : SessionContent)
    → All (λ d. str_eq c.name d.name ≡ false) cns
    → All (λ cn. Unnamed cn cs) cns
    → All (λ cn. Unnamed cn (cs ++ c ∷ [])) cns
Unnamed-snoc [] cs c a b = tt
Unnamed-snoc (cn ∷ cns) cs c a b = (
  All-append (λ d. is_named cn.name d ≡ false) cs (c ∷ []) b.0 (a.0, tt),
  Unnamed-snoc cns cs c a.1 b.1,
)

module _ (h : Host) {W : Type 0} (m : Modules W) (r : Registry) where
  -- The contents that are stored for `cns`, in the order of the stanza.
  abbrev pub stored_contents :
      (cns : List JingleContent) → All (Accepts h m r) cns → ℕ → W → List SessionContent
  stored_contents [] k c w = []
  stored_contents (cn ∷ cns) k c w =
      stored_content h m r cn k.0 c w
      ∷ stored_contents cns k.1 (suc c) (k.0.trans_world (k.0.app_world w))

  -- What the loop over the contents comes to for the session of address `a`.
  pub record Added (a : ℕ) (cns : List JingleContent) (k : All (Accepts h m r) cns)
      (s : JingleSession) (j j' : Jingle W) : Type 0 where
    pub live :
        get_session a j'.sessions
        ≡ some (record s { content = s.content ++ stored_contents cns k j.fresh j.world })
    pub sent_same : j'.sent ≡ j.sent
    pub events_same : j'.events ≡ j.events

pub all_new : (cns : List JingleContent) → All (λ cn. Unnamed cn []) cns
all_new [] = tt
all_new (cn ∷ cns) = (tt, all_new cns)

module _ (h : Host) {W : Type 0} (m : Modules W) where
  add_then :
      (a : ℕ) (cn : JingleContent) (cns : List JingleContent) (j j1 j2 : Jingle W)
      → add_one h m a cn no_error j ≡ some (no_error, j1)
      → add_contents h m a cns no_error j1 ≡ some (no_error, j2)
      → add_contents h m a (cn ∷ cns) no_error j ≡ some (no_error, j2)
  unfolding add_contents
  add_then a cn cns j j1 j2 first rest = ground arith

  pub add_contents_lem :
      (a : ℕ) (cns : List JingleContent) (s : JingleSession) (j : Jingle W)
      (k : All (Accepts h m j.registry) cns)
      → get_session a j.sessions ≡ some s
      → All (λ cn. Unnamed cn s.content) cns
      → DistinctNames cns
      → (j' : Jingle W) × (add_contents h m a cns no_error j ≡ some (no_error, j'))
        × Added h m j.registry a cns k s j j'
  unfolding add_contents
  add_contents_lem a [] s j k at new d = (
    j,
    refl,
    record {
      live = at ∙ ap (λ l. some (record s { content = l })) (sym (append-nil s.content));
      sent_same = refl;
      events_same = refl;
    },
  )
  add_contents_lem a (cn ∷ cns) s j k at new d =
      let j1 = after_one h m j.registry cn k.0 s j in
      let s1 = with_stored h m j.registry cn k.0 s j.fresh j.world in
      let r =
        add_contents_lem a cns s1 j1 k.1
          (get_session-put_session a j.sessions s s1 at (get_session_addr a j.sessions s at))
          (Unnamed-snoc cns s.content _ d.0 new.1) d.1 in
      (
        r.0,
        add_then a cn cns j j1 r.0 (add_one_lem h m a cn s j k.0 at new.0) r.1,
        record {
          live =
              r.2.live
              ∙ ap (λ l. some (record s { content = l }))
                  (append_assoc s.content
                    (stored_content h m j.registry cn k.0 j.fresh j.world ∷ []) _);
          sent_same = r.2.sent_same;
          events_same = r.2.events_same;
        },
      )

  pub show_stored :
      (r : Registry) (w0 : W) (cns : List JingleContent) (k : All (Accepts h m r) cns) (c : ℕ)
      (w : W)
      → (lines : List (String × String)) × (show_contents h m w0 (stored_contents h m r cns k c w)
          ≡ some lines)
  unfolding show_contents
  show_stored r w0 [] k c w = ([], refl)
  show_stored r w0 (cn ∷ cns) k c w =
      let rest = show_stored r w0 cns k.1 (suc c) (k.0.trans_world (k.0.app_world w)) in
      let af_line = Modules.app_info m k.0.app (some (k.0.app_data w)) w0 in
      let tf_line = Modules.trans_info m k.0.trans (some (k.0.trans_data (k.0.app_world w))) w0 in
      ((af_line, tf_line) ∷ rest.0, rw rest.1)
