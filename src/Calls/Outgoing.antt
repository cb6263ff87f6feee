-- ===== src/Calls/Outgoing.antt =====
-- jingle/sessions.c: a session that applications are put into.
use mcabber_jingle.Base.{
  ℕ, suc, String, ◌≡◌, refl, sym, ap, ◌∙◌, false, Option, some, List, [], ◌∷◌, ◌++◌, arith, All,
  All-append, str_eq, append-nil, append_assoc,
}
use mcabber_jingle.Registry.{Registry, jingle_get_appfuncs}
use mcabber_jingle.Session.{
  JingleSession, SessionContent, outgoing, state_pending, is_named, new_content, set_app,
  session_add_content, session_add_app, put_session, with_content,
}
use mcabber_jingle.Session.Keys.{KeysBelow, keys}
use mcabber_jingle.Handlers.Stored.{update_last}
use mcabber_jingle.Calls.{App, add_apps}

-- The content that is made for an application.
abbrev pub app_content : Registry → ℕ → App → SessionContent
app_content r a app =
    set_app (some app.ns) (jingle_get_appfuncs (some app.ns) r) app.app_data
      (new_content a (some app.name) state_pending)

abbrev pub app_contents : Registry → ℕ → List App → List SessionContent
app_contents r a [] = []
app_contents r a (app ∷ apps) = app_content r a app ∷ app_contents r (suc a) apps

abbrev pub NewName : List SessionContent → App → Type 0
NewName cs app = All (λ d. is_named (some app.name) d ≡ false) cs

abbrev pub DistinctApps : List App → Type 0
DistinctApps [] = Unit {0}
DistinctApps (app ∷ apps) =
    All (λ b. str_eq (some app.name) (some b.name) ≡ false) apps × DistinctApps apps

NewName-snoc :
    (r : Registry) (a : ℕ) (app : App) (apps : List App) (cs : List SessionContent)
    → All (λ b. str_eq (some app.name) (some b.name) ≡ false) apps
    → All (NewName cs) apps
    → All (NewName (cs ++ app_content r a app ∷ [])) apps
NewName-snoc r a app [] cs d n = tt
NewName-snoc r a app (b ∷ bs) cs d n = (
  All-append (λ x. is_named (some b.name) x ≡ false) cs (app_content r a app ∷ []) n.0 (d.0, tt),
  NewName-snoc r a app bs cs d.1 n.1,
)

add_app_last :
    (r : Registry) (a : ℕ) (app : App) (s : JingleSession)
    → NewName s.content app
    → session_add_app r
        (session_add_content a s (some app.name) state_pending)
        (some app.name)
        (some app.ns)
        app.app_data
      ≡ some (record s { content = s.content ++ app_content r a app ∷ [] })
unfolding session_add_app session_add_content
add_app_last r a app s n = ap (with_content s) (
    update_last (some app.name)
      (set_app (some app.ns) (jingle_get_appfuncs (some app.ns) r) app.app_data) s.content
      (new_content a (some app.name) state_pending) n refl)

add_apps_step :
    (r : Registry) (a : ℕ) (app : App) (apps : List App) (s t : JingleSession)
    → session_add_app r
        (session_add_content a s (some app.name) state_pending)
        (some app.name)
        (some app.ns)
        app.app_data
      ≡ some t
    → add_apps r a (app ∷ apps) s ≡ add_apps r (suc a) apps t
unfolding add_apps
add_apps_step r a app apps s t e = ground arith

pub add_apps_lem :
    (r : Registry) (a : ℕ) (apps : List App) (s : JingleSession)
    → All (NewName s.content) apps
    → DistinctApps apps
    → add_apps r a apps s ≡ some (record s { content = s.content ++ app_contents r a apps })
unfolding add_apps
add_apps_lem r a [] s n d = ap (λ l. some (record s { content = l })) (sym (append-nil s.content))
add_apps_lem r a (app ∷ apps) s n d =
    let t = record s { content = s.content ++ app_content r a app ∷ [] } in
    add_apps_step r a app apps s t (add_app_last r a app s n.0)
    ∙ add_apps_lem r (suc a) apps t (NewName-snoc r a app apps s.content d.0 n.1) d.1
    ∙ ap (λ l. some (record s { content = l }))
        (append_assoc s.content (app_content r a app ∷ []) (app_contents r (suc a) apps))

all_new : (apps : List App) → All (NewName []) apps
all_new [] = tt
all_new (app ∷ apps) = (tt, all_new apps)

-- The session that `new_session_with_apps` leaves.
abbrev pub session_of : Registry → ℕ → Option String → String → String → List App → JingleSession
session_of r a myjid sid recipient apps = record {
  addr = a;
  sid = some sid;
  origin = outgoing;
  from = myjid;
  to = some recipient;
  content = app_contents r (suc a) apps;
}

pub put_session_last :
    (s t : JingleSession) (ss : List JingleSession)
    → t.addr ≡ s.addr
    → KeysBelow s.addr (keys ss)
    → put_session t (ss ++ s ∷ []) ≡ ss ++ t ∷ []
unfolding put_session
put_session_last s t [] e b = ground arith
put_session_last s t (u ∷ us) e b = ground (arith, put_session_last s t us e b.1)
