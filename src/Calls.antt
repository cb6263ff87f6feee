-- ===== src/Calls.antt =====
-- jingle/jingle.c and jingle/sessions.c: what transports, applications and the user call.
--
-- A call back into a module that is not under `Modules` (`handle_data` and `send` of an application,
-- `send`, `end` and `new` of a transport) is an argument, which takes the pointer to the functions first.
-- `none` is a read through NULL.
pub mod Outgoing
pub mod Offered
use mcabber_jingle.Base.{
  ℕ, suc, String, Bool, true, false, Option, none, some, List, [], ◌∷◌, ◌++◌, ◌==◌, if◌then◌else◌,
  length,
}
use mcabber_jingle.Stanza.{Host}
use mcabber_jingle.Registry.{
  Registry, jingle_get_transportfuncs, jingle_transport_for_app, Choice, chosen,
}
use mcabber_jingle.Session.{
  JingleSession, SessionContent, outgoing, state_pending, peer, session_new, session_find_by_sid,
  session_find_sessioncontent, session_find_by_app, sessioncontent_find_by_transport,
  session_add_content, session_add_app, session_add_trans, get_session, put_session,
}
use mcabber_jingle.Jingle.{Jingle, Modules, ContentRef, ◌>>=◌}
use mcabber_jingle.Send.{
  jingle_send_session_accept, jingle_send_session_terminate, jingle_send_session_initiate,
}
use mcabber_jingle.Handlers.{store}

-- Why mcabber calls back about an event.
pub data EvsContext : Type 0 where
  evs_timeout evs_cancel evs_accept evs_reject evs_other : EvsContext

-- An application that `new_session_with_apps` is given: the name of its content, its namespace, its data.
pub record App : Type 0 where
  pub name : String
  pub ns : String
  pub app_data : Option ℕ

-- The loop of `new_session_with_apps`; `a` is the address of the next content.
unfoldable pub add_apps : Registry → ℕ → List App → JingleSession → Option JingleSession
unfolding session_add_content session_add_app
add_apps r a [] s = some s
add_apps r a (app ∷ apps) s =
    elim (session_add_app r (session_add_content a s (some app.name) state_pending) (some app.name)
      (some app.ns) app.app_data) [ none ↦ none | some t ↦ add_apps r (suc a) apps t ]

abbrev pub advance : ℕ → List App → ℕ
advance a [] = a
advance a (app ∷ apps) = advance (suc a) apps

-- `new_session_with_apps`, with the JID of the connection and the identifier that was drawn.
unfoldable pub new_session_with_apps :
    {W : Type 0} → Option String → String → String → List App → Jingle W → Option (Jingle W)
unfolding session_new add_apps put_session
new_session_with_apps myjid sid recipient apps j = do
  let made = session_new j.fresh (some sid) myjid (some recipient) outgoing j.sessions
  s ← add_apps j.registry (suc j.fresh) apps made.0
  some (record j { fresh = advance (suc j.fresh) apps; sessions = put_session s made.1 })

module _ (h : Host) {W : Type 0} where
  -- `handle_trans_data`: what a transport received goes to the application of its content.
  unfoldable pub handle_trans_data :
      (ℕ → Option ℕ → List ℕ → Jingle W → Option (Jingle W))
      → ℕ
      → List ℕ
      → Jingle W
      → Option (Jingle W)
  unfolding sessioncontent_find_by_transport
  handle_trans_data handle_data transport bytes j =
      elim (sessioncontent_find_by_transport transport j.sessions) [
        | none ↦ some j
        | some sc ↦ elim sc.appfuncs [
          | none ↦ none
          | some af ↦ handle_data af sc.description bytes j
        ]
      ]

  -- `handle_trans_next`: the application of a content is asked for more.
  unfoldable pub handle_trans_next :
      (ℕ → ContentRef → Jingle W → Option (Jingle W)) → ContentRef → Jingle W → Option (Jingle W)
  unfolding session_find_by_sid session_find_sessioncontent
  handle_trans_next send_app sc2 j = elim (session_find_by_sid h sc2.sid sc2.from j.sessions) [
    | none ↦ some j
    | some sess ↦ do
      sc ← session_find_sessioncontent sess sc2.name
      af ← sc.appfuncs
      send_app af sc2 j
  ]

  -- `handle_app_data`: what an application gives goes to the transport of its content, and no bytes end
  -- the stream.
  unfoldable pub handle_app_data :
      (ℕ → ContentRef → Option ℕ → List ℕ → Jingle W → Option (Jingle W))
      → (ℕ → ContentRef → Option ℕ → Jingle W → Option (Jingle W))
      → ContentRef
      → List ℕ
      → Jingle W
      → Option (Jingle W)
  unfolding session_find_by_sid session_find_sessioncontent
  handle_app_data send_trans end_trans ref bytes j =
      elim (session_find_by_sid h ref.sid ref.from j.sessions) [
        | none ↦ some j
        | some sess ↦ do
          sc ← session_find_sessioncontent sess ref.name
          tf ← sc.transfuncs
          let sc2 : ContentRef = record { sid = sess.sid; from = peer sess; name = sc.name }
          if length bytes == 0
              then end_trans tf sc2 sc.transport j
              else send_trans tf sc2 sc.transport bytes j
      ]

  -- `jingle_handle_app`: the session that holds the data of the application gets a transport and is
  -- offered to the other party. `new_trans` is `trans->new ()`.
  unfoldable pub jingle_handle_app :
      Modules W → Bool → (ℕ → W → Option ℕ × W) → String → String → ℕ → Jingle W → Option (Jingle W)
  unfolding session_find_by_app session_add_trans put_session jingle_send_session_initiate
  jingle_handle_app m delivered new_trans name xmlns_app app j =
      elim (jingle_transport_for_app (some xmlns_app) none j.registry) [
        | chosen xmlns forbid ↦ elim (jingle_get_transportfuncs xmlns j.registry) [
          | none ↦ some j
          | some tf ↦ do
            sess ← session_find_by_app app j.sessions
            let made = new_trans tf j.world
            s ← session_add_trans j.registry sess (some name) xmlns made.0
            jingle_send_session_initiate m delivered s.addr
                (store h s (record j { world = made.1 }))
        ]
        | _ ↦ none
      ]

  -- `evscallback_jingle`: the user's answer to an offer. The session is read in every case, to log it.
  unfoldable pub evscallback_jingle : Modules W → EvsContext → ℕ → Jingle W → Option (Jingle W)
  unfolding jingle_send_session_accept jingle_send_session_terminate get_session
  evscallback_jingle m evcontext a j = do
    js ← get_session a j.sessions
    elim evcontext [
      | evs_accept ↦ jingle_send_session_accept m a j
      | evs_reject ↦ jingle_send_session_terminate a (some "decline") j
      | _ ↦ some j
    ]
