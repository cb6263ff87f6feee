-- ===== src/Calls/Offered.antt =====
-- jingle/sessions.c and jingle/jingle.c: an application is offered, from the making of its session to its
-- session-initiate.
use mcabber_jingle.Base.{
  ℕ, suc, String, ◌≡◌, refl, ap, ◌∙◌, true, Option, none, some, List, [], ◌∷◌, ◌++◌, arith, All,
  find?-append,
}
use mcabber_jingle.Stanza.{Host, Node, element, session_initiate}
use mcabber_jingle.Registry.{
  Registry, jingle_get_appfuncs, jingle_get_transportfuncs, jingle_transport_for_app, chosen,
}
use mcabber_jingle.Session.{
  JingleSession, outgoing, set_trans, session_add_trans, session_new, get_session, with_content,
  session_find_by_app, peer, holds,
}
use mcabber_jingle.Session.Keys.{KeysBelow, keys, get_session_snoc}
use mcabber_jingle.Jingle.{
  Jingle, Modules, request, nodes_of, ns_jingle, send, on_initiate_ack, ◌>>=◌,
}
use mcabber_jingle.Actions.{action_name}
use mcabber_jingle.Ack.{jingle_new_ack_handler}
use mcabber_jingle.Send.{
  attribute, set_attribute, lm_message_from_jinglesession, jingle_send_session_initiate,
}
use mcabber_jingle.Send.Messages.{IsBound, message-content_nodes, content_nodes}
use mcabber_jingle.Handlers.{store}
use mcabber_jingle.Handlers.Stored.{update_last}
use mcabber_jingle.Calls.{App, new_session_with_apps, jingle_handle_app}
use mcabber_jingle.Calls.Outgoing.{add_apps_lem, app_content, session_of, put_session_last}

-- The session of one application, with its transport.
abbrev pub with_transport :
    Registry → ℕ → Option String → String → String → App → String → ℕ → Option ℕ → JingleSession
with_transport r a myjid sid recipient app xmlns tf trans =
    record (session_of r a myjid sid recipient (app ∷ [])) {
      content = set_trans (some xmlns) (some tf) trans (app_content r (suc a) app) ∷ [];
    }

add_trans_one :
    (r : Registry) (a : ℕ) (myjid : Option String) (sid recipient : String) (app : App)
    (xmlns : String) (tf : ℕ) (trans : Option ℕ)
    → jingle_get_transportfuncs (some xmlns) r ≡ some tf
    → session_add_trans r
        (session_of r a myjid sid recipient (app ∷ []))
        (some app.name)
        (some xmlns)
        trans
      ≡ some (with_transport r a myjid sid recipient app xmlns tf trans)
unfolding session_add_trans
add_trans_one r a myjid sid recipient app xmlns tf trans has_tf = rw has_tf (
    ap (with_content (session_of r a myjid sid recipient (app ∷ []))) (
      update_last (some app.name) (set_trans (some xmlns) (some tf) trans) []
        (app_content r (suc a) app) tt refl))

bound_one :
    (r : Registry) (a : ℕ) (app : App) (xmlns : String) (af tf : ℕ) (trans : Option ℕ)
    → jingle_get_appfuncs (some app.ns) r ≡ some af
    → All IsBound (set_trans (some xmlns) (some tf) trans (app_content r a app) ∷ [])
bound_one r a app xmlns af tf trans has_af =
    (record { app = af; trans = tf; has_app = has_af; has_trans = refl }, tt)

find_new :
    (data_addr : ℕ) (ss : List JingleSession) (s : JingleSession)
    → session_find_by_app data_addr ss ≡ none
    → session_find_by_app data_addr (s ∷ []) ≡ some s
    → session_find_by_app data_addr (ss ++ s ∷ []) ≡ some s
unfolding session_find_by_app
find_new d ss s old new = find?-append _ ss (s ∷ []) ∙ rw old new

find_own :
    (r : Registry) (a : ℕ) (myjid : Option String) (sid recipient : String) (app : App) (d : ℕ)
    → app.app_data ≡ some d
    → session_find_by_app d (session_of r a myjid sid recipient (app ∷ []) ∷ [])
      ≡ some (session_of r a myjid sid recipient (app ∷ []))
unfolding session_find_by_app holds
find_own r a myjid sid recipient app d e = ground arith

module _ (h : Host) {W : Type 0} (m : Modules W) where
  made_lem :
      (myjid : Option String) (sid recipient : String) (app : App) (j : Jingle W)
      → KeysBelow j.fresh (keys j.sessions)
      → new_session_with_apps myjid sid recipient (app ∷ []) j
        ≡ some (record j {
          fresh = suc (suc j.fresh);
          sessions =
              j.sessions ++ session_of j.registry j.fresh myjid sid recipient (app ∷ []) ∷ [];
        })
  unfolding new_session_with_apps session_new
  made_lem myjid sid recipient app j below =
      let s0 : JingleSession = record {
        addr = j.fresh;
        sid = some sid;
        origin = outgoing;
        from = myjid;
        to = some recipient;
        content = [];
      } in
      let added = add_apps_lem j.registry (suc j.fresh) (app ∷ []) s0 (tt, tt) (tt, tt) in
      let s = session_of j.registry j.fresh myjid sid recipient (app ∷ []) in
      rw added (
        ap (λ ss. some (record j { fresh = suc (suc j.fresh); sessions = ss }))
          (put_session_last s0 s j.sessions refl below))

  -- `jingle_handle_app`, where the session, its transport and the stanza are known.
  handle_app_steps :
      (new_trans : ℕ → W → Option ℕ × W) (name ns xmlns : String) (d tf : ℕ) (sid : String)
      (s t : JingleSession) (j : Jingle W)
      → jingle_transport_for_app (some ns) none j.registry ≡ chosen (some xmlns) none
      → jingle_get_transportfuncs (some xmlns) j.registry ≡ some tf
      → session_find_by_app d j.sessions ≡ some s
      → session_add_trans j.registry s (some name) (some xmlns) (new_trans tf j.world).0 ≡ some t
      → jingle_handle_app h m true new_trans name ns d j
        ≡ jingle_send_session_initiate m true t.addr
            (store h t (record j { world = (new_trans tf j.world).1 }))
  unfolding jingle_handle_app
  handle_app_steps new_trans name ns xmlns d tf sid s t j choice has_tf found added =
      rw (choice, jingle_handle_app, has_tf, found, added)

  initiate_steps :
      (t : JingleSession) (sid : String) (j : Jingle W) (b : All IsBound t.content)
      → t.sid ≡ some sid
      → get_session t.addr j.sessions ≡ some t
      → (node : Node) × (j' : Jingle W) × (lm_message_from_jinglesession m j.world t
            session_initiate
          ≡ some (some (peer t, node)))
        × (jingle_send_session_initiate m true t.addr j ≡ some j')
        × (j'.sent ≡ j.sent ++ request (peer t) (set_attribute "initiator" t.from node) ∷ [])
        × (j'.sessions ≡ j.sessions)
  unfolding jingle_send_session_initiate jingle_new_ack_handler
  initiate_steps t sid j b e at =
      let built = message-content_nodes m j.world t session_initiate sid b e in
      let node =
        element "jingle" none
          (("xmlns", ns_jingle) ∷ attribute "action" (action_name session_initiate)
            ++ ("sid", sid) ∷ [])
          (nodes_of (content_nodes m j.world t.content b)) in
      let j' =
        send (request (peer t) (set_attribute "initiator" t.from node))
          (jingle_new_ack_handler (some (on_initiate_ack t.addr)) 60 j) in
      (node, j', built, rw (at, built), refl, refl)

  -- An application that is registered, with data that no session holds, and for which a registered transport
  -- is chosen, is offered: its session is made, gets the transport, and stands live with it; and one
  -- stanza is sent, the session-initiate about that session with its initiator, to the recipient.
  pub offered_app-Sent :
      (new_trans : ℕ → W → Option ℕ × W) (myjid : Option String) (sid recipient : String)
      (app : App) (d af tf : ℕ) (xmlns : String) (j : Jingle W)
      → app.app_data ≡ some d
      → jingle_get_appfuncs (some app.ns) j.registry ≡ some af
      → jingle_transport_for_app (some app.ns) none j.registry ≡ chosen (some xmlns) none
      → jingle_get_transportfuncs (some xmlns) j.registry ≡ some tf
      → session_find_by_app d j.sessions ≡ none
      → KeysBelow j.fresh (keys j.sessions)
      → let t =
          with_transport j.registry j.fresh myjid sid recipient app xmlns tf
            (new_trans tf j.world).0 in
        (node : Node) × (j' : Jingle W) × (lm_message_from_jinglesession m
            (new_trans tf j.world).1
            t
            session_initiate
          ≡ some (some (some recipient, node)))
        × ((new_session_with_apps myjid sid recipient (app ∷ []) j
              >>= jingle_handle_app h m true new_trans app.name app.ns d)
            ≡ some j')
        × (j'.sent ≡ j.sent ++ request (some recipient) (set_attribute "initiator" myjid node) ∷ [])
        × (j'.sessions ≡ j.sessions ++ t ∷ [])
  offered_app-Sent new_trans myjid sid recipient app d af tf xmlns j has_data has_af choice has_tf
        none_old below =
      let r = j.registry in
      let trans = (new_trans tf j.world).0 in
      let s = session_of r j.fresh myjid sid recipient (app ∷ []) in
      let t = with_transport r j.fresh myjid sid recipient app xmlns tf trans in
      let j1 = record j { fresh = suc (suc j.fresh); sessions = j.sessions ++ s ∷ [] } in
      let j2 = store h t (record j1 { world = (new_trans tf j.world).1 }) in
      let found =
        find_new d j.sessions s none_old (find_own r j.fresh myjid sid recipient app d has_data) in
      let offered =
        handle_app_steps new_trans app.name app.ns xmlns d tf sid s t j1 choice has_tf found
          (add_trans_one r j.fresh myjid sid recipient app xmlns tf trans has_tf) in
      let stored = put_session_last s t j.sessions refl below in
      let at = ap (get_session j.fresh) stored ∙ get_session_snoc j.fresh j.sessions t refl below in
      let (node, j', built, sent_off, sent, same) =
        initiate_steps t sid j2 (bound_one r (suc j.fresh) app xmlns af tf trans has_af) refl at in
      (
        node,
        j',
        built,
        rw (made_lem myjid sid recipient app j below) (offered ∙ sent_off),
        sent,
        same ∙ stored,
      )
