-- ===== src/Handlers/Active.antt =====
-- jingle/action-handlers.c: the handlers of actions on a session that exists.
use mcabber_jingle.Base.{
  ℕ, Bool, true, false, not, Option, none, some, List, [], ◌∷◌, str_eq, if◌then◌else◌, ◌==◌,
}
use mcabber_jingle.Stanza.{
  Node, node_children, Message, Host, session_accept, session_info, transport_info, JingleContent,
  held, freed, JingleNode, GError,
}
use mcabber_jingle.Check.{check_contents}
use mcabber_jingle.Session.{
  state_active, SessionContent, JingleSession, peer, session_find_by_sid, get_session, put_session,
  session_find_sessioncontent, session_remove_sessioncontent, session_changestate_sessioncontent,
  is_linked, session_delete,
}
use mcabber_jingle.Jingle.{
  Jingle, Modules, ContentRef, JingleHandleStatus, status_value, jingle_ack_iq, ◌>>=◌,
}
use mcabber_jingle.Handlers.{store, session_find, refuse}

abbrev pub first_child : List Node → Option Node
first_child [] = none
first_child (n ∷ ns) = some n

-- The test `if (sc->appfuncs->handle (…))` on the status as a number.
abbrev pub is_true : JingleHandleStatus → Bool
is_true s = not (status_value s == 0)

module _ (h : Host) {W : Type 0} where
  open h use {message_from}

  -- The loop of `handle_session_info`: whether a module's answer ended it.
  unfoldable pub try_contents :
      Modules W → List SessionContent → Option Node → W → Option (Bool × W)
  try_contents m [] payload w = some (false, w)
  try_contents m (c ∷ cs) payload w = elim c.appfuncs [
    | none ↦ none
    | some af ↦ elim (Modules.app_handle m af) [
      | none ↦ try_contents m cs payload w
      | some handle ↦
          let answer = handle session_info c.description payload w in
          elim (is_true answer.0) [
            | true ↦ some (true, answer.1)
            | false ↦ try_contents m cs payload answer.1
          ]
    ]
  ]

  unfoldable pub unknown_session : JingleNode → Message → Jingle W → Option (JingleNode × Jingle W)
  unknown_session jn msg j =
      refuse h msg "cancel" (some "item-not-found") (some "unknown-session") jn j

  unfoldable pub handle_session_info :
      Modules W → JingleNode → Jingle W → Option (JingleNode × Jingle W)
  unfolding session_find try_contents unknown_session jingle_ack_iq
  handle_session_info m jn j = do
    msg ← jn.message
    elim (session_find h jn msg j) [
      | none ↦ unknown_session jn msg j
      | some s ↦ do
        node ← jn.node
        elim (node_children node) [
          | [] ↦ some (jn, jingle_ack_iq msg j)
          | n ∷ ns ↦ do
            tried ← try_contents m s.content (some n) j.world
            let j' = record j { world = tried.1 }
            if tried.0
                then some (jn, jingle_ack_iq msg j')
                else refuse h msg "modify" (some "feature-not-implemented")
                    (some "unsupported-info") jn j'
        ]
    ]

  -- The loop of `handle_session_accept`, for the session of address `a`.
  unfoldable pub accept_contents : Modules W → ℕ → List JingleContent → Jingle W → Option (Jingle W)
  unfolding get_session put_session session_find_sessioncontent session_changestate_sessioncontent
  accept_contents m a [] j = some j
  accept_contents m a (jc ∷ jcs) j = elim (get_session a j.sessions) [
    | none ↦ none
    | some s ↦ elim (session_find_sessioncontent s jc.name) [
      | none ↦ accept_contents m a jcs j
      | some sc ↦ elim sc.transfuncs [
        | none ↦ none
        | some tf ↦
            let sc2 : ContentRef = record { sid = s.sid; from = peer s; name = jc.name } in
            let j1 = store h (session_changestate_sessioncontent s jc.name state_active) j in
            let w =
              (Modules.trans_handle m tf session_accept sc.transport jc.transport j1.world).1 in
            accept_contents m a jcs
              (record j1 { world = Modules.trans_init m tf sc2 sc.transport w })
      ]
    ]
  ]

  unfoldable pub accept_checked :
      Modules W
      → ℕ
      → Message
      → Bool × JingleNode × Option GError
      → Jingle W
      → Option (JingleNode × Jingle W)
  unfolding accept_contents jingle_ack_iq
  accept_checked m a msg (false, jn, none) j = none
  accept_checked m a msg (false, jn, some e) j =
      refuse h msg "cancel" (some "bad-request") none jn j
  accept_checked m a msg (true, jn, err) j = elim jn.content [
    | freed ↦ none
    | held cns ↦ do j' ← accept_contents m a cns (jingle_ack_iq msg j); some (jn, j')
  ]

  unfoldable pub handle_session_accept :
      Modules W → JingleNode → Jingle W → Option (JingleNode × Jingle W)
  unfolding accept_checked check_contents unknown_session session_find_by_sid
  handle_session_accept m jn j = do
    msg ← jn.message
    elim (session_find_by_sid h jn.sid (message_from msg) j.sessions) [
      | none ↦ unknown_session jn msg j
      | some s ↦ do checked ← check_contents h jn none; accept_checked m s.addr msg checked j
    ]

  -- `start` of the application calls back into jingle, so it is an argument.
  unfoldable pub handle_transport_initialize :
      (ℕ → ContentRef → Jingle W → Option (Jingle W))
      → Bool
      → ContentRef
      → Jingle W
      → Option (Jingle W)
  unfolding session_find_by_sid session_find_sessioncontent session_remove_sessioncontent
      put_session
  handle_transport_initialize start correct sc2 j = do
    s ← session_find_by_sid h sc2.sid sc2.from j.sessions
    sc ← session_find_sessioncontent s sc2.name
    if not correct
        then some (store h (session_remove_sessioncontent s sc.name).1 j)
        else (do af ← sc.appfuncs; start af sc2 j)

  -- The module of a content is stopped if the stanza came from the peer.
  unfoldable pub stop_one : Modules W → Bool → SessionContent → W → Option W
  stop_one m false c w = some w
  stop_one m true c w = do af ← c.appfuncs; some (Modules.app_stop m af c.description w)

  -- The loop of `handle_session_terminate`, from a link on. The next link is read after the content
  -- was taken out.
  unfoldable pub stop_contents :
      Modules W → Bool → List SessionContent → JingleSession → W → Option (JingleSession × W)
  unfolding stop_one session_remove_sessioncontent is_linked
  stop_contents m from_peer [] s w = some (s, w)
  stop_contents m from_peer (c ∷ cs) s w = elim (stop_one m from_peer c w) [
    | none ↦ none
    | some w' ↦
        let t = (session_remove_sessioncontent s c.name).1 in
        elim (is_linked c.addr t) [ true ↦ stop_contents m from_peer cs t w' | false ↦ none ]
  ]

  unfoldable pub handle_session_terminate :
      Modules W → JingleNode → Jingle W → Option (JingleNode × Jingle W)
  unfolding session_find stop_contents put_session session_delete unknown_session jingle_ack_iq
  handle_session_terminate m jn j = do
    msg ← jn.message
    elim (session_find h jn msg j) [
      | none ↦ unknown_session jn msg j
      | some s ↦ do
        stopped ← stop_contents m (str_eq (message_from msg) (peer s)) s.content s j.world
        let j1 = store h stopped.0 (record j { world = stopped.1 })
        ss ← session_delete s.addr j1.sessions
        some (jn, jingle_ack_iq msg (record j1 { sessions = ss }))
    ]

  unfoldable pub handle_transport_info :
      Modules W → JingleNode → Jingle W → Option (JingleNode × Jingle W)
  unfolding session_find unknown_session session_find_sessioncontent
  handle_transport_info m jn j = do
    msg ← jn.message
    elim (session_find h jn msg j) [
      | none ↦ unknown_session jn msg j
      | some s ↦ elim jn.content [
        | freed ↦ none
        | held [] ↦ refuse h msg "modify" (some "bad-request") none jn j
        | held (jc ∷ jcs) ↦ elim (session_find_sessioncontent s jc.name) [
          | none ↦ refuse h msg "modify" (some "bad-request") none jn j
          | some sc ↦ do
            af ← sc.appfuncs
            handle ← Modules.app_handle m af
            let answer = handle transport_info sc.transport jc.transport j.world
            some (jn, record j { world = answer.1 })
        ]
      ]
    ]
