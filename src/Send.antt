-- ===== src/Send.antt =====
-- jingle/send.c, and `lm_message_from_jinglesession` of jingle/sessions.c: the stanzas about a session
-- that are sent to the other party, and what is done with their answers.
--
-- A session is given by its address; `none` is a read through a NULL or dangling pointer.
pub mod Callbacks
pub mod Messages
use mcabber_jingle.Base.{
  ℕ, String, ◌≡◌, Bool, true, false, Option, none, some, List, [], ◌∷◌, ◌++◌, if◌then◌else◌,
}
use mcabber_jingle.Stanza.{
  Node, element, nil, cons, node_list, Message, LmMessageSubType, sub_result, sub_error, sub_set,
  sub_other, Host, JingleAction, session_accept, session_initiate,
}
use mcabber_jingle.Actions.{action_name}
use mcabber_jingle.Session.{JingleSession, SessionContent, peer, get_session, session_delete}
use mcabber_jingle.Jingle.{
  Jingle, Modules, Sent, request, AckCallback, on_accept_ack, on_initiate_ack, on_ibb_ack,
  ContentRef, nodes_of, ns_jingle, send, ◌>>=◌,
}
use mcabber_jingle.Ack.{JingleAckType, ack_response, ack_timeout, Run, jingle_new_ack_handler}

-- An attribute whose value is not NULL.
abbrev pub attribute : String → Option String → List (String × String)
attribute name none = []
attribute name (some v) = (name, v) ∷ []

abbrev pub add_child : Node → Node → Node
add_child (element n v attrs cs) c = element n v attrs (nodes_of (node_list cs ++ c ∷ []))

abbrev pub set_attribute : String → Option String → Node → Node
set_attribute name value (element n v attrs cs) = element n v (attrs ++ attribute name value) cs

abbrev pub reason_child : Option String → List Node
reason_child none = []
reason_child (some r) = element "reason" none [] (cons (element r none [] nil) nil) ∷ []

-- The stanza of `jingle_send_session_terminate`: it goes to `js->to`.
unfoldable pub terminate_stanza : JingleSession → Option String → Sent
terminate_stanza js reason = request js.to (
    element "jingle" none
      (("xmlns", ns_jingle) ∷ ("action", "session-terminate") ∷ attribute "sid" js.sid)
      (nodes_of (reason_child reason)))

abbrev pub jingle_element : JingleSession → JingleAction → String → Node
jingle_element js action sid =
    element "jingle" none
      (("xmlns", ns_jingle) ∷ attribute "action" (action_name action) ++ ("sid", sid) ∷ []) nil

module _ {W : Type 0} where
  unfoldable pub jingle_send_session_terminate : ℕ → Option String → Jingle W → Option (Jingle W)
  unfolding get_session terminate_stanza jingle_new_ack_handler
  jingle_send_session_terminate a reason j = do
    js ← get_session a j.sessions
    some (send (terminate_stanza js reason) (jingle_new_ack_handler none 0 j))

  -- `lm_insert_sessioncontent`: both pointers to functions are read.
  unfoldable pub lm_insert_sessioncontent : Modules W → W → SessionContent → Node → Option Node
  lm_insert_sessioncontent m w c jnode = do
    tf ← c.transfuncs
    af ← c.appfuncs
    let node = element "content" none (attribute "name" c.name) nil
    some (
        add_child jnode (
          Modules.app_tomessage m af c.description w
            (Modules.trans_tomessage m tf c.transport w node)))

  unfoldable pub insert_contents : Modules W → W → List SessionContent → Node → Option Node
  unfolding lm_insert_sessioncontent
  insert_contents m w [] jnode = some jnode
  insert_contents m w (c ∷ cs) jnode = elim (lm_insert_sessioncontent m w c jnode) [
    | none ↦ none
    | some jnode' ↦ insert_contents m w cs jnode'
  ]

  -- The recipient and the <jingle> child; inside, `none` for the result NULL of a session with no
  -- identifier.
  unfoldable pub lm_message_from_jinglesession :
      Modules W → W → JingleSession → JingleAction → Option (Option (Option String × Node))
  unfolding insert_contents
  lm_message_from_jinglesession m w js action = elim js.sid [
    | none ↦ some none
    | some sid ↦ elim (insert_contents m w js.content (jingle_element js action sid)) [
      | none ↦ none
      | some jnode ↦ some (some (peer js, jnode))
    ]
  ]

  unfoldable pub jingle_send_session_accept : Modules W → ℕ → Jingle W → Option (Jingle W)
  unfolding get_session lm_message_from_jinglesession jingle_new_ack_handler
  jingle_send_session_accept m a j = do
    js ← get_session a j.sessions
    message ← lm_message_from_jinglesession m j.world js session_accept
    elim message [
      | none ↦ some j
      | some (to, jnode) ↦
          some (send (request to jnode) (jingle_new_ack_handler (some (on_accept_ack a)) 60 j))
    ]

  abbrev pub delete_at : ℕ → Jingle W → Option (Jingle W)
  delete_at a j = do ss ← session_delete a j.sessions; some (record j { sessions = ss })

  -- `delivered` is whether loudmouth took the stanza with no error. The handle stays registered if
  -- it did not. A message that is NULL is read from.
  unfoldable pub jingle_send_session_initiate : Modules W → Bool → ℕ → Jingle W → Option (Jingle W)
  unfolding get_session lm_message_from_jinglesession jingle_new_ack_handler session_delete
  jingle_send_session_initiate m delivered a j = do
    js ← get_session a j.sessions
    message ← lm_message_from_jinglesession m j.world js session_initiate
    built ← message
    let stanza = request built.0 (set_attribute "initiator" js.from built.1)
    let j' = jingle_new_ack_handler (some (on_initiate_ack a)) 60 j
    if delivered then some (send stanza j') else delete_at a j'

  -- The part that `jingle_handle_ack_iq_sa` and `jingle_handle_ack_iq_si` share, which differ in what
  -- they log: an answer of type "result" keeps the session; a timeout, an error or any other answer
  -- deletes it. An error is read through its child <error>.
  unfoldable pub jingle_handle_ack_iq_session :
      Host → ℕ → JingleAckType → Option Message → Jingle W → Option (Jingle W)
  unfolding session_delete
  jingle_handle_ack_iq_session h a ack_timeout answer j = delete_at a j
  jingle_handle_ack_iq_session h a ack_response answer j = do
    mess ← answer
    elim mess.sub_type [
      | sub_result ↦ some j
      | sub_error ↦ elim (Host.get_child h mess.node "error") [
        | none ↦ none
        | some e ↦ delete_at a j
      ]
      | sub_set ↦ delete_at a j
      | sub_other ↦ delete_at a j
    ]

  unfoldable pub jingle_handle_ack_iq_sa :
      Host → ℕ → JingleAckType → Option Message → Jingle W → Option (Jingle W)
  unfolding jingle_handle_ack_iq_session
  jingle_handle_ack_iq_sa h a type answer j = jingle_handle_ack_iq_session h a type answer j

  unfoldable pub jingle_handle_ack_iq_si :
      Host → ℕ → JingleAckType → Option Message → Jingle W → Option (Jingle W)
  unfolding jingle_handle_ack_iq_session
  jingle_handle_ack_iq_si h a type answer j = jingle_handle_ack_iq_session h a type answer j

  -- The callbacks of send.c; those of the transports are the argument `ibb`.
  unfoldable pub run_callback :
      Host → (ContentRef → JingleAckType → Option Message → Jingle W → Option (Jingle W)) → Run W
  unfolding jingle_handle_ack_iq_sa jingle_handle_ack_iq_si
  run_callback h ibb (on_accept_ack a) type answer j = jingle_handle_ack_iq_sa h a type answer j
  run_callback h ibb (on_initiate_ack a) type answer j = jingle_handle_ack_iq_si h a type answer j
  run_callback h ibb (on_ibb_ack sc) type answer j = ibb sc type answer j
