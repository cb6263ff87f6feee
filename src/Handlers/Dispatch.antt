-- ===== src/Handlers/Dispatch.antt =====
-- jingle/jingle.c, `jingle_handle_iq`: every IQ that comes in.
use mcabber_jingle.Base.{Bool, true, false, not, Option, none, some, str_eq, if◌then◌else◌}
use mcabber_jingle.Stanza.{
  Message, LmMessageSubType, sub_set, Host, JingleNode, new_jingle_node, held, freed, GError,
}
use mcabber_jingle.Actions.{
  Handler, on_session_accept, on_session_info, on_session_initiate, on_session_terminate,
  on_transport_info, action_handler,
}
use mcabber_jingle.Check.{check_jingle}
use mcabber_jingle.Jingle.{Jingle, Modules, jingle_send_iq_error, ns_jingle}
use mcabber_jingle.Handlers.{handle_session_initiate}
use mcabber_jingle.Handlers.Active.{
  handle_session_accept, handle_session_info, handle_session_terminate, handle_transport_info,
}

pub data LmHandlerResult : Type 0 where
  allow_more_handlers remove_message : LmHandlerResult

abbrev pub is_set_iq : LmMessageSubType → Bool
is_set_iq sub_set = true
is_set_iq _ = false

-- `jingle_free_jinglenode` frees the contents: `none` if they were freed before.
unfoldable pub jingle_free_jinglenode : {A : Type 0} → JingleNode → A → Option A
jingle_free_jinglenode jn a = elim jn.content [ held cs ↦ some a | freed ↦ none ]

module _ (h : Host) {W : Type 0} where
  open h use {get_attribute, get_child}

  unfoldable pub run_handler :
      Modules W → Handler → JingleNode → Jingle W → Option (JingleNode × Jingle W)
  run_handler m on_session_accept jn j = handle_session_accept h m jn j
  run_handler m on_session_info jn j = handle_session_info h m jn j
  run_handler m on_session_initiate jn j = handle_session_initiate h m jn j
  run_handler m on_session_terminate jn j = handle_session_terminate h m jn j
  run_handler m on_transport_info jn j = handle_transport_info h m jn j

  -- After `check_jingle`.
  unfoldable pub dispatch :
      Modules W
      → Message
      → JingleNode × Option GError
      → Jingle W
      → Option (LmHandlerResult × Jingle W)
  unfolding run_handler action_handler jingle_free_jinglenode
  dispatch m msg (jn, some e) j =
      jingle_free_jinglenode jn
        (remove_message, jingle_send_iq_error h msg "cancel" (some "bad-request") none j)
  dispatch m msg (jn, none) j = elim (action_handler jn.action) [
    | none ↦ jingle_free_jinglenode jn (
      remove_message,
      jingle_send_iq_error h msg "cancel" (some "feature-not-implemented") none j,
    )
    | some f ↦ elim (run_handler m f jn j) [
      | none ↦ none
      | some (jn', j') ↦ jingle_free_jinglenode jn' (remove_message, j')
    ]
  ]

  unfoldable pub jingle_handle_iq :
      Modules W → Message → Jingle W → Option (LmHandlerResult × Jingle W)
  unfolding dispatch check_jingle
  jingle_handle_iq m msg j =
      if not (is_set_iq msg.sub_type)
      then some (allow_more_handlers, j)
      else elim (get_child msg.node "jingle") [
        | none ↦ some (allow_more_handlers, j)
        | some jnode ↦
            if not (str_eq (get_attribute jnode "xmlns") (some ns_jingle))
            then some (remove_message, j)
            else dispatch m msg (check_jingle h msg jnode new_jingle_node none) j
      ]
