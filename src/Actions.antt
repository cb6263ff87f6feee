-- ===== src/Actions.antt =====
-- jingle/jingle.c, `jingle_action_list` and `jingle_action_from_str`: the actions, their names and
-- their handlers.
use mcabber_jingle.Base.{
  ℕ, suc, String, ◌≡◌, refl, Option, none, some, List, [], ◌∷◌, str_eq, if◌then◌else◌, get_elem?,
}
use mcabber_jingle.Stanza.{
  JingleAction, unknown_action, content_accept, content_add, content_modify, content_reject,
  content_remove, description_info, security_info, session_accept, session_info, session_initiate,
  session_terminate, transport_accept, transport_info, transport_reject, transport_replace,
}

-- The functions of action-handlers.c that the table points to.
pub data Handler : Type 0 where
  on_session_accept on_session_info on_session_initiate on_session_terminate on_transport_info :
      Handler

pub record JingleActionList : Type 0 where
  pub name : Option String
  pub handler : Option Handler

abbrev entry : String → Option Handler → JingleActionList
entry name handler = record { name = some name; handler = handler }

unfoldable pub jingle_action_list : List JingleActionList
jingle_action_list =
    record { name = none; handler = none }
    ∷ entry "content-accept" none
    ∷ entry "content-add" none
    ∷ entry "content-modify" none
    ∷ entry "content-reject" none
    ∷ entry "content-remove" none
    ∷ entry "description-info" none
    ∷ entry "security-info" none
    ∷ entry "session-accept" (some on_session_accept)
    ∷ entry "session-info" (some on_session_info)
    ∷ entry "session-initiate" (some on_session_initiate)
    ∷ entry "session-terminate" (some on_session_terminate)
    ∷ entry "transport-accept" none
    ∷ entry "transport-info" (some on_transport_info)
    ∷ entry "transport-reject" none
    ∷ entry "transport-replace" none
    ∷ []

-- The enumeration JingleAction in its order.
abbrev actions : List JingleAction
actions =
    unknown_action ∷ content_accept ∷ content_add ∷ content_modify ∷ content_reject ∷ content_remove
    ∷ description_info ∷ security_info ∷ session_accept ∷ session_info ∷ session_initiate
    ∷ session_terminate ∷ transport_accept ∷ transport_info ∷ transport_reject ∷ transport_replace
    ∷ []

-- The value of an action in the enumeration, by which the code indexes the table.
abbrev pub action_value : JingleAction → ℕ
action_value unknown_action = 0
action_value content_accept = 1
action_value content_add = 2
action_value content_modify = 3
action_value content_reject = 4
action_value content_remove = 5
action_value description_info = 6
action_value security_info = 7
action_value session_accept = 8
action_value session_info = 9
action_value session_initiate = 10
action_value session_terminate = 11
action_value transport_accept = 12
action_value transport_info = 13
action_value transport_reject = 14
action_value transport_replace = 15

-- The cast `(JingleAction) i` of an index of the table.
abbrev or_unknown : Option JingleAction → JingleAction
or_unknown none = unknown_action
or_unknown (some a) = a

abbrev pub action_cast : ℕ → JingleAction
action_cast i = or_unknown (get_elem? actions i)

unfoldable pub action_search : List JingleActionList → ℕ → Option String → JingleAction
action_search [] i string = unknown_action
action_search (e ∷ es) i string =
    if str_eq e.name string then action_cast i else action_search es (suc i) string

unfoldable pub jingle_action_from_str : Option String → JingleAction
unfolding action_search jingle_action_list str_eq
jingle_action_from_str string = action_search jingle_action_list 0 string

-- `jingle_action_list[action].name`.
abbrev name_of_entry : Option JingleActionList → Option String
name_of_entry none = none
name_of_entry (some e) = e.name

unfoldable pub action_name : JingleAction → Option String
unfolding jingle_action_list
action_name a = name_of_entry (get_elem? jingle_action_list (action_value a))

-- `jingle_action_list[action].handler`.
abbrev handler_of_entry : Option JingleActionList → Option Handler
handler_of_entry none = none
handler_of_entry (some e) = e.handler

unfoldable pub action_handler : JingleAction → Option Handler
unfolding jingle_action_list
action_handler a = handler_of_entry (get_elem? jingle_action_list (action_value a))

-- The table is aligned with the enumeration: the name at an action's index is read as that action.
pub action_from_str-name : (a : JingleAction) → jingle_action_from_str (action_name a) ≡ a
unfolding jingle_action_from_str action_name
action_from_str-name unknown_action = refl
action_from_str-name _ = refl
