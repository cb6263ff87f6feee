-- ===== src/Stanza.antt =====
-- jingle/jingle.h and jingle/check.h: the stanzas that come in, their parsed form, and the services
-- of loudmouth, GLib and mcabber that the jingle module reads them with.
--
-- The structs of loudmouth whose fields the code reads (`node->name`, `node->children`) are data
-- types. What it calls is a field of `Host`, an argument of all that uses it.
use mcabber_jingle.Base.{ℕ, String, Bool, Option, none, some, List, [], ◌∷◌}

-- LmMessageNode: name, value, attributes and children.
mutual
  pub data Node : Type 0 where
    element : String → Option String → List (String × String) → Nodes → Node

  pub data Nodes : Type 0 where
    nil : Nodes
    cons : Node → Nodes → Nodes

abbrev pub node_list : Nodes → List Node
node_list nil = []
node_list (cons n ns) = n ∷ node_list ns

abbrev pub node_name : Node → String
node_name (element n v attrs cs) = n

abbrev pub node_children : Node → List Node
node_children (element n v attrs cs) = node_list cs

-- LM_MESSAGE_SUB_TYPE_…: those that the code tells apart.
pub data LmMessageSubType : Type 0 where
  sub_set sub_result sub_error sub_other : LmMessageSubType

pub record Message : Type 0 where
  pub sub_type : LmMessageSubType
  pub node : Node

-- What the code calls and does not implement. `get_attribute` and `get_child` answer NULL where
-- there is no such attribute or child; `check_jid_syntax` is true at what is no jid; `in_roster` is
-- `roster_find (jidtodisp (from), jidsearch, 0) != NULL`; `strcase_eq` is
-- `!g_ascii_strcasecmp (a, b)`; `evs_new` is whether mcabber makes one more event, beside those that
-- wait for the user; `ns_xmpp_stanzas` is the constant NS_XMPP_STANZAS of mcabber.
pub record Host : Type 0 where
  pub get_attribute : Node → String → Option String
  pub get_child : Node → String → Option Node
  pub message_from : Message → Option String
  pub check_jid_syntax : String → Bool
  pub in_roster : Option String → Bool
  pub strcase_eq : Option String → Option String → Bool
  pub evs_new : List ℕ → Bool
  pub ns_xmpp_stanzas : String

pub data JingleAction : Type 0 where
  unknown_action content_accept content_add content_modify content_reject content_remove
        description_info security_info session_accept session_info session_initiate
        session_terminate transport_accept transport_info transport_reject transport_replace :
      JingleAction

pub data JingleCreator : Type 0 where
  creator_initiator creator_responder : JingleCreator

pub data JingleSenders : Type 0 where
  senders_both senders_initiator senders_none senders_responder : JingleSenders

-- `creator` is `none` where an index of -1 was cast to the enumeration.
pub record JingleContent : Type 0 where
  pub node : Node
  pub creator : Option JingleCreator
  pub disposition : Option String
  pub name : Option String
  pub senders : JingleSenders
  pub description : Option Node
  pub transport : Option Node

-- `jn->content`: a list, NULL if it is empty, or what is left of a list that was freed.
pub data ContentList : Type 0 where
  held : List JingleContent → ContentList
  freed : ContentList

pub record JingleNode : Type 0 where
  pub message : Option Message
  pub node : Option Node
  pub action : JingleAction
  pub initiator : Option String
  pub responder : Option String
  pub sid : Option String
  pub content : ContentList

-- `g_new0 (JingleNode, 1)`.
abbrev pub new_jingle_node : JingleNode
new_jingle_node = record {
  message = none;
  node = none;
  action = unknown_action;
  initiator = none;
  responder = none;
  sid = none;
  content = held [];
}

pub data JingleCheckError : Type 0 where
  error_missing error_badelem error_badvalue : JingleCheckError

-- A GError of the domain JINGLE_CHECK_ERROR.
pub record GError : Type 0 where
  pub code : JingleCheckError
  pub message : String

-- `g_set_error (err, …)`: an error that is already set stays.
abbrev pub set_error : JingleCheckError → String → Option GError → Option GError
set_error c m none = some (record { code = c; message = m })
set_error c m (some e) = some e
