-- ===== src/Tests/World.antt =====
-- Concrete services, modules, sessions and stanzas.
use mcabber_jingle.Base.{
  ℕ, suc, String, Bool, true, false, Option, none, some, List, [], ◌∷◌, str_eq, if◌then◌else◌,
  find?,
}
use mcabber_jingle.Stanza.{
  Node, Nodes, element, nil, cons, node_list, Message, sub_set, Host, JingleContent,
  creator_initiator, senders_both, JingleNode, session_initiate, session_info, held,
}
use mcabber_jingle.Registry.{Registry, streaming, prio_normal}
use mcabber_jingle.Session.{SessionContent, JingleSession, incoming, outgoing, state_pending}
use mcabber_jingle.Jingle.{Modules, Jingle, JingleAckHandle, status_handled, status_not_handled}

abbrev find_attribute : List (String × String) → String → Option String
find_attribute [] name = none
find_attribute (a ∷ rest) name =
    if str_eq (some a.0) (some name) then some a.1 else find_attribute rest name

abbrev pub node_attribute : Node → String → Option String
node_attribute (element n v attrs cs) name = find_attribute attrs name

abbrev is_called : String → Node → Bool
is_called name (element n v attrs cs) = str_eq (some n) (some name)

abbrev pub node_child : Node → String → Option Node
node_child (element n v attrs cs) name = find? (is_called name) (node_list cs)

abbrev pub host : Host
host = record {
  get_attribute = node_attribute;
  get_child = node_child;
  message_from = λ msg. node_attribute msg.node "from";
  check_jid_syntax = λ jid. false;
  in_roster = λ from. true;
  strcase_eq = str_eq;
  evs_new = λ events. true;
  ns_xmpp_stanzas = "urn:ietf:params:xml:ns:xmpp-stanzas";
}

-- Modules that count their calls, and whose data are the count.
abbrev pub modules : Modules ℕ
modules = record {
  app_newfrommessage = λ funcs cn w. (some w, none, suc w);
  app_handle = λ funcs. some (λ action stored payload w. (status_handled, suc w));
  app_tomessage = λ funcs stored w node. node;
  app_stop = λ funcs stored w. suc w;
  app_info = λ funcs stored w. "a file";
  trans_newfrommessage = λ funcs cn w. (some w, none, suc w);
  trans_handle = λ funcs action stored node w. (status_handled, suc w);
  trans_tomessage = λ funcs stored w node. node;
  trans_init = λ funcs sc stored w. suc w;
  trans_info = λ funcs stored w. "in-band";
}

-- Modules that answer that they did not handle a session-info.
abbrev pub refusing_modules : Modules ℕ
refusing_modules = record modules {
  app_handle = λ funcs. some (λ action stored payload w. (status_not_handled, suc w));
}

abbrev pub ns_file : String
ns_file = "urn:xmpp:jingle:apps:file-transfer:1"

abbrev pub ns_ibb : String
ns_ibb = "urn:xmpp:jingle:transports:ibb:1"

abbrev pub registry : Registry
registry = record {
  app_handlers = record { xmlns = ns_file; funcs = 1; transtype = streaming } ∷ [];
  transport_handlers =
      record { xmlns = ns_ibb; funcs = 2; transtype = streaming; priority = prio_normal } ∷ [];
}

abbrev content_node : String → String → Node
content_node name app =
    element "content" none
      (("name", name) ∷ ("creator", "initiator") ∷ ("disposition", "session") ∷ [])
      (cons (element "description" none (("xmlns", app) ∷ []) nil)
        (cons (element "transport" none (("xmlns", ns_ibb) ∷ []) nil) nil))

abbrev jingle_node_of : String → Nodes → Node
jingle_node_of action contents =
    element "jingle" none (("xmlns", "urn:xmpp:jingle:1") ∷ ("action", action) ∷ ("sid", "s1") ∷ [])
      contents

abbrev iq_of : Node → Message
iq_of jnode = record {
  sub_type = sub_set;
  node = element "iq" none (("from", "them@there") ∷ ("to", "us@here") ∷ []) (cons jnode nil);
}

-- A session-initiate with two contents that the registered modules serve.
abbrev pub initiate_node : Node
initiate_node =
    jingle_node_of "session-initiate"
      (cons (content_node "one" ns_file) (cons (content_node "two" ns_file) nil))

abbrev pub initiate_iq : Message
initiate_iq = iq_of initiate_node

abbrev pub content_of : String → JingleContent
content_of name = record {
  node = content_node name ns_file;
  creator = some creator_initiator;
  disposition = some "session";
  name = some name;
  senders = senders_both;
  description = some (element "description" none (("xmlns", ns_file) ∷ []) nil);
  transport = some (element "transport" none (("xmlns", ns_ibb) ∷ []) nil);
}

abbrev pub initiate_jn : JingleNode
initiate_jn = record {
  message = some initiate_iq;
  node = some initiate_node;
  action = session_initiate;
  initiator = none;
  responder = none;
  sid = some "s1";
  content = held [];
}

abbrev pub read_jn : JingleNode
read_jn = record initiate_jn { content = held (content_of "one" ∷ content_of "two" ∷ []) }

-- A session-info with a payload, and a transport-info.
abbrev pub payload : Node
payload = element "ringing" none [] nil

abbrev pub info_node : Node
info_node = jingle_node_of "session-info" (cons payload nil)

abbrev pub info_iq : Message
info_iq = iq_of info_node

abbrev pub info_jn : JingleNode
info_jn = record initiate_jn {
  message = some info_iq;
  node = some info_node;
  action = session_info;
}

-- A session with two contents, and the state in which it is the only one.
abbrev pub one : SessionContent
one = record {
  addr = 1;
  name = some "one";
  state = state_pending;
  xmlns_desc = some ns_file;
  description = some 11;
  appfuncs = some 1;
  xmlns_trans = some ns_ibb;
  transport = some 12;
  transfuncs = some 2;
}

abbrev pub two : SessionContent
two = record one { addr = 2; name = some "two"; description = some 21; transport = some 22 }

abbrev pub session : JingleSession
session = record {
  addr = 0;
  sid = some "s1";
  origin = incoming;
  from = some "them@there";
  to = some "us@here";
  content = one ∷ two ∷ [];
}

abbrev pub other_session : JingleSession
other_session = record session { addr = 5; sid = some "s2"; origin = outgoing; content = [] }

abbrev pub idle : Jingle ℕ
idle = record {
  registry = registry;
  sessions = [];
  fresh = 7;
  ack_handlers = [];
  now = 100;
  sent = [];
  events = [];
  shown = [];
  world = 40;
}

abbrev pub busy : Jingle ℕ
busy = record idle { sessions = session ∷ other_session ∷ [] }

-- Three handles: one that never ends, one that is over, and one that waits.
abbrev pub handle_of : ℕ → ℕ → JingleAckHandle
handle_of addr timeout = record { addr = addr; callback = none; timeout = timeout; inserted = 20 }

abbrev pub handles : List JingleAckHandle
handles = handle_of 3 0 ∷ handle_of 4 60 ∷ handle_of 6 90 ∷ []

abbrev pub waiting : Jingle ℕ
waiting = record busy { ack_handlers = handles }
