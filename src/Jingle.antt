-- ===== src/Jingle.antt =====
-- The state of the jingle module, the interface through which it calls application and transport
-- modules (jingle/register.h), and the replies that it sends (jingle/jingle.c).
--
-- A function that may read through a NULL or dangling pointer returns an Option: `none` is that
-- fault. What is sent is appended to `sent`, oldest first. Log lines are left out.
use mcabber_jingle.Base.{ℕ, String, Option, none, some, List, [], ◌∷◌, ◌++◌}
use mcabber_jingle.Stanza.{
  Node, Nodes, element, nil, cons, Message, LmMessageSubType, sub_result, sub_error, Host,
  JingleAction, JingleContent, GError,
}
use mcabber_jingle.Registry.{Registry}
use mcabber_jingle.Session.{JingleSession}

pub data JingleHandleStatus : Type 0 where
  status_handled status_not_handled status_handle_error : JingleHandleStatus

-- The values of the C enumeration.
abbrev pub status_value : JingleHandleStatus → ℕ
status_value status_handled = 0
status_value status_not_handled = 1
status_value status_handle_error = 2

-- `session_content`: the names by which modules point at a content.
pub record ContentRef : Type 0 where
  pub sid : Option String
  pub from : Option String
  pub name : Option String

-- JingleAppFuncs and JingleTransportFuncs behind their pointers. `W` is the state of the modules.
-- `app_handle` may be NULL. The functions that call back into jingle are not here.
pub record Modules (W : Type 0) : Type 0 where
  pub app_newfrommessage : ℕ → JingleContent → W → Option ℕ × Option GError × W
  pub app_handle : ℕ → Option (JingleAction → Option ℕ → Option Node → W → JingleHandleStatus × W)
  pub app_tomessage : ℕ → Option ℕ → W → Node → Node
  pub app_stop : ℕ → Option ℕ → W → W
  pub app_info : ℕ → Option ℕ → W → String
  pub trans_newfrommessage : ℕ → JingleContent → W → Option ℕ × Option GError × W
  pub trans_handle : ℕ → JingleAction → Option ℕ → Option Node → W → JingleHandleStatus × W
  pub trans_tomessage : ℕ → Option ℕ → W → Node → Node
  pub trans_init : ℕ → ContentRef → Option ℕ → W → W
  pub trans_info : ℕ → Option ℕ → W → String

-- A stanza that is sent: a reply made from the query that it answers, with the nodes added to it; or
-- an IQ of type "set" to a JID, with its child.
pub data Sent : Type 0 where
  reply : Message → LmMessageSubType → List Node → Sent
  request : Option String → Node → Sent

-- The callback of a JingleAckHandle with its `user_data`.
pub data AckCallback : Type 0 where
  on_accept_ack on_initiate_ack : ℕ → AckCallback
  on_ibb_ack : ContentRef → AckCallback

pub record JingleAckHandle : Type 0 where
  pub addr : ℕ
  pub callback : Option AckCallback
  pub timeout : ℕ
  pub inserted : ℕ

-- `fresh` is the next address that an allocation gets, `now` what `time (NULL)` answers, `events`
-- the sessions that wait for the user's answer, `shown` the lines shown for contents.
pub record Jingle (W : Type 0) : Type 0 where
  pub registry : Registry
  pub sessions : List JingleSession
  pub fresh : ℕ
  pub ack_handlers : List JingleAckHandle
  pub now : ℕ
  pub sent : List Sent
  pub events : List ℕ
  pub shown : List (String × String)
  pub world : W

infixl 5 ◌>>=◌
abbrev pub ◌>>=◌ {ℓ κ} : {A : Type ℓ} {B : Type κ} → Option A → (A → Option B) → Option B
none >>= f = none
some a >>= f = f a

abbrev pub nodes_of : List Node → Nodes
nodes_of [] = nil
nodes_of (n ∷ ns) = cons n (nodes_of ns)

abbrev pub ns_jingle : String
ns_jingle = "urn:xmpp:jingle:1"

abbrev pub ns_jingle_errors : String
ns_jingle_errors = "urn:xmpp:jingle:errors:1"

-- A child with a namespace alone, if its name is not NULL.
abbrev condition : Option String → String → List Node
condition none ns = []
condition (some name) ns = element name none (("xmlns", ns) ∷ []) nil ∷ []

unfoldable pub jingle_new_iq_error : Host → Message → String → Option String → Option String → Sent
jingle_new_iq_error h m errtype cond jinglecond = reply m sub_error (
    element "error" none (("type", errtype) ∷ [])
      (nodes_of (condition cond (Host.ns_xmpp_stanzas h) ++ condition jinglecond ns_jingle_errors))
    ∷ [])

abbrev pub send : {W : Type 0} → Sent → Jingle W → Jingle W
send x j = record j { sent = j.sent ++ x ∷ [] }

unfoldable pub jingle_ack_iq : {W : Type 0} → Message → Jingle W → Jingle W
jingle_ack_iq m j = send (reply m sub_result []) j

unfoldable pub jingle_send_iq_error :
    {W : Type 0} → Host → Message → String → Option String → Option String → Jingle W → Jingle W
jingle_send_iq_error h m errtype cond jinglecond j =
    send (jingle_new_iq_error h m errtype cond jinglecond) j
