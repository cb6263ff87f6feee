-- ===== src/Check/Element.antt =====
-- jingle/check.c, `check_jingle`: which <jingle> elements are accepted.
use mcabber_jingle.Base.{String, ◌≡◌, ◌≢◌, ◌↔◌, ◌⊎◌, false, none, some, arith}
use mcabber_jingle.Stanza.{Node, Message, Host, JingleNode, unknown_action}
use mcabber_jingle.Actions.{jingle_action_from_str}
use mcabber_jingle.Check.{check_jingle}

module _ (h : Host) (node : Node) where
  open h use {get_attribute, check_jid_syntax}

  -- The element names an action of the table and a session, and its initiator, if any, is a JID.
  pub record IsJingle : Type 0 where
    pub has_action : get_attribute node "action" ≢ none
    pub has_sid : get_attribute node "sid" ≢ none
    pub initiator_jid :
        (get_attribute node "initiator" ≡ none)
        ⊎ ((j : String) × (get_attribute node "initiator" ≡ some j) × (check_jid_syntax j ≡ false))
    pub known : jingle_action_from_str (get_attribute node "action") ≢ unknown_action

  -- An accepted element is stored whole: its session, its action and the stanza that it came in,
  -- with no content yet.
  pub record IsStored (message : Message) (jn jn' : JingleNode) : Type 0 where
    pub sid : jn'.sid ≡ get_attribute node "sid"
    pub action : jn'.action ≡ jingle_action_from_str (get_attribute node "action")
    pub initiator : jn'.initiator ≡ get_attribute node "initiator"
    pub responder : jn'.responder ≡ get_attribute node "responder"
    pub from_message : jn'.message ≡ some message
    pub from_node : jn'.node ≡ some node
    pub content : jn'.content ≡ jn.content

  -- An element is accepted exactly if it names a known action and a session and its initiator, if
  -- any, is a JID; and then it is stored whole, with the stanza that it came in.
  pub check_jingle_iff :
      (message : Message) (jn : JingleNode)
      → ((check_jingle h message node jn none).1 ≡ none ↔ IsJingle)
        × (IsJingle → IsStored message jn (check_jingle h message node jn none).0)
  unfolding check_jingle
  check_jingle_iff message jn = ((λ e. ground arith, λ j. ground arith), λ j. ground arith)
