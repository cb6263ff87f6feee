-- ===== src/Send/Messages.antt =====
-- jingle/send.c and jingle/sessions.c: the stanzas that are built from a session.
use mcabber_jingle.Base.{
  ℕ, String, ◌≡◌, refl, sym, ap, ◌∙◌, Option, none, some, List, [], ◌∷◌, ◌++◌, arith, All,
  append-nil, append_assoc,
}
use mcabber_jingle.Stanza.{Node, element, nil, node_list, JingleAction}
use mcabber_jingle.Session.{JingleSession, SessionContent, peer}
use mcabber_jingle.Jingle.{Modules, nodes_of, ns_jingle}
use mcabber_jingle.Actions.{action_name}
use mcabber_jingle.Send.{
  attribute, lm_insert_sessioncontent, insert_contents, lm_message_from_jinglesession,
}

node_list-nodes_of : (ns : List Node) → node_list (nodes_of ns) ≡ ns
node_list-nodes_of [] = refl
node_list-nodes_of (n ∷ ns) = ap (◌∷◌ n) (node_list-nodes_of ns)

-- A content that has the functions of both its modules.
pub record IsBound (c : SessionContent) : Type 0 where
  pub app : ℕ
  pub trans : ℕ
  pub has_app : c.appfuncs ≡ some app
  pub has_trans : c.transfuncs ≡ some trans

module _ {W : Type 0} (m : Modules W) (w : W) where
  -- The <content> of a session content: named, and filled by its transport and then its application.
  abbrev pub content_node : (c : SessionContent) → IsBound c → Node
  content_node c b = Modules.app_tomessage m b.app c.description w (
      Modules.trans_tomessage m b.trans c.transport w
        (element "content" none (attribute "name" c.name) nil))

  abbrev pub content_nodes : (cs : List SessionContent) → All IsBound cs → List Node
  content_nodes [] b = []
  content_nodes (c ∷ cs) b = content_node c b.0 ∷ content_nodes cs b.1

  insert_all :
      (name : String) (value : Option String) (attrs : List (String × String)) (before : List Node)
      (cs : List SessionContent) (b : All IsBound cs)
      → insert_contents m w cs (element name value attrs (nodes_of before))
        ≡ some (element name value attrs (nodes_of (before ++ content_nodes cs b)))
  unfolding insert_contents lm_insert_sessioncontent
  insert_all name value attrs before [] b =
      ap (λ l. some (element name value attrs (nodes_of l))) (sym (append-nil before))
  insert_all name value attrs before (c ∷ cs) b =
      rw (b.0.has_trans, b.0.has_app, node_list-nodes_of before)
        (insert_all name value attrs (before ++ content_node c b.0 ∷ []) cs b.1
          ∙ ap (λ l. some (element name value attrs (nodes_of l)))
              (append_assoc before (content_node c b.0 ∷ []) (content_nodes cs b.1)))

  -- The <jingle> element about a session whose contents have the functions of their modules: its
  -- namespace, action and identifier, and one <content> for each content, in their order; and it goes
  -- to the other party.
  pub message-content_nodes :
      (js : JingleSession) (action : JingleAction) (sid : String) (b : All IsBound js.content)
      → js.sid ≡ some sid
      → lm_message_from_jinglesession m w js action
        ≡ some (
            some (
              peer js,
              element "jingle" none
                  (("xmlns", ns_jingle) ∷ attribute "action" (action_name action)
                    ++ ("sid", sid) ∷ [])
                  (nodes_of (content_nodes js.content b)),
            ))
  unfolding lm_message_from_jinglesession
  message-content_nodes js action sid b e =
      let built =
        insert_all "jingle" none
          (("xmlns", ns_jingle) ∷ attribute "action" (action_name action) ++ ("sid", sid) ∷ []) []
          js.content b in
      ground arith
