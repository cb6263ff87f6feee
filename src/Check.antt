-- ===== src/Check.antt =====
-- jingle/check.c: a <jingle> element and its <content> children are read into structs, and refused
-- if they are malformed. A function returns its result and the GError variable after it.
pub mod Element
pub mod Content
pub mod Contents
use mcabber_jingle.Base.{
  ℕ, zero, suc, String, ◌≡◌, Bool, true, false, not, ◌||◌, ◌&&◌, Option, none, some, List, [], ◌∷◌,
  ◌++◌, str_eq, if◌then◌else◌,
}
use mcabber_jingle.Stanza.{
  Node, Message, Host, JingleNode, JingleContent, JingleCreator, creator_initiator,
  creator_responder, JingleSenders, senders_both, senders_initiator, senders_none,
  senders_responder, ContentList, held, freed, GError, error_missing, error_badvalue, set_error,
  JingleAction, unknown_action, node_name, node_children,
}
use mcabber_jingle.Actions.{jingle_action_from_str}

abbrev is_none {ℓ} : {A : Type ℓ} → Option A → Bool
is_none none = true
is_none (some a) = false

abbrev pub is_unknown : JingleAction → Bool
is_unknown unknown_action = true
is_unknown _ = false

-- The index of a text in an array, `none` for -1.
index_from : ℕ → Option String → List String → Option ℕ
index_from i str [] = none
index_from i str (x ∷ xs) = if str_eq (some x) str then some i else index_from (suc i) str xs

unfoldable pub index_in_array : Option String → List String → Option ℕ
unfolding index_from str_eq
index_in_array str array = index_from 0 str array

abbrev pub jingle_content_creator : List String
jingle_content_creator = "initiator" ∷ "responder" ∷ []

abbrev pub jingle_content_senders : List String
jingle_content_senders = "both" ∷ "initiator" ∷ "none" ∷ "responder" ∷ []

-- The casts of an index to an enumeration.
abbrev pub creator_cast : Option ℕ → Option JingleCreator
creator_cast (some zero) = some creator_initiator
creator_cast (some (suc zero)) = some creator_responder
creator_cast _ = none

abbrev pub senders_cast : Option ℕ → Option JingleSenders
senders_cast (some zero) = some senders_both
senders_cast (some (suc zero)) = some senders_initiator
senders_cast (some (suc (suc zero))) = some senders_none
senders_cast (some (suc (suc (suc zero)))) = some senders_responder
senders_cast _ = none

-- An unknown creator sets the error and does not return.
abbrev pub read_creator : Option String → Option GError → Option JingleCreator × Option GError
read_creator none err = (some creator_initiator, err)
read_creator (some s) err = elim (index_in_array (some s) jingle_content_creator) [
  | none ↦ (none, set_error error_badvalue "the creator attribute is invalid" err)
  | some i ↦ (creator_cast (some i), err)
]

-- `none` where the senders are unknown.
abbrev pub read_senders : Option String → Option JingleSenders
read_senders none = some senders_both
read_senders (some s) = senders_cast (index_in_array (some s) jingle_content_senders)

abbrev pub append_content : ContentList → JingleContent → ContentList
append_content (held cs) cn = held (cs ++ cn ∷ [])
append_content freed cn = freed

-- On an error a list that is not NULL is freed, and `jn->content` still points to it.
abbrev pub free_contents : ContentList → ContentList
free_contents (held []) = held []
free_contents (held (cn ∷ cs)) = freed
free_contents freed = freed

abbrev pub is_content : Node → Bool
is_content n = str_eq (some (node_name n)) (some "content")

module _ (h : Host) where
  open h use {get_attribute, get_child, check_jid_syntax}

  abbrev pub bad_jid : Option String → Bool
  bad_jid none = false
  bad_jid (some j) = check_jid_syntax j

  -- The attributes are stored before anything is checked.
  abbrev pub with_attributes : Node → JingleNode → JingleNode
  with_attributes node jn = record jn {
    initiator = get_attribute node "initiator";
    responder = get_attribute node "responder";
    sid = get_attribute node "sid";
  }

  abbrev with_action : Node → JingleNode → JingleNode
  with_action node jn = record (with_attributes node jn) {
    action = jingle_action_from_str (get_attribute node "action");
  }

  -- The error that the attributes of the element give, in the order of the checks.
  unfoldable pub check_jingle :
      Message → Node → JingleNode → Option GError → JingleNode × Option GError
  check_jingle message node jn err =
      if is_none (get_attribute node "action") || is_none (get_attribute node "sid")
      then (
        with_attributes node jn,
        set_error error_missing "an attribute of the jingle element is missing" err,
      )
      else if bad_jid (get_attribute node "initiator")
      then (
        with_attributes node jn,
        set_error error_badvalue "the initiator attribute in invalid (not a jid)" err,
      )
      else if is_unknown (jingle_action_from_str (get_attribute node "action"))
      then (with_action node jn, set_error error_badvalue "the action attribute is invalid" err)
      else (record (with_action node jn) { message = some message; node = some node }, err)

  unfoldable pub check_parts :
      Node
      → Option JingleCreator
      → JingleSenders
      → Option GError
      → Option JingleContent × Option GError
  check_parts node creator senders err =
      if is_none (get_child node "description") || is_none (get_child node "transport")
      then (none, set_error error_missing "a child element of content is missing" err)
      else (
        some (record {
          node = node;
          creator = creator;
          disposition = get_attribute node "disposition";
          name = get_attribute node "name";
          senders = senders;
          description = get_child node "description";
          transport = get_child node "transport";
        }),
        err,
      )

  unfoldable pub check_senders :
      Node → Option JingleCreator → Option GError → Option JingleContent × Option GError
  unfolding check_parts
  check_senders node creator err = elim (read_senders (get_attribute node "senders")) [
    | none ↦ (none, set_error error_badvalue "the senders attribute is invalid" err)
    | some senders ↦ check_parts node creator senders err
  ]

  unfoldable pub check_content : Node → Option GError → Option JingleContent × Option GError
  unfolding check_senders
  check_content node err =
      if is_none (get_attribute node "name")
      then (
        none,
        set_error error_missing "the name attribute of the content element is missing" err,
      )
      else (let (creator, err') = read_creator (get_attribute node "creator") err in
          check_senders node creator err')

  unfoldable pub check_children :
      List Node → ContentList → Option GError → Bool × ContentList × Option GError
  check_children [] content err = (true, content, err)
  check_children (child ∷ rest) content err = elim (is_content child) [
    | false ↦ check_children rest content err
    | true ↦
        let (result, err') = check_content child err in
        elim result [
          | none ↦ (false, free_contents content, err')
          | some cn ↦ check_children rest (append_content content cn) err'
        ]
  ]

  -- `none` is a read through NULL: `jn->node` is set by `check_jingle`.
  unfoldable pub check_contents :
      JingleNode → Option GError → Option (Bool × JingleNode × Option GError)
  unfolding check_children
  check_contents jn err = elim jn.node [
    | none ↦ none
    | some node ↦
        let (result, content, err') = check_children (node_children node) jn.content err in
        some (result, record jn { content = content }, err')
  ]
