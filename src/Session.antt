-- ===== src/Session.antt =====
-- jingle/sessions.c and jingle/sessions.h: sessions and their contents.
--
-- A session and a content carry the address at which they were allocated; two pointers are equal if
-- their addresses are. A live session is one that the static list `sessions` holds, so that list is
-- the whole store: `put_session` writes through a pointer, and `get_session` reads through one, with
-- `none` for a pointer that dangles. The field `recipient` of the C struct is never written or read.
pub mod Addresses
pub mod Keys
pub mod Links
pub mod Search
use mcabber_jingle.Base.{
  ℕ, suc, String, ◌≡◌, Bool, true, false, Option, none, some, List, [], ◌∷◌, ◌++◌, ◌&&◌, ◌==◌,
  str_eq, if◌then◌else◌, length, find?, remove_first,
}
use mcabber_jingle.Stanza.{Host, JingleNode, Message}
use mcabber_jingle.Registry.{Registry, jingle_get_appfuncs, jingle_get_transportfuncs}

pub data SessionState : Type 0 where
  state_active state_pending state_ended : SessionState

pub data SessionOrigin : Type 0 where
  incoming outgoing : SessionOrigin

pub record SessionContent : Type 0 where
  pub addr : ℕ
  pub name : Option String
  pub state : SessionState
  pub xmlns_desc : Option String
  pub description : Option ℕ
  pub appfuncs : Option ℕ
  pub xmlns_trans : Option String
  pub transport : Option ℕ
  pub transfuncs : Option ℕ

pub record JingleSession : Type 0 where
  pub addr : ℕ
  pub sid : Option String
  pub origin : SessionOrigin
  pub from : Option String
  pub to : Option String
  pub content : List SessionContent

-- `(js->origin == JINGLE_SESSION_INCOMING) ? js->from : js->to`.
abbrev pub select_peer : SessionOrigin → Option String → Option String → Option String
select_peer incoming from to = from
select_peer outgoing from to = to

abbrev pub peer : JingleSession → Option String
peer s = select_peer s.origin s.from s.to

-- `session_new`: the new session stands last in the list. `a` is the address that it gets.
unfoldable pub session_new :
    ℕ
    → Option String
    → Option String
    → Option String
    → SessionOrigin
    → List JingleSession
    → JingleSession × List JingleSession
session_new a sid from to origin sessions =
    let s : JingleSession = record {
      addr = a;
      sid = sid;
      origin = origin;
      from = from;
      to = to;
      content = [];
    } in
    (s, sessions ++ s ∷ [])

module _ (h : Host) where
  open h use {strcase_eq}

  abbrev pub is_session : Option String → Option String → JingleSession → Bool
  is_session sid from js = str_eq js.sid sid && strcase_eq (peer js) from

  unfoldable pub session_find_by_sid :
      Option String → Option String → List JingleSession → Option JingleSession
  session_find_by_sid sid from sessions = find? (is_session sid from) sessions

abbrev has_addr : ℕ → JingleSession → Bool
has_addr a s = s.addr == a

unfoldable pub get_session : ℕ → List JingleSession → Option JingleSession
get_session a sessions = find? (has_addr a) sessions

unfoldable pub put_session : JingleSession → List JingleSession → List JingleSession
put_session s [] = []
put_session s (t ∷ ts) = if t.addr == s.addr then s ∷ ts else t ∷ put_session s ts

-- `session_remove`: the session leaves the list.
unfoldable pub session_remove : ℕ → List JingleSession → List JingleSession
session_remove a sessions = remove_first (has_addr a) sessions

abbrev pub is_named : Option String → SessionContent → Bool
is_named name sc = str_eq sc.name name

unfoldable pub session_find_sessioncontent : JingleSession → Option String → Option SessionContent
session_find_sessioncontent s name = find? (is_named name) s.content

-- `g_new0 (SessionContent, 1)`, with its name and state.
abbrev pub new_content : ℕ → Option String → SessionState → SessionContent
new_content a name state = record {
  addr = a;
  name = name;
  state = state;
  xmlns_desc = none;
  description = none;
  appfuncs = none;
  xmlns_trans = none;
  transport = none;
  transfuncs = none;
}

-- `a` is the address that the content gets.
unfoldable pub session_add_content :
    ℕ → JingleSession → Option String → SessionState → JingleSession
session_add_content a s name state = record s {
  content = s.content ++ new_content a name state ∷ [];
}

-- A write through the pointer that `session_find_sessioncontent` returned; `none` if that is NULL.
unfoldable pub update_named :
    Option String
    → (SessionContent → SessionContent)
    → List SessionContent
    → Option (List SessionContent)
update_named name f [] = none
update_named name f (c ∷ cs) =
    if is_named name c
    then some (f c ∷ cs)
    else elim (update_named name f cs) [ none ↦ none | some ds ↦ some (c ∷ ds) ]

abbrev pub with_content : JingleSession → Option (List SessionContent) → Option JingleSession
with_content s none = none
with_content s (some cs) = some (record s { content = cs })

abbrev pub set_app : Option String → Option ℕ → Option ℕ → SessionContent → SessionContent
set_app xmlns funcs app c = record c { xmlns_desc = xmlns; appfuncs = funcs; description = app }

abbrev pub set_trans : Option String → Option ℕ → Option ℕ → SessionContent → SessionContent
set_trans xmlns funcs trans c = record c {
  xmlns_trans = xmlns;
  transfuncs = funcs;
  transport = trans;
}

unfoldable pub session_add_app :
    Registry → JingleSession → Option String → Option String → Option ℕ → Option JingleSession
unfolding update_named
session_add_app r s name xmlns app =
    with_content s (update_named name (set_app xmlns (jingle_get_appfuncs xmlns r) app) s.content)

unfoldable pub session_add_trans :
    Registry → JingleSession → Option String → Option String → Option ℕ → Option JingleSession
unfolding update_named
session_add_trans r s name xmlns trans =
    with_content s
      (update_named name (set_trans xmlns (jingle_get_transportfuncs xmlns r) trans) s.content)

-- `g_slist_remove (sess->content, sc)`, by the address of `sc`.
abbrev content_has_addr : ℕ → SessionContent → Bool
content_has_addr a c = c.addr == a

unfoldable pub unlink_content : ℕ → JingleSession → JingleSession
unlink_content a s = record s { content = remove_first (content_has_addr a) s.content }

-- The result is the number of contents left, and 0 if there is no such content.
unfoldable pub session_remove_sessioncontent : JingleSession → Option String → ℕ × JingleSession
unfolding session_find_sessioncontent unlink_content
session_remove_sessioncontent s name = elim (session_find_sessioncontent s name) [
  | none ↦ (0, s)
  | some sc ↦ let t = unlink_content sc.addr s in (length t.content, t)
]

abbrev pub or_same : JingleSession → Option (List SessionContent) → JingleSession
or_same s none = s
or_same s (some cs) = record s { content = cs }

unfoldable pub session_changestate_sessioncontent :
    JingleSession → Option String → SessionState → JingleSession
unfolding update_named
session_changestate_sessioncontent s name state =
    or_same s (update_named name (λ c. record c { state = state }) s.content)

-- Whether the link of a content is still in the list.
unfoldable pub is_linked : ℕ → JingleSession → Bool
is_linked a s = elim (find? (content_has_addr a) s.content) [ none ↦ false | some c ↦ true ]

-- The loop of `session_free`, from a link on: the next link is read from `el` after the content was
-- removed, so `none`, a read of freed memory, if that took out `el` itself.
unfoldable pub remove_all : List SessionContent → JingleSession → Option JingleSession
unfolding session_remove_sessioncontent is_linked
remove_all [] s = some s
remove_all (c ∷ cs) s =
    let t = (session_remove_sessioncontent s c.name).1 in
    elim (is_linked c.addr t) [ true ↦ remove_all cs t | false ↦ none ]

unfoldable pub session_free : JingleSession → Option JingleSession
unfolding remove_all
session_free s = remove_all s.content s

-- `session_delete`: out of the list, then freed. The struct and its strings end here.
unfoldable pub session_delete : ℕ → List JingleSession → Option (List JingleSession)
unfolding session_free get_session session_remove
session_delete a sessions = elim (get_session a sessions) [
  | none ↦ none
  | some s ↦ elim (session_free s) [ none ↦ none | some t ↦ some (session_remove a sessions) ]
]

-- The searches by a pointer to module data: the first session, or content, that holds it.
unfoldable pub holds : (SessionContent → Option ℕ) → ℕ → SessionContent → Bool
holds field p c = elim (field c) [ none ↦ false | some q ↦ p == q ]

abbrev pub has_content : (SessionContent → Bool) → JingleSession → Bool
has_content test s = elim (find? test s.content) [ none ↦ false | some c ↦ true ]

abbrev pub first_content : (SessionContent → Bool) → List JingleSession → Option SessionContent
first_content test [] = none
first_content test (s ∷ ss) = elim (find? test s.content) [
  | none ↦ first_content test ss
  | some c ↦ some c
]

unfoldable pub session_find_by_transport : ℕ → List JingleSession → Option JingleSession
unfolding holds
session_find_by_transport p sessions = find? (has_content (holds (λ c. c.transport) p)) sessions

unfoldable pub session_find_by_app : ℕ → List JingleSession → Option JingleSession
unfolding holds
session_find_by_app p sessions = find? (has_content (holds (λ c. c.description) p)) sessions

unfoldable pub sessioncontent_find_by_transport : ℕ → List JingleSession → Option SessionContent
unfolding holds
sessioncontent_find_by_transport p sessions = first_content (holds (λ c. c.transport) p) sessions

unfoldable pub sessioncontent_find_by_app : ℕ → List JingleSession → Option SessionContent
unfolding holds
sessioncontent_find_by_app p sessions = first_content (holds (λ c. c.description) p) sessions

unfoldable pub session_find_by_sessioncontent : ℕ → List JingleSession → Option JingleSession
session_find_by_sessioncontent a sessions = find? (has_content (content_has_addr a)) sessions
