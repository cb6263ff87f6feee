-- ===== src/Handlers.antt =====
-- jingle/action-handlers.c, and the part of jingle/sessions.c that reads contents from a stanza: what
-- is done with each action.
--
-- `none` is a read through a NULL or dangling pointer, or of freed memory. A handler returns the
-- struct of the stanza too, since `check_contents` changes it. Lines that only announce the session
-- are left out; `shown` keeps those that are made for each content.
pub mod Active
pub mod Keeps
pub mod Step
pub mod Initiate
pub mod Others
pub mod Terminate
pub mod Answers
pub mod Faults
pub mod Stored
pub mod Success
pub mod Dispatch
use mcabber_jingle.Base.{
  ℕ, zero, suc, String, ◌≡◌, Bool, true, false, not, Option, none, some, List, [], ◌∷◌, ◌++◌, ◌||◌,
  ◌&&◌, str_eq, if◌then◌else◌, ◌==◌,
}
use mcabber_jingle.Stanza.{
  Node, node_children, Message, Host, JingleAction, session_accept, session_info, transport_info,
  JingleContent, ContentList, held, freed, JingleNode, GError,
}
use mcabber_jingle.Registry.{jingle_get_appfuncs, jingle_get_transportfuncs}
use mcabber_jingle.Check.{check_contents}
use mcabber_jingle.Session.{
  SessionState, state_active, state_pending, SessionContent, JingleSession, incoming, peer,
  session_new, session_find_by_sid, get_session, put_session, session_add_content, session_add_app,
  session_add_trans, unlink_content, session_find_sessioncontent, session_remove_sessioncontent,
  session_changestate_sessioncontent, is_linked, session_delete,
}
use mcabber_jingle.Jingle.{
  Jingle, Modules, ContentRef, JingleHandleStatus, status_value, jingle_ack_iq,
  jingle_send_iq_error, ◌>>=◌,
}
use mcabber_jingle.Send.{jingle_send_session_terminate}

-- A GError pointer: NULL, an error, or one that was freed and not reset.
pub data ErrorPointer : Type 0 where
  no_error : ErrorPointer
  error_at : GError → ErrorPointer
  error_freed : ErrorPointer

abbrev pub error_pointer : Option GError → ErrorPointer
error_pointer none = no_error
error_pointer (some e) = error_at e

-- `g_propagate_error (err, error)`: a pointer that is not NULL is kept.
abbrev pub propagate_error : Option GError → ErrorPointer → ErrorPointer
propagate_error none e = e
propagate_error (some g) no_error = error_at g
propagate_error (some g) (error_at e) = error_at e
propagate_error (some g) error_freed = error_freed

-- `err->message` is logged and the error freed.
abbrev pub log_and_free : ErrorPointer → Option ErrorPointer
log_and_free no_error = none
log_and_free (error_at e) = some error_freed
log_and_free error_freed = none

abbrev pub is_set : ErrorPointer → Bool
is_set no_error = false
is_set (error_at e) = true
is_set error_freed = true

abbrev pub is_null {ℓ} : {A : Type ℓ} → Option A → Bool
is_null none = true
is_null (some a) = false

-- An attribute of a node that may be NULL.
abbrev pub attribute_of : Host → Option Node → String → Option String
attribute_of h none name = none
attribute_of h (some n) name = Host.get_attribute h n name

abbrev pub is_session_disposition : JingleContent → Bool
is_session_disposition cn = str_eq cn.disposition (some "session") || is_null cn.disposition

abbrev pub some_session_disposition : List JingleContent → Bool
some_session_disposition [] = false
some_session_disposition (cn ∷ cns) = is_session_disposition cn || some_session_disposition cns

module _ (h : Host) {W : Type 0} where
  open h use {get_attribute, message_from, in_roster, evs_new}

  abbrev pub store : JingleSession → Jingle W → Jingle W
  store s j = record j { sessions = put_session s j.sessions }

  -- Second part of `session_add_content_from_jinglecontent`: the transport, for the content of
  -- address `c`. The pointer returned is `some c`, or `none` for NULL.
  unfoldable pub add_transport :
      Modules W
      → ℕ
      → JingleSession
      → JingleContent
      → ErrorPointer
      → Jingle W
      → Option (Option ℕ × ErrorPointer × Jingle W)
  unfolding session_add_trans unlink_content put_session
  add_transport m c s cn err j = do
    let xmlns = attribute_of h cn.transport "xmlns"
    funcs ← jingle_get_transportfuncs xmlns j.registry
    let made = Modules.trans_newfrommessage m funcs cn j.world
    let j' = record j { world = made.2 }
    if is_null made.0 || not (is_null made.1)
        then some (none, propagate_error made.1 err, store (unlink_content c s) j')
        else (do
          s' ← session_add_trans j.registry s cn.name xmlns made.0
          some (some c, err, store s' j'))

  unfoldable pub session_add_content_from_jinglecontent :
      Modules W
      → ℕ
      → JingleContent
      → SessionState
      → ErrorPointer
      → Jingle W
      → Option (Option ℕ × ErrorPointer × Jingle W)
  unfolding get_session session_add_content session_add_app unlink_content put_session add_transport
  session_add_content_from_jinglecontent m a cn state err j = do
    s ← get_session a j.sessions
    let c = j.fresh
    let s1 = session_add_content c s cn.name state
    let xmlns = attribute_of h cn.description "xmlns"
    funcs ← jingle_get_appfuncs xmlns j.registry
    let made = Modules.app_newfrommessage m funcs cn j.world
    let j' = record j { fresh = suc j.fresh; world = made.2 }
    if is_null made.0 || not (is_null made.1)
        then some (none, propagate_error made.1 err, store (unlink_content c s1) j')
        else (do
          s2 ← session_add_app j.registry s1 cn.name xmlns made.0
          add_transport m c s2 cn err j')

  -- After the content was added or not: an error, or a NULL content, is logged.
  unfoldable pub after_add : Option ℕ × ErrorPointer × Jingle W → Option (ErrorPointer × Jingle W)
  after_add (sc, err, j) =
      if is_set err || is_null sc
      then (do err' ← log_and_free err; some (err', j))
      else some (err, j)

  -- One round of the loop of `handle_session_initiate` over the contents of the stanza: a content
  -- whose application or transport is not registered is passed over.
  unfoldable pub add_one :
      Modules W → ℕ → JingleContent → ErrorPointer → Jingle W → Option (ErrorPointer × Jingle W)
  unfolding session_add_content_from_jinglecontent after_add
  add_one m a cn err j =
      if is_null (jingle_get_appfuncs (attribute_of h cn.description "xmlns") j.registry)
        || is_null (jingle_get_transportfuncs (attribute_of h cn.transport "xmlns") j.registry)
      then some (err, j)
      else session_add_content_from_jinglecontent m a cn state_pending err j >>= after_add

  unfoldable pub add_contents :
      Modules W
      → ℕ
      → List JingleContent
      → ErrorPointer
      → Jingle W
      → Option (ErrorPointer × Jingle W)
  unfolding add_one
  add_contents m a [] err j = some (err, j)
  add_contents m a (cn ∷ cns) err j = elim (add_one m a cn err j) [
    | none ↦ none
    | some (err', j') ↦ add_contents m a cns err' j'
  ]

  -- The loop that shows each content: both pointers to functions are read.
  unfoldable pub show_contents :
      Modules W → W → List SessionContent → Option (List (String × String))
  show_contents m w [] = some []
  show_contents m w (c ∷ cs) = do
    af ← c.appfuncs
    tf ← c.transfuncs
    rest ← show_contents m w cs
    some ((Modules.app_info m af c.description w, Modules.trans_info m tf c.transport w) ∷ rest)

  -- `session_find`, by the `from` attribute of the stanza.
  unfoldable pub session_find : JingleNode → Message → Jingle W → Option JingleSession
  session_find jn msg j = session_find_by_sid h jn.sid (get_attribute msg.node "from") j.sessions

  -- `session_new_from_jinglenode`: NULL where the stanza has no `from` or no `to`.
  unfoldable pub session_new_from_jinglenode : JingleNode → Message → Jingle W → Option ℕ × Jingle W
  session_new_from_jinglenode jn msg j =
      let from = get_attribute msg.node "from" in
      let to = get_attribute msg.node "to" in
      if is_null from || is_null to then (none, j) else (
        some j.fresh,
        record j {
          fresh = suc j.fresh;
          sessions = (session_new j.fresh jn.sid from to incoming j.sessions).1;
        },
      )

  abbrev pub offer : ℕ → Jingle W → Jingle W
  offer a j = if evs_new j.events then record j { events = j.events ++ a ∷ [] } else j

  -- A session that stayed empty is terminated and deleted.
  unfoldable pub drop_session : ℕ → Jingle W → Option (Jingle W)
  unfolding jingle_send_session_terminate session_delete
  drop_session a j = do
    j' ← jingle_send_session_terminate a (some "unsupported-applications") j
    ss ← session_delete a j'.sessions
    some (record j' { sessions = ss })

  -- A session with contents is shown and offered to the user.
  unfoldable pub offer_session : Modules W → ℕ → List SessionContent → Jingle W → Option (Jingle W)
  unfolding show_contents
  offer_session m a contents j = do
    lines ← show_contents m j.world contents
    some (offer a (record j { shown = j.shown ++ lines }))

  unfoldable pub finish_session : Modules W → ℕ → List SessionContent → Jingle W → Option (Jingle W)
  unfolding drop_session offer_session
  finish_session m a [] j = drop_session a j
  finish_session m a (c ∷ cs) j = offer_session m a (c ∷ cs) j

  -- `handle_session_initiate` after the session was made, from the loop over the contents on.
  unfoldable pub fill_session :
      Modules W → ℕ → List JingleContent → ErrorPointer → Jingle W → Option (Jingle W)
  unfolding add_contents get_session finish_session
  fill_session m a cns err j = do
    added ← add_contents m a cns err j
    s ← get_session a added.1.sessions
    finish_session m a s.content added.1

  abbrev pub refuse :
      Message
      → String
      → Option String
      → Option String
      → JingleNode
      → Jingle W
      → Option (JingleNode × Jingle W)
  refuse msg type cond jcond jn j = some (jn, jingle_send_iq_error h msg type cond jcond j)

  -- The checks on the contents that were read, and then the session.
  unfoldable pub initiate_with :
      Modules W
      → JingleNode
      → Message
      → ErrorPointer
      → List JingleContent
      → Jingle W
      → Option (JingleNode × Jingle W)
  unfolding fill_session session_find session_new_from_jinglenode jingle_ack_iq
  initiate_with m jn msg err cns j =
      if not (some_session_disposition cns)
      then refuse msg "cancel" (some "bad-request") none jn j
      else if not (is_null (session_find jn msg j))
      then refuse msg "cancel" (some "unexpected-request") (some "out-of-order") jn j
      else (do
        let (sess, j1) = session_new_from_jinglenode jn msg (jingle_ack_iq msg j)
        a ← sess
        j2 ← fill_session m a cns err j1
        some (jn, j2))

  -- After `check_contents`: an error is logged, so it must be set.
  unfoldable pub initiate_checked :
      Modules W
      → Message
      → Bool × JingleNode × Option GError
      → Jingle W
      → Option (JingleNode × Jingle W)
  unfolding initiate_with
  initiate_checked m msg (false, jn, none) j = none
  initiate_checked m msg (false, jn, some e) j = refuse msg "cancel" (some "bad-request") none jn j
  initiate_checked m msg (true, jn, err) j = elim jn.content [
    | freed ↦ none
    | held [] ↦ refuse msg "cancel" (some "bad-request") none jn j
    | held (cn ∷ cns) ↦ initiate_with m jn msg (error_pointer err) (cn ∷ cns) j
  ]

  unfoldable pub handle_session_initiate :
      Modules W → JingleNode → Jingle W → Option (JingleNode × Jingle W)
  unfolding initiate_checked check_contents
  handle_session_initiate m jn j = do
    msg ← jn.message
    if not (in_roster (message_from msg))
        then refuse msg "cancel" (some "service-unavailable") none jn j
        else (do checked ← check_contents h jn none; initiate_checked m msg checked j)
