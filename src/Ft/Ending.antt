-- ===== src/Ft/Ending.antt =====
-- jingle-ft/filetransfer.c: the end of a file that goes out.
use mcabber_jingle.Base.{
  ℕ, ◌%◌, String, ◌≡◌, refl, true, Option, none, some, List, [], ◌∷◌, ◌++◌, ◌==◌, length, arith,
  str_eq_self,
}
use mcabber_jingle.Stanza.{Host}
use mcabber_jingle.Session.{
  JingleSession, SessionContent, state_ended, is_named, session_find_by_sid,
  session_find_sessioncontent, get_session, session_remove, session_changestate_sessioncontent,
  session_remove_sessioncontent, update_named, unlink_content,
}
use mcabber_jingle.Session.Keys.{get_session-put_session}
use mcabber_jingle.Session.Links.{delete_emptied}
use mcabber_jingle.Jingle.{Jingle, ContentRef}
use mcabber_jingle.Send.{terminate_stanza, jingle_send_session_terminate}
use mcabber_jingle.Ack.{jingle_new_ack_handler}
use mcabber_jingle.Ibb.{two_64}
use mcabber_jingle.Ft.{FtHost, JingleFt, ft_outgoing, ft_starting, ft_ending}
use mcabber_jingle.Ft.Sender.{FtStore, hash_stanza, send_hash, end_session, finish_file}

-- `s` is the session that `ref` points at, and the file at `p` its only content.
pub record Holds (h : Host) (ref : ContentRef) (ss : List JingleSession) (s : JingleSession)
    (sc : SessionContent) (p tf af : ℕ) : Type 0 where
  pub found : session_find_by_sid h ref.sid ref.from ss ≡ some s
  pub lives : get_session s.addr ss ≡ some s
  pub only : s.content ≡ sc ∷ []
  pub named : is_named ref.name sc ≡ true
  pub has_data : sc.description ≡ some p
  pub has_trans : sc.transfuncs ≡ some tf
  pub has_app : sc.appfuncs ≡ some af

-- A file of which `bytes` were read, and one that was read to its end.
abbrev pub part : JingleFt → List ℕ → JingleFt
part jft bytes = record jft {
  dir = ft_outgoing;
  transmit = length bytes % two_64;
  md5 = some bytes;
  state = ft_starting;
}

abbrev pub whole_file : FtHost → JingleFt → List ℕ → JingleFt
whole_file f jft bytes = record (part jft bytes) {
  hash = some (f.get_string bytes);
  state = ft_ending;
  md5 = none;
}

pub find_only :
    (s : JingleSession) (sc : SessionContent) (name : Option String)
    → s.content ≡ sc ∷ []
    → is_named name sc ≡ true
    → session_find_sessioncontent s name ≡ some sc
unfolding session_find_sessioncontent
find_only s sc name e n = rw (e, n) refl

pub end_only :
    (s : JingleSession) (sc : SessionContent)
    → s.content ≡ sc ∷ []
    → session_changestate_sessioncontent s sc.name state_ended
      ≡ record s { content = record sc { state = state_ended } ∷ [] }
unfolding session_changestate_sessioncontent update_named
end_only s sc e = rw (e, str_eq_self sc.name) refl

pub remove_only :
    (s : JingleSession) (sc : SessionContent)
    → session_remove_sessioncontent (record s { content = sc ∷ [] }) sc.name
      ≡ (0, record s { content = [] })
unfolding session_remove_sessioncontent session_find_sessioncontent unlink_content
remove_only s sc =
    let same : (sc.addr == sc.addr) ≡ true = ground arith in
    let found =
      find_only (record s { content = sc ∷ [] }) sc sc.name refl
        (ground (arith, str_eq_self sc.name)) in
    rw (found, session_remove_sessioncontent, same) refl

module _ (h : Host) (f : FtHost) {W : Type 0} (fs : FtStore W) where
  open fs use {load, save}

  -- The last content has gone: the terminate is sent and the session deleted.
  end_last :
      (s : JingleSession) (j : Jingle W)
      → get_session s.addr j.sessions ≡ some s
      → (j' : Jingle W) × (end_session h f fs 0 (record s { content = [] }) j ≡ some j')
        × (j'.sessions ≡ session_remove s.addr j.sessions)
        × (j'.sent ≡ j.sent ++ terminate_stanza s (some "success") ∷ [])
        × (j'.world ≡ j.world)
  unfolding end_session jingle_send_session_terminate terminate_stanza jingle_new_ack_handler
  end_last s j lives =
      let t = record s { content = [] } in
      let at = get_session-put_session s.addr j.sessions s t lives refl in
      let gone = delete_emptied s.addr j.sessions s t lives refl refl in
      let sent = j.sent ++ terminate_stanza s (some "success") ∷ [] in
      (
        record (jingle_new_ack_handler none 0 j) {
          sent = sent;
          sessions = session_remove s.addr j.sessions;
        },
        rw (at, gone) refl,
        refl,
        refl,
        refl,
      )

  -- The end of the file, where its content is the only one of the session.
  pub finish_only :
      (s : JingleSession) (sc : SessionContent) (p : ℕ) (jft : JingleFt) (bytes : List ℕ)
      (j : Jingle W)
      → s.content ≡ sc ∷ []
      → get_session s.addr j.sessions ≡ some s
      → load p j.world ≡ some (part jft bytes)
      → (j' : Jingle W) × (finish_file h f fs s.addr sc.name p j ≡ some j')
        × (j'.sessions ≡ session_remove s.addr j.sessions)
        × (j'.sent
            ≡ (j.sent ++ hash_stanza s (some (f.get_string bytes)) ∷ [])
              ++ terminate_stanza s (some "success") ∷ [])
        × (j'.world ≡ save p (whole_file f jft bytes) j.world)
  unfolding finish_file send_hash jingle_new_ack_handler
  finish_only s sc p jft bytes j only lives stored =
      let ended = record s { content = record sc { state = state_ended } ∷ [] } in
      let j1 =
        send_hash h f fs ended (some (f.get_string bytes))
          (record j { world = save p (whole_file f jft bytes) j.world }) in
      let (j', ends, sessions, sent, world) = end_last s j1 lives in
      (
        j',
        rw (stored, lives, end_only s sc only, remove_only s (record sc { state = state_ended }))
            ends,
        sessions,
        sent,
        world,
      )
