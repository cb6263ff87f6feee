-- ===== src/Ft/Sender.antt =====
-- jingle-ft/filetransfer.c: `start`, `send` and `send_hash`, which read a file and give it to the transport.
--
-- What `g_io_channel_read_chars` answers is an argument; `store` reads and writes a JingleFT through its pointer.
use mcabber_jingle.Base.{
  ℕ, zero, suc, ◌+◌, ◌%◌, String, Bool, true, Option, none, some, List, [], ◌∷◌, ◌++◌, ◌==◌, length,
  if◌then◌else◌,
}
use mcabber_jingle.Stanza.{element, nil, cons, Host}
use mcabber_jingle.Session.{
  JingleSession, state_ended, session_find_by_sid, session_find_sessioncontent, get_session,
  session_changestate_sessioncontent, session_remove_sessioncontent, session_delete,
}
use mcabber_jingle.Jingle.{Jingle, ContentRef, Sent, request, send, ns_jingle, ◌>>=◌}
use mcabber_jingle.Ack.{jingle_new_ack_handler}
use mcabber_jingle.Send.{attribute, jingle_send_session_terminate, delete_at}
use mcabber_jingle.Handlers.{store}
use mcabber_jingle.Calls.{handle_app_data}
use mcabber_jingle.Ibb.{two_64}
use mcabber_jingle.Ft.{
  FtHost, JingleFt, ft_incoming, ft_outgoing, ft_starting, ft_ending, ft_error,
  ns_jingle_app_ft_info,
}

pub data GioStatus : Type 0 where
  io_error io_normal io_eof io_again : GioStatus

-- The bytes that were read into the buffer, and whether the error is set.
pub record ReadAnswer : Type 0 where
  pub status : GioStatus
  pub bytes : List ℕ
  pub sets_error : Bool

-- The JingleFTs in the state of the modules, by their pointers.
pub record FtStore (W : Type 0) : Type 0 where
  pub load : ℕ → W → Option JingleFt
  pub save : ℕ → JingleFt → W → W

-- The loop of `send`, where `count` reads were made and `rounds` may follow the next one.
unfoldable pub read_chars : (ℕ → ReadAnswer) → ℕ → ℕ → ReadAnswer
read_chars answers zero count = answers count
read_chars answers (suc rounds) count =
    let again = read_chars answers rounds (suc count) in
    elim (ReadAnswer.status (answers count)) [ io_again ↦ again | _ ↦ answers count ]

abbrev pub hash_stanza : JingleSession → Option String → Sent
hash_stanza sess hash = request sess.to (
    element "jingle" none
      (("xmlns", ns_jingle) ∷ attribute "sid" sess.sid ++ ("action", "session-info") ∷ [])
      (cons (element "hash" hash (("xmlns", ns_jingle_app_ft_info) ∷ []) nil) nil))

-- `g_checksum_update` and `g_checksum_get_string`, which leave a checksum that is NULL alone.
abbrev pub update_md5 : Option (List ℕ) → List ℕ → Option (List ℕ)
update_md5 none bytes = none
update_md5 (some old) bytes = some (old ++ bytes)

abbrev pub md5_string : FtHost → Option (List ℕ) → Option String
md5_string f none = none
md5_string f (some bytes) = some (f.get_string bytes)

module _ (h : Host) (f : FtHost) {W : Type 0} (fs : FtStore W) where
  open fs use {load, save}

  -- A stanza that loudmouth does not take is logged only.
  unfoldable pub send_hash : JingleSession → Option String → Jingle W → Jingle W
  unfolding jingle_new_ack_handler
  send_hash sess hash j = send (hash_stanza sess hash) (jingle_new_ack_handler none 0 j)

  -- The end of `send`: the content has left `sess`, and `left` others have not.
  unfoldable pub end_session : ℕ → JingleSession → Jingle W → Option (Jingle W)
  unfolding jingle_send_session_terminate session_delete
  end_session left sess j =
      if left == 0
      then jingle_send_session_terminate sess.addr (some "success") (store h sess j)
        >>= delete_at sess.addr
      else some (store h sess j)

  -- What `send` does at the end of the file. The checksum is freed; it stands as `none`, since the pointer is not read again.
  unfoldable pub finish_file : ℕ → Option String → ℕ → Jingle W → Option (Jingle W)
  unfolding get_session session_changestate_sessioncontent session_remove_sessioncontent send_hash
      end_session
  finish_file a name p j = do
    jft ← load p j.world
    let hash = md5_string f jft.md5
    let done = record jft { hash = hash; state = ft_ending; md5 = none }
    sess ← get_session a j.sessions
    let ended = session_changestate_sessioncontent sess name state_ended
    let removed = session_remove_sessioncontent ended name
    end_session removed.0 removed.1
        (send_hash ended hash (record j { world = save p done j.world }))

  -- The error branch of `send`, which logs `err->message`.
  abbrev pub fail_read : Bool → ℕ → JingleFt → Jingle W → Option (Jingle W)
  fail_read sets_error p jft j =
      if sets_error
      then some (record j { world = save p (record jft { state = ft_error }) j.world })
      else none

  module _ (send_trans : ℕ → ContentRef → Option ℕ → List ℕ → Jingle W → Option (Jingle W))
      (end_trans : ℕ → ContentRef → Option ℕ → Jingle W → Option (Jingle W)) where
    -- A chunk that was read: it is counted, fed to the checksum and given to the transport.
    unfoldable pub give_chunk : List ℕ → ContentRef → ℕ → JingleFt → Jingle W → Option (Jingle W)
    unfolding handle_app_data
    give_chunk bytes sc p jft j = handle_app_data h send_trans end_trans sc bytes (record j {
      world =
          save p
            (record jft {
              transmit = (jft.transmit + length bytes) % two_64;
              md5 = update_md5 jft.md5 bytes;
            })
            j.world;
    })

    -- What `send` does with the answer to the read.
    unfoldable pub use_read :
        ReadAnswer → ℕ → ContentRef → Option String → ℕ → JingleFt → Jingle W → Option (Jingle W)
    unfolding give_chunk finish_file handle_app_data
    use_read r a sc name p jft j = elim r.status [
      | io_again ↦ some j
      | io_error ↦ fail_read r.sets_error p jft j
      | io_normal ↦ if r.sets_error then fail_read true p jft j else give_chunk r.bytes sc p jft j
      | io_eof ↦
          if r.sets_error
          then fail_read true p jft j
          else handle_app_data h send_trans end_trans sc [] j >>= finish_file a name p
    ]

    -- `send`.
    unfoldable pub send_file : (ℕ → ReadAnswer) → ContentRef → Jingle W → Option (Jingle W)
    unfolding session_find_by_sid session_find_sessioncontent read_chars use_read
    send_file answers sc j = elim (session_find_by_sid h sc.sid sc.from j.sessions) [
      | none ↦ some j
      | some sess ↦ do
        sc2 ← session_find_sessioncontent sess sc.name
        p ← sc2.description
        jft ← load p j.world
        elim jft.dir [
          | ft_incoming ↦ some j
          | ft_outgoing ↦ use_read (read_chars answers 9 0) sess.addr sc sc2.name p jft j
        ]
    ]

  -- `start`; `send_app` is what the content has for `sc2->appfuncs->send`.
  unfoldable pub start_file :
      (ℕ → ContentRef → Jingle W → Option (Jingle W)) → ContentRef → Jingle W → Option (Jingle W)
  unfolding session_find_by_sid session_find_sessioncontent
  start_file send_app sc j = elim (session_find_by_sid h sc.sid sc.from j.sessions) [
    | none ↦ some j
    | some sess ↦ do
      sc2 ← session_find_sessioncontent sess sc.name
      p ← sc2.description
      jft ← load p j.world
      af ← sc2.appfuncs
      send_app af sc
          (record j { world = save p (record jft { state = ft_starting; md5 = some [] }) j.world })
  ]
