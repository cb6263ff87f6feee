-- ===== src/Ft/Outgoing.antt =====
-- jingle-ft/filetransfer.c: what one call of `send` comes to, for a file that goes out.
use mcabber_jingle.Base.{
  ◌≢◌, inl, inr, Option-cases, ℕ, ◌+◌, ◌%◌, ◌≡◌, refl, ap, ◌∙◌, true, false, Option, none, some,
  List, [], ◌∷◌, ◌++◌, ◌==◌, length, arith, length-append, Bool-cases,
}
use mcabber_jingle.Stanza.{Host}
use mcabber_jingle.Session.{
  JingleSession, SessionContent, session_find_by_sid, get_session, session_remove, peer,
}
use mcabber_jingle.Jingle.{Jingle, ContentRef}
use mcabber_jingle.Send.{terminate_stanza}
use mcabber_jingle.Calls.{handle_app_data}
use mcabber_jingle.Ibb.{two_64}
use mcabber_jingle.Ft.{FtHost, JingleFt, ft_outgoing, ft_error}
use mcabber_jingle.Ft.Sender.{
  GioStatus, io_error, io_normal, io_eof, io_again, ReadAnswer, FtStore, read_chars, hash_stanza,
  give_chunk, use_read, send_file, start_file,
}
use mcabber_jingle.Ft.Ending.{Holds, part, whole_file, find_only, finish_only}

module _ (h : Host) (f : FtHost) {W : Type 0} (fs : FtStore W)
    (send_trans : ℕ → ContentRef → Option ℕ → List ℕ → Jingle W → Option (Jingle W))
    (end_trans : ℕ → ContentRef → Option ℕ → Jingle W → Option (Jingle W)) where
  open fs use {load, save}

  module _ (ref : ContentRef) (s : JingleSession) (sc : SessionContent) (p tf af : ℕ) where
    -- What the functions of the transport are called with.
    abbrev pub named_ref : ContentRef
    named_ref = record { sid = s.sid; from = peer s; name = sc.name }

    abbrev pub give : List ℕ → Jingle W → Option (Jingle W)
    give bytes = send_trans tf named_ref sc.transport bytes

    abbrev pub close : Jingle W → Option (Jingle W)
    close = end_trans tf named_ref sc.transport

    -- `j` with the file at `p` as `x`.
    abbrev pub with_file : JingleFt → Jingle W → Jingle W
    with_file x j = record j { world = save p x j.world }

    -- What ending the stream leaves as it is: the sessions and the file at `p`.
    pub record Closed (j j1 : Jingle W) : Type 0 where
      pub same_sessions : j1.sessions ≡ j.sessions
      pub same_file : load p j1.world ≡ load p j.world

    -- What `j'` is after the end of a file of which `bytes` were read, where the transport left `j1`.
    pub record IsSent (jft : JingleFt) (bytes : List ℕ) (j1 j' : Jingle W) : Type 0 where
      pub deleted : j'.sessions ≡ session_remove s.addr j1.sessions
      pub sent :
          j'.sent
          ≡ (j1.sent ++ hash_stanza s (some (f.get_string bytes)) ∷ [])
            ++ terminate_stanza s (some "success") ∷ []
      pub file : j'.world ≡ save p (whole_file f jft bytes) j1.world

    -- What `send` comes to by the answer `r` of its last read, where `bytes` were read before.
    pub data SendOutcome (r : ReadAnswer) (jft : JingleFt) (bytes : List ℕ) (j : Jingle W)
        (result : Option (Jingle W)) : Type 0 where
      tries_later : r.status ≡ io_again → result ≡ some j → SendOutcome r jft bytes j result
      logs_null :
          r.status ≡ io_error
          → r.sets_error ≡ false
          → result ≡ none
          → SendOutcome r jft bytes j result
      fails :
          r.status ≢ io_again
          → r.sets_error ≡ true
          → result ≡ some (with_file (record (part jft bytes) { state = ft_error }) j)
          → SendOutcome r jft bytes j result
      gives :
          r.status ≡ io_normal
          → r.sets_error ≡ false
          → (length r.bytes == 0) ≡ false
          → result ≡ give r.bytes (with_file (part jft (bytes ++ r.bytes)) j)
          → SendOutcome r jft bytes j result
      closes_early :
          r.status ≡ io_normal
          → r.sets_error ≡ false
          → (length r.bytes == 0) ≡ true
          → result ≡ close (with_file (part jft (bytes ++ r.bytes)) j)
          → SendOutcome r jft bytes j result
      ends :
          (j1 j' : Jingle W)
          → r.status ≡ io_eof
          → r.sets_error ≡ false
          → close j ≡ some j1
          → result ≡ some j'
          → IsSent jft bytes j1 j'
          → SendOutcome r jft bytes j result
      transport_faults :
          r.status ≡ io_eof
          → r.sets_error ≡ false
          → close j ≡ none
          → result ≡ none
          → SendOutcome r jft bytes j result

    module _ (ss : List JingleSession) (holds : Holds h ref ss s sc p tf af) where
      give_lem :
          (bytes : List ℕ) (j : Jingle W)
          → j.sessions ≡ ss
          → (length bytes == 0) ≡ false
          → handle_app_data h send_trans end_trans ref bytes j ≡ give bytes j
      unfolding handle_app_data
      give_lem bytes j e n =
          let found = ap (session_find_by_sid h ref.sid ref.from) e ∙ holds.found in
          let only = find_only s sc ref.name holds.only holds.named in
          rw (found, only, holds.has_trans, n, handle_app_data) refl

      close_lem :
          (bytes : List ℕ) (j : Jingle W)
          → j.sessions ≡ ss
          → (length bytes == 0) ≡ true
          → handle_app_data h send_trans end_trans ref bytes j ≡ close j
      unfolding handle_app_data
      close_lem bytes j e n =
          let found = ap (session_find_by_sid h ref.sid ref.from) e ∙ holds.found in
          let only = find_only s sc ref.name holds.only holds.named in
          rw (found, only, holds.has_trans, n, handle_app_data) refl

      part_next :
          (jft : JingleFt) (bytes chunk : List ℕ)
          → record (part jft bytes) {
            transmit = (length bytes % two_64 + length chunk) % two_64;
            md5 = some (bytes ++ chunk);
          }
            ≡ part jft (bytes ++ chunk)
      part_next jft bytes chunk =
          let n : (length bytes % two_64 + length chunk) % two_64
              ≡ length (bytes ++ chunk) % two_64 =
            omega (arith, length-append bytes chunk) in
          ap (λ m. record (part jft (bytes ++ chunk)) { transmit = m }) n

      abbrev using : ReadAnswer → JingleFt → List ℕ → Jingle W → Option (Jingle W)
      using r jft bytes j =
          use_read h f fs send_trans end_trans r s.addr ref sc.name p (part jft bytes) j

      -- A chunk that was read, and was not empty or was.
      chunk_lem :
          (r : ReadAnswer) (jft : JingleFt) (bytes : List ℕ) (j : Jingle W)
          → j.sessions ≡ ss
          → r.status ≡ io_normal
          → r.sets_error ≡ false
          → SendOutcome r jft bytes j (using r jft bytes j)
      unfolding use_read give_chunk
      chunk_lem r jft bytes j e is ok =
          let next = part_next jft bytes r.bytes in
          elim (Bool-cases (length r.bytes == 0)) [
            | inl empty ↦ closes_early is ok empty (
                rw (is, ok, use_read)
                  (ap (λ x. handle_app_data h send_trans end_trans ref r.bytes (with_file x j)) next
                    ∙ close_lem r.bytes (with_file (part jft (bytes ++ r.bytes)) j) e empty))
            | inr more ↦ gives is ok more (
                rw (is, ok, use_read)
                  (ap (λ x. handle_app_data h send_trans end_trans ref r.bytes (with_file x j)) next
                    ∙ give_lem r.bytes (with_file (part jft (bytes ++ r.bytes)) j) e more))
          ]

      -- The end of the file.
      end_lem :
          (r : ReadAnswer) (jft : JingleFt) (bytes : List ℕ) (j : Jingle W)
          → j.sessions ≡ ss
          → load p j.world ≡ some (part jft bytes)
          → ((j1 : Jingle W) → close j ≡ some j1 → Closed j j1)
          → r.status ≡ io_eof
          → r.sets_error ≡ false
          → SendOutcome r jft bytes j (using r jft bytes j)
      unfolding use_read
      end_lem r jft bytes j e stored keeps is ok = elim (Option-cases (close j)) [
        | inl faults ↦
            transport_faults is ok faults
              (rw (is, ok, close_lem [] j e refl ∙ faults, use_read) refl)
        | inr (j1, closed) ↦
            let kept = keeps j1 closed in
            let (j', finishes, sessions, sent, world) =
              finish_only h f fs s sc p jft bytes j1 holds.only
                (ap (get_session s.addr) (kept.same_sessions ∙ e) ∙ holds.lives)
                (kept.same_file ∙ stored) in
            ends j1 j' is ok closed (rw (is, ok, close_lem [] j e refl ∙ closed, use_read) finishes)
              (record { deleted = sessions; sent = sent; file = world })
      ]

      -- The answers on which the error is set.
      error_lem :
          (st : GioStatus) (r : ReadAnswer) (jft : JingleFt) (bytes : List ℕ) (j : Jingle W)
          → r.status ≡ st
          → st ≢ io_again
          → r.sets_error ≡ true
          → using r jft bytes j ≡ some (with_file (record (part jft bytes) { state = ft_error }) j)
      unfolding use_read
      error_lem io_error r jft bytes j is n bad = rw (is, bad, use_read) refl
      error_lem io_normal r jft bytes j is n bad = rw (is, bad, use_read) refl
      error_lem io_eof r jft bytes j is n bad = rw (is, bad, use_read) refl
      error_lem io_again r jft bytes j is n bad = absurd (n refl)

      use_lem :
          (st : GioStatus) (r : ReadAnswer) (jft : JingleFt) (bytes : List ℕ) (j : Jingle W)
          → j.sessions ≡ ss
          → load p j.world ≡ some (part jft bytes)
          → ((j1 : Jingle W) → close j ≡ some j1 → Closed j j1)
          → r.status ≡ st
          → SendOutcome r jft bytes j (using r jft bytes j)
      unfolding use_read
      use_lem io_again r jft bytes j e stored keeps is = tries_later is (rw (is, use_read) refl)
      use_lem io_error r jft bytes j e stored keeps is = elim (Bool-cases r.sets_error) [
        | inl bad ↦ fails (λ k. cc) bad (error_lem io_error r jft bytes j is (λ k. cc) bad)
        | inr ok ↦ logs_null is ok (rw (is, ok, use_read) refl)
      ]
      use_lem io_normal r jft bytes j e stored keeps is = elim (Bool-cases r.sets_error) [
        | inl bad ↦ fails (λ k. cc) bad (error_lem io_normal r jft bytes j is (λ k. cc) bad)
        | inr ok ↦ chunk_lem r jft bytes j e is ok
      ]
      use_lem io_eof r jft bytes j e stored keeps is = elim (Bool-cases r.sets_error) [
        | inl bad ↦ fails (λ k. cc) bad (error_lem io_eof r jft bytes j is (λ k. cc) bad)
        | inr ok ↦ end_lem r jft bytes j e stored keeps is ok
      ]

      -- A call of `send` for a file that goes out as the only content of its session and of which `bytes` were read, where
      -- ending the stream of its transport leaves the sessions and the file alone. A chunk that is read is counted
      -- and put behind the bytes of the checksum, and goes to the transport, where an empty one ends the stream.
      -- At the end of the file the transport ends its stream, after that the hash of just these bytes is sent in a
      -- session-info to `s.to` and a session-terminate with the reason "success", the file has ended with that
      -- hash, and its session is deleted. Ten reads that must be tried again change nothing. An error is kept
      -- in the file; one that is not set is read through NULL.
      pub send_file-SendOutcome :
          (answers : ℕ → ReadAnswer) (jft : JingleFt) (bytes : List ℕ) (j : Jingle W)
          → j.sessions ≡ ss
          → load p j.world ≡ some (part jft bytes)
          → ((j1 : Jingle W) → close j ≡ some j1 → Closed j j1)
          → SendOutcome
              (read_chars answers 9 0)
              jft
              bytes
              j
              (send_file h f fs send_trans end_trans answers ref j)
      unfolding send_file
      send_file-SendOutcome answers jft bytes j e stored keeps =
          let r = read_chars answers 9 0 in
          let found = ap (session_find_by_sid h ref.sid ref.from) e ∙ holds.found in
          let only = find_only s sc ref.name holds.only holds.named in
          let runs : send_file h f fs send_trans end_trans answers ref j ≡ using r jft bytes j =
            rw (found, only, holds.has_data, stored, send_file) refl in
          rw runs (use_lem r.status r jft bytes j e stored keeps refl)

      -- `start` of a file that goes out and of which nothing was sent: the checksum starts anew, and then the call comes to
      -- what a call of `send` does before which no byte was read, where the file at `p` is read back as it was stored.
      pub start_file-SendOutcome :
          (answers : ℕ → ReadAnswer) (jft : JingleFt) (j : Jingle W)
          → j.sessions ≡ ss
          → load p j.world ≡ some (record jft { dir = ft_outgoing; transmit = 0 })
          → load p (save p (part jft []) j.world) ≡ some (part jft [])
          → (let started = with_file (part jft []) j in
              (j1 : Jingle W) → close started ≡ some j1 → Closed started j1)
          → SendOutcome
              (read_chars answers 9 0)
              jft
              []
              (with_file (part jft []) j)
              (start_file h f fs (λ app. send_file h f fs send_trans end_trans answers) ref j)
      unfolding start_file
      start_file-SendOutcome answers jft j e stored kept keeps =
          let send = send_file h f fs send_trans end_trans answers in
          let found = ap (session_find_by_sid h ref.sid ref.from) e ∙ holds.found in
          let only = find_only s sc ref.name holds.only holds.named in
          let runs : start_file h f fs (λ app. send) ref j ≡ send ref (with_file (part jft []) j) =
            rw (found, only, holds.has_data, stored, holds.has_app, start_file) refl in
          rw runs (send_file-SendOutcome answers jft [] (with_file (part jft []) j) e kept keeps)
