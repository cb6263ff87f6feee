-- ===== src/Tests/Files.antt =====
-- The theorems on file transfers, applied.
use mcabber_jingle.Base.{
  subst, ℕ, zero, suc, ◌<◌, ◌≤◌, ◌≡◌, Bool, not, ◌==◌, if◌then◌else◌, refl, true, false, Option,
  some, none, List, [], ◌∷◌, arith, ap, str_eq,
}
use mcabber_jingle.Stanza.{element, nil, cons, JingleContent}
use mcabber_jingle.Ft.{
  FtHost, JingleFt, ft_outgoing, ft_ending, ft_error, ns_si_ft, IoAnswer, WriteAnswers, cut_short,
  new_jingle_ft, newfrommessage, stop_transfer,
}
use mcabber_jingle.Ft.Offer.{OfferOutcome, newfrommessage-OfferOutcome}
use mcabber_jingle.Ft.Files.{JingleFtInfo, jft_flush}
use mcabber_jingle.Ft.Flush.{FlushOutcome, jft_flush-FlushOutcome}
use mcabber_jingle.Ft.Incoming.{Chunks, receive_chunks, fresh, verdict_on, chunks-Received}
use mcabber_jingle.Ft.Sender.{
  io_again, io_eof, io_normal, send_file, start_file, ReadAnswer, FtStore, read_chars,
}
use mcabber_jingle.Ft.Outgoing.{
  SendOutcome, Closed, close, named_ref, start_file-SendOutcome, send_file-SendOutcome,
}
use mcabber_jingle.Ibb.{JingleIbb, new_ibb, send_data, end_stream}
use mcabber_jingle.Ibb.Ended.{Kept, end_stream-Kept}
use mcabber_jingle.Tests.Streams.{glib}
use mcabber_jingle.Ft.Ending.{part, Holds}
use mcabber_jingle.Session.{JingleSession, session_find_by_sid, get_session}
use mcabber_jingle.Jingle.{Jingle, ContentRef, ◌>>=◌}
use mcabber_jingle.Tests.World.{host, content_of, registry, one, other_session}

abbrev pub ft_host : FtHost
ft_host = record {
  bytes_of = λ text. [];
  isxdigit = λ b. true;
  strtoll = λ text. 3;
  show_uint64 = λ n. "3";
  from_iso8601 = λ date. 0;
  to_iso8601 = λ date. none;
  path_get_basename = λ name. name;
  build_filename = λ dir base. "/tmp/a";
  jingle_ft_dir = none;
  strncasecmp = λ a b. true;
  get_string = λ bytes. "d41d8cd98f00b204e9800998ecf8427e";
  get_value = λ node. none;
}

abbrev offered : JingleContent
offered = record (content_of "file") {
  description = some (
      element "description" none [] (
        cons
          (element "offer" none [] (
            cons
              (element "file" none (("xmlns", ns_si_ft) ∷ ("name", "a") ∷ ("size", "3") ∷ []) nil)
              nil))
          nil));
}

newfrommessage-OfferOutcome_example :
    OfferOutcome host ft_host offered none (newfrommessage host ft_host offered none)
unfolding str_eq
newfrommessage-OfferOutcome_example = newfrommessage-OfferOutcome host ft_host offered none

abbrev pub good : IoAnswer
good = record { is_normal = true; sets_error = false }

abbrev pub wrote : ℕ → WriteAnswers
wrote n = record { opened = true; encoded = good; wrote = good; bytes_written = n; flushed = good }

abbrev chunks : Chunks
chunks = (1 ∷ 2 ∷ [], wrote 2) ∷ (3 ∷ [], wrote 1) ∷ []

abbrev three_bytes : JingleFt
three_bytes = record new_jingle_ft { size = 3 }

chunks-Received_example :
    (jft' : JingleFt) × (receive_chunks chunks (fresh three_bytes) ≡ some (true, jft'))
    × (jft'.outfile ≡ some (record { contents = 1 ∷ 2 ∷ 3 ∷ [] }))
    × (jft'.transmit ≡ 3)
    × (3 < 3 → stop_transfer ft_host good jft' ≡ some (cut_short, record jft' { state = ft_error }))
    × (3 ≤ 3
        → stop_transfer ft_host good jft'
          ≡ some (verdict_on ft_host none (1 ∷ 2 ∷ 3 ∷ []), record jft' { state = ft_ending }))
chunks-Received_example =
    chunks-Received ft_host three_bytes (1 ∷ 2 ∷ []) (wrote 2) ((3 ∷ [], wrote 1) ∷ []) good
      (
        record { opens = refl; encodes = refl; writes = refl; flushes = refl; whole = refl },
        (record { opens = refl; encodes = refl; writes = refl; flushes = refl; whole = refl }, tt),
      )
      refl (omega arith)

-- A state of modules with one file and the stream that it goes out over.
abbrev World : Type 0
World = JingleFt × JingleIbb

abbrev one_file : FtStore World
one_file = record { load = λ p w. some w.0; save = λ p x w. (x, w.1) }

-- `send` and `end` of in-band bytestreams; the file is not asked for more.
abbrev ibb_send : ℕ → ContentRef → Option ℕ → List ℕ → Jingle World → Option (Jingle World)
ibb_send tf ref t bytes j =
    send_data host glib (λ sc ibb k. some (ibb, k)) ref j.world.1 bytes j >>= λ r.
    some (record r.1 { world = (r.1.world.0, r.0) })

abbrev ibb_end : ℕ → ContentRef → Option ℕ → Jingle World → Option (Jingle World)
ibb_end tf ref t j = end_stream host glib ref j.world.1 j

abbrev sending_session : JingleSession
sending_session = record other_session { content = one ∷ [] }

-- A stream in which one byte waits.
abbrev waiting : JingleIbb
waiting = record (new_ibb "s") { buf = 2 ∷ []; size_buf = 1; dataleft = 1 }

abbrev sending : Jingle World
sending = record {
  registry = registry;
  sessions = sending_session ∷ [];
  fresh = 7;
  ack_handlers = [];
  now = 100;
  sent = [];
  events = [];
  shown = [];
  world = (part new_jingle_ft (1 ∷ 2 ∷ []), waiting);
}

abbrev sent_ref : ContentRef
sent_ref = record { sid = some "s2"; from = some "us@here"; name = some "one" }

sending_Holds : Holds host sent_ref (sending_session ∷ []) sending_session one 11 2 1
unfolding session_find_by_sid get_session str_eq
sending_Holds = record {
  found = refl;
  lives = refl;
  only = refl;
  named = refl;
  has_data = refl;
  has_trans = refl;
  has_app = refl;
}

abbrev ends_here : Jingle World → Option (Jingle World)
ends_here = close host ft_host one_file ibb_send ibb_end sent_ref sending_session one 11 2 1

-- The end of in-band bytestreams leaves the sessions and the file alone.
end-Closed :
    (j j1 : Jingle World)
    → ends_here j ≡ some j1
    → Closed host ft_host one_file ibb_send ibb_end sent_ref sending_session one 11 2 1 j j1
end-Closed j j1 closed =
    let kept = subst (Kept j) closed (
      end_stream-Kept host glib
        (named_ref host ft_host one_file ibb_send ibb_end sent_ref sending_session one 11 2 1)
        j.world.1 j) in
    record { same_sessions = kept.0; same_file = ap (λ w. some w.0) kept.1 }

-- The first read must be tried again, and the second is at the end of the file.
abbrev reads : ℕ → ReadAnswer
reads zero = record { status = io_again; bytes = []; sets_error = false }
reads (suc n) = record { status = io_eof; bytes = []; sets_error = false }

send_file-SendOutcome_example :
    SendOutcome host ft_host one_file ibb_send ibb_end sent_ref sending_session one 11 2 1
      (read_chars reads 9 0)
      new_jingle_ft
      (1 ∷ 2 ∷ [])
      sending
      (send_file host ft_host one_file ibb_send ibb_end reads sent_ref sending)
unfolding session_find_by_sid get_session str_eq end_stream
send_file-SendOutcome_example =
    send_file-SendOutcome host ft_host one_file ibb_send ibb_end sent_ref sending_session one 11 2 1
      (sending_session ∷ []) sending_Holds reads new_jingle_ft (1 ∷ 2 ∷ []) sending refl refl
      (end-Closed sending)

-- A file of which nothing was sent, and the first chunk of it.
abbrev to_start : Jingle World
to_start = record sending { world = (record new_jingle_ft { dir = ft_outgoing }, waiting) }

abbrev first_chunk : ℕ → ReadAnswer
first_chunk n = record { status = io_normal; bytes = 1 ∷ 2 ∷ []; sets_error = false }

start_file-SendOutcome_example :
    SendOutcome host ft_host one_file ibb_send ibb_end sent_ref sending_session one 11 2 1
      (read_chars first_chunk 9 0)
      new_jingle_ft
      []
      (record to_start { world = (part new_jingle_ft [], waiting) })
      (start_file host ft_host one_file
        (λ app. send_file host ft_host one_file ibb_send ibb_end first_chunk)
        sent_ref
        to_start)
unfolding session_find_by_sid get_session str_eq
start_file-SendOutcome_example =
    start_file-SendOutcome host ft_host one_file ibb_send ibb_end sent_ref sending_session one 11 2
      1 (sending_session ∷ []) sending_Holds first_chunk new_jingle_ft to_start refl refl refl
      (end-Closed (record to_start { world = (part new_jingle_ft [], waiting) }))

-- Files by their pointers: the first is sent, the second has failed.
abbrev Files : Type 0
Files = ℕ → Option JingleFt

abbrev file_store : FtStore Files
file_store = record { load = λ p w. w p; save = λ p x w q. if q == p then some x else w q }

abbrev free_file : ℕ → Files → Files
free_file p w q = if q == p then none else w q

abbrev two_files : Files
two_files zero = some new_jingle_ft
two_files (suc p) = some (record new_jingle_ft { state = ft_error })

abbrev info_of : ℕ → JingleFtInfo
info_of n = record { addr = n; index = n; jft = n }

abbrev failed_file : JingleFtInfo → Bool
failed_file i = not (i.addr == 0)

jft_flush-FlushOutcome_example :
    FlushOutcome file_store free_file failed_file
      (info_of 0)
      (info_of 1 ∷ [])
      two_files
      (jft_flush file_store free_file (info_of 0 ∷ info_of 1 ∷ []) two_files)
jft_flush-FlushOutcome_example =
    jft_flush-FlushOutcome file_store free_file failed_file (info_of 0) (info_of 1 ∷ []) two_files
      (λ p q w ne. ground arith)
      (
        (
          (
            (λ e. absurd (ground arith)),
            (λ e. absurd (ground arith)),
            (λ e. absurd (ground arith)),
          ),
          tt,
        ),
        (tt, tt),
      )
      ((new_jingle_ft, refl, refl), ((record new_jingle_ft { state = ft_error }, refl, refl), tt))
