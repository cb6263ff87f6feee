-- ===== src/Ft/Incoming.antt =====
-- jingle-ft/filetransfer.c: a file that comes in, from its first chunk to the end of the session.
use mcabber_jingle.Base.{
  ℕ, ◌+◌, ◌%◌, ◌<◌, ◌≤◌, String, ◌≡◌, refl, sym, ap, ◌∙◌, Bool, true, false, Option, none, some,
  List, [], ◌∷◌, ◌++◌, ◌==◌, ltb, length, take, All, arith, length-append, append_assoc, append-nil,
  if◌then◌else◌,
}
use mcabber_jingle.Memory.{take_append_exact}
use mcabber_jingle.Jingle.{◌>>=◌}
use mcabber_jingle.Ibb.{two_64}
use mcabber_jingle.Ft.{
  FtHost, GioChannel, JingleFt, ft_incoming, ft_starting, ft_ending, ft_error, IoAnswer, is_good,
  WriteAnswers, write_data, handle_data, Verdict, cut_short, corrupt, verified, not_verified, judge,
  stop_transfer,
}

-- The chunks of a file, each with what the calls answer.
abbrev pub Chunks : Type 0
Chunks = List (List ℕ × WriteAnswers)

abbrev pub bytes_of_chunks : Chunks → List ℕ
bytes_of_chunks [] = []
bytes_of_chunks ((bytes, a) ∷ cs) = bytes ++ bytes_of_chunks cs

-- `handle_data` for one chunk after the other, as long as it answers TRUE.
unfoldable pub receive_chunks : Chunks → JingleFt → Option (Bool × JingleFt)
receive_chunks [] jft = some (true, jft)
receive_chunks ((bytes, a) ∷ cs) jft = do
  (ok, jft') ← handle_data bytes a jft
  elim ok [ true ↦ receive_chunks cs jft' | false ↦ some (false, jft') ]

-- All calls succeed, and the chunk is written whole.
pub record Succeeds (c : List ℕ × WriteAnswers) : Type 0 where
  pub opens : WriteAnswers.opened c.1 ≡ true
  pub encodes : is_good (WriteAnswers.encoded c.1) ≡ true
  pub writes : is_good (WriteAnswers.wrote c.1) ≡ true
  pub flushes : is_good (WriteAnswers.flushed c.1) ≡ true
  pub whole : WriteAnswers.bytes_written c.1 ≡ length c.0

-- An incoming file of which nothing has come, and one of which `bytes` have: they are in the file, were fed to
-- the checksum, and are counted.
abbrev pub fresh : JingleFt → JingleFt
fresh jft = record jft { dir = ft_incoming; transmit = 0; md5 = none; outfile = none }

abbrev pub partial : JingleFt → List ℕ → JingleFt
partial jft bytes = record jft {
  dir = ft_incoming;
  transmit = length bytes % two_64;
  md5 = some bytes;
  outfile = some (record { contents = bytes });
  state = ft_starting;
}

take_all : (xs : List ℕ) → take (length xs) xs ≡ xs
take_all xs = ap (take (length xs)) (sym (append-nil xs)) ∙ take_append_exact xs []

write_data_lem :
    (bytes : List ℕ) (a : WriteAnswers) (jft : JingleFt) (file : GioChannel)
    → Succeeds (bytes, a)
    → write_data bytes a jft file
      ≡ some (
        true,
        record jft {
          state = ft_starting;
          outfile = some (record { contents = file.contents ++ bytes });
          transmit = (jft.transmit + length bytes) % two_64;
        },
      )
unfolding write_data
write_data_lem bytes a jft file s =
    rw (s.writes, s.flushes, s.whole)
      (let same : (length bytes == length bytes) ≡ true = ground arith in
        rw (same, take_all bytes) refl)

-- The first chunk makes the file.
pub first_chunk :
    (jft : JingleFt) (bytes : List ℕ) (a : WriteAnswers)
    → Succeeds (bytes, a)
    → handle_data bytes a (fresh jft) ≡ some (true, partial jft bytes)
unfolding handle_data
first_chunk jft bytes a s =
    let n : (0 + length bytes) % two_64 ≡ length bytes % two_64 = omega arith in
    rw (s.opens, s.encodes)
      (write_data_lem bytes a
          (record (fresh jft) {
            md5 = some bytes;
            outfile = some (record { contents = [] });
            state = ft_starting;
          })
          (record { contents = [] }) s
        ∙ ap (λ m. some (true, record (partial jft bytes) { transmit = m })) n)

pub next_chunk :
    (jft : JingleFt) (old bytes : List ℕ) (a : WriteAnswers)
    → Succeeds (bytes, a)
    → handle_data bytes a (partial jft old) ≡ some (true, partial jft (old ++ bytes))
unfolding handle_data
next_chunk jft old bytes a s =
    let n : (length old % two_64 + length bytes) % two_64 ≡ length (old ++ bytes) % two_64 =
      omega (arith, length-append old bytes) in
    write_data_lem bytes a (record (partial jft old) { md5 = some (old ++ bytes) })
      (record { contents = old }) s
    ∙ ap (λ m. some (true, record (partial jft (old ++ bytes)) { transmit = m })) n

next_chunks :
    (jft : JingleFt) (old : List ℕ) (cs : Chunks)
    → All Succeeds cs
    → receive_chunks cs (partial jft old) ≡ some (true, partial jft (old ++ bytes_of_chunks cs))
unfolding receive_chunks
next_chunks jft old [] s = ap (λ xs. some (true, partial jft xs)) (sym (append-nil old))
next_chunks jft old ((bytes, a) ∷ cs) s = rw (next_chunk jft old bytes a s.0) (
    next_chunks jft (old ++ bytes) cs s.1
    ∙ ap (λ xs. some (true, partial jft xs)) (append_assoc old bytes (bytes_of_chunks cs)))

all_chunks :
    (jft : JingleFt) (bytes : List ℕ) (a : WriteAnswers) (cs : Chunks)
    → All Succeeds ((bytes, a) ∷ cs)
    → receive_chunks ((bytes, a) ∷ cs) (fresh jft)
      ≡ some (true, partial jft (bytes_of_chunks ((bytes, a) ∷ cs)))
unfolding receive_chunks
all_chunks jft bytes a cs s = rw (first_chunk jft bytes a s.0) (next_chunks jft bytes cs s.1)

-- What `stop` says of a file whose bytes have come, by the hash that the sender gave.
unfoldable pub verdict_on : FtHost → Option String → List ℕ → Verdict
verdict_on f none bytes = not_verified
verdict_on f (some hash) bytes =
    if f.strncasecmp hash (f.get_string bytes) then verified else corrupt

judge_lem :
    (f : FtHost) (hash : Option String) (bytes : List ℕ)
    → judge f hash (some bytes) ≡ verdict_on f hash bytes
unfolding judge verdict_on
judge_lem f none bytes = refl
judge_lem f (some hash) bytes = refl

pub stop_whole :
    (f : FtHost) (jft : JingleFt) (bytes : List ℕ) (closed : IoAnswer)
    → is_good closed ≡ true
    → jft.size ≤ length bytes
    → length bytes < two_64
    → stop_transfer f closed (partial jft bytes)
      ≡ some (verdict_on f jft.hash bytes, record (partial jft bytes) { state = ft_ending })
unfolding stop_transfer
stop_whole f jft bytes closed good all small =
    let n : length bytes % two_64 ≡ length bytes = omega (arith, small) in
    let done : ltb (length bytes % two_64) jft.size ≡ false = ground (arith, n) in
    rw (good, done)
      (ap (λ v. some (v, record (partial jft bytes) { state = ft_ending }))
        (judge_lem f jft.hash bytes))

stop_short :
    (f : FtHost) (jft : JingleFt) (bytes : List ℕ) (closed : IoAnswer)
    → is_good closed ≡ true
    → length bytes < jft.size
    → length bytes < two_64
    → stop_transfer f closed (partial jft bytes)
      ≡ some (cut_short, record (partial jft bytes) { state = ft_error })
unfolding stop_transfer
stop_short f jft bytes closed good few small =
    let n : length bytes % two_64 ≡ length bytes = omega (arith, small) in
    let done : ltb (length bytes % two_64) jft.size ≡ true = ground (arith, n) in
    rw (good, done) refl

-- A file that comes in chunks, all of which are written, is in its file in their order, each byte once. When the session
-- ends before all of it has come, the transfer has failed; else it has ended, and the hash that the
-- sender gave, if there is one, is compared with the checksum of just these bytes.
pub chunks-Received :
    (f : FtHost) (jft : JingleFt) (bytes : List ℕ) (a : WriteAnswers) (cs : Chunks)
    (closed : IoAnswer)
    → All Succeeds ((bytes, a) ∷ cs)
    → is_good closed ≡ true
    → length (bytes_of_chunks ((bytes, a) ∷ cs)) < two_64
    → let all = bytes_of_chunks ((bytes, a) ∷ cs) in
      (jft' : JingleFt) × (receive_chunks ((bytes, a) ∷ cs) (fresh jft) ≡ some (true, jft'))
      × (jft'.outfile ≡ some (record { contents = all }))
      × (jft'.transmit ≡ length all)
      × (length all < jft.size
          → stop_transfer f closed jft' ≡ some (cut_short, record jft' { state = ft_error }))
      × (jft.size ≤ length all
          → stop_transfer f closed jft'
            ≡ some (verdict_on f jft.hash all, record jft' { state = ft_ending }))
chunks-Received f jft bytes a cs closed s good small =
    let all = bytes_of_chunks ((bytes, a) ∷ cs) in
    (
      partial jft all,
      all_chunks jft bytes a cs s,
      refl,
      omega (arith, small),
      λ few. stop_short f jft all closed good few small,
      λ enough. stop_whole f jft all closed good enough small,
    )
