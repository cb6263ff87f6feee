-- ===== src/Ibb/Buffer.antt =====
-- jingle-ibb/ibb.c: the buffer of a stream, and what waits in it.
use mcabber_jingle.Base.{
  ℕ, ◌+◌, ◌-◌, ◌%◌, ◌≤◌, ◌<◌, ◌≡◌, refl, sym, ap, ◌∙◌, some, List, ◌++◌, leb, length, take, drop,
  arith, length-drop, inl, inr, Bool-cases,
}
use mcabber_jingle.Ibb.{
  JingleIbb, two_31, two_32, two_64, as_gsize, ibb_block_size_max, store_data, take_block,
}
use mcabber_jingle.Memory.{
  write_at, grow_to, take_append_exact, take-append-take, length-take_within, write_at_lem,
  read_first_lem, written_length, written_prefix, length-grow_to, take-grow_to,
}

-- The bytes that wait to be sent.
abbrev pub waiting : JingleIbb → List ℕ
waiting ibb = take ibb.dataleft ibb.buf

-- The buffer is as long as it says, what waits is in it, and all sizes fit a `gint`.
pub record IsSound (ibb : JingleIbb) : Type 0 where
  pub whole : length ibb.buf ≡ ibb.size_buf
  pub inside : ibb.dataleft ≤ ibb.size_buf
  pub fits : ibb.size_buf < two_31
  pub clamped : ibb.blocksize ≤ ibb_block_size_max

as_gsize_small : (n : ℕ) → n < two_31 → as_gsize n ≡ n
as_gsize_small n l = ground arith

mod_small_32 : (n : ℕ) → n < two_31 → n % two_32 ≡ n
mod_small_32 n l = omega arith

mod_small_64 : (n : ℕ) → n < two_31 → n % two_64 ≡ n
mod_small_64 n l = omega arith

-- A stream after more bytes wait in it.
pub record Stored (ibb : JingleIbb) (bytes : List ℕ) (ibb' : JingleIbb) : Type 0 where
  pub sound : IsSound ibb'
  pub waits : waiting ibb' ≡ waiting ibb ++ bytes
  pub more : ibb'.dataleft ≡ ibb.dataleft + length bytes
  pub blocksize_same : ibb'.blocksize ≡ ibb.blocksize
  pub sid_same : ibb'.sid ≡ ibb.sid
  pub seq_same : ibb'.seq ≡ ibb.seq

module _ (ibb : JingleIbb) (bytes : List ℕ) (s : IsSound ibb) where
  in_place :
      length bytes + ibb.dataleft ≤ ibb.size_buf
      → store_data ibb bytes
        ≡ some (record ibb {
          buf = take ibb.dataleft ibb.buf ++ bytes ++ drop (ibb.dataleft + length bytes) ibb.buf;
          dataleft = ibb.dataleft + length bytes;
        })
  unfolding store_data write_at
  in_place room =
      let a = as_gsize_small ibb.dataleft (omega (arith, s.inside, s.fits)) in
      let b = as_gsize_small ibb.size_buf s.fits in
      let c = mod_small_64 (length bytes + ibb.dataleft) (omega (arith, room, s.fits)) in
      let d = mod_small_32 (ibb.dataleft + length bytes) (omega (arith, room, s.fits)) in
      let l : ibb.dataleft + length bytes ≤ length ibb.buf = omega (arith, room, s.whole) in
      ground arith

  in_place-Stored :
      (room : length bytes + ibb.dataleft ≤ ibb.size_buf)
      → (ibb' : JingleIbb) × (store_data ibb bytes ≡ some ibb') × Stored ibb bytes ibb'
  in_place-Stored room =
      let l : ibb.dataleft + length bytes ≤ length ibb.buf = omega (arith, room, s.whole) in
      (
        _,
        in_place room,
        record {
          sound = record {
            whole = written_length ibb.dataleft bytes ibb.buf l ∙ s.whole;
            inside = omega (arith, room);
            fits = s.fits;
            clamped = s.clamped;
          };
          waits = written_prefix ibb.dataleft bytes ibb.buf _ (omega (arith, l));
          more = refl;
          blocksize_same = refl;
          sid_same = refl;
          seq_same = refl;
        },
      )

  grown :
      ibb.size_buf < length bytes + ibb.dataleft
      → length bytes + ibb.dataleft < two_31
      → store_data ibb bytes
        ≡ some (record ibb {
          buf =
              take ibb.dataleft (grow_to (length bytes + ibb.dataleft) ibb.buf)
              ++ bytes
              ++ drop (ibb.dataleft + length bytes) (grow_to (length bytes + ibb.dataleft) ibb.buf);
          size_buf = length bytes + ibb.dataleft;
          dataleft = length bytes + ibb.dataleft;
        })
  unfolding store_data write_at
  grown over fits =
      let a = as_gsize_small ibb.dataleft (omega (arith, s.inside, s.fits)) in
      let b = as_gsize_small ibb.size_buf s.fits in
      let c = mod_small_64 (length bytes + ibb.dataleft) fits in
      let d = mod_small_32 (length bytes + ibb.dataleft) fits in
      let long =
        length-grow_to (length bytes + ibb.dataleft) ibb.buf (omega (arith, over, s.whole)) in
      let l : ibb.dataleft + length bytes ≤ length (grow_to (length bytes + ibb.dataleft) ibb.buf) =
        omega (arith, long) in
      rw (a, b, c, d) (ground arith)

  grown-Stored :
      (over : ibb.size_buf < length bytes + ibb.dataleft)
      (fits : length bytes + ibb.dataleft < two_31)
      → (ibb' : JingleIbb) × (store_data ibb bytes ≡ some ibb') × Stored ibb bytes ibb'
  grown-Stored over fits =
      let n = length bytes + ibb.dataleft in
      let big = grow_to n ibb.buf in
      let long = length-grow_to n ibb.buf (omega (arith, over, s.whole)) in
      let l : ibb.dataleft + length bytes ≤ length big = omega (arith, long) in
      let same : n ≡ ibb.dataleft + length bytes = omega arith in
      (
        _,
        grown over fits,
        record {
          sound = record {
            whole = written_length ibb.dataleft bytes big l ∙ long;
            inside = omega arith;
            fits = fits;
            clamped = s.clamped;
          };
          waits =
              ap
                (λ k.
                  take k
                    ((take ibb.dataleft big ++ bytes) ++ drop (ibb.dataleft + length bytes) big))
                same
              ∙ written_prefix ibb.dataleft bytes big _ (omega (arith, l))
              ∙ ap (λ xs. xs ++ bytes)
                  (take-grow_to ibb.dataleft n ibb.buf (omega (arith, s.inside, s.whole)));
          more = same;
          blocksize_same = refl;
          sid_same = refl;
          seq_same = refl;
        },
      )

-- On a sound stream, bytes that with those that wait fit a `gint` are put after them: in the buffer if
-- there is room, else in one that has just room for all; nothing is written out of its bounds.
pub store_data-Stored :
    (ibb : JingleIbb) (bytes : List ℕ)
    → IsSound ibb
    → length bytes + ibb.dataleft < two_31
    → (ibb' : JingleIbb) × (store_data ibb bytes ≡ some ibb') × Stored ibb bytes ibb'
store_data-Stored ibb bytes s fits =
    elim (Bool-cases (leb (length bytes + ibb.dataleft) ibb.size_buf)) [
      | inl room ↦ in_place-Stored ibb bytes s (ground arith)
      | inr over ↦ grown-Stored ibb bytes s (ground arith) fits
    ]

-- A stream after a block was taken out of what waits.
pub record Taken (ibb : JingleIbb) (block : List ℕ) (ibb' : JingleIbb) : Type 0 where
  pub sound : IsSound ibb'
  pub waits : block ++ waiting ibb' ≡ waiting ibb
  pub full : length block ≡ ibb.blocksize
  pub less : ibb'.dataleft + ibb.blocksize ≡ ibb.dataleft
  pub blocksize_same : ibb'.blocksize ≡ ibb.blocksize
  pub sid_same : ibb'.sid ≡ ibb.sid
  pub seq_same : ibb'.seq ≡ ibb.seq

block_left : (d b : ℕ) → b ≤ d → d < two_31 → (d + (two_32 - b)) % two_32 ≡ d - b
block_left d b l f = omega (arith, l, f)

-- On a sound stream in which a whole block waits, the first block of what waits is taken out, and the
-- rest waits on; nothing is read or written out of the bounds of the buffer.
pub take_block-Taken :
    (ibb : JingleIbb)
    → IsSound ibb
    → ibb.blocksize ≤ ibb.dataleft
    → (block : List ℕ) × (ibb' : JingleIbb) × (take_block ibb ≡ some (block, ibb'))
      × Taken ibb block ibb'
unfolding take_block
take_block-Taken ibb s l =
    let left = ibb.dataleft - ibb.blocksize in
    let e = block_left ibb.dataleft ibb.blocksize l (omega (arith, s.inside, s.fits)) in
    let first = read_first_lem ibb.blocksize ibb.buf (omega (arith, l, s.inside, s.whole)) in
    let long = length-drop ibb.blocksize ibb.buf in
    let rest = take left (drop ibb.blocksize ibb.buf) in
    let second =
      read_first_lem left (drop ibb.blocksize ibb.buf)
        (omega (arith, long, l, s.inside, s.whole)) in
    let size : length rest ≡ left =
      length-take_within left _ (omega (arith, long, l, s.inside, s.whole)) in
    let in_buf : 0 + length rest ≤ length ibb.buf = omega (arith, size, l, s.inside, s.whole) in
    let third = write_at_lem 0 rest ibb.buf in_buf in
    let after = drop (0 + length rest) ibb.buf in
    let ibb' = record ibb { buf = rest ++ after; dataleft = left } in
    (
      take ibb.blocksize ibb.buf,
      ibb',
      rw (e, first, second, third),
      record {
        sound = record {
          whole = written_length 0 rest ibb.buf in_buf ∙ s.whole;
          inside = omega (arith, s.inside);
          fits = s.fits;
          clamped = s.clamped;
        };
        waits =
            ap (λ xs. take ibb.blocksize ibb.buf ++ xs)
              (ap (λ k. take k (rest ++ after)) (sym size) ∙ take_append_exact rest after)
            ∙ take-append-take ibb.blocksize left ibb.dataleft ibb.buf (omega (arith, l));
        full = length-take_within ibb.blocksize ibb.buf (omega (arith, l, s.inside, s.whole));
        less = omega (arith, l);
        blocksize_same = refl;
        sid_same = refl;
        seq_same = refl;
      },
    )
