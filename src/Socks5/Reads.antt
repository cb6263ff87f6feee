-- ===== src/Socks5/Reads.antt =====
-- jingle-s5b/socks5-proto.c, `do_read`: a message that is read in any chunks.
use mcabber_jingle.Base.{
  smaller, ℕ, false, ◌+◌, ◌-◌, ◌<◌, ◌≤◌, ◌≡◌, refl, sym, ap, ◌∙◌, Option, some, none, leb, List,
  ◌++◌, length, take, drop, arith, append_assoc, length-drop,
}
use mcabber_jingle.Memory.{
  write_at, write_at_lem, take-append-take, drop-drop, length-take_within, written_prefix,
  written_suffix, written_length,
}
use mcabber_jingle.Jingle.{◌>>=◌}
use mcabber_jingle.Socks5.Nego.{
  ConnectAsyncData, Callback, Nego, waiting, moved, asked, when_done, received, call,
}
use mcabber_jingle.Socks5.Transfer.{Progress, Leads, Transfer, transfer_all}

-- All that was asked for is read.
abbrev pub got : ConnectAsyncData → ConnectAsyncData
got d = record d {
  buffer = take d.offset d.buffer ++ take (asked d) d.input ++ drop d.length d.buffer;
  input = drop (asked d) d.input;
  offset = d.length;
}

took : ℕ → ConnectAsyncData → ConnectAsyncData
took k d = record d {
  buffer = take d.offset d.buffer ++ take k d.input ++ drop (d.offset + k) d.buffer;
  input = drop k d.input;
  offset = d.offset + k;
}

abbrev pub CanRead : ConnectAsyncData → Type 0
CanRead d = (d.offset ≤ d.length) × (d.length ≤ length d.buffer) × (asked d ≤ length d.input)

count_received : ℕ → ConnectAsyncData → ℕ
count_received n d = smaller (smaller n (asked d)) (length d.input)

received_lem :
    (n : ℕ) (d : ConnectAsyncData) → CanRead d → received n d ≡ some (took (count_received n d) d)
unfolding received took count_received
received_lem n d ok =
    let k = smaller (smaller n (asked d)) (length d.input) in
    let small : k ≤ asked d = ground arith in
    let within : k ≤ length d.input = ground arith in
    let size : length (take k d.input) ≡ k = length-take_within k d.input within in
    rw (write_at_lem d.offset (take k d.input) d.buffer (omega (arith, size, small, ok.0, ok.1))) (
      ap
        (λ m. some (record d {
          buffer = take d.offset d.buffer ++ take k d.input ++ drop (d.offset + m) d.buffer;
          input = drop k d.input;
          offset = d.offset + k;
        }))
        size)

took_buffer :
    (k : ℕ) (d : ConnectAsyncData)
    → CanRead d
    → k ≤ asked d
    → (take (d.offset + k) (took k d).buffer ≡ take d.offset d.buffer ++ take k d.input)
      × (drop d.length (took k d).buffer ≡ drop d.length d.buffer)
      × (length (took k d).buffer ≡ length d.buffer)
unfolding took
took_buffer k d ok small =
    let bytes = take k d.input in
    let size : length bytes ≡ k = length-take_within k d.input (omega (arith, small, ok.2)) in
    let in_buf : d.offset + length bytes ≤ length d.buffer =
      omega (arith, size, small, ok.0, ok.1) in
    (
      ap (λ m. take m (take d.offset d.buffer ++ bytes ++ drop (d.offset + k) d.buffer))
            (ap (λ m. d.offset + m) (sym size))
          ∙ written_prefix d.offset bytes d.buffer _ (omega (arith, in_buf)),
      ap (λ m. drop d.length (take d.offset d.buffer ++ bytes ++ drop (d.offset + m) d.buffer))
            (sym size)
          ∙ written_suffix d.offset d.length bytes d.buffer in_buf
              (omega (arith, size, small, ok.0)),
      ap (λ m. length (take d.offset d.buffer ++ bytes ++ drop (d.offset + m) d.buffer)) (sym size)
          ∙ written_length d.offset bytes d.buffer in_buf,
    )

got-took : (k : ℕ) (d : ConnectAsyncData) → CanRead d → k ≤ asked d → got (took k d) ≡ got d
unfolding took
got-took k d ok small =
    let (front, back, same) = took_buffer k d ok small in
    let left = d.length - (d.offset + k) in
    let bytes : take (d.offset + k) (took k d).buffer ++ take left (drop k d.input)
        ≡ take d.offset d.buffer ++ take (asked d) d.input =
      ap (λ xs. xs ++ take left (drop k d.input)) front
      ∙ append_assoc (take d.offset d.buffer) (take k d.input) (take left (drop k d.input))
      ∙ ap (λ xs. take d.offset d.buffer ++ xs)
          (take-append-take k left (asked d) d.input (omega (arith, small))) in
    let rest : drop left (drop k d.input) ≡ drop (asked d) d.input =
      drop-drop k left d.input
      ∙ (let e : k + left ≡ asked d = omega (arith, small) in ap (λ m. drop m d.input) e) in
    ap
      (λ xs. record d {
        buffer = xs ++ drop d.length (took k d).buffer;
        input = drop left (drop k d.input);
        offset = d.length;
      })
      bytes
    ∙ ap
        (λ xs. record d {
          buffer = take d.offset d.buffer ++ take (asked d) d.input ++ xs;
          input = drop left (drop k d.input);
          offset = d.length;
        })
        back
    ∙ ap
        (λ xs. record d {
          buffer = take d.offset d.buffer ++ take (asked d) d.input ++ drop d.length d.buffer;
          input = xs;
          offset = d.length;
        })
        rest

-- What callbacks that read do: `next` runs where all that was asked for has come.
abbrev pub Reads : Callback → (ConnectAsyncData → Option Nego) → Type 0
Reads cb next =
    (n : ℕ) (d : ConnectAsyncData) → call cb (moved n) d ≡ (received n d >>= when_done cb next)

read_transfer :
    (cb : Callback) (next : ConnectAsyncData → Option Nego)
    → Reads cb next
    → Transfer cb next count_received took got CanRead
unfolding count_received took
read_transfer cb next w = record {
  round = λ n d ok. w n d ∙ ap (λ r. r >>= when_done cb next) (received_lem n d ok);
  moves = λ k d. refl;
  length_same = λ k d. refl;
  some_moved = λ n d ok pos more. (ground arith, ground arith);
  whole = λ k d ok e.
      let same : k ≡ asked d = omega (arith, e) in
      ap
        (λ o. record d {
          buffer = take d.offset d.buffer ++ take k d.input ++ drop o d.buffer;
          input = drop k d.input;
          offset = o;
        })
        e
      ∙ ap
          (λ k. record d {
            buffer = take d.offset d.buffer ++ take k d.input ++ drop d.length d.buffer;
            input = drop k d.input;
            offset = d.length;
          })
          same;
  then_all = λ k d ok small. got-took k d ok small;
  keeps = λ k d ok small. (
    omega (arith, ok.0, small),
    omega (arith, ok.1, (took_buffer k d ok small).2),
    omega (arith, ok.2, small, length-drop k d.input),
  );
}

-- A message that has come is read whole, in any chunks.
pub read_all :
    (cb : Callback) (next : ConnectAsyncData → Option Nego) (ns : List ℕ) (d : ConnectAsyncData)
    → Reads cb next
    → Progress ns
    → d.offset < d.length
    → d.length ≤ length d.buffer
    → asked d ≤ length d.input
    → asked d ≤ length ns
    → Leads ns (waiting cb d) (next (got d)) (asked d)
read_all cb next ns d w p more room there enough =
    transfer_all (read_transfer cb next w) ns d (omega (arith, more), room, there) p more enough

-- One read that takes a part, or all that was asked for.
pub received_part :
    (n : ℕ) (d : ConnectAsyncData)
    → CanRead d
    → n < asked d
    → (d' : ConnectAsyncData) × (received n d ≡ some d')
      × (got d' ≡ got d)
      × (d'.offset ≡ d.offset + n)
      × (d'.length ≡ d.length)
      × CanRead d'
unfolding took count_received
received_part n d ok small =
    let all : count_received n d ≡ n = ground (arith, ok.2) in
    let within : n ≤ asked d = omega (arith, small) in
    (
      took n d,
      received_lem n d ok ∙ ap (λ k. some (took k d)) all,
      got-took n d ok within,
      refl,
      refl,
      (
        omega (arith, ok.0, small),
        omega (arith, ok.1, (took_buffer n d ok within).2),
        omega (arith, ok.2, small, length-drop n d.input),
      ),
    )

pub received_all :
    (n : ℕ) (d : ConnectAsyncData) → CanRead d → asked d ≤ n → received n d ≡ some (got d)
unfolding took count_received
received_all n d ok enough =
    let all : count_received n d ≡ asked d = ground (arith, ok.2, enough) in
    let end : d.offset + asked d ≡ d.length = omega (arith, ok.0) in
    received_lem n d ok
    ∙ ap (λ k. some (took k d)) all
    ∙ ap
        (λ o. some (record d {
          buffer = take d.offset d.buffer ++ take (asked d) d.input ++ drop o d.buffer;
          input = drop (asked d) d.input;
          offset = o;
        }))
        end

-- A read of more bytes than the buffer can take.
pub received_out :
    (n : ℕ) (d : ConnectAsyncData)
    → d.offset ≤ d.length
    → length d.buffer < d.length
    → asked d ≤ length d.input
    → asked d ≤ n
    → received n d ≡ none
unfolding received write_at
received_out n d inside beyond there enough =
    let k : smaller (smaller n (asked d)) (length d.input) ≡ asked d = ground arith in
    let size = length-take_within (asked d) d.input there in
    let over : leb (d.offset + length (take (asked d) d.input)) (length d.buffer) ≡ false =
      ground (arith, size, inside, beyond) in
    rw (k, over) refl
