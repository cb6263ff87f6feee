-- ===== src/Socks5/Writes.antt =====
-- jingle-s5b/socks5-proto.c, `do_write`: a message that is written in any chunks.
use mcabber_jingle.Base.{
  smaller, ℕ, ◌+◌, ◌-◌, ◌<◌, ◌≤◌, ◌≡◌, refl, sym, ap, ◌∙◌, Option, some, List, ◌++◌, length, take,
  drop, arith, append_assoc, length-drop,
}
use mcabber_jingle.Memory.{read_first_lem, take-append-take, drop-drop}
use mcabber_jingle.Jingle.{◌>>=◌}
use mcabber_jingle.Socks5.Nego.{
  ConnectAsyncData, Callback, Nego, waiting, moved, asked, when_done, written, call,
}
use mcabber_jingle.Socks5.Transfer.{Progress, Leads, Transfer, transfer_all}

-- All that was asked for is written.
abbrev pub sent : ConnectAsyncData → ConnectAsyncData
sent d = record d {
  output = d.output ++ take (asked d) (drop d.offset d.buffer);
  offset = d.length;
}

wrote : ℕ → ConnectAsyncData → ConnectAsyncData
wrote k d = record d { output = d.output ++ take k (drop d.offset d.buffer); offset = d.offset + k }

abbrev CanWrite : ConnectAsyncData → Type 0
CanWrite d = (d.offset ≤ d.length) × (d.length ≤ length d.buffer)

written_lem :
    (n : ℕ) (d : ConnectAsyncData) → CanWrite d → written n d ≡ some (wrote (smaller n (asked d)) d)
unfolding written wrote
written_lem n d ok =
    let k = smaller n (asked d) in
    let left = length-drop d.offset d.buffer in
    let small : k ≤ asked d = ground arith in
    rw (read_first_lem k (drop d.offset d.buffer) (omega (arith, left, small, ok.0, ok.1))) refl

sent-wrote : (k : ℕ) (d : ConnectAsyncData) → k ≤ asked d → sent (wrote k d) ≡ sent d
unfolding wrote
sent-wrote k d l =
    ap (λ o. record d { output = o; offset = d.length })
      (append_assoc d.output _ _
        ∙ ap (λ xs. d.output ++ xs)
            (ap (λ xs. take k (drop d.offset d.buffer) ++ take (d.length - (d.offset + k)) xs)
                (sym (drop-drop d.offset k d.buffer))
              ∙ take-append-take k (d.length - (d.offset + k)) (asked d) (drop d.offset d.buffer)
                  (omega (arith, l))))

count_written : ℕ → ConnectAsyncData → ℕ
count_written n d = smaller n (asked d)

-- What callbacks that write do: `next` runs where the whole message is out.
abbrev pub Writes : Callback → (ConnectAsyncData → Option Nego) → Type 0
Writes cb next =
    (n : ℕ) (d : ConnectAsyncData) → call cb (moved n) d ≡ (written n d >>= when_done cb next)

write_transfer :
    (cb : Callback) (next : ConnectAsyncData → Option Nego)
    → Writes cb next
    → Transfer cb next count_written wrote sent CanWrite
unfolding count_written wrote
write_transfer cb next w = record {
  round = λ n d ok. w n d ∙ ap (λ r. r >>= when_done cb next) (written_lem n d ok);
  moves = λ k d. refl;
  length_same = λ k d. refl;
  some_moved = λ n d ok pos more. (ground arith, ground arith);
  whole = λ k d ok e.
      let same : k ≡ asked d = omega (arith, e) in
      ap (λ o. record d { output = d.output ++ take k (drop d.offset d.buffer); offset = o }) e
      ∙ ap
          (λ k. record d {
            output = d.output ++ take k (drop d.offset d.buffer);
            offset = d.length;
          })
          same;
  then_all = λ k d ok small. sent-wrote k d small;
  keeps = λ k d ok small. (omega (arith, ok.0, small), ok.1);
}

-- A message is written whole, in any chunks.
pub write_all :
    (cb : Callback) (next : ConnectAsyncData → Option Nego) (ns : List ℕ) (d : ConnectAsyncData)
    → Writes cb next
    → Progress ns
    → d.offset < d.length
    → d.length ≤ length d.buffer
    → asked d ≤ length ns
    → Leads ns (waiting cb d) (next (sent d)) (asked d)
write_all cb next ns d w p more room enough =
    transfer_all (write_transfer cb next w) ns d (omega (arith, more), room) p more enough

-- One write that takes all.
pub written_all :
    (n : ℕ) (d : ConnectAsyncData)
    → d.offset ≤ d.length
    → d.length ≤ length d.buffer
    → asked d ≤ n
    → written n d ≡ some (sent d)
unfolding wrote
written_all n d inside room enough =
    let all : smaller n (asked d) ≡ asked d = ground arith in
    let end : d.offset + asked d ≡ d.length = omega (arith, inside) in
    written_lem n d (inside, room)
    ∙ ap (λ k. some (wrote k d)) all
    ∙ ap
        (λ o.
          some
            (record d { output = d.output ++ take (asked d) (drop d.offset d.buffer); offset = o }))
        end
