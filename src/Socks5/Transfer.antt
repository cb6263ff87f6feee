-- ===== src/Socks5/Transfer.antt =====
-- jingle-s5b/socks5-proto.c, `do_read` and `do_write`: a message that is read or written in any chunks.
use mcabber_jingle.Base.{
  ℕ, true, false, ◌≢◌, ◌+◌, ◌<◌, ◌≤◌, ◌≡◌, refl, ap, ◌∙◌, Option, some, List, [], ◌∷◌, ◌==◌, length,
  map, All, arith, inl, inr, Bool-cases,
}
use mcabber_jingle.Jingle.{◌>>=◌}
use mcabber_jingle.Socks5.{NegoError}
use mcabber_jingle.Socks5.Nego.{
  ConnectAsyncData, Callback, Nego, waiting, finished, Completion, moved, asked, when_done, call,
  run,
}

-- Reads and writes that all move something.
abbrev pub Progress : List ℕ → Type 0
Progress ns = All (λ n. 0 < n) ns

-- From `m`, completions of `ns` come to `r`, `cost` of them at most, and those that are left go on from there.
pub record Leads (ns : List ℕ) (m : Nego) (r : Option Nego) (cost : ℕ) : Type 0 where
  pub rest : List ℕ
  pub progress : Progress rest
  pub used : length ns ≤ length rest + cost
  pub same : run (map moved ns) m ≡ (r >>= run (map moved rest))

-- What follows where some completions have led goes on with those that are left.
pub Leads-then :
    {ns : List ℕ} {m m' : Nego} {r : Option Nego} {a b : ℕ}
    → Leads ns m (some m') a
    → ((rest : List ℕ) → Progress rest → length ns ≤ length rest + a → Leads rest m' r b)
    → Leads ns m r (a + b)
Leads-then l next =
    let k = next l.rest l.progress l.used in
    record {
      rest = k.rest;
      progress = k.progress;
      used = omega (arith, l.used, k.used);
      same = l.same ∙ k.same;
    }

-- A step that reads no more completions.
pub Leads-to :
    {ns : List ℕ} {m : Nego} {r r' : Option Nego} {a : ℕ}
    → Leads ns m r a
    → r ≡ r'
    → Leads ns m r' a
Leads-to l e = record {
  rest = l.rest;
  progress = l.progress;
  used = l.used;
  same = l.same ∙ ap (λ x. x >>= run (map moved l.rest)) e;
}

pub run_finished :
    (cs : List Completion) (r : Option NegoError) (d : ConnectAsyncData)
    → run cs (finished r d) ≡ some (finished r d)
unfolding run
run_finished [] r d = refl
run_finished (c ∷ cs) r d = refl

-- A callback that moves a message piece by piece: `part k` moves `k` bytes, of `n` that could move it moves
-- `count n`, and `all` is what comes of it when all is moved, where `next` runs.
pub record Transfer (cb : Callback) (next : ConnectAsyncData → Option Nego)
    (count : ℕ → ConnectAsyncData → ℕ) (part : ℕ → ConnectAsyncData → ConnectAsyncData)
    (all : ConnectAsyncData → ConnectAsyncData) (Ok : ConnectAsyncData → Type 0) : Type 0 where
  pub round :
      (n : ℕ) (d : ConnectAsyncData)
      → Ok d
      → call cb (moved n) d ≡ when_done cb next (part (count n d) d)
  pub moves : (k : ℕ) (d : ConnectAsyncData) → (part k d).offset ≡ d.offset + k
  pub length_same : (k : ℕ) (d : ConnectAsyncData) → (part k d).length ≡ d.length
  pub some_moved :
      (n : ℕ) (d : ConnectAsyncData)
      → Ok d
      → 0 < n
      → d.offset < d.length
      → (0 < count n d) × (count n d ≤ asked d)
  pub whole : (k : ℕ) (d : ConnectAsyncData) → Ok d → d.offset + k ≡ d.length → part k d ≡ all d
  pub then_all : (k : ℕ) (d : ConnectAsyncData) → Ok d → k ≤ asked d → all (part k d) ≡ all d
  pub keeps : (k : ℕ) (d : ConnectAsyncData) → Ok d → k ≤ asked d → Ok (part k d)

module _ {cb : Callback} {next : ConnectAsyncData → Option Nego} {count : ℕ → ConnectAsyncData → ℕ}
    {part : ℕ → ConnectAsyncData → ConnectAsyncData} {all : ConnectAsyncData → ConnectAsyncData}
    {Ok : ConnectAsyncData → Type 0} (t : Transfer cb next count part all Ok) where
  one_round :
      (n : ℕ) (ns : List ℕ) (d : ConnectAsyncData)
      → Ok d
      → run (map moved (n ∷ ns)) (waiting cb d)
        ≡ (when_done cb next (part (count n d) d) >>= run (map moved ns))
  unfolding run
  one_round n ns d ok = ap (λ r. r >>= run (map moved ns)) (t.round n d ok)

  last_round :
      (n : ℕ) (ns : List ℕ) (d : ConnectAsyncData)
      → Ok d
      → d.offset + count n d ≡ d.length
      → run (map moved (n ∷ ns)) (waiting cb d) ≡ (next (all d) >>= run (map moved ns))
  last_round n ns d ok e =
      one_round n ns d ok
      ∙ ap (λ r. r >>= run (map moved ns))
          (let at : (part (count n d) d).offset ≡ (part (count n d) d).length =
              omega (arith, t.moves (count n d) d, t.length_same (count n d) d, e) in
            let done : ((part (count n d) d).offset == (part (count n d) d).length) ≡ true =
              ground arith in
            let same = t.whole (count n d) d ok e in rw done (ap next same))

  next_round :
      (n : ℕ) (ns : List ℕ) (d : ConnectAsyncData)
      → Ok d
      → d.offset + count n d ≢ d.length
      → run (map moved (n ∷ ns)) (waiting cb d)
        ≡ run (map moved ns) (waiting cb (part (count n d) d))
  next_round n ns d ok e =
      one_round n ns d ok
      ∙ ap (λ r. r >>= run (map moved ns))
          (let at : (part (count n d) d).offset ≢ (part (count n d) d).length =
              λ q. e (omega (arith, t.moves (count n d) d, t.length_same (count n d) d, q)) in
            let more : ((part (count n d) d).offset == (part (count n d) d).length) ≡ false =
              ground arith in
            let stays : when_done cb next (part (count n d) d)
                ≡ some (waiting cb (part (count n d) d)) =
              rw more in
            stays)

  pub transfer_all :
      (ns : List ℕ) (d : ConnectAsyncData)
      → Ok d
      → Progress ns
      → d.offset < d.length
      → asked d ≤ length ns
      → Leads ns (waiting cb d) (next (all d)) (asked d)
  transfer_all [] d ok p more enough = absurd (omega (arith, more, enough))
  transfer_all (n ∷ ns) d ok p more enough =
      let k = count n d in
      let (pos, small) = t.some_moved n d ok p.0 more in
      elim (Bool-cases (d.offset + k == d.length)) [
        | inl done ↦ record {
          rest = ns;
          progress = p.1;
          used = omega (arith, more);
          same = last_round n ns d ok (ground arith);
        }
        | inr left ↦
            let d' = part k d in
            let at = t.moves k d in
            let len = t.length_same k d in
            let ne : d.offset + k ≢ d.length = ground arith in
            let l =
              transfer_all ns d' (t.keeps k d ok small) p.1
                (omega (arith, at, len, ne, small, more)) (omega (arith, at, len, enough, pos)) in
            record {
              rest = l.rest;
              progress = l.progress;
              used = omega (arith, l.used, at, len);
              same =
                  next_round n ns d ok ne
                  ∙ l.same
                  ∙ ap (λ x. next x >>= run (map moved l.rest)) (t.then_all k d ok small);
            }
      ]
