-- ===== src/Ft/Flush.antt =====
-- jingle-ft/filetransfer.c: what `_jft_flush` comes to.
use mcabber_jingle.Base.{
  ℕ, zero, suc, ◌+◌, ◌≤◌, ◌≡◌, ◌≢◌, refl, sym, ap, subst, ◌∙◌, inl, inr, Bool, true, false, not,
  Option, none, some, List, [], ◌∷◌, ◌++◌, length, find?, remove_first, keep_if, All, arith,
  Bool-cases, append_assoc,
}
use mcabber_jingle.Ft.{JingleFt}
use mcabber_jingle.Ft.Sender.{FtStore}
use mcabber_jingle.Ft.Files.{JingleFtInfo, is_over, is_link, next_info, flush_links, jft_flush}

-- The two links, and the files behind them, are not the same.
abbrev pub IsApart : JingleFtInfo → JingleFtInfo → Type 0
IsApart i k = (i.addr ≢ k.addr) × (k.addr ≢ i.addr) × (k.jft ≢ i.jft)

abbrev pub DistinctInfos : List JingleFtInfo → Type 0
DistinctInfos [] = Unit
DistinctInfos (i ∷ is) = All (IsApart i) is × DistinctInfos is

All-middle :
    (P : JingleFtInfo → Type 0) (ps : List JingleFtInfo) (i : JingleFtInfo) (is : List JingleFtInfo)
    → All P (ps ++ i ∷ is)
    → P i × All P (ps ++ is)
All-middle P [] i is a = a
All-middle P (p ∷ ps) i is a = let (own, rest) = All-middle P ps i is a.1 in (own, (a.0, rest))

without :
    (ps : List JingleFtInfo) (i : JingleFtInfo) (is : List JingleFtInfo)
    → DistinctInfos (ps ++ i ∷ is)
    → DistinctInfos (ps ++ is)
without [] i is d = d.1
without (p ∷ ps) i is d = ((All-middle (IsApart p) ps i is d.0).1, without ps i is d.1)

rest-IsApart :
    (ps : List JingleFtInfo) (i : JingleFtInfo) (is : List JingleFtInfo)
    → DistinctInfos (ps ++ i ∷ is)
    → All (IsApart i) is
rest-IsApart [] i is d = d.0
rest-IsApart (p ∷ ps) i is d = rest-IsApart ps i is d.1

find_info :
    (ps : List JingleFtInfo) (i : JingleFtInfo) (is : List JingleFtInfo)
    → DistinctInfos (ps ++ i ∷ is)
    → find? (is_link i.addr) (ps ++ i ∷ is) ≡ some i
find_info [] i is d = ground arith
find_info (p ∷ ps) i is d =
    let (apart, rest) = All-middle (IsApart p) ps i is d.0 in ground (arith, find_info ps i is d.1)

remove_info :
    (ps : List JingleFtInfo) (i : JingleFtInfo) (is : List JingleFtInfo)
    → DistinctInfos (ps ++ i ∷ is)
    → remove_first (is_link i.addr) (ps ++ i ∷ is) ≡ ps ++ is
remove_info [] i is d = ground arith
remove_info (p ∷ ps) i is d =
    let (apart, rest) = All-middle (IsApart p) ps i is d.0 in
    ground (arith, remove_info ps i is d.1)

abbrev first_addr : List JingleFtInfo → Option ℕ
first_addr [] = none
first_addr (i ∷ is) = some i.addr

next_of :
    (ps : List JingleFtInfo) (i : JingleFtInfo) (is : List JingleFtInfo)
    → DistinctInfos (ps ++ i ∷ is)
    → next_info i.addr (ps ++ i ∷ is) ≡ some (first_addr is)
unfolding next_info
next_of [] i [] d = ground arith
next_of [] i (k ∷ is) d = ground arith
next_of (q ∷ []) i is d = ground (arith, next_of [] i is d.1)
next_of (q ∷ r ∷ ps) i is d =
    let (apart, rest) = All-middle (IsApart q) (r ∷ ps) i is d.0 in
    ground (arith, next_of (r ∷ ps) i is d.1)

module _ {W : Type 0} (fs : FtStore W) (free : ℕ → W → W) where
  open fs use {load}

  -- The file of a link is live, and `over` says whether it is over.
  abbrev pub IsLive : (JingleFtInfo → Bool) → W → JingleFtInfo → Type 0
  IsLive over w i = (jft : JingleFt) × (load i.jft w ≡ some jft) × (is_over jft.state ≡ over i)

  -- Freeing one file leaves the others.
  abbrev pub FreesOne : Type 0
  FreesOne = (p q : ℕ) (w : W) → q ≢ p → load q (free p w) ≡ load q w

  -- The files that are over are freed one after the other.
  unfoldable pub free_over : (JingleFtInfo → Bool) → List JingleFtInfo → W → W
  free_over over [] w = w
  free_over over (i ∷ is) w = elim (over i) [
    | true ↦ free_over over is (free i.jft w)
    | false ↦ free_over over is w
  ]

  abbrev pub is_left : (JingleFtInfo → Bool) → JingleFtInfo → Bool
  is_left over i = not (over i)

  IsLive-after :
      (over : JingleFtInfo → Bool) (w : W) (i : JingleFtInfo) (is : List JingleFtInfo)
      → FreesOne
      → All (IsApart i) is
      → All (IsLive over w) is
      → All (IsLive over (free i.jft w)) is
  IsLive-after over w i [] frees apart live = tt
  IsLive-after over w i (k ∷ is) frees apart live =
      let (jft, loads, says) = live.0 in
      (
        (jft, frees i.jft k.jft w apart.0.2 ∙ loads, says),
        IsLive-after over w i is frees apart.1 live.1,
      )

  -- A round at a link whose file is not over, and one at a link that is taken out.
  round_stays :
      (fuel el2 : ℕ) (ps : List JingleFtInfo) (p : JingleFtInfo) (is : List JingleFtInfo) (w : W)
      (over : JingleFtInfo → Bool)
      → DistinctInfos (ps ++ p ∷ is)
      → IsLive over w p
      → over p ≡ false
      → flush_links fs free (suc fuel) p.addr el2 (ps ++ p ∷ is) w
        ≡ elim (first_addr is) as (λ x. Option (List JingleFtInfo × W)) [
          | none ↦ some (ps ++ p ∷ is, w)
          | some el ↦ flush_links fs free fuel el p.addr (ps ++ p ∷ is) w
        ]
  unfolding flush_links
  round_stays fuel el2 ps p is w over d (jft, loads, says) stays =
      rw (find_info ps p is d, loads, says ∙ stays, next_of ps p is d, flush_links) refl

  round_removes :
      (fuel el2 : ℕ) (qs : List JingleFtInfo) (x : JingleFtInfo) (is : List JingleFtInfo) (w : W)
      (over : JingleFtInfo → Bool) (i : JingleFtInfo) (rest : List JingleFtInfo)
      → DistinctInfos (qs ++ x ∷ is)
      → IsLive over w x
      → over x ≡ true
      → qs ++ is ≡ i ∷ rest
      → flush_links fs free (suc fuel) x.addr el2 (qs ++ x ∷ is) w
        ≡ flush_links fs free fuel el2 el2 (i ∷ rest) (free x.jft w)
  unfolding flush_links
  round_removes fuel el2 qs x is w over i rest d (jft, loads, says) goes left =
      rw (find_info qs x is d, loads, says ∙ goes, remove_info qs x is d ∙ left, flush_links) refl

  head_of :
      (ps : List JingleFtInfo) (p : JingleFtInfo) (is : List JingleFtInfo)
      → (i : JingleFtInfo) × (rest : List JingleFtInfo) × (ps ++ p ∷ is ≡ i ∷ rest)
  head_of [] p is = (p, is, refl)
  head_of (q ∷ ps) p is = (q, ps ++ p ∷ is, refl)

  -- The loop from a file on that is not over.
  flush_from :
      (over : JingleFtInfo → Bool) (is : List JingleFtInfo) (fuel el2 : ℕ) (ps : List JingleFtInfo)
      (p : JingleFtInfo) (w : W)
      → FreesOne
      → DistinctInfos (ps ++ p ∷ is)
      → IsLive over w p
      → over p ≡ false
      → All (IsLive over w) is
      → length is + length is ≤ fuel
      → flush_links fs free (suc fuel) p.addr el2 (ps ++ p ∷ is) w
        ≡ some (ps ++ p ∷ keep_if (is_left over) is, free_over over is w)
  unfolding free_over
  flush_from over [] fuel el2 ps p w frees d live stays lives le =
      round_stays fuel el2 ps p [] w over d live stays
  flush_from over (x ∷ xs) zero el2 ps p w frees d live stays lives le = absurd (omega (arith, le))
  flush_from over (x ∷ xs) (suc zero) el2 ps p w frees d live stays lives le =
      absurd (omega (arith, le))
  flush_from over (x ∷ xs) (suc (suc fuel)) el2 ps p w frees d live stays lives le =
      let step = round_stays (suc (suc fuel)) el2 ps p (x ∷ xs) w over d live stays in
      let same = append_assoc ps (p ∷ []) (x ∷ xs) in
      let d' = subst DistinctInfos (sym same) d in
      elim (Bool-cases (over x)) [
        | inl goes ↦
            let (i, rest, left) = head_of ps p xs in
            let apart = (rest-IsApart ps p (x ∷ xs) d).0 in
            let (jft, loads, says) = live in
            let removed =
              round_removes (suc fuel) p.addr (ps ++ p ∷ []) x xs w over i rest d' lives.0 goes
                (append_assoc ps (p ∷ []) xs ∙ left) in
            let later =
              flush_from over xs fuel p.addr ps p (free x.jft w) frees
                (subst DistinctInfos (append_assoc ps (p ∷ []) xs) (without (ps ++ p ∷ []) x xs d'))
                (jft, frees x.jft p.jft w (λ e. apart.2 (sym e)) ∙ loads, says) stays
                (IsLive-after over w x xs frees (rest-IsApart (ps ++ p ∷ []) x xs d') lives.1)
                (omega (arith, le)) in
            rw (goes, free_over)
              (step
                ∙ ap (λ l. flush_links fs free (suc (suc fuel)) x.addr p.addr l w) (sym same)
                ∙ removed
                ∙ ap (λ l. flush_links fs free (suc fuel) p.addr p.addr l (free x.jft w)) (sym left)
                ∙ later)
        | inr keeps ↦
            let later =
              flush_from over xs (suc fuel) p.addr (ps ++ p ∷ []) x w frees d' lives.0 keeps lives.1
                (omega (arith, le)) in
            rw (keeps, free_over)
              (step
                ∙ ap (λ l. flush_links fs free (suc (suc fuel)) x.addr p.addr l w) (sym same)
                ∙ later
                ∙ ap (λ l. some (l, free_over over xs w))
                    (append_assoc ps (p ∷ []) (x ∷ keep_if (is_left over) xs)))
      ]

  absent :
      (i : JingleFtInfo) (is : List JingleFtInfo)
      → All (IsApart i) is
      → find? (is_link i.addr) is ≡ none
  absent i [] d = refl
  absent i (k ∷ is) d = let (left, right, files) = d.0 in ground (arith, absent i is d.1)

  -- What `_jft_flush` comes to, for files that are live.
  pub data FlushOutcome (over : JingleFtInfo → Bool) (i : JingleFtInfo) (is : List JingleFtInfo)
      (w : W) (r : Option (List JingleFtInfo × W)) : Type 0 where
    flushed :
        over i ≡ false
        → r ≡ some (keep_if (is_left over) (i ∷ is), free_over over (i ∷ is) w)
        → FlushOutcome over i is w r
    flushed_only :
        over i ≡ true → is ≡ [] → r ≡ some ([], free i.jft w) → FlushOutcome over i is w r
    reads_freed : over i ≡ true → is ≢ [] → r ≡ none → FlushOutcome over i is w r

  first_over :
      (over : JingleFtInfo → Bool) (i : JingleFtInfo) (is : List JingleFtInfo) (w : W)
      → DistinctInfos (i ∷ is)
      → IsLive over w i
      → over i ≡ true
      → FlushOutcome over i is w (jft_flush fs free (i ∷ is) w)
  unfolding jft_flush flush_links
  first_over over i [] w d (jft, loads, says) goes =
      flushed_only goes refl
        (rw (find_info [] i [] d, loads, says ∙ goes, remove_info [] i [] d, flush_links) refl)
  first_over over i (k ∷ is) w d live goes =
      let n = length is + length (k ∷ is) in
      let two : length (k ∷ is) + length (k ∷ is) ≡ suc n = omega arith in
      reads_freed goes (λ e. cc)
        (ap (λ m. flush_links fs free (suc m) i.addr i.addr (i ∷ k ∷ is) w) two
          ∙ round_removes (suc n) i.addr [] i (k ∷ is) w over k is d live goes refl
          ∙ rw (absent i (k ∷ is) d.0, flush_links) refl)

  -- Where the links and the live files of the list are not the same, and freeing a file leaves the others: if the first file
  -- is not over, `_jft_flush` returns, and just the files that are over have left the list and were freed, in
  -- their order; if it is over and the only one, it returns too; and if it is the first of several, the link that was
  -- just freed is read.
  pub jft_flush-FlushOutcome :
      (over : JingleFtInfo → Bool) (i : JingleFtInfo) (is : List JingleFtInfo) (w : W)
      → FreesOne
      → DistinctInfos (i ∷ is)
      → All (IsLive over w) (i ∷ is)
      → FlushOutcome over i is w (jft_flush fs free (i ∷ is) w)
  unfolding jft_flush flush_links free_over
  jft_flush-FlushOutcome over i is w frees d live = elim (Bool-cases (over i)) [
    | inr keeps ↦ flushed keeps (
        rw (keeps, free_over)
          (flush_from over is (length is + length is) i.addr [] i w frees d live.0 keeps live.1
            (omega arith)))
    | inl goes ↦ first_over over i is w d live.0 goes
  ]
