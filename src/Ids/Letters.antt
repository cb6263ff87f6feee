-- ===== src/Ids/Letters.antt =====
-- jingle/jingle.c, jingle-ibb/ibb.c and jingle-s5b/s5b.c: what the loop of the identifiers leaves in its buffer.
use mcabber_jingle.Base.{
  ℕ, zero, suc, ◌+◌, ◌-◌, ◌≤◌, ◌<◌, ◌≡◌, refl, ap, ◌∙◌, sym, Bool, true, none, some, List, [], ◌∷◌,
  ◌++◌, ◌==◌, length, get_elem?, arith, if◌then◌else◌, ltb, ◌&&◌, length-append, append_assoc,
  append-nil,
}
use mcabber_jingle.Memory.{
  write_at, zeros, write_at_lem, take_append_exact, drop_append_exact, length-zeros,
}
use mathlib.Core.Path.{ap₂}
use mcabber_jingle.Jingle.{◌>>=◌}
use mcabber_jingle.Ids.{car_array, sizeof_car, fill_random}

-- The letter at a place: a small one, a capital or a digit, and the NUL at 62.
abbrev pub letter : ℕ → ℕ
letter n = if ltb n 26 then 97 + n else if ltb n 52 then 39 + n else if ltb n 62 then n - 4 else 0

-- `xs` are the letters from a place on.
abbrev are_letters : ℕ → List ℕ → Bool
are_letters k [] = true
are_letters k (c ∷ cs) = (c == letter k) && are_letters (suc k) cs

letters_found :
    (k : ℕ) (xs : List ℕ) (n : ℕ)
    → are_letters k xs ≡ true
    → n < length xs
    → get_elem? xs n ≡ some (letter (k + n))
letters_found k [] n e l = absurd (omega (arith, l))
letters_found k (c ∷ cs) zero e l = let same : k + 0 ≡ k = omega arith in rw same (ground arith)
letters_found k (c ∷ cs) (suc n) e l =
    let same : suc k + n ≡ k + suc n = omega arith in
    letters_found (suc k) cs n (ground arith) (omega (arith, l)) ∙ ap (λ m. some (letter m)) same

pub car_array_lem : (n : ℕ) → n < sizeof_car → get_elem? car_array n ≡ some (letter n)
car_array_lem n l =
    let same : 0 + n ≡ n = omega arith in
    letters_found 0 car_array n refl l ∙ ap (λ m. some (letter m)) same

pub written_next :
    (ls : List ℕ) (c m : ℕ)
    → write_at (length ls) (c ∷ []) (ls ++ zeros (suc m)) ≡ some ((ls ++ c ∷ []) ++ zeros m)
written_next ls c m =
    let size = length-append ls (zeros (suc m)) in
    write_at_lem (length ls) (c ∷ []) (ls ++ zeros (suc m))
      (omega (arith, size, length-zeros (suc m)))
    ∙ ap some (
        ap₂ (λ f r. f ++ (c ∷ []) ++ r) (take_append_exact ls (zeros (suc m)))
          (drop_append_exact 1 ls (zeros (suc m))))

pub not_written : (ls : List ℕ) (c : ℕ) → write_at (length ls) (c ∷ []) (ls ++ []) ≡ none
unfolding write_at
not_written ls c = let size = length-append ls [] in ground (arith, size)

module _ (draw : ℕ → ℕ → ℕ → ℕ) where
  -- The letters that are drawn from the `i`-th draw on.
  abbrev pub letters : ℕ → ℕ → ℕ → List ℕ
  letters end i zero = []
  letters end i (suc n) = letter (draw i 0 end) ∷ letters end (suc i) n

  -- An answer is in the range that is asked for.
  abbrev pub IsInRange : ℕ → Type 0
  IsInRange end = (i : ℕ) → draw i 0 end < end

  -- A round of the loop, where there is room.
  fill_step :
      (end n k i : ℕ) (ls : List ℕ)
      → IsInRange end
      → end ≤ sizeof_car
      → i ≡ length ls
      → fill_random draw end i (suc n) (ls ++ zeros (suc k))
        ≡ fill_random draw end (suc i) n ((ls ++ letter (draw i 0 end) ∷ []) ++ zeros k)
  unfolding fill_random
  fill_step end n k i ls in_range le at =
      let drawn = in_range i in
      let c = letter (draw i 0 end) in
      ap
        (λ o. o >>= λ d.
          write_at i (d ∷ []) (ls ++ zeros (suc k)) >>= λ s. fill_random draw end (suc i) n s)
        (car_array_lem (draw i 0 end) (omega (arith, drawn, le)))
      ∙ ap (λ o. o >>= λ s. fill_random draw end (suc i) n s)
          (ap (λ j. write_at j (c ∷ []) (ls ++ zeros (suc k))) at ∙ written_next ls c k)

  next_fits : (i c : ℕ) (ls : List ℕ) → i ≡ length ls → suc i ≡ length (ls ++ c ∷ [])
  next_fits i c ls at = let next = length-append ls (c ∷ []) in omega (arith, next, at)

  pub fill_random_lem :
      (end n m k i : ℕ) (ls : List ℕ)
      → IsInRange end
      → end ≤ sizeof_car
      → k ≡ n + m
      → i ≡ length ls
      → fill_random draw end i n (ls ++ zeros k) ≡ some ((ls ++ letters end i n) ++ zeros m)
  unfolding fill_random
  fill_random_lem end zero m k i ls in_range le e at =
      let same : k ≡ m = omega (arith, e) in
      ap some (ap₂ (◌++◌) (sym (append-nil ls)) (ap zeros same))
  fill_random_lem end (suc n) m zero i ls in_range le e at = absurd (omega (arith, e))
  fill_random_lem end (suc n) m (suc k) i ls in_range le e at =
      let c = letter (draw i 0 end) in
      fill_step end n k i ls in_range le at
      ∙ fill_random_lem end n m k (suc i) (ls ++ c ∷ []) in_range le (omega (arith, e))
          (next_fits i c ls at)
      ∙ ap (λ f. some (f ++ zeros m)) (append_assoc ls (c ∷ []) (letters end (suc i) n))

  -- Where there is no room for the letters, the loop writes beyond the end of the buffer.
  pub fill_random-Faults :
      (end n k i : ℕ) (ls : List ℕ)
      → IsInRange end
      → end ≤ sizeof_car
      → k < n
      → i ≡ length ls
      → fill_random draw end i n (ls ++ zeros k) ≡ none
  unfolding fill_random
  fill_random-Faults end zero k i ls in_range le few at = absurd (omega (arith, few))
  fill_random-Faults end (suc n) zero i ls in_range le few at =
      let drawn = in_range i in
      let c = letter (draw i 0 end) in
      ap (λ o. o >>= λ d. write_at i (d ∷ []) (ls ++ []) >>= λ s. fill_random draw end (suc i) n s)
        (car_array_lem (draw i 0 end) (omega (arith, drawn, le)))
      ∙ ap (λ o. o >>= λ s. fill_random draw end (suc i) n s)
          (ap (λ j. write_at j (c ∷ []) (ls ++ [])) at ∙ not_written ls c)
  fill_random-Faults end (suc n) (suc k) i ls in_range le few at =
      let c = letter (draw i 0 end) in
      fill_step end n k i ls in_range le at
      ∙ fill_random-Faults end n k (suc i) (ls ++ c ∷ []) in_range le (omega (arith, few))
          (next_fits i c ls at)

  pub length-letters : (end i n : ℕ) → length (letters end i n) ≡ n
  length-letters end i zero = refl
  length-letters end i (suc n) = ap suc (length-letters end (suc i) n)

  -- The letters of an identifier and its NUL, in a buffer of `size` bytes with room for them.
  pub terminated :
      (end n m size : ℕ)
      → IsInRange end
      → end ≤ sizeof_car
      → size ≡ n + suc m
      → (fill_random draw end 0 n (zeros size) >>= λ s. write_at n (0 ∷ []) s)
        ≡ some (letters end 0 n ++ zeros (suc m))
  terminated end n m size in_range le e =
      let ls = letters end 0 n in
      ap (λ o. o >>= λ s. write_at n (0 ∷ []) s)
        (fill_random_lem end n (suc m) size 0 [] in_range le e refl)
      ∙ ap (λ j. write_at j (0 ∷ []) (ls ++ zeros (suc m))) (sym (length-letters end 0 n))
      ∙ written_next ls 0 m
      ∙ ap some (append_assoc ls (0 ∷ []) (zeros m))
