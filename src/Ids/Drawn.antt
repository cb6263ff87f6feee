-- ===== src/Ids/Drawn.antt =====
-- jingle/jingle.c, jingle-ibb/ibb.c and jingle-s5b/s5b.c: the text that is drawn.
use mcabber_jingle.Base.{
  ℕ, zero, suc, ◌+◌, ◌-◌, ◌≤◌, ◌<◌, ◌≡◌, refl, ap, ◌∙◌, sym, subst, false, Option, none, some, List,
  [], ◌∷◌, ◌++◌, ◌==◌, arith, if◌then◌else◌, leb, Bool-cases, inl, inr, ◌⊎◌,
}
use mcabber_jingle.Memory.{write_at, zeros}
use mathlib.Core.Path.{ap₂}
use mcabber_jingle.Jingle.{◌>>=◌}
use mcabber_jingle.S5b.{S5bHost, car, random_str}
use mcabber_jingle.Ids.{sizeof_car, c_string, jingle_generate_sid, gen_ibb_sid, random_str_in}
use mcabber_jingle.Ids.Letters.{
  letter, not_written, letters, IsInRange, terminated, fill_random_lem, fill_random-Faults,
}

nul_lem : (n : ℕ) → n < sizeof_car → (letter n == 0) ≡ (n == 62)
nul_lem n l = ground (arith, l)

-- The text of a buffer, if there is one.
abbrev pub text_of : Option (List ℕ) → Option (List ℕ)
text_of none = none
text_of (some buf) = some (c_string buf)

module _ (draw : ℕ → ℕ → ℕ → ℕ) where
  -- The letters draw before the first draw of the place of the NUL.
  abbrev pub before_nul : ℕ → ℕ → ℕ → List ℕ
  before_nul end i zero = []
  before_nul end i (suc n) =
      let rest = before_nul end (suc i) n in
      if draw i 0 end == 62 then [] else letter (draw i 0 end) ∷ rest

  c_string-letters :
      (end i n m : ℕ)
      → IsInRange draw end
      → end ≤ sizeof_car
      → c_string (letters draw end i n ++ zeros (suc m)) ≡ before_nul end i n
  c_string-letters end i zero m in_range le = refl
  c_string-letters end i (suc n) m in_range le =
      let drawn = in_range i in
      let rest = c_string-letters end (suc i) n m in_range le in
      ap₂ (λ b r. if b then [] else letter (draw i 0 end) ∷ r)
        (nul_lem (draw i 0 end) (omega (arith, drawn, le))) rest

  before_nul-letters :
      (end i n : ℕ)
      → IsInRange draw end
      → end < sizeof_car
      → before_nul end i n ≡ letters draw end i n
  before_nul-letters end i zero in_range l = refl
  before_nul-letters end i (suc n) in_range l =
      let drawn = in_range i in
      let rest = before_nul-letters end (suc i) n in_range l in
      let small : (draw i 0 end == 62) ≡ false = ground (arith, drawn, l) in
      ap₂ (λ b r. if b then [] else letter (draw i 0 end) ∷ r) small rest

  text :
      (end n m : ℕ)
      → IsInRange draw end
      → end < sizeof_car
      → c_string (letters draw end 0 n ++ zeros (suc m)) ≡ letters draw end 0 n
  text end n m in_range l =
      c_string-letters end 0 n m in_range (omega (arith, l)) ∙ before_nul-letters end 0 n in_range l

  -- With 8 letters draw, the NUL is beyond the buffer; with more, a letter is.
  random_str-Faults : (len : ℕ) → IsInRange draw 62 → 7 < len → random_str_in draw len ≡ none
  unfolding random_str_in
  random_str-Faults len in_range long = elim (past_7 len long) [
    | inl e ↦
        subst (λ n. random_str_in draw n ≡ none) (sym e)
          (ap (λ o. o >>= λ s. write_at 8 (0 ∷ []) s)
              (fill_random_lem draw 62 8 0 8 0 [] in_range (omega arith) refl refl)
            ∙ not_written (letters draw 62 0 8) 0)
    | inr more ↦
        ap (λ o. o >>= λ s. write_at len (0 ∷ []) s)
          (fill_random-Faults draw 62 len 8 0 [] in_range (omega arith) more refl)
  ]
    where
      past_7 : (n : ℕ) → 7 < n → (n ≡ 8) ⊎ (8 < n)
      past_7 n l = elim (Bool-cases (n == 8)) [
        | inl e ↦ inl (ground arith)
        | inr e ↦ inr (ground arith)
      ]

  random_str_lem :
      (len : ℕ)
      → IsInRange draw 62
      → text_of (random_str_in draw len)
        ≡ (if leb len 7 then some (letters draw 62 0 len) else none)
  unfolding random_str_in
  random_str_lem len in_range = elim (Bool-cases (leb len 7)) [
    | inl fits ↦
        let room : 8 ≡ len + suc (7 - len) = ground arith in
        ap (text_of) (terminated draw 62 len (7 - len) 8 in_range (omega arith) room)
        ∙ ap some (text 62 len (7 - len) in_range (omega arith))
        ∙ rw fits refl
    | inr long ↦ ap (text_of) (random_str-Faults len in_range (ground (arith, long))) ∙ rw long refl
  ]

-- The two ways to write a letter.
car-letter : (n : ℕ) → n < 62 → letter n ≡ car n
car-letter n l = ground (arith, l)

letters-random_str :
    (f : S5bHost) (i n : ℕ) → IsInRange f.draw 62 → letters f.draw 62 i n ≡ random_str f i n
unfolding random_str
letters-random_str f i zero in_range = refl
letters-random_str f i (suc n) in_range =
    ap₂ (◌∷◌) (car-letter (f.draw i 0 62) (in_range i)) (letters-random_str f (suc i) n in_range)

-- If each number that is drawn is in the range that is asked for, `jingle_generate_sid` makes a text of just
-- the ten letters that are drawn; `gen_ibb_sid`, whose range has the NUL in it, makes a text that ends before
-- the first of its six draws that is the NUL; and `random_str` makes the text of just `len` letters that the
-- SOCKS5 module takes it for if `len` is at most 7, and else writes beyond its buffer.
pub ids-Drawn :
    (f : S5bHost) (len : ℕ)
    → IsInRange f.draw 62
    → IsInRange f.draw 63
    → (text_of (jingle_generate_sid f.draw) ≡ some (letters f.draw 62 0 10))
      × (text_of (gen_ibb_sid f.draw) ≡ some (before_nul f.draw 63 0 6))
      × (text_of (random_str_in f.draw len)
          ≡ (if leb len 7 then some (random_str f 0 len) else none))
unfolding jingle_generate_sid gen_ibb_sid random_str_in
ids-Drawn f len in_62 in_63 =
    let d = f.draw in
    (
      ap text_of (terminated d 62 10 0 11 in_62 (omega arith) refl)
          ∙ ap some (text d 62 10 0 in_62 (omega arith)),
      ap text_of (terminated d 63 6 0 7 in_63 (omega arith) refl)
          ∙ ap some (c_string-letters d 63 0 6 0 in_63 (omega arith)),
      random_str_lem d len in_62
          ∙ ap (λ ls. if leb len 7 then some ls else none) (letters-random_str f 0 len in_62),
    )
