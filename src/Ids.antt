-- ===== src/Ids.antt =====
-- jingle/jingle.c (`jingle_generate_sid`), jingle-ibb/ibb.c (`gen_ibb_sid`) and jingle-s5b/s5b.c
-- (`random_str`): the identifiers that are drawn.
--
-- `draw i begin end` is what `g_random_int_range` answers at the i-th call of a function. `none` is an access
-- out of the bounds of an array or a buffer.
pub mod Letters
pub mod Drawn
use Prim.Native.Char.{code}
use mcabber_jingle.Base.{
  ℕ, zero, suc, ◌-◌, String, Option, none, some, List, [], ◌∷◌, ◌++◌, ◌==◌, length, get_elem?,
  if◌then◌else◌,
}
use mcabber_jingle.Memory.{write_at, zeros}
use mcabber_jingle.Jingle.{◌>>=◌}

abbrev pub codes : String → List ℕ
codes String.[] = []
codes (String.◌∷◌ c s) = code c ∷ codes s

-- The array that each of the three functions has: its last element is the NUL of the literal.
abbrev pub car_array : List ℕ
car_array = codes "abcdefghijklmnopqrstuvwxyzABCDEFGHIJKLMNOPQRSTUVWXYZ0123456789" ++ 0 ∷ []

-- `sizeof(car)/sizeof(car[0])`.
abbrev pub sizeof_car : ℕ
sizeof_car = 63

-- The text that a buffer holds.
abbrev pub c_string : List ℕ → List ℕ
c_string [] = []
c_string (c ∷ cs) = let rest = c_string cs in if c == 0 then [] else c ∷ rest

module _ (draw : ℕ → ℕ → ℕ → ℕ) where
  -- The loop, from `i` on and for as many letters: `end` is the end of the range that is drawn from.
  unfoldable pub fill_random : ℕ → ℕ → ℕ → List ℕ → Option (List ℕ)
  unfolding write_at
  fill_random end i zero sid = some sid
  fill_random end i (suc n) sid = do
    c ← get_elem? car_array (draw i 0 end)
    sid' ← write_at i (c ∷ []) sid
    fill_random end (suc i) n sid'

  unfoldable pub jingle_generate_sid : Option (List ℕ)
  unfolding fill_random
  jingle_generate_sid = do
    sid ← fill_random (sizeof_car - 1) 0 10 (zeros 11)
    write_at 10 (0 ∷ []) sid

  unfoldable pub gen_ibb_sid : Option (List ℕ)
  unfolding fill_random
  gen_ibb_sid = do sid ← fill_random sizeof_car 0 6 (zeros 7); write_at 6 (0 ∷ []) sid

  -- `random_str` of S5b, in its buffer.
  unfoldable pub random_str_in : ℕ → Option (List ℕ)
  unfolding fill_random
  random_str_in len = do
    str ← fill_random (sizeof_car - 1) 0 len (zeros 8)
    write_at len (0 ∷ []) str
