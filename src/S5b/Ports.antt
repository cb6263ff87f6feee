-- ===== src/S5b/Ports.antt =====
-- jingle-s5b/s5b.c: the port that is listened on.
use mcabber_jingle.Base.{ℕ, ◌≤◌, ◌<◌, ◌%◌, String, ◌≡◌, ◌⊎◌, Option, none, some}
use mcabber_jingle.S5b.{S5bHost, two_16}

-- A number from 1024 to 65535.
abbrev pub IsPort : ℕ → Type 0
IsPort n = (1024 ≤ n) × (n ≤ 65535)

-- What `g_random_int_range` promises: a number in a range that is not empty.
abbrev pub DrawsWithin : S5bHost → Type 0
DrawsWithin f =
    (n low high : ℕ)
    → low < high
    → (low ≤ S5bHost.draw f n low high) × (S5bHost.draw f n low high < high)

-- There is no range in the settings, or its first number or the two of them are no range of ports.
abbrev pub IsUnranged : S5bHost → Type 0
IsUnranged f =
    (f.port_range ≡ none)
    ⊎ ((range : String) × (low : ℕ) × (f.port_range ≡ some range)
        × ((f.sscanf range).0 ≡ some low)
        × ((¬ IsPort low)
            ⊎ ((high : ℕ) × ((f.sscanf range).1 ≡ some high) × (¬ (IsPort high × (low ≤ high))))))

-- What `get_port` comes to. In `empty_range`, the range that is drawn from has no number.
pub data PortOutcome (f : S5bHost) (n : ℕ) (r : Option ℕ) : Type 0 where
  any_port :
      (port : ℕ)
      → IsUnranged f
      → port ≡ f.draw n 1024 65535
      → 1024 ≤ port
      → port < 65535
      → r ≡ some port
      → PortOutcome f n r
  in_range :
      (range : String) (low high port : ℕ)
      → f.port_range ≡ some range
      → f.sscanf range ≡ (some low, some high)
      → 1024 ≤ low
      → high ≤ 65535
      → port ≡ f.draw n low high
      → low ≤ port
      → port < high
      → r ≡ some port
      → PortOutcome f n r
  empty_range :
      (range : String) (low : ℕ)
      → f.port_range ≡ some range
      → f.sscanf range ≡ (some low, some low)
      → 1024 ≤ low
      → low ≤ 65535
      → r ≡ some (f.draw n low low % two_16)
      → PortOutcome f n r
  unset :
      (range : String)
      → f.port_range ≡ some range
      → ((f.sscanf range).0 ≡ none) ⊎ ((f.sscanf range).1 ≡ none)
      → r ≡ none
      → PortOutcome f n r
