-- ===== src/Memory.antt =====
-- Memory that is read and written with bounds: what jingle-ibb/ibb.c does by `g_memmove`, `g_memdup` and
-- `g_realloc`, and jingle-s5b/socks5-proto.c by `memcpy` and `g_malloc0`.
--
-- `none` is an access out of the bounds of a buffer, which is the list of its bytes.
use mcabber_jingle.Base.{
  ℕ, suc, ◌+◌, ◌-◌, ◌≤◌, ◌≡◌, refl, sym, ap, ◌∙◌, Option, some, none, List, [], ◌∷◌, ◌++◌, length,
  take, drop, arith, length-append, length-drop, leb, if◌then◌else◌,
}

-- `g_memmove (buf + at, bytes, …)`.
unfoldable pub write_at : ℕ → List ℕ → List ℕ → Option (List ℕ)
write_at at bytes buf =
    if leb (at + length bytes) (length buf)
    then some (take at buf ++ bytes ++ drop (at + length bytes) buf)
    else none

-- `g_memdup (buf, n)`.
unfoldable pub read_first : ℕ → List ℕ → Option (List ℕ)
read_first n buf = if leb n (length buf) then some (take n buf) else none

abbrev pub zeros : ℕ → List ℕ
zeros ℕ.zero = []
zeros (suc k) = 0 ∷ zeros k

-- `g_realloc (buf, n)` to a greater size; the bytes that are added are zeros here.
unfoldable pub grow_to : ℕ → List ℕ → List ℕ
grow_to n buf = buf ++ zeros (n - length buf)

pub take_append_exact {ℓ} : {A : Type ℓ} (xs ys : List A) → take (length xs) (xs ++ ys) ≡ xs
take_append_exact [] ys = refl
take_append_exact (x ∷ xs) ys = ap (◌∷◌ x) (take_append_exact xs ys)

pub take-append-take {ℓ} :
    {A : Type ℓ} (a b n : ℕ) (xs : List A) → n ≡ a + b → take a xs ++ take b (drop a xs) ≡ take n xs
take-append-take ℕ.zero b n xs e = let same : b ≡ n = omega (arith, e) in ap (λ k. take k xs) same
take-append-take (suc a) b ℕ.zero xs e = absurd (omega (arith, e))
take-append-take (suc a) ℕ.zero (suc n) [] e = refl
take-append-take (suc a) (suc b) (suc n) [] e = refl
take-append-take (suc a) b (suc n) (x ∷ xs) e =
    ap (◌∷◌ x) (take-append-take a b n xs (omega (arith, e)))

pub length-take_within {ℓ} :
    {A : Type ℓ} (n : ℕ) (xs : List A) → n ≤ length xs → length (take n xs) ≡ n
length-take_within ℕ.zero xs l = refl
length-take_within (suc n) [] l = absurd (omega (arith, l))
length-take_within (suc n) (x ∷ xs) l = ap suc (length-take_within n xs (omega (arith, l)))

take-append {ℓ} :
    {A : Type ℓ} (k : ℕ) (xs ys : List A) → k ≤ length xs → take k (xs ++ ys) ≡ take k xs
take-append ℕ.zero xs ys l = refl
take-append (suc k) [] ys l = absurd (omega (arith, l))
take-append (suc k) (x ∷ xs) ys l = ap (◌∷◌ x) (take-append k xs ys (omega (arith, l)))

pub write_at_lem :
    (at : ℕ) (bytes buf : List ℕ)
    → at + length bytes ≤ length buf
    → write_at at bytes buf ≡ some (take at buf ++ bytes ++ drop (at + length bytes) buf)
unfolding write_at
write_at_lem at bytes buf l = ground arith

pub read_first_lem : (n : ℕ) (buf : List ℕ) → n ≤ length buf → read_first n buf ≡ some (take n buf)
unfolding read_first
read_first_lem n buf l = ground arith

-- What a write leaves of the buffer: its length, and the bytes up to the end of the write.
pub written_length :
    (at : ℕ) (bytes buf : List ℕ)
    → at + length bytes ≤ length buf
    → length (take at buf ++ bytes ++ drop (at + length bytes) buf) ≡ length buf
written_length at bytes buf l =
    let all = length-append (take at buf ++ bytes) (drop (at + length bytes) buf) in
    let last = length-append (take at buf) bytes in
    let first = length-take_within at buf (omega (arith, l)) in
    let rest = length-drop (at + length bytes) buf in omega (arith, all, last, first, rest, l)

pub written_prefix :
    (at : ℕ) (bytes buf rest : List ℕ)
    → at ≤ length buf
    → take (at + length bytes) (take at buf ++ bytes ++ rest) ≡ take at buf ++ bytes
written_prefix at bytes buf rest l =
    let first = length-take_within at buf l in
    let both = length-append (take at buf) bytes in
    let exact : at + length bytes ≡ length (take at buf ++ bytes) = omega (arith, first, both) in
    ap (λ n. take n (take at buf ++ bytes ++ rest)) exact
    ∙ take_append_exact (take at buf ++ bytes) rest

pub length-zeros : (n : ℕ) → length (zeros n) ≡ n
length-zeros ℕ.zero = refl
length-zeros (suc n) = ap suc (length-zeros n)

pub length-grow_to : (n : ℕ) (buf : List ℕ) → length buf ≤ n → length (grow_to n buf) ≡ n
unfolding grow_to
length-grow_to n buf l =
    let all = length-append buf (zeros (n - length buf)) in
    omega (arith, all, length-zeros (n - length buf), l)

pub take-grow_to : (k n : ℕ) (buf : List ℕ) → k ≤ length buf → take k (grow_to n buf) ≡ take k buf
unfolding grow_to
take-grow_to k n buf l = take-append k buf _ l

pub drop-drop {ℓ} : {A : Type ℓ} (a b : ℕ) (xs : List A) → drop b (drop a xs) ≡ drop (a + b) xs
drop-drop ℕ.zero b xs = let same : b ≡ 0 + b = omega arith in ap (λ k. drop k xs) same
drop-drop {A} (suc a) ℕ.zero [] =
    let same : suc (a + 0) ≡ suc a + 0 = omega arith in ap (λ k. drop {A = A} k []) same
drop-drop {A} (suc a) (suc b) [] =
    let same : suc (a + suc b) ≡ suc a + suc b = omega arith in ap (λ k. drop {A = A} k []) same
drop-drop (suc a) b (x ∷ xs) =
    let same : suc a + b ≡ suc (a + b) = omega arith in
    drop-drop a b xs ∙ ap (λ k. drop k (x ∷ xs)) (sym same)

pub drop_append_exact {ℓ} :
    {A : Type ℓ} (k : ℕ) (xs ys : List A) → drop (length xs + k) (xs ++ ys) ≡ drop k ys
drop_append_exact k [] ys = let same : 0 + k ≡ k = omega arith in ap (λ n. drop n ys) same
drop_append_exact k (x ∷ xs) ys =
    let same : suc (length xs) + k ≡ suc (length xs + k) = omega arith in
    ap (λ n. drop n (x ∷ xs ++ ys)) same ∙ drop_append_exact k xs ys

-- The bytes from an end on that is not before the end of the write.
pub written_suffix :
    (at end : ℕ) (bytes buf : List ℕ)
    → at + length bytes ≤ length buf
    → at + length bytes ≤ end
    → drop end (take at buf ++ bytes ++ drop (at + length bytes) buf) ≡ drop end buf
written_suffix at end bytes buf l m =
    let front = take at buf ++ bytes in
    let first = length-take_within at buf (omega (arith, l)) in
    let size = length-append (take at buf) bytes in
    let e : end ≡ length front + (end - (at + length bytes)) = omega (arith, first, size, m) in
    let f : at + length bytes + (end - (at + length bytes)) ≡ end = omega (arith, m) in
    ap (λ n. drop n (front ++ drop (at + length bytes) buf)) e
    ∙ drop_append_exact (end - (at + length bytes)) front (drop (at + length bytes) buf)
    ∙ drop-drop (at + length bytes) (end - (at + length bytes)) buf
    ∙ ap (λ n. drop n buf) f
