-- ===== src/Ft/Offer.antt =====
-- jingle-ft/filetransfer.c, `newfrommessage`: which offers of a file are taken.
use mcabber_jingle.Base.{
  ℕ, zero, suc, ◌%◌, ◌<◌, String, ◌≡◌, ◌≢◌, ◌↔◌, refl, subst, ap, ◌⊎◌, inl, inr, true, Option, none,
  some, List, [], ◌∷◌, ◌==◌, ltb, length, All, arith, Bool-cases, Option-cases, str_eq, str_eq_iff,
}
use mcabber_jingle.Stanza.{
  Node, Host, JingleContent, GError, JingleCheckError, error_badvalue, error_missing, set_error,
}
use mcabber_jingle.Ibb.{two_64}
use mcabber_jingle.Ft.{
  FtHost, JingleFt, ns_si_ft, two_63, new_jingle_ft, all_xdigits, is_md5_hash, has_valid_hash,
  child_of, stored_name, read_file, newfrommessage,
}

-- 32 hexadecimal digits.
abbrev pub IsMd5Hash : FtHost → String → Type 0
IsMd5Hash f hash =
    (length (f.bytes_of hash) ≡ 32) × All (λ b. f.isxdigit b ≡ true) (f.bytes_of hash)

abbrev pub HashIsValid : FtHost → Option String → Type 0
HashIsValid f none = Unit {0}
HashIsValid f (some hash) = IsMd5Hash f hash

xdigits-All :
    (f : FtHost) (n : ℕ) (bytes : List ℕ)
    → length bytes ≡ n
    → (all_xdigits f n bytes ≡ true) ↔ All (λ b. f.isxdigit b ≡ true) bytes
unfolding all_xdigits
xdigits-All f zero [] e = (λ _. tt, λ _. refl)
xdigits-All f zero (b ∷ bytes) e = absurd (omega (arith, e))
xdigits-All f (suc n) [] e = absurd (omega (arith, e))
xdigits-All f (suc n) (b ∷ bytes) e =
    let ih = xdigits-All f n bytes (omega (arith, e)) in
    elim (Bool-cases (f.isxdigit b)) [
      | inl digit ↦ (λ q. (digit, ih.0 (ground arith)), λ a. let r = ih.1 a.1 in ground arith)
      | inr other ↦ (λ q. absurd (ground arith), λ a. absurd (ground arith))
    ]

valid_iff :
    (f : FtHost) (hash : Option String) → (has_valid_hash f hash ≡ true) ↔ HashIsValid f hash
unfolding is_md5_hash
valid_iff f none = (λ _. tt, λ _. refl)
valid_iff f (some hash) = elim (Bool-cases (length (f.bytes_of hash) == 32)) [
  | inl long ↦
      let e : length (f.bytes_of hash) ≡ 32 = ground arith in
      let x = xdigits-All f 32 (f.bytes_of hash) e in
      (λ q. (e, x.0 (rw long at q)), λ a. rw long (x.1 a.1))
  | inr other ↦ (λ q. absurd (ground arith), λ a. absurd (ground arith))
]

-- An offer whose file has a name that is not "." with the directory of downloads before it, a size that is not
-- negative, and a hash that is valid if it is there.
pub record IsOffer (h : Host) (f : FtHost) (cn : JingleContent) : Type 0 where
  pub file : Node
  pub name : String
  pub sizestr : String
  pub in_offer :
      (offer : Node) × (child_of h cn.description "offer" ≡ some offer)
      × (Host.get_child h offer "file" ≡ some file)
  pub namespace : Host.get_attribute h file "xmlns" ≡ some ns_si_ft
  pub has_name : Host.get_attribute h file "name" ≡ some name
  pub has_size : Host.get_attribute h file "size" ≡ some sizestr
  pub not_negative : f.strtoll sizestr % two_64 < two_63
  pub not_dot : stored_name f name ≢ "."
  pub hash_valid : HashIsValid f (Host.get_attribute h file "hash")

-- The file that is made of it: pending, in the directory of downloads under the last part of its name.
pub record IsMade (h : Host) (f : FtHost) (cn : JingleContent) (o : IsOffer h f cn) (jft : JingleFt)
    : Type 0 where
  pub name : jft.name ≡ some (stored_name f (IsOffer.name o))
  pub size : jft.size ≡ f.strtoll (IsOffer.sizestr o) % two_64
  pub hash : jft.hash ≡ Host.get_attribute h (IsOffer.file o) "hash"
  pub date : jft.date ≡ f.from_iso8601 (Host.get_attribute h (IsOffer.file o) "date")
  pub rest :
      jft
      ≡ record new_jingle_ft { name = jft.name; size = jft.size; hash = jft.hash; date = jft.date }

set : (c : JingleCheckError) (m : String) (err : Option GError) → set_error c m err ≢ none
set c m none e = ground arith
set c m (some x) e = ground arith

-- What comes of an element: a file if it is an offer, and otherwise NULL with an error set.
abbrev pub OfferOutcome :
    Host → FtHost → JingleContent → Option GError → Option JingleFt × Option GError → Type 0
OfferOutcome h f cn err r =
    ((o : IsOffer h f cn) × (jft : JingleFt) × (r ≡ (some jft, err)) × IsMade h f cn o jft)
    ⊎ ((¬ IsOffer h f cn) × (r.0 ≡ none) × (r.1 ≢ none))

file_same :
    (h : Host) (f : FtHost) (cn : JingleContent) (offer file : Node) (o : IsOffer h f cn)
    → child_of h cn.description "offer" ≡ some offer
    → Host.get_child h offer "file" ≡ some file
    → IsOffer.file o ≡ file
file_same h f cn offer file o a b =
    let (offer', a', b') = o.in_offer in
    let same : offer' ≡ offer = cc in
    let again : Host.get_child h offer "file" ≡ some (IsOffer.file o) =
      subst (λ x. Host.get_child h x "file" ≡ some (IsOffer.file o)) same b' in
    cc

-- What an offer says, at the file of the element.
abbrev SaysOffer : Host → FtHost → Node → Type 0
SaysOffer h f file =
    (name : String) × (sizestr : String) × (Host.get_attribute h file "xmlns" ≡ some ns_si_ft)
    × (Host.get_attribute h file "name" ≡ some name)
    × (Host.get_attribute h file "size" ≡ some sizestr)
    × (f.strtoll sizestr % two_64 < two_63)
    × (stored_name f name ≢ ".")
    × HashIsValid f (Host.get_attribute h file "hash")

says_offer :
    (h : Host) (f : FtHost) (cn : JingleContent) (offer file : Node)
    → child_of h cn.description "offer" ≡ some offer
    → Host.get_child h offer "file" ≡ some file
    → IsOffer h f cn
    → SaysOffer h f file
says_offer h f cn offer file in_description in_offer o =
    subst (SaysOffer h f) (file_same h f cn offer file o in_description in_offer) (
      IsOffer.name o,
      IsOffer.sizestr o,
      IsOffer.namespace o,
      IsOffer.has_name o,
      IsOffer.has_size o,
      IsOffer.not_negative o,
      IsOffer.not_dot o,
      IsOffer.hash_valid o,
    )

read_file-OfferOutcome :
    (h : Host) (f : FtHost) (cn : JingleContent) (err : Option GError) (offer file : Node)
    (name sizestr : String)
    → child_of h cn.description "offer" ≡ some offer
    → Host.get_child h offer "file" ≡ some file
    → Host.get_attribute h file "xmlns" ≡ some ns_si_ft
    → Host.get_attribute h file "name" ≡ some name
    → Host.get_attribute h file "size" ≡ some sizestr
    → OfferOutcome h f cn err (
        read_file f
          (Host.get_attribute h file "date")
          (Host.get_attribute h file "hash")
          name
          sizestr
          err)
unfolding read_file
read_file-OfferOutcome h f cn err offer file name sizestr in_description in_offer ns has_name
      has_size =
    let hash = Host.get_attribute h file "hash" in
    elim (Bool-cases (ltb (f.strtoll sizestr % two_64) two_63)) [
      | inr negative ↦ inr (
        λ o.
            let (n, s, x, y, z, small, d, v) =
              says_offer h f cn offer file in_description in_offer o in
            let same : s ≡ sizestr = cc in
            let small' = subst (λ u. f.strtoll u % two_64 < two_63) same small in
            ground (arith, small'),
        rw negative refl,
        rw negative (set error_badvalue _ err),
      )
      | inl positive ↦ elim (Bool-cases (str_eq (some (stored_name f name)) (some "."))) [
        | inl dot ↦ inr (
          λ o.
              let (n, s, x, y, z, small, d, v) =
                says_offer h f cn offer file in_description in_offer o in
              let same : n ≡ name = cc in
              let d' = subst (λ u. stored_name f u ≢ ".") same d in
              let same_text = (str_eq_iff (some (stored_name f name)) (some ".")).0 dot in
              let is_dot : stored_name f name ≡ "." = cc in d' is_dot,
          rw (positive, dot) refl,
          rw (positive, dot) (set error_badvalue _ err),
        )
        | inr no_dot ↦ elim (Bool-cases (has_valid_hash f hash)) [
          | inr invalid ↦ inr (
            λ o.
                let (n, s, x, y, z, small, d, ok) =
                  says_offer h f cn offer file in_description in_offer o in
                let yes_valid = (valid_iff f hash).1 ok in ground arith,
            rw (positive, no_dot, invalid) refl,
            rw (positive, no_dot, invalid) (set error_badvalue _ err),
          )
          | inl valid ↦ inl (
            record {
              file = file;
              name = name;
              sizestr = sizestr;
              in_offer = (offer, in_description, in_offer);
              namespace = ns;
              has_name = has_name;
              has_size = has_size;
              not_negative = ground arith;
              not_dot = λ e.
                  let is_dot = (str_eq_iff (some (stored_name f name)) (some ".")).1 (ap some e) in
                  ground arith;
              hash_valid = (valid_iff f hash).0 valid;
            },
            record new_jingle_ft {
              date = f.from_iso8601 (Host.get_attribute h file "date");
              hash = hash;
              name = some (stored_name f name);
              size = f.strtoll sizestr % two_64;
            },
            rw (positive, no_dot, valid) refl,
            record { name = refl; size = refl; hash = refl; date = refl; rest = refl },
          )
        ]
      ]
    ]

-- From where the file of the element was found.
found_file-OfferOutcome :
    (h : Host) (f : FtHost) (cn : JingleContent) (err : Option GError) (offer file : Node)
    → child_of h cn.description "offer" ≡ some offer
    → Host.get_child h offer "file" ≡ some file
    → OfferOutcome h f cn err (newfrommessage h f cn err)
unfolding newfrommessage
found_file-OfferOutcome h f cn err offer file has_offer has_file =
    elim (Bool-cases (str_eq (Host.get_attribute h file "xmlns") (some ns_si_ft))) [
      | inr other ↦ inr (
        λ o.
            let (n, s, ns, x, y, z, d, v) = says_offer h f cn offer file has_offer has_file o in
            let eq = (str_eq_iff (Host.get_attribute h file "xmlns") (some ns_si_ft)).1 ns in
            ground arith,
        rw (has_offer, newfrommessage, has_file, other) refl,
        rw (has_offer, newfrommessage, has_file, other) (set error_missing _ err),
      )
      | inl ns ↦ elim (Option-cases (Host.get_attribute h file "name")) [
        | inl no_name ↦ inr (
          λ o.
              let (n, s, x, has, y, z, d, v) = says_offer h f cn offer file has_offer has_file o in
              cc,
          rw (has_offer, newfrommessage, has_file, ns, no_name) refl,
          rw (has_offer, newfrommessage, has_file, ns, no_name) (set error_missing _ err),
        )
        | inr (name, has_name) ↦ elim (Option-cases (Host.get_attribute h file "size")) [
          | inl no_size ↦ inr (
            λ o.
                let (n, s, x, y, has, z, d, v) =
                  says_offer h f cn offer file has_offer has_file o in
                cc,
            rw (has_offer, newfrommessage, has_file, ns, has_name, no_size) refl,
            rw (has_offer, newfrommessage, has_file, ns, has_name, no_size)
                (set error_missing _ err),
          )
          | inr (sizestr, has_size) ↦
              rw (has_offer, newfrommessage, has_file, ns, has_name, has_size)
                (read_file-OfferOutcome h f cn err offer file name sizestr has_offer has_file
                  ((str_eq_iff _ _).0 ns) has_name has_size)
        ]
      ]
    ]

-- An element is taken just if it is an offer of a file, and the file is made of what it says; else an error is set.
-- The name is refused just if it is "." with the directory of downloads before it.
pub newfrommessage-OfferOutcome :
    (h : Host) (f : FtHost) (cn : JingleContent) (err : Option GError)
    → OfferOutcome h f cn err (newfrommessage h f cn err)
unfolding newfrommessage
newfrommessage-OfferOutcome h f cn err = elim (Option-cases (child_of h cn.description "offer")) [
  | inl no_offer ↦ inr (
    λ o. let (x, a, b) = o.in_offer in cc,
    ground arith,
    rw (no_offer, newfrommessage) (set error_missing _ err),
  )
  | inr (offer, has_offer) ↦ elim (Option-cases (Host.get_child h offer "file")) [
    | inl no_file ↦ inr (
      λ o.
          let (x, a, b) = o.in_offer in
          let same : x ≡ offer = cc in
          let b' = subst (λ y. Host.get_child h y "file" ≡ some (IsOffer.file o)) same b in cc,
      rw (has_offer, newfrommessage, no_file) refl,
      rw (has_offer, newfrommessage, no_file) (set error_missing _ err),
    )
    | inr (file, has_file) ↦ found_file-OfferOutcome h f cn err offer file has_offer has_file
  ]
]
