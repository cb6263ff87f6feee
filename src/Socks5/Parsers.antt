-- ===== src/Socks5/Parsers.antt =====
-- jingle-s5b/socks5-proto.c: which messages are accepted.
use mcabber_jingle.Base.{
  smaller, ℕ, zero, suc, ◌+◌, ◌-◌, ◌<◌, ◌≤◌, ◌≡◌, ◌↔◌, inl, inr, refl, sym, ap, ◌∙◌, true, false,
  some, List, [], ◌∷◌, ◌==◌, length, get_elem?, arith, Bool-cases, Option-cases,
}
use mcabber_jingle.Socks5.{ErrorVar, unset, null_error, set_to, server_parse_nego_init, offers_none}

-- The loop finds a method 0 in its range, if there is one.
offers_none_found :
    (rounds i : ℕ) (bytes : List ℕ)
    → offers_none rounds i bytes ≡ some true
    → (k : ℕ) × (i ≤ k) × (k < i + rounds) × (get_elem? bytes k ≡ some 0)
unfolding offers_none
offers_none_found zero i bytes e = absurd (ground arith)
offers_none_found (suc rounds) i bytes e = elim (Option-cases (get_elem? bytes i)) [
  | inl out ↦ absurd (ground arith)
  | inr (m, at) ↦ elim (Bool-cases (m == 0)) [
    | inl zero_method ↦ (i, omega arith, omega arith, ground arith)
    | inr other ↦
        let (k, l, u, g) = offers_none_found rounds (suc i) bytes (ground arith) in
        (k, omega (arith, l), omega (arith, u), g)
  ]
]

get_within : (bytes : List ℕ) (i : ℕ) → i < length bytes → (b : ℕ) × (get_elem? bytes i ≡ some b)
get_within [] i l = absurd (omega (arith, l))
get_within (b ∷ bs) zero l = (b, refl)
get_within (b ∷ bs) (suc i) l = get_within bs i (omega (arith, l))

offers_none_finds :
    (rounds i k : ℕ) (bytes : List ℕ)
    → i + rounds ≤ length bytes
    → i ≤ k
    → k < i + rounds
    → get_elem? bytes k ≡ some 0
    → offers_none rounds i bytes ≡ some true
unfolding offers_none
offers_none_finds zero i k bytes room l u at = absurd (omega (arith, l, u))
offers_none_finds (suc rounds) i k bytes room l u at =
    let (m, here) = get_within bytes i (omega (arith, room)) in
    elim (Bool-cases (m == 0)) [
      | inl found ↦ ground arith
      | inr other ↦ elim (Bool-cases (i == k)) [
        | inl same ↦ absurd (
            let e : i ≡ k = ground arith in
            let f : some m ≡ some 0 = sym here ∙ ap (get_elem? bytes) e ∙ at in ground arith)
        | inr ne ↦
            let rest =
              offers_none_finds rounds (suc i) k bytes (omega (arith, room)) (ground arith)
                (omega (arith, u)) at in
            ground arith
      ]
    ]

-- What the server takes for an offer of no authentication: a method 0 before the place `nmethods`.
pub record Offers (bytes : List ℕ) (datalen : ℕ) : Type 0 where
  pub version : get_elem? bytes 0 ≡ some 5
  pub nmethods : ℕ
  pub announced : get_elem? bytes 1 ≡ some nmethods
  pub place : ℕ
  pub after_head : 2 ≤ place
  pub has_come : place < datalen
  pub before : place < nmethods
  pub none_method : get_elem? bytes place ≡ some 0

pub nego_init-Offers :
    (bytes : List ℕ) (datalen : ℕ) (error error' : ErrorVar)
    → server_parse_nego_init bytes datalen error ≡ some (true, error')
    → Offers bytes datalen × (error ≡ error')
unfolding server_parse_nego_init
nego_init-Offers bytes datalen error error' e = elim (Option-cases (get_elem? bytes 0)) [
  | inl out ↦ absurd (ground arith)
  | inr (v, first) ↦ elim (Bool-cases (v == 5)) [
    | inr other ↦
        absurd (elim error [
          | unset ↦ ground arith
          | null_error ↦ ground arith
          | set_to x ↦ ground arith
        ])
    | inl five ↦ elim (Option-cases (get_elem? bytes 1)) [
      | inl out ↦ absurd (ground arith)
      | inr (n, second) ↦ elim (Option-cases (offers_none (smaller datalen n - 2) 2 bytes)) [
        | inl out ↦ absurd (ground arith)
        | inr (true, found) ↦
            let (k, l, u, at) = offers_none_found _ 2 bytes found in
            (
              record {
                version = ground arith;
                nmethods = n;
                announced = second;
                place = k;
                after_head = l;
                has_come = ground (arith, u, l);
                before = ground (arith, u, l);
                none_method = at;
              },
              ground arith,
            )
        | inr (false, found) ↦ absurd (elim error [
          | unset ↦ ground arith
          | null_error ↦ ground arith
          | set_to x ↦ ground arith
        ])
      ]
    ]
  ]
]

-- On bytes that were read, the server accepts just where a method 0 stands among the places from 2 on that
-- are below both the number of bytes and the number of methods announced. So the last two methods of a greeting
-- are not looked at.
pub server_parse_nego_init_iff :
    (bytes : List ℕ) (datalen : ℕ) (error : ErrorVar)
    → datalen ≤ length bytes
    → (server_parse_nego_init bytes datalen error ≡ some (true, error)) ↔ Offers bytes datalen
unfolding server_parse_nego_init
server_parse_nego_init_iff bytes datalen error room = (
  λ e. (nego_init-Offers bytes datalen error error e).0,
  λ o.
      let small : 2 + (smaller datalen o.nmethods - 2) ≤ length bytes =
        ground (arith, o.after_head, o.has_come) in
      let inside : o.place < 2 + (smaller datalen o.nmethods - 2) =
        ground (arith, o.after_head, o.has_come, o.before) in
      let found =
        offers_none_finds (smaller datalen o.nmethods - 2) 2 o.place bytes small o.after_head inside
          o.none_method in
      rw (o.version, o.announced, found) refl,
)
