-- ===== src/S5b/Interfaces.antt =====
-- jingle-s5b/s5b.c: `get_all_local_ips`, and the candidates that are made of its list.
--
-- `none` is a fault: a read through the NULL address of an interface that has none.
use mathlib.Core.List.{Perm, perm_middle}
use mathlib.Core.List.Perm
use mcabber_jingle.Base.{
  ℕ, suc, ◌+◌, ◌*◌, ◌%◌, ◌≤◌, ◌<◌, String, ◌≡◌, refl, subst, Bool, true, false, not, ◌||◌, ◌⊎◌, inl,
  inr, Option, none, some, List, [], ◌∷◌, ◌++◌, map, append-nil, All, arith, Bool-cases,
  Option-cases, str_eq, str_eq_iff, ne→str_eq, ◌≢◌, if◌then◌else◌,
}
use mcabber_jingle.S5b.{
  S5bCandidate, S5bHost, LocalIp, s5b_direct, two_16, own_candidate, our_from, get_our_candidates,
}
use mcabber_jingle.S5b.Candidates.{Descends, sort_candidates-Descends, sort_candidates-perm}

-- A `struct sockaddr`, by its family, and the GInetAddress of its bytes.
pub data SockAddr : Type 0 where
  af_inet af_inet6 : ℕ → SockAddr
  af_other : SockAddr

-- A `struct ifaddrs`.
pub record Ifaddr : Type 0 where
  pub ifa_name : Option String
  pub is_up : Bool
  pub is_loopback : Bool
  pub ifa_addr : Option SockAddr

-- The loop over `ifblacklist`.
unfoldable pub is_blacklisted : Option String → List String → Bool
is_blacklisted name [] = false
is_blacklisted name (b ∷ bs) =
    let rest = is_blacklisted name bs in if str_eq name (some b) then true else rest

abbrev pub inet_address : SockAddr → Option ℕ
inet_address (af_inet a) = some a
inet_address (af_inet6 a) = some a
inet_address af_other = none

-- The priorities of local addresses, which fit in a guint32.
abbrev pub IsLocalPriority : LocalIp → Type 0
IsLocalPriority l = (two_16 * 126 ≤ l.priority) × (l.priority < two_16 * 127)

module _ (is_link_local : ℕ → Bool) (ifblacklist : List String) where
  -- Whether an interface is passed over before its address is read.
  abbrev pub is_skipped : Ifaddr → Bool
  is_skipped i =
      if not i.is_up || i.is_loopback then true else is_blacklisted i.ifa_name ifblacklist

  -- The end of the body: `counter` is a guint16.
  abbrev pub add_local : Option ℕ → ℕ → List LocalIp → List LocalIp × ℕ
  add_local none counter addresses = (addresses, counter)
  add_local (some a) counter addresses = if is_link_local a then (addresses, counter) else (
    record { address = a; priority = two_16 * 126 + counter; type = s5b_direct } ∷ addresses,
    (counter + 1) % two_16,
  )

  -- The loop of `get_all_local_ips`.
  unfoldable pub collect_ips : List Ifaddr → ℕ → List LocalIp → Option (List LocalIp)
  unfolding is_blacklisted
  collect_ips [] counter addresses = some addresses
  collect_ips (i ∷ is) counter addresses = elim (is_skipped i) [
    | true ↦ collect_ips is counter addresses
    | false ↦ elim i.ifa_addr [
      | none ↦ none
      | some s ↦
          collect_ips is (add_local (inet_address s) counter addresses).1
            (add_local (inet_address s) counter addresses).0
    ]
  ]

  -- `get_all_local_ips`, with what `getifaddrs` answers, `none` for an error.
  unfoldable pub get_all_local_ips : Option (List Ifaddr) → Option (List LocalIp)
  unfolding collect_ips
  get_all_local_ips none = some []
  get_all_local_ips (some first) = collect_ips first 0 []

  -- An interface that is not passed over has an address.
  abbrev pub HasAddress : Ifaddr → Type 0
  HasAddress i = (is_skipped i ≡ true) ⊎ ((s : SockAddr) × (i.ifa_addr ≡ some s))

  abbrev usable_of : Option ℕ → List ℕ
  usable_of none = []
  usable_of (some a) = if is_link_local a then [] else a ∷ []

  abbrev usable_address : Option SockAddr → List ℕ
  usable_address none = []
  usable_address (some s) = usable_of (inet_address s)

  -- The addresses that can be offered, in the order of the interfaces.
  unfoldable pub usable : List Ifaddr → List ℕ
  unfolding is_blacklisted
  usable [] = []
  usable (i ∷ is) =
      let rest = usable is in if is_skipped i then rest else usable_address i.ifa_addr ++ rest

  -- Whether `a` is an address that the interface `i` has to offer: `i` is up, no loopback and not on the blacklist, and
  -- its address `a` is one of the internet and not link-local.
  pub record Offers (i : Ifaddr) (a : ℕ) : Type 0 where
    pub up : i.is_up ≡ true
    pub no_loopback : i.is_loopback ≡ false
    pub not_listed : All (λ b. i.ifa_name ≢ some b) ifblacklist
    pub has_address : (i.ifa_addr ≡ some (af_inet a)) ⊎ (i.ifa_addr ≡ some (af_inet6 a))
    pub not_local : is_link_local a ≡ false

  -- The addresses that interfaces have to offer, in their order.
  pub data AllOffered : List Ifaddr → List ℕ → Type 0 where
    no_more : AllOffered [] []
    offers :
        (i : Ifaddr) (a : ℕ) (is : List Ifaddr) (us : List ℕ)
        → Offers i a
        → AllOffered is us
        → AllOffered (i ∷ is) (a ∷ us)
    offers_none :
        (i : Ifaddr) (is : List Ifaddr) (us : List ℕ)
        → ((a : ℕ) → ¬ Offers i a)
        → AllOffered is us
        → AllOffered (i ∷ is) us

  not_blacklisted :
      (name : Option String) (bs : List String)
      → is_blacklisted name bs ≡ false
      → All (λ b. name ≢ some b) bs
  unfolding is_blacklisted
  not_blacklisted name [] e = tt
  not_blacklisted name (b ∷ bs) e = elim (Bool-cases (str_eq name (some b))) [
    | inl same ↦ absurd (ground arith)
    | inr other ↦ (
      λ k. (let same = (str_eq_iff name (some b)).1 k in cc),
      not_blacklisted name bs (ground arith),
    )
  ]

  unlisted :
      (name : Option String) (bs : List String)
      → All (λ b. name ≢ some b) bs
      → is_blacklisted name bs ≡ false
  unfolding is_blacklisted
  unlisted name [] all = refl
  unlisted name (b ∷ bs) all = rw (ne→str_eq name (some b) all.0) (unlisted name bs all.1)

  Offers-not_skipped : (i : Ifaddr) (a : ℕ) → Offers i a → is_skipped i ≡ false
  Offers-not_skipped i a o =
      rw (o.up, o.no_loopback, unlisted i.ifa_name ifblacklist o.not_listed) refl

  not_skipped :
      (i : Ifaddr)
      → is_skipped i ≡ false
      → (i.is_up ≡ true) × (i.is_loopback ≡ false) × (is_blacklisted i.ifa_name ifblacklist ≡ false)
  not_skipped i e = (ground arith, ground arith, ground arith)

  read_inet :
      (x : ℕ) (i : Ifaddr) (is : List Ifaddr) (us : List ℕ)
      → (i.ifa_addr ≡ some (af_inet x)) ⊎ (i.ifa_addr ≡ some (af_inet6 x))
      → is_skipped i ≡ false
      → AllOffered is us
      → AllOffered (i ∷ is) (usable_of (some x) ++ us)
  read_inet x i is us e read rest = elim (Bool-cases (is_link_local x)) [
    | inl local ↦ rw local (offers_none i is us (λ a o. not_offered a o local) rest)
    | inr global ↦
        let (up, no_loopback, unlisted_name) = not_skipped i read in
        rw global (
          offers i x is us
            (record {
              up = up;
              no_loopback = no_loopback;
              not_listed = not_blacklisted i.ifa_name ifblacklist unlisted_name;
              has_address = e;
              not_local = global;
            })
            rest)
  ]
    where
      not_offered : (a : ℕ) → Offers i a → is_link_local x ≡ true → ⊥
      not_offered a o local = absurd (elim e [
        | inl k ↦ elim o.has_address [ inl l ↦ cc | inr l ↦ cc ]
        | inr k ↦ elim o.has_address [ inl l ↦ cc | inr l ↦ cc ]
      ])

  read_address :
      (o : Option SockAddr) (i : Ifaddr) (is : List Ifaddr) (us : List ℕ)
      → i.ifa_addr ≡ o
      → is_skipped i ≡ false
      → AllOffered is us
      → AllOffered (i ∷ is) (usable_address o ++ us)
  read_address none i is us e read rest =
      offers_none i is us (λ a o. elim o.has_address [ inl k ↦ cc | inr k ↦ cc ]) rest
  read_address (some af_other) i is us e read rest =
      offers_none i is us (λ a o. elim o.has_address [ inl k ↦ cc | inr k ↦ cc ]) rest
  read_address (some (af_inet x)) i is us e read rest = read_inet x i is us (inl e) read rest
  read_address (some (af_inet6 x)) i is us e read rest = read_inet x i is us (inr e) read rest

  usable-AllOffered : (is : List Ifaddr) → AllOffered is (usable is)
  unfolding usable
  usable-AllOffered [] = no_more
  usable-AllOffered (i ∷ is) = elim (Bool-cases (is_skipped i)) [
    | inl skipped ↦
        rw (skipped, usable)
          (offers_none i is (usable is) (λ a o. (let read = Offers-not_skipped i a o in cc))
            (usable-AllOffered is))
    | inr read ↦
        rw (read, usable)
          (read_address i.ifa_addr i is (usable is) refl read (usable-AllOffered is))
  ]

  -- What the loop comes to: `us` are the addresses that it adds.
  record Collected (us : List ℕ) (addresses : List LocalIp) (r : Option (List LocalIp))
      : Type 0 where
    ips : List LocalIp
    result : r ≡ some ips
    same_addresses :
        Perm (map (λ l. LocalIp.address l) ips) (us ++ map (λ l. LocalIp.address l) addresses)
    priorities : All IsLocalPriority addresses → All IsLocalPriority ips

  -- An address that is added stands before those that come later.
  more_addresses :
      (us : List ℕ) (l : LocalIp) (addresses : List LocalIp) (r : Option (List LocalIp))
      → IsLocalPriority l
      → Collected us (l ∷ addresses) r
      → Collected (l.address ∷ us) addresses r
  more_addresses us l addresses r p c = record {
    ips = c.ips;
    result = c.result;
    same_addresses =
        Perm.trans c.same_addresses (perm_middle us (map (λ l. LocalIp.address l) addresses));
    priorities = λ ps. c.priorities (p, ps);
  }

  collect_lem :
      (is : List Ifaddr) (counter : ℕ) (addresses : List LocalIp)
      → counter < two_16
      → All HasAddress is
      → Collected (usable is) addresses (collect_ips is counter addresses)
  unfolding collect_ips usable
  collect_lem [] counter addresses low all = record {
    ips = addresses;
    result = refl;
    same_addresses = Perm.rfl;
    priorities = λ p. p;
  }
  collect_lem (i ∷ is) counter addresses low all = elim (Bool-cases (is_skipped i)) [
    | inl skipped ↦ rw (skipped, collect_ips) (collect_lem is counter addresses low all.1)
    | inr read ↦ elim all.0 [
      | inl skipped ↦ absurd (ground arith)
      | inr (s, has) ↦ elim (Option-cases (inet_address s)) [
        | inl other ↦
            rw (read, has, other, collect_ips) (collect_lem is counter addresses low all.1)
        | inr (a, is_inet) ↦ elim (Bool-cases (is_link_local a)) [
          | inl local ↦
              rw (read, has, is_inet, local, collect_ips)
                (collect_lem is counter addresses low all.1)
          | inr global ↦
              let l : LocalIp = record {
                address = a;
                priority = two_16 * 126 + counter;
                type = s5b_direct;
              } in
              let next = (counter + 1) % two_16 in
              rw (read, has, is_inet, global, collect_ips)
                (more_addresses (usable is) l addresses (collect_ips is next (l ∷ addresses))
                  (omega arith, omega (arith, low))
                  (collect_lem is next (l ∷ addresses) (omega arith) all.1))
        ]
      ]
    ]
  ]

our_hosts :
    (f : S5bHost) (port a n : ℕ) (ls : List LocalIp) (list : List S5bCandidate)
    → Perm
        (map (λ c. S5bCandidate.host c) (our_from f port a n ls list))
        (map (λ l. LocalIp.address l) ls ++ map (λ c. S5bCandidate.host c) list)
unfolding our_from
our_hosts f port a n [] list = Perm.rfl
our_hosts f port a n (l ∷ ls) list =
    Perm.trans (our_hosts f port (suc a) (n + 7) ls (own_candidate f port a n l ∷ list))
      (perm_middle (map (λ l. LocalIp.address l) ls) (map (λ c. S5bCandidate.host c) list))

-- Where every interface that is up, no loopback and not on the blacklist has an address, the list of local addresses is made,
-- with priorities that fit in 32 bits; and the candidates made of it are just those of the usable
-- addresses, by decreasing priority. The usable addresses are, in order, those of the interfaces that are up, no
-- loopback and not on the blacklist, and have an address of the internet that is not link-local.
pub get_our_candidates-Offered :
    (is_link_local : ℕ → Bool) (ifblacklist : List String) (is : List Ifaddr) (f : S5bHost)
    (port a n : ℕ)
    → All (HasAddress is_link_local ifblacklist) is
    → (ips : List LocalIp) × (get_all_local_ips is_link_local ifblacklist (some is) ≡ some ips)
      × All IsLocalPriority ips
      × Descends (get_our_candidates f ips port a n)
      × Perm
          (map (λ c. S5bCandidate.host c) (get_our_candidates f ips port a n))
          (usable is_link_local ifblacklist is)
      × AllOffered is_link_local ifblacklist is (usable is_link_local ifblacklist is)
unfolding get_all_local_ips get_our_candidates
get_our_candidates-Offered is_link_local ifblacklist is f port a n all =
    let c = collect_lem is_link_local ifblacklist is 0 [] (omega arith) all in
    let ours = our_from f port a n c.ips [] in
    (
      c.ips,
      c.result,
      c.priorities tt,
      sort_candidates-Descends ours,
      Perm.trans (Perm.map (λ c. S5bCandidate.host c) (sort_candidates-perm ours)) (
          Perm.trans
            (subst (Perm (map (λ c. S5bCandidate.host c) ours)) (append-nil _)
              (our_hosts f port a n c.ips []))
            (subst (Perm (map (λ l. LocalIp.address l) c.ips)) (append-nil _) c.same_addresses)),
      usable-AllOffered is_link_local ifblacklist is,
    )
