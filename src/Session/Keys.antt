-- ===== src/Session/Keys.antt =====
-- jingle/sessions.c: the list of sessions seen as a list of keys, by which sessions are told apart.
use mcabber_jingle.Base.{
  ℕ, suc, ◌<◌, String, ◌≡◌, refl, sym, ap, subst, ◌∙◌, ◌≢◌, inl, inr, Bool, true, false, Option,
  none, some, List, [], ◌∷◌, ◌++◌, ◌&&◌, ◌==◌, map, arith, str_eq, Bool-cases, remove_first, find?,
  All,
}
use mcabber_jingle.Stanza.{Host}
use mcabber_jingle.Session.{
  JingleSession, peer, is_session, session_find_by_sid, get_session, put_session, session_remove,
}

-- What a session is found by: its address, its identifier and the JID of its peer.
pub record Key : Type 0 where
  pub addr : ℕ
  pub sid : Option String
  pub peer : Option String

abbrev pub key : JingleSession → Key
key s = record { addr = s.addr; sid = s.sid; peer = peer s }

abbrev pub keys : List JingleSession → List Key
keys = map key

pub get_session_addr :
    (a : ℕ) (ss : List JingleSession) (s : JingleSession) → get_session a ss ≡ some s → s.addr ≡ a
unfolding get_session
get_session_addr a [] s e = cc
get_session_addr a (t ∷ ts) s e = ground (arith, get_session_addr a ts s)

-- A write through a pointer changes no key if it keeps that of the session written to.
pub keys-put_session :
    (a : ℕ) (ss : List JingleSession) (s t : JingleSession)
    → get_session a ss ≡ some s
    → key t ≡ key s
    → keys (put_session t ss) ≡ keys ss
unfolding get_session put_session
keys-put_session a [] s t e k = cc
keys-put_session a (u ∷ us) s t e k =
    let same_addr : t.addr ≡ s.addr = ap (λ (x : Key). x.addr) k in
    elim (Bool-cases (u.addr == a)) [
      | inl hit ↦
          let same : u ≡ s = ground arith in
          let here : (u.addr == t.addr) ≡ true =
            ground (arith, ap (λ (x : JingleSession). x.addr) same) in
          rw here (ap (λ x. x ∷ keys us) (k ∙ ap key (sym same)))
      | inr miss ↦
          let rest : get_session a us ≡ some s = ground arith in
          let there : (u.addr == t.addr) ≡ false = ground (arith, get_session_addr a us s rest) in
          rw there (ap (◌∷◌ (key u)) (keys-put_session a us s t rest k))
    ]

pub All-get_session {ℓ} :
    (P : JingleSession → Type ℓ) (a : ℕ) (ss : List JingleSession) (s : JingleSession)
    → get_session a ss ≡ some s
    → All P ss
    → P s
unfolding get_session
All-get_session P a [] s e h = cc
All-get_session P a (t ∷ ts) s e h = elim (Bool-cases (t.addr == a)) [
  | inl hit ↦ subst P (ground arith) h.0
  | inr miss ↦ All-get_session P a ts s (ground arith) h.1
]

pub All-put_session {ℓ} :
    (P : JingleSession → Type ℓ) (t : JingleSession) (ss : List JingleSession)
    → P t
    → All P ss
    → All P (put_session t ss)
unfolding put_session
All-put_session P t [] p h = tt
All-put_session P t (s ∷ ss) p h = elim (Bool-cases (s.addr == t.addr)) [
  | inl hit ↦ rw hit (p, h.1)
  | inr miss ↦ rw miss (h.0, All-put_session P t ss p h.1)
]

pub get_session-put_session :
    (a : ℕ) (ss : List JingleSession) (s t : JingleSession)
    → get_session a ss ≡ some s
    → t.addr ≡ a
    → get_session a (put_session t ss) ≡ some t
unfolding get_session put_session
get_session-put_session a [] s t e k = cc
get_session-put_session a (u ∷ us) s t e k = ground (arith, get_session-put_session a us s t)

pub All-session_remove {ℓ} :
    (P : JingleSession → Type ℓ) (a : ℕ) (ss : List JingleSession)
    → All P ss
    → All P (session_remove a ss)
unfolding session_remove
All-session_remove P a [] h = tt
All-session_remove P a (s ∷ ss) h = elim (Bool-cases (s.addr == a)) [
  | inl hit ↦ rw hit h.1
  | inr miss ↦ rw miss (h.0, All-session_remove P a ss h.1)
]

-- Later sessions are not hidden by earlier ones: no two have the same address, and a search for the
-- later one's identifier and peer does not stop at the earlier.
abbrev pub Apart : Host → Key → Key → Type 0
Apart h k l = (l.addr ≢ k.addr) × ((str_eq k.sid l.sid && Host.strcase_eq h k.peer l.peer) ≡ false)

abbrev pub DistinctKeys : Host → List Key → Type 0
DistinctKeys h [] = Unit {0}
DistinctKeys h (k ∷ ks) = All (Apart h k) ks × DistinctKeys h ks

abbrev pub KeysBelow : ℕ → List Key → Type 0
KeysBelow n = All (λ k. k.addr < n)

snoc_Apart :
    (h : Host) (k l : Key) (ks : List Key)
    → All (Apart h k) ks
    → Apart h k l
    → All (Apart h k) (ks ++ l ∷ [])
snoc_Apart h k l [] a b = (b, tt)
snoc_Apart h k l (x ∷ xs) a b = (a.0, snoc_Apart h k l xs a.1 b)

-- A session that no search for its identifier and peer has found, at a new address, keeps the keys
-- distinct.
pub keys_snoc :
    (h : Host) (n : ℕ) (sid from : Option String) (ss : List JingleSession) (l : Key)
    → l.addr ≡ n
    → l.sid ≡ sid
    → l.peer ≡ from
    → session_find_by_sid h sid from ss ≡ none
    → DistinctKeys h (keys ss)
    → KeysBelow n (keys ss)
    → DistinctKeys h (keys ss ++ l ∷ []) × KeysBelow (suc n) (keys ss ++ l ∷ [])
unfolding session_find_by_sid
keys_snoc h n sid from [] l ea es ep f d b = ((tt, tt), (omega arith, tt))
keys_snoc h n sid from (s ∷ ss) l ea es ep f d b = elim (Bool-cases (is_session h sid from s)) [
  | inl hit ↦ ground arith
  | inr miss ↦
      let (d', b') = keys_snoc h n sid from ss l ea es ep (rw miss at f) d.1 b.1 in
      let apart : Apart h (key s) l = (omega (arith, b.0), rw (es, ep) miss) in
      ((snoc_Apart h (key s) l (keys ss) d.0 apart, d'), (omega (arith, b.0), b'))
]

abbrev pub remove_key : ℕ → List Key → List Key
remove_key a = remove_first (λ k. k.addr == a)

pub keys-session_remove :
    (a : ℕ) (ss : List JingleSession) → keys (session_remove a ss) ≡ remove_key a (keys ss)
unfolding session_remove
keys-session_remove a [] = refl
keys-session_remove a (s ∷ ss) = elim (Bool-cases (s.addr == a)) [
  | inl e ↦ rw e
  | inr e ↦ rw e (ap (◌∷◌ (key s)) (keys-session_remove a ss))
]

All-remove_key {ℓ} : (P : Key → Type ℓ) (a : ℕ) (ks : List Key) → All P ks → All P (remove_key a ks)
All-remove_key P a [] h = tt
All-remove_key P a (k ∷ ks) h = elim (Bool-cases (k.addr == a)) [
  | inl e ↦ rw e h.1
  | inr e ↦ rw e (h.0, All-remove_key P a ks h.1)
]

DistinctKeys-remove_key :
    (h : Host) (a : ℕ) (ks : List Key) → DistinctKeys h ks → DistinctKeys h (remove_key a ks)
DistinctKeys-remove_key h a [] d = tt
DistinctKeys-remove_key h a (k ∷ ks) d = elim (Bool-cases (k.addr == a)) [
  | inl e ↦ rw e d.1
  | inr e ↦ rw e (All-remove_key (Apart h k) a ks d.0, DistinctKeys-remove_key h a ks d.1)
]

pub DistinctKeys-session_remove :
    (h : Host) (n a : ℕ) (ss : List JingleSession)
    → DistinctKeys h (keys ss) × KeysBelow n (keys ss)
    → DistinctKeys h (keys (session_remove a ss)) × KeysBelow n (keys (session_remove a ss))
DistinctKeys-session_remove h n a ss d =
    rw (keys-session_remove a ss)
      (DistinctKeys-remove_key h a (keys ss) d.0, All-remove_key (λ k. k.addr < n) a (keys ss) d.1)

All-middle {ℓ} :
    (P : Key → Type ℓ) (before after : List JingleSession) (s : JingleSession)
    → All P (keys (before ++ s ∷ after))
    → P (key s)
All-middle P [] after s a = a.0
All-middle P (t ∷ ts) after s a = All-middle P ts after s a.1

pub get_session_snoc :
    (a : ℕ) (ss : List JingleSession) (s : JingleSession)
    → s.addr ≡ a
    → KeysBelow a (keys ss)
    → get_session a (ss ++ s ∷ []) ≡ some s
unfolding get_session
get_session_snoc a [] s e b = ground arith
get_session_snoc a (t ∷ ts) s e b = ground (arith, get_session_snoc a ts s)

All-find :
    (h : Host) (k : Key) (p : JingleSession → Bool) (ss : List JingleSession) (s : JingleSession)
    → find? p ss ≡ some s
    → All (Apart h k) (keys ss)
    → Apart h k (key s)
All-find h k p [] s e a = cc
All-find h k p (t ∷ ts) s e a = elim (Bool-cases (p t)) [
  | inl hit ↦ let same : t ≡ s = ground arith in subst (λ x. Apart h k (key x)) same a.0
  | inr miss ↦ All-find h k p ts s (ground arith) a.1
]

-- A session that a search found stands at its own address, where addresses are distinct.
pub get_found :
    (h : Host) (p : JingleSession → Bool) (ss : List JingleSession) (s : JingleSession)
    → find? p ss ≡ some s
    → DistinctKeys h (keys ss)
    → get_session s.addr ss ≡ some s
unfolding get_session
get_found h p [] s e d = cc
get_found h p (t ∷ ts) s e d = elim (Bool-cases (p t)) [
  | inl hit ↦
      let same : t ≡ s = ground arith in
      subst (λ x. get_session x.addr (t ∷ ts) ≡ some x) same (ground arith)
  | inr miss ↦
      let later : find? p ts ≡ some s = ground arith in
      let (apart, _) = All-find h (key t) p ts s later d.0 in
      ground (arith, get_found h p ts s later d.1)
]
