-- ===== src/Session/Addresses.antt =====
-- jingle/sessions.c: the contents of a session stand at distinct addresses, below the next one that
-- an allocation gets.
use mcabber_jingle.Base.{
  ℕ, suc, ◌≤◌, ◌<◌, String, ◌≡◌, refl, sym, ap, subst, ◌≢◌, inl, inr, Bool, Option, none, some,
  List, [], ◌∷◌, ◌++◌, map, arith, Bool-cases, Option-cases, remove_first, All,
}
use mcabber_jingle.Session.{
  JingleSession, SessionContent, SessionState, new_content, session_add_content, update_named,
  session_add_app, session_add_trans, session_changestate_sessioncontent, unlink_content,
  content_has_addr, session_remove_sessioncontent, session_find_sessioncontent, with_content,
  or_same, set_app, set_trans,
}
use mcabber_jingle.Registry.{Registry, jingle_get_appfuncs, jingle_get_transportfuncs}

abbrev pub addresses : List SessionContent → List ℕ
addresses = map (λ c. c.addr)

abbrev pub DistinctAddresses : List ℕ → Type 0
DistinctAddresses [] = Unit {0}
DistinctAddresses (a ∷ as') = All (λ b. b ≢ a) as' × DistinctAddresses as'

abbrev pub DistinctContents : List SessionContent → Type 0
DistinctContents cs = DistinctAddresses (addresses cs)

-- The contents of a session stand at distinct addresses below `n`.
abbrev pub ContentsBelow : ℕ → JingleSession → Type 0
ContentsBelow n s = DistinctContents s.content × All (λ b. b < n) (addresses s.content)

All-mono : (m n : ℕ) (as' : List ℕ) → m ≤ n → All (λ b. b < m) as' → All (λ b. b < n) as'
All-mono m n [] h a = tt
All-mono m n (x ∷ xs) h a = (omega arith, All-mono m n xs h a.1)

pub ContentsBelow-mono :
    (m n : ℕ) (s : JingleSession) → m ≤ n → ContentsBelow m s → ContentsBelow n s
ContentsBelow-mono m n s h k = (k.0, All-mono m n (addresses s.content) h k.1)

append_new :
    (n : ℕ) (cs : List SessionContent) (c : SessionContent)
    → c.addr ≡ n
    → DistinctContents cs
    → All (λ b. b < n) (addresses cs)
    → DistinctContents (cs ++ c ∷ []) × All (λ b. b < suc n) (addresses (cs ++ c ∷ []))
append_new n [] c e d b = ((tt, tt), (omega arith, tt))
append_new n (x ∷ xs) c e d b =
    let (d', b') = append_new n xs c e d.1 b.1 in
    ((All_ne_snoc x.addr xs c (omega (arith, b.0)) d.0, d'), (omega (arith, b.0), b'))
  where
    All_ne_snoc :
        (a : ℕ) (ys : List SessionContent) (c : SessionContent)
        → c.addr ≢ a
        → All (λ b. b ≢ a) (addresses ys)
        → All (λ b. b ≢ a) (addresses (ys ++ c ∷ []))
    All_ne_snoc a [] c ne h = (ne, tt)
    All_ne_snoc a (y ∷ ys) c ne h = (h.0, All_ne_snoc a ys c ne h.1)

pub add_content-ContentsBelow :
    (n : ℕ) (s : JingleSession) (name : Option String) (state : SessionState)
    → ContentsBelow n s
    → ContentsBelow (suc n) (session_add_content n s name state)
unfolding session_add_content
add_content-ContentsBelow n s name state k =
    append_new n s.content (new_content n name state) refl k.0 k.1

remove_first_All :
    (p : SessionContent → Bool) (P : ℕ → Type 0) (cs : List SessionContent)
    → All P (addresses cs)
    → All P (addresses (remove_first p cs))
remove_first_All p P [] a = tt
remove_first_All p P (c ∷ cs) a = elim (Bool-cases (p c)) [
  | inl e ↦ rw e a.1
  | inr e ↦ rw e (a.0, remove_first_All p P cs a.1)
]

remove_first_Distinct :
    (p : SessionContent → Bool) (cs : List SessionContent)
    → DistinctContents cs
    → DistinctContents (remove_first p cs)
remove_first_Distinct p [] d = tt
remove_first_Distinct p (c ∷ cs) d = elim (Bool-cases (p c)) [
  | inl e ↦ rw e d.1
  | inr e ↦ rw e (remove_first_All p (λ b. b ≢ c.addr) cs d.0, remove_first_Distinct p cs d.1)
]

pub unlink-ContentsBelow :
    (n a : ℕ) (s : JingleSession) → ContentsBelow n s → ContentsBelow n (unlink_content a s)
unfolding unlink_content
unlink-ContentsBelow n a s k = (
  remove_first_Distinct (content_has_addr a) s.content k.0,
  remove_first_All (content_has_addr a) (λ b. b < n) s.content k.1,
)

addresses-update_named :
    (name : Option String) (f : SessionContent → SessionContent) (cs ds : List SessionContent)
    → ((c : SessionContent) → (f c).addr ≡ c.addr)
    → update_named name f cs ≡ some ds
    → addresses ds ≡ addresses cs
unfolding update_named
addresses-update_named name f [] ds k e = cc
addresses-update_named name f (c ∷ cs) ds k e = elim (Option-cases (update_named name f cs)) [
  | inl missing ↦ ground (arith, k c)
  | inr (ds', e') ↦ ground (arith, k c, addresses-update_named name f cs ds' k e')
]

-- A session that differs from one with contents below `n` by contents at the same addresses.
same_addresses :
    (n : ℕ) (s : JingleSession) (cs : List SessionContent)
    → addresses cs ≡ addresses s.content
    → ContentsBelow n s
    → ContentsBelow n (record s { content = cs })
same_addresses n s cs e k = rw (e) k

with_content_lem :
    (s t : JingleSession) (o : Option (List SessionContent))
    → with_content s o ≡ some t
    → (cs : List SessionContent) × (o ≡ some cs) × (t ≡ record s { content = cs })
with_content_lem s t none e = cc
with_content_lem s t (some cs) e = (cs, refl, cc)

-- What a write through a pointer to a content leaves of a session: all but its contents, and their
-- addresses.
pub record Rewritten (s t : JingleSession) : Type 0 where
  pub contents : List SessionContent
  pub result : t ≡ record s { content = contents }
  pub addresses_same : addresses contents ≡ addresses s.content

pub Rewritten-ContentsBelow :
    (n : ℕ) (s t : JingleSession) → Rewritten s t → ContentsBelow n s → ContentsBelow n t
Rewritten-ContentsBelow n s t r k =
    subst (ContentsBelow n) (sym r.result) (same_addresses n s r.contents r.addresses_same k)

written :
    (name : Option String) (f : SessionContent → SessionContent) (s t : JingleSession)
    → ((c : SessionContent) → (f c).addr ≡ c.addr)
    → with_content s (update_named name f s.content) ≡ some t
    → Rewritten s t
written name f s t k e =
    let (cs, e', e'') = with_content_lem s t (update_named name f s.content) e in
    record {
      contents = cs;
      result = e'';
      addresses_same = addresses-update_named name f s.content cs k e';
    }

pub session_add_app-Rewritten :
    (r : Registry) (s t : JingleSession) (name xmlns : Option String) (app : Option ℕ)
    → session_add_app r s name xmlns app ≡ some t
    → Rewritten s t
unfolding session_add_app
session_add_app-Rewritten r s t name xmlns app e =
    written name (set_app xmlns (jingle_get_appfuncs xmlns r) app) s t (λ c. refl) e

pub session_add_trans-Rewritten :
    (r : Registry) (s t : JingleSession) (name xmlns : Option String) (trans : Option ℕ)
    → session_add_trans r s name xmlns trans ≡ some t
    → Rewritten s t
unfolding session_add_trans
session_add_trans-Rewritten r s t name xmlns trans e =
    written name (set_trans xmlns (jingle_get_transportfuncs xmlns r) trans) s t (λ c. refl) e

pub changestate-Rewritten :
    (s : JingleSession) (name : Option String) (state : SessionState)
    → Rewritten s (session_changestate_sessioncontent s name state)
unfolding session_changestate_sessioncontent
changestate-Rewritten s name state =
    elim (Option-cases (update_named name (λ c. record c { state = state }) s.content)) [
      | inl e ↦ record { contents = s.content; result = ap (or_same s) e; addresses_same = refl }
      | inr (cs, e) ↦ record {
        contents = cs;
        result = ap (or_same s) e;
        addresses_same =
            addresses-update_named name (λ c. record c { state = state }) s.content cs (λ c. refl)
              e;
      }
    ]

pub remove-ContentsBelow :
    (n : ℕ) (s : JingleSession) (name : Option String)
    → ContentsBelow n s
    → ContentsBelow n (session_remove_sessioncontent s name).1
unfolding session_remove_sessioncontent
remove-ContentsBelow n s name k = elim (Option-cases (session_find_sessioncontent s name)) [
  | inl e ↦ rw (e, session_remove_sessioncontent) k
  | inr (c, e) ↦ rw (e, session_remove_sessioncontent) (unlink-ContentsBelow n c.addr s k)
]
