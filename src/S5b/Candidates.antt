-- ===== src/S5b/Candidates.antt =====
-- jingle-s5b/s5b.c: the candidates that are read, sorted, and offered.
use mathlib.Core.List.{Perm, perm_middle}
use mathlib.Core.List.Perm
use mcabber_jingle.Base.{
  ℕ, suc, ◌≤◌, ◌≡◌, ◌≢◌, inl, inr, refl, ap, subst, true, false, Option, none, some, List, [], ◌∷◌,
  ◌++◌, All, arith, ltb, str_eq, str_eq_iff, Bool-cases, Option-cases, append-nil,
}
use mcabber_jingle.Stanza.{Node, node_name, node_children, Host}
use mcabber_jingle.S5b.Parsed.{OneOf, AllParsed, no_child, left_out, candidate, parse_one-OneOf}
use mcabber_jingle.S5b.{
  S5bCandidate, S5bHost, is_before, insert_sorted, sort_candidates, parse_one, prepend,
  parse_children, parse_candidates,
}

-- The greatest priority first.
abbrev pub Descends : List S5bCandidate → Type 0
Descends [] = Unit
Descends (c ∷ cs) = All (λ d. S5bCandidate.priority d ≤ S5bCandidate.priority c) cs × Descends cs

All-insert_sorted :
    (P : S5bCandidate → Type 0) (c : S5bCandidate) (ds : List S5bCandidate)
    → P c
    → All P ds
    → All P (insert_sorted c ds)
unfolding insert_sorted
All-insert_sorted P c [] p all = (p, tt)
All-insert_sorted P c (d ∷ ds) p all = elim (Bool-cases (is_before c d)) [
  | inl b ↦ rw b (p, all)
  | inr b ↦ rw b (all.0, All-insert_sorted P c ds p all.1)
]

below_all :
    (n m : ℕ) (ds : List S5bCandidate)
    → n ≤ m
    → All (λ d. S5bCandidate.priority d ≤ n) ds
    → All (λ d. S5bCandidate.priority d ≤ m) ds
below_all n m [] le all = tt
below_all n m (d ∷ ds) le all = (omega (arith, all.0), below_all n m ds le all.1)

insert_sorted-Descends :
    (c : S5bCandidate) (ds : List S5bCandidate) → Descends ds → Descends (insert_sorted c ds)
unfolding insert_sorted
insert_sorted-Descends c [] s = (tt, tt)
insert_sorted-Descends c (d ∷ ds) s = elim (Bool-cases (ltb c.priority d.priority)) [
  | inl b ↦ rw b (
    All-insert_sorted (λ e. S5bCandidate.priority e ≤ d.priority) c ds (ground arith) s.0,
    insert_sorted-Descends c ds s.1,
  )
  | inr b ↦
      let le : d.priority ≤ c.priority = ground arith in
      rw b ((le, below_all d.priority c.priority ds le s.0), s)
]

insert_sorted-perm :
    (c : S5bCandidate) (ds : List S5bCandidate) → Perm (insert_sorted c ds) (c ∷ ds)
unfolding insert_sorted
insert_sorted-perm c [] = Perm.rfl
insert_sorted-perm c (d ∷ ds) = elim (Bool-cases (is_before c d)) [
  | inl b ↦ rw b Perm.rfl
  | inr b ↦ rw b (Perm.trans (Perm.cons d (insert_sorted-perm c ds)) (Perm.swap c d ds))
]

pub sort_candidates-Descends : (cs : List S5bCandidate) → Descends (sort_candidates cs)
unfolding sort_candidates
sort_candidates-Descends [] = tt
sort_candidates-Descends (c ∷ cs) =
    insert_sorted-Descends c (sort_candidates cs) (sort_candidates-Descends cs)

pub sort_candidates-perm : (cs : List S5bCandidate) → Perm (sort_candidates cs) cs
unfolding sort_candidates
sort_candidates-perm [] = Perm.rfl
sort_candidates-perm (c ∷ cs) =
    Perm.trans (insert_sorted-perm c (sort_candidates cs)) (Perm.cons c (sort_candidates-perm cs))

-- The children that are well-formed candidates, read in their order.
unfoldable pub read_all : Host → S5bHost → ℕ → List Node → List S5bCandidate
read_all h f a [] = []
read_all h f a (node ∷ rest) = prepend (parse_one h f a node) (read_all h f (suc a) rest)

read_all-AllParsed :
    (h : Host) (f : S5bHost) (a : ℕ) (nodes : List Node)
    → AllParsed h f a nodes (read_all h f a nodes)
unfolding read_all
read_all-AllParsed h f a [] = no_child a
read_all-AllParsed h f a (node ∷ rest) =
    let one = parse_one-OneOf h f a node in
    let more = read_all-AllParsed h f (suc a) rest in
    elim (Option-cases (parse_one h f a node)) [
      | inl e ↦
          rw (e, read_all)
            (left_out a node rest (read_all h f (suc a) rest) (subst (OneOf h f a node) e one) more)
      | inr (c, e) ↦
          rw (e, read_all)
            (candidate a node c rest (read_all h f (suc a) rest) (subst (OneOf h f a node) e one)
              more)
    ]

prepend_middle :
    (o : Option S5bCandidate) (xs ys : List S5bCandidate)
    → Perm (xs ++ prepend o ys) (prepend o xs ++ ys)
prepend_middle none xs ys = Perm.rfl
prepend_middle (some c) xs ys = perm_middle xs ys

parse_children_named :
    (h : Host) (f : S5bHost) (node : Node) (a : ℕ) (rest : List Node) (list : List S5bCandidate)
    → str_eq (some (node_name node)) (some "candidate") ≡ true
    → Perm (parse_children h f node a rest list) (read_all h f a rest ++ list)
unfolding parse_children read_all
parse_children_named h f node a [] list e = Perm.rfl
parse_children_named h f node a (node2 ∷ rest) list e = rw e (
    Perm.trans (parse_children_named h f node (suc a) rest (prepend (parse_one h f a node2) list) e)
      (prepend_middle (parse_one h f a node2) (read_all h f (suc a) rest) list))

parse_children_other :
    (h : Host) (f : S5bHost) (node : Node) (a : ℕ) (rest : List Node) (list : List S5bCandidate)
    → str_eq (some (node_name node)) (some "candidate") ≡ false
    → parse_children h f node a rest list ≡ list
unfolding parse_children
parse_children_other h f node a [] list e = refl
parse_children_other h f node a (node2 ∷ rest) list e =
    rw e (parse_children_other h f node a rest list e)

-- What is read from an element.
pub data ParseOutcome (h : Host) (f : S5bHost) (a : ℕ) (node : Node) (cs : List S5bCandidate)
    : Type 0 where
  read_none : node_name node ≢ "candidate" → cs ≡ [] → ParseOutcome h f a node cs
  read_sorted :
      node_name node ≡ "candidate"
      → Descends cs
      → (us : List S5bCandidate) → AllParsed h f a (node_children node) us
      → Perm cs us
      → ParseOutcome h f a node cs

-- No candidate is read from an element with any name but "candidate", whatever its children are; from one
-- of that name are read, by decreasing priority, just the children with an identifier, a JID, a priority, an address
-- of a host and one of the four types, each as what it says and with the 16 bits of its port.
pub parse_candidates-ParseOutcome :
    (h : Host) (f : S5bHost) (a : ℕ) (node : Node)
    → ParseOutcome h f a node (parse_candidates h f a node)
unfolding parse_candidates sort_candidates
parse_candidates-ParseOutcome h f a node =
    let children = node_children node in
    elim (Bool-cases (str_eq (some (node_name node)) (some "candidate"))) [
      | inl same ↦
          read_sorted (let e = (str_eq_iff (some (node_name node)) (some "candidate")).0 same in cc)
            (sort_candidates-Descends (parse_children h f node a children []))
            (read_all h f a children) (read_all-AllParsed h f a children)
            (Perm.trans (sort_candidates-perm (parse_children h f node a children [])) (
              subst (Perm (parse_children h f node a children []))
                (append-nil (read_all h f a children))
                (parse_children_named h f node a children [] same)))
      | inr other ↦
          read_none
            (λ e.
              let same = (str_eq_iff (some (node_name node)) (some "candidate")).1 (ap some e) in
              cc)
            (ap sort_candidates (parse_children_other h f node a children [] other))
    ]
