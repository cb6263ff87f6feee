-- ===== src/Roster/Compatible.antt =====
-- jingle/jingle.c, `jingle_find_compatible_res`: which resource is chosen.
use mcabber_jingle.Base.{
  ℕ, String, ◌≡◌, refl, ◌↔◌, true, false, Option, none, some, List, [], ◌∷◌, ◌++◌, All, arith,
  Bool-cases, Option-cases, inl, inr, ap,
}
use mcabber_jingle.Roster.{Buddies, find_namespaces, find_resource, jingle_find_compatible_res}

module _ (r : Buddies) where
  open r use {buddy_search_jid, buddy_getresources, buddy_resource_getcaps, caps_has_feature}

  -- A resource whose capabilities have all the namespaces.
  abbrev pub Supports : List String → ℕ → String → Type 0
  Supports ns usr res = All (λ n. caps_has_feature (buddy_resource_getcaps usr res) n ≡ true) ns

  abbrev pub Lacks : List String → ℕ → String → Type 0
  Lacks ns usr res = ¬ Supports ns usr res

  -- The first of some resources that supports the namespaces, or NULL if none does.
  pub data FirstOf (ns : List String) (usr : ℕ) (rs : List String) : Option String → Type 0 where
    first_is :
        (before after : List String) (res : String)
        → rs ≡ before ++ res ∷ after
        → All (Lacks ns usr) before
        → Supports ns usr res
        → FirstOf ns usr rs (some res)
    none_is : All (Lacks ns usr) rs → FirstOf ns usr rs none

  -- What is found for a JID: the first of its resources that will do, or a fault if it is not in the roster.
  pub data FoundFor (ns : List String) (jid : String) : Option (Option String) → Type 0 where
    in_roster :
        (usr : ℕ) (res : Option String)
        → buddy_search_jid jid ≡ some usr
        → FirstOf ns usr (buddy_getresources usr) res
        → FoundFor ns jid (some res)
    not_in_roster : buddy_search_jid jid ≡ none → FoundFor ns jid none

  not_found :
      (usr : ℕ) (res : String) (ns : List String) → find_namespaces r usr res ns false ≡ false
  unfolding find_namespaces
  not_found usr res [] = refl
  not_found usr res (n ∷ ns) = ground (arith, not_found usr res ns)

  find_namespaces_iff :
      (usr : ℕ) (res : String) (ns : List String)
      → (find_namespaces r usr res ns true ≡ true) ↔ Supports ns usr res
  unfolding find_namespaces
  find_namespaces_iff usr res [] = ground arith
  find_namespaces_iff usr res (n ∷ ns) =
      ground (arith, find_namespaces_iff usr res ns, not_found usr res ns)

  later_is :
      (ns : List String) (usr : ℕ) (x : String) (rs : List String) (o : Option String)
      → Lacks ns usr x
      → FirstOf ns usr rs o
      → FirstOf ns usr (x ∷ rs) o
  later_is ns usr x rs _ lacks (first_is before after res split before_lack supports) =
      first_is (x ∷ before) after res (ap (◌∷◌ x) split) (lacks, before_lack) supports
  later_is ns usr x rs _ lacks (none_is all_lack) = none_is (lacks, all_lack)

  find_resource-FirstOf :
      (ns : List String) (usr : ℕ) (rs : List String)
      → FirstOf ns usr rs (find_resource r usr ns rs)
  unfolding find_resource
  find_resource-FirstOf ns usr [] = none_is tt
  find_resource-FirstOf ns usr (x ∷ rs) = elim (Bool-cases (find_namespaces r usr x ns true)) [
    | inl found ↦ rw found (first_is [] rs x refl tt ((find_namespaces_iff usr x ns).0 found))
    | inr missing ↦ rw missing (
        later_is ns usr x rs _ (λ s. ground (arith, (find_namespaces_iff usr x ns).1 s))
          (find_resource-FirstOf ns usr rs))
  ]

  -- For a JID of the roster, `jingle_find_compatible_res` answers the first of its resources whose capabilities
  -- have all the namespaces, and NULL just if no resource has; for a JID that is not in the roster it reads through NULL.
  pub find_compatible_res-FoundFor :
      (jid : String) (ns : List String) → FoundFor ns jid (jingle_find_compatible_res r jid ns)
  unfolding jingle_find_compatible_res
  find_compatible_res-FoundFor jid ns = elim (Option-cases (buddy_search_jid jid)) [
    | inl e ↦ rw e (not_in_roster e)
    | inr (usr, e) ↦
        rw e (in_roster usr _ e (find_resource-FirstOf ns usr (buddy_getresources usr)))
  ]
