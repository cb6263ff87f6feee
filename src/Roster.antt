-- ===== src/Roster.antt =====
-- jingle/jingle.c, `jingle_find_compatible_res`: the resource of a contact that a session is offered to.
--
-- `none` is a fault: a read through the NULL that the roster answers for a JID it does not have.
pub mod Compatible
use mcabber_jingle.Base.{
  ℕ, String, Bool, true, false, Option, none, some, List, [], ◌∷◌, if◌then◌else◌,
}
use mcabber_jingle.Jingle.{◌>>=◌}

-- What mcabber answers: a buddy is a number.
pub record Buddies : Type 0 where
  pub buddy_search_jid : String → Option ℕ
  pub buddy_getresources : ℕ → List String
  pub buddy_resource_getcaps : ℕ → String → Option String
  pub caps_has_feature : Option String → String → Bool

module _ (r : Buddies) where
  open r use {buddy_search_jid, buddy_getresources, buddy_resource_getcaps, caps_has_feature}

  -- The loop over the namespaces, which does not end at one that is missing.
  unfoldable pub find_namespaces : ℕ → String → List String → Bool → Bool
  find_namespaces usr res [] found = found
  find_namespaces usr res (n ∷ ns) found =
      let tmp = buddy_resource_getcaps usr res in
      find_namespaces usr res ns (if caps_has_feature tmp n then found else false)

  -- The loop over the resources.
  unfoldable pub find_resource : ℕ → List String → List String → Option String
  unfolding find_namespaces
  find_resource usr ns [] = none
  find_resource usr ns (res ∷ rest) =
      let next = find_resource usr ns rest in
      if find_namespaces usr res ns true then some res else next

  unfoldable pub jingle_find_compatible_res : String → List String → Option (Option String)
  unfolding find_resource
  jingle_find_compatible_res jid ns = do
    usr ← buddy_search_jid jid
    some (find_resource usr ns (buddy_getresources usr))
