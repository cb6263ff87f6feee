-- ===== src/Check/Contents.antt =====
-- jingle/check.c, `check_contents`: what the list of contents is after it.
use mcabber_jingle.Base.{
  ◌≡◌, refl, sym, ap, ◌∙◌, ◌≢◌, ◌⊎◌, inl, inr, Bool, true, false, Option, none, List, [], ◌∷◌, ◌++◌,
  append-nil, append_assoc, keep_if, All, Bool-cases,
}
use mcabber_jingle.Stanza.{Node, Host, JingleContent, GError, ContentList, held}
use mcabber_jingle.Check.{check_content, is_content, check_children, free_contents}
use mcabber_jingle.Check.Content.{IsContent, IsRead, check_content-Checked}

module _ (h : Host) where
  -- The <content> elements among some children are all well-formed.
  abbrev pub AllContent : List Node → Type 0
  AllContent = All (λ n. is_content n ≡ true → IsContent h n)

  -- The structs read, one for each element and in their order.
  abbrev pub AllRead : List Node → List JingleContent → Type 0
  AllRead [] [] = Unit {0}
  AllRead (n ∷ ns) (c ∷ cs) = IsRead h n c × AllRead ns cs
  AllRead _ _ = ⊥

  -- What a loop over `ns` that started with the structs `cs` came to: all <content> elements are
  -- well-formed and their structs are appended; or one is not, and the structs read before it are
  -- freed, with an error set.
  pub record ReadAll (ns : List Node) (cs : List JingleContent)
      (r : Bool × ContentList × Option GError) : Type 0 where
    pub well_formed : AllContent ns
    pub read : List JingleContent
    pub stored : r.1 ≡ held (cs ++ read)
    pub as_elements : AllRead (keep_if is_content ns) read
    pub answer : r.0 ≡ true

  pub record Refused (ns : List Node) (cs : List JingleContent)
      (r : Bool × ContentList × Option GError) : Type 0 where
    pub before : List Node
    pub bad : Node
    pub after : List Node
    pub place : ns ≡ before ++ bad ∷ after
    pub well_formed : AllContent before
    pub named : is_content bad ≡ true
    pub malformed : ¬ IsContent h bad
    pub read : List JingleContent
    pub as_elements : AllRead (keep_if is_content before) read
    pub released : r.1 ≡ free_contents (held (cs ++ read))
    pub answer : r.0 ≡ false
    pub error_set : r.2 ≢ none

  skip-ReadAll :
      (n : Node) (ns : List Node) (cs : List JingleContent) (r : Bool × ContentList × Option GError)
      → is_content n ≡ false
      → ReadAll ns cs r
      → ReadAll (n ∷ ns) cs r
  skip-ReadAll n ns cs r other a = record {
    well_formed = ((λ e. cc), a.well_formed);
    read = a.read;
    stored = a.stored;
    as_elements = rw other a.as_elements;
    answer = a.answer;
  }

  take-ReadAll :
      (n : Node) (c : JingleContent) (ns : List Node) (cs : List JingleContent)
      (r : Bool × ContentList × Option GError)
      → is_content n ≡ true
      → IsContent h n
      → IsRead h n c
      → ReadAll ns (cs ++ c ∷ []) r
      → ReadAll (n ∷ ns) cs r
  take-ReadAll n c ns cs r named good same a = record {
    well_formed = ((λ e. good), a.well_formed);
    read = c ∷ a.read;
    stored = a.stored ∙ ap held (append_assoc cs (c ∷ []) a.read);
    as_elements = rw named (same, a.as_elements);
    answer = a.answer;
  }

  skip-Refused :
      (n : Node) (ns : List Node) (cs : List JingleContent) (r : Bool × ContentList × Option GError)
      → is_content n ≡ false
      → Refused ns cs r
      → Refused (n ∷ ns) cs r
  skip-Refused n ns cs r other a = record {
    before = n ∷ a.before;
    bad = a.bad;
    after = a.after;
    place = ap (◌∷◌ n) a.place;
    well_formed = ((λ e. cc), a.well_formed);
    named = a.named;
    malformed = a.malformed;
    read = a.read;
    as_elements = rw other a.as_elements;
    released = a.released;
    answer = a.answer;
    error_set = a.error_set;
  }

  take-Refused :
      (n : Node) (c : JingleContent) (ns : List Node) (cs : List JingleContent)
      (r : Bool × ContentList × Option GError)
      → is_content n ≡ true
      → IsContent h n
      → IsRead h n c
      → Refused ns (cs ++ c ∷ []) r
      → Refused (n ∷ ns) cs r
  take-Refused n c ns cs r named good same a = record {
    before = n ∷ a.before;
    bad = a.bad;
    after = a.after;
    place = ap (◌∷◌ n) a.place;
    well_formed = ((λ e. good), a.well_formed);
    named = a.named;
    malformed = a.malformed;
    read = c ∷ a.read;
    as_elements = rw named (same, a.as_elements);
    released = a.released ∙ ap (λ l. free_contents (held l)) (append_assoc cs (c ∷ []) a.read);
    answer = a.answer;
    error_set = a.error_set;
  }

  -- The loop over the children of an element reads all its <content> elements, in order, if they are
  -- well-formed; and at the first that is not, it answers FALSE with an error set, and what it had
  -- read is freed.
  pub check_children_total :
      (ns : List Node) (cs : List JingleContent) (err : Option GError)
      → ReadAll ns cs (check_children h ns (held cs) err)
        ⊎ Refused ns cs (check_children h ns (held cs) err)
  unfolding check_children
  check_children_total [] cs err = inl (record {
    well_formed = tt;
    read = [];
    stored = ap held (sym (append-nil cs));
    as_elements = tt;
    answer = refl;
  })
  check_children_total (n ∷ ns) cs err = elim (Bool-cases (is_content n)) [
    | inl named ↦ elim (check_content-Checked h n err) [
      | inl (good, (c, e, same)) ↦
          rw (named, check_children, e)
            (elim (check_children_total ns (cs ++ c ∷ []) (check_content h n err).1) [
              | inl a ↦ inl (take-ReadAll n c ns cs _ named good same a)
              | inr a ↦ inr (take-Refused n c ns cs _ named good same a)
            ])
      | inr (bad, e, set) ↦
          rw (named, check_children, e)
            (inr (record {
              before = [];
              bad = n;
              after = ns;
              place = refl;
              well_formed = tt;
              named = named;
              malformed = bad;
              read = [];
              as_elements = tt;
              released = ap (λ l. free_contents (held l)) (sym (append-nil cs));
              answer = refl;
              error_set = set;
            }))
    ]
    | inr other ↦
        rw (other, check_children)
          (elim (check_children_total ns cs err) [
            | inl a ↦ inl (skip-ReadAll n ns cs _ other a)
            | inr a ↦ inr (skip-Refused n ns cs _ other a)
          ])
  ]
