-- ===== src/Check/Content.antt =====
-- jingle/check.c, `check_content`: which <content> elements are accepted, and what is read of them.
use mcabber_jingle.Base.{
  String, ◌≡◌, refl, ◌≢◌, ◌↔◌, ◌⊎◌, inl, inr, Option, none, some, arith, str_eq_iff, Option-cases,
}
use mcabber_jingle.Stanza.{Node, Host, JingleContent, JingleCreator, JingleSenders, GError}
use mcabber_jingle.Check.{
  index_in_array, read_senders, read_creator, check_parts, check_senders, check_content,
}

abbrev pub IsSenders : Option String → Type 0
IsSenders s =
    (s ≡ none)
    ⊎ (s ≡ some "both")
    ⊎ (s ≡ some "initiator")
    ⊎ (s ≡ some "none")
    ⊎ (s ≡ some "responder")

abbrev pub IsCreator : Option String → Type 0
IsCreator s = (s ≡ none) ⊎ (s ≡ some "initiator") ⊎ (s ≡ some "responder")

IsSenders-iff : (s : Option String) → (read_senders s ≢ none) ↔ IsSenders s
unfolding index_in_array
IsSenders-iff none = (λ _. inl refl, λ _ e. ground arith)
IsSenders-iff (some s) = (
  λ e. ground (
    arith,
    str_eq_iff (some "both") (some s),
    str_eq_iff (some "initiator") (some s),
    str_eq_iff (some "none") (some s),
    str_eq_iff (some "responder") (some s),
  ),
  λ k e. ground (
    arith,
    str_eq_iff (some "both") (some s),
    str_eq_iff (some "initiator") (some s),
    str_eq_iff (some "none") (some s),
    str_eq_iff (some "responder") (some s),
  ),
)

module _ (h : Host) where
  open h use {get_attribute, get_child}

  -- A content has a name, known senders, if any, and both its children.
  pub record IsContent (n : Node) : Type 0 where
    pub has_name : get_attribute n "name" ≢ none
    pub senders_known : IsSenders (get_attribute n "senders")
    pub has_description : get_child n "description" ≢ none
    pub has_transport : get_child n "transport" ≢ none

  -- The struct holds what the element says.
  pub record IsRead (n : Node) (c : JingleContent) : Type 0 where
    pub from : c.node ≡ n
    pub name : c.name ≡ get_attribute n "name"
    pub disposition : c.disposition ≡ get_attribute n "disposition"
    pub description : c.description ≡ get_child n "description"
    pub transport : c.transport ≡ get_child n "transport"

  -- `check_content` returns a struct, filled from the element, or NULL with an error set.
  abbrev pub Checked : Node → Option JingleContent × Option GError → Type 0
  Checked n r =
      (IsContent n × ((c : JingleContent) × (r.0 ≡ some c) × IsRead n c))
      ⊎ ((¬ IsContent n) × (r.0 ≡ none) × (r.1 ≢ none))

  check_parts-Checked :
      (n : Node) (creator : Option JingleCreator) (senders : JingleSenders) (err : Option GError)
      → get_attribute n "name" ≢ none
      → IsSenders (get_attribute n "senders")
      → Checked n (check_parts h n creator senders err)
  unfolding check_parts
  check_parts-Checked n creator senders err named known =
      elim (Option-cases (get_child n "description")) [
        | inl e ↦ inr (λ c. c.has_description e, ground arith, ground arith)
        | inr (d, e) ↦ elim (Option-cases (get_child n "transport")) [
          | inl e' ↦ inr (λ c. c.has_transport e', ground arith, ground arith)
          | inr (t, e') ↦ inl (
            record {
              has_name = named;
              senders_known = known;
              has_description = λ k. cc;
              has_transport = λ k. cc;
            },
            (
              record {
                node = n;
                creator = creator;
                disposition = get_attribute n "disposition";
                name = get_attribute n "name";
                senders = senders;
                description = get_child n "description";
                transport = get_child n "transport";
              },
              ground arith,
              ground arith,
            ),
          )
        ]
      ]

  check_senders-Checked :
      (n : Node) (creator : Option JingleCreator) (err : Option GError)
      → get_attribute n "name" ≢ none
      → Checked n (check_senders h n creator err)
  unfolding check_senders
  check_senders-Checked n creator err named =
      elim (Option-cases (read_senders (get_attribute n "senders"))) [
        | inl e ↦ inr (λ c. (IsSenders-iff _).1 c.senders_known e, ground arith, ground arith)
        | inr (s, e) ↦
            rw (e, check_senders)
              (check_parts-Checked n creator s err named ((IsSenders-iff _).0 (λ k. cc)))
      ]

  pub check_content-Checked : (n : Node) (err : Option GError) → Checked n (check_content h n err)
  unfolding check_content
  check_content-Checked n err = elim (Option-cases (get_attribute n "name")) [
    | inl e ↦ inr (λ c. c.has_name e, ground arith, ground arith)
    | inr (name, e) ↦
        rw (e, check_content)
          (check_senders-Checked n (read_creator (get_attribute n "creator") err).0
            (read_creator (get_attribute n "creator") err).1 (λ k. cc))
  ]
