-- ===== src/Ibb/Attributes.antt =====
-- jingle-ibb/ibb.c: the attributes of a <transport> element, and block sizes.
use mcabber_jingle.Base.{
  smaller, ℕ, ◌%◌, ◌≤◌, String, ◌≡◌, refl, ap, ◌∙◌, ◌⊎◌, inl, inr, false, Option, none, some, [],
  ◌∷◌, ltb, arith, Option-cases,
}
use mcabber_jingle.Stanza.{
  Node, element, nil, Host, JingleContent, GError, error_missing, set_error,
}
use mcabber_jingle.Jingle.{Jingle}
use mcabber_jingle.Send.{add_child}
use mcabber_jingle.Handlers.{attribute_of}
use mcabber_jingle.Ibb.{
  Glib, JingleIbb, two_32, ibb_block_size_max, ns_jingle_transport_ibb, new_ibb, newfrommessage,
  tomessage, clamp,
}
use mcabber_jingle.Ibb.Buffer.{IsSound, waiting}

-- What comes of a <transport> element: an error, or a stream with nothing waiting.
pub data ReadOutcome (h : Host) (g : Glib) (cn : JingleContent) (err : Option GError)
    (r : Option JingleIbb × Option GError) : Type 0 where
  missing :
      ((attribute_of h cn.transport "sid" ≡ none)
        ⊎ (attribute_of h cn.transport "block-size" ≡ none))
      → r ≡ (none, set_error error_missing "an attribute of the transport element is missing" err)
      → ReadOutcome h g cn err r
  made :
      (sid size : String) (ibb : JingleIbb)
      → attribute_of h cn.transport "sid" ≡ some sid
      → attribute_of h cn.transport "block-size" ≡ some size
      → r ≡ (some ibb, err)
      → ibb.sid ≡ some sid
      → ibb.blocksize ≡ smaller ibb_block_size_max (g.strtoll size % two_32)
      → IsSound ibb
      → waiting ibb ≡ []
      → ReadOutcome h g cn err r

never_negative : (n : ℕ) → ltb n 0 ≡ false
never_negative n = ground arith

clamp_lem : (n : ℕ) → clamp n ≡ smaller ibb_block_size_max n
clamp_lem n = ground arith

clamp_bound : (n : ℕ) → clamp n ≤ ibb_block_size_max
clamp_bound n = ground arith

clamp_same : (n : ℕ) → n ≤ ibb_block_size_max → clamp (n % two_32) ≡ n
clamp_same n l = let small : n % two_32 ≡ n = omega (arith, l) in ground arith

-- A <transport> element gives an error if an attribute is missing, and otherwise always a sound stream,
-- with the block size of the attribute as a `guint`, or the greatest one if that is less: a negative
-- block size is not refused.
pub newfrommessage-ReadOutcome :
    (h : Host) (g : Glib) (cn : JingleContent) (err : Option GError)
    → ReadOutcome h g cn err (newfrommessage h g cn err)
unfolding newfrommessage new_ibb
newfrommessage-ReadOutcome h g cn err = elim (Option-cases (attribute_of h cn.transport "sid")) [
  | inl no_sid ↦ missing (inl no_sid) (ground arith)
  | inr (sid, has_sid) ↦ elim (Option-cases (attribute_of h cn.transport "block-size")) [
    | inl no_size ↦ missing (inr no_size) (ground arith)
    | inr (size, has_size) ↦
        let n = g.strtoll size % two_32 in
        made sid size (record (new_ibb sid) { blocksize = clamp n }) has_sid has_size
          (ground (arith, never_negative (clamp n))) refl (clamp_lem n)
          (record {
            whole = refl;
            inside = omega arith;
            fits = omega arith;
            clamped = clamp_bound n;
          })
          refl
  ]
]

-- The <transport> element that `tomessage` adds.
abbrev pub transport_node : Glib → JingleIbb → String → Node
transport_node g ibb sid =
    element "transport" none
      (("xmlns", ns_jingle_transport_ibb)
        ∷ ("sid", sid)
        ∷ ("block-size", g.show_uint ibb.blocksize)
        ∷ [])
      nil

newfrommessage_of :
    (h : Host) (g : Glib) (cn : JingleContent) (err : Option GError) (sid text : String) (n : ℕ)
    → attribute_of h cn.transport "sid" ≡ some sid
    → attribute_of h cn.transport "block-size" ≡ some text
    → clamp (g.strtoll text % two_32) ≡ n
    → newfrommessage h g cn err ≡ (some (record (new_ibb sid) { blocksize = n }), err)
unfolding newfrommessage new_ibb
newfrommessage_of h g cn err sid text n has_sid has_size size =
    ground (arith, never_negative (clamp (g.strtoll text % two_32)))

-- A stream written by `tomessage` into a content with no <transport>, and read by `newfrommessage`, gives a
-- new stream of the same identifier and block size; where an element's attributes are those it
-- was made with, and a number that is printed is read as itself.
pub newfrommessage-tomessage :
    (h : Host) (g : Glib) (ibb : JingleIbb) (sid : String) (node : Node) (cn : JingleContent)
    (err : Option GError)
    → Host.get_child h node "transport" ≡ none
    → ibb.sid ≡ some sid
    → ibb.blocksize ≤ ibb_block_size_max
    → cn.transport ≡ some (transport_node g ibb sid)
    → Host.get_attribute h (transport_node g ibb sid) "sid" ≡ some sid
    → Host.get_attribute h (transport_node g ibb sid) "block-size"
      ≡ some (g.show_uint ibb.blocksize)
    → g.strtoll (g.show_uint ibb.blocksize) ≡ ibb.blocksize
    → (tomessage h g ibb node ≡ add_child node (transport_node g ibb sid))
      × (newfrommessage h g cn err
          ≡ (some (record (new_ibb sid) { blocksize = ibb.blocksize }), err))
unfolding tomessage
newfrommessage-tomessage h g ibb sid node cn err none_yet has_sid max is_node is_sid is_size
      prints =
    let c : clamp (ibb.blocksize % two_32) ≡ ibb.blocksize = clamp_same ibb.blocksize max in
    let found_sid = ap (λ t. attribute_of h t "sid") is_node ∙ is_sid in
    let found_size = ap (λ t. attribute_of h t "block-size") is_node ∙ is_size in
    let size = ap (λ n. clamp (n % two_32)) prints ∙ c in
    (
      ground arith,
      newfrommessage_of h g cn err sid (g.show_uint ibb.blocksize) ibb.blocksize found_sid
          found_size size,
    )
