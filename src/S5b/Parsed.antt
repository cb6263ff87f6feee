-- ===== src/S5b/Parsed.antt =====
-- jingle-s5b/s5b.c: what `parse_candidates` makes of one child.
use mcabber_jingle.Base.{
  ℕ, suc, ◌%◌, String, ◌≡◌, refl, inl, inr, true, Option, none, some, List, [], ◌∷◌, str_eq,
  str_eq_iff, Bool-cases, Option-cases,
}
use mcabber_jingle.Stanza.{Node, Host}
use mcabber_jingle.Check.{index_in_array}
use mcabber_jingle.S5b.{
  S5bCandidate, S5bHost, JingleS5bType, s5b_direct, s5b_assisted, s5b_tunnel, s5b_proxy, type_name,
  type_cast, jingle_s5b_types, two_16, parse_one,
}

-- Whether a child is a candidate and `c` is what it says: it has an identifier, a JID, a priority, the address of a host and
-- one of the four types; the port is what is read, of 16 bits.
pub record IsCandidate (h : Host) (f : S5bHost) (a : ℕ) (node : Node) (c : S5bCandidate)
    : Type 0 where
  pub cid : String
  pub jid : String
  pub host : String
  pub priority : String
  pub has_cid : Host.get_attribute h node "cid" ≡ some cid
  pub has_jid : Host.get_attribute h node "jid" ≡ some jid
  pub has_host : Host.get_attribute h node "host" ≡ some host
  pub has_priority : Host.get_attribute h node "priority" ≡ some priority
  pub has_type : Host.get_attribute h node "type" ≡ some (type_name c.type)
  pub is_address : f.address_from_string host ≡ some c.host
  pub same_addr : c.addr ≡ a
  pub same_cid : c.cid ≡ some cid
  pub same_jid : c.jid ≡ some jid
  pub same_port : c.port ≡ f.strtoull (Host.get_attribute h node "port") % two_16
  pub same_priority : c.priority ≡ f.strtoull (some priority)

-- The candidates among some children, in their order; each child has an address of its own.
pub data AllParsed (h : Host) (f : S5bHost) : ℕ → List Node → List S5bCandidate → Type 0 where
  no_child : (a : ℕ) → AllParsed h f a [] []
  candidate :
      (a : ℕ) (node : Node) (c : S5bCandidate) (rest : List Node) (cs : List S5bCandidate)
      → IsCandidate h f a node c
      → AllParsed h f (suc a) rest cs
      → AllParsed h f a (node ∷ rest) (c ∷ cs)
  left_out :
      (a : ℕ) (node : Node) (rest : List Node) (cs : List S5bCandidate)
      → ((c : S5bCandidate) → ¬ IsCandidate h f a node c)
      → AllParsed h f (suc a) rest cs
      → AllParsed h f a (node ∷ rest) cs

type_read :
    (type : JingleS5bType)
    → type_cast (index_in_array (some (type_name type)) jingle_s5b_types) ≡ some type
unfolding index_in_array str_eq
type_read s5b_direct = refl
type_read s5b_assisted = refl
type_read s5b_tunnel = refl
type_read s5b_proxy = refl

is_equal : (x : String) (t : Option String) → str_eq (some x) t ≡ true → t ≡ some x
is_equal x t e = let same = (str_eq_iff (some x) t).0 e in cc

of_type :
    (t : Option String) (k type : JingleS5bType)
    → t ≡ some (type_name k)
    → type_cast (index_in_array t jingle_s5b_types) ≡ some type
    → t ≡ some (type_name type)
of_type t k type named e = let read = type_read k in cc

type_named :
    (t : Option String) (type : JingleS5bType)
    → type_cast (index_in_array t jingle_s5b_types) ≡ some type
    → t ≡ some (type_name type)
unfolding index_in_array
type_named t type e = elim (Bool-cases (str_eq (some "direct") t)) [
  | inl is ↦ of_type t s5b_direct type (is_equal "direct" t is) e
  | inr no_direct ↦ elim (Bool-cases (str_eq (some "assisted") t)) [
    | inl is ↦ of_type t s5b_assisted type (is_equal "assisted" t is) e
    | inr no_assisted ↦ elim (Bool-cases (str_eq (some "tunnel") t)) [
      | inl is ↦ of_type t s5b_tunnel type (is_equal "tunnel" t is) e
      | inr no_tunnel ↦ elim (Bool-cases (str_eq (some "proxy") t)) [
        | inl is ↦ of_type t s5b_proxy type (is_equal "proxy" t is) e
        | inr no_proxy ↦
            let unread : type_cast (index_in_array t jingle_s5b_types) ≡ none =
              rw (no_direct, no_assisted, no_tunnel, no_proxy, index_in_array) refl in
            cc
      ]
    ]
  ]
]

-- What is made of one child.
abbrev pub OneOf : Host → S5bHost → ℕ → Node → Option S5bCandidate → Type 0
OneOf h f a node none = (c : S5bCandidate) → ¬ IsCandidate h f a node c
OneOf h f a node (some c) = IsCandidate h f a node c

-- A child that has the four texts.
parse_texts :
    (h : Host) (f : S5bHost) (a : ℕ) (node : Node) (cid jid host priority : String)
    → Host.get_attribute h node "cid" ≡ some cid
    → Host.get_attribute h node "jid" ≡ some jid
    → Host.get_attribute h node "host" ≡ some host
    → Host.get_attribute h node "priority" ≡ some priority
    → OneOf h f a node (parse_one h f a node)
unfolding parse_one
parse_texts h f a node cid jid host priority is_cid is_jid is_host is_priority =
    let t = Host.get_attribute h node "type" in
    elim (Option-cases (type_cast (index_in_array t jingle_s5b_types))) [
      | inl e ↦
          rw (is_cid, is_host, is_jid, is_priority, e, parse_one)
            (λ c r. (let k = r.has_type in let read = type_read c.type in cc))
      | inr (type, is_type) ↦ elim (Option-cases (f.address_from_string host)) [
        | inl e ↦
            rw (is_cid, is_host, is_jid, is_priority, is_type, e, parse_one)
              (λ c r. (let k = r.has_host in let l = r.is_address in cc))
        | inr (there, is_there) ↦
            rw (is_cid, is_host, is_jid, is_priority, is_type, is_there, parse_one)
              (record {
                cid = cid;
                jid = jid;
                host = host;
                priority = priority;
                has_cid = is_cid;
                has_jid = is_jid;
                has_host = is_host;
                has_priority = is_priority;
                has_type = type_named t type is_type;
                is_address = is_there;
                same_addr = refl;
                same_cid = refl;
                same_jid = refl;
                same_port = refl;
                same_priority = refl;
              })
      ]
    ]

pub parse_one-OneOf :
    (h : Host) (f : S5bHost) (a : ℕ) (node : Node) → OneOf h f a node (parse_one h f a node)
unfolding parse_one
parse_one-OneOf h f a node = elim (Option-cases (Host.get_attribute h node "cid")) [
  | inl e ↦ rw (e, parse_one) (λ c r. (let k = r.has_cid in cc))
  | inr (cid, is_cid) ↦ elim (Option-cases (Host.get_attribute h node "host")) [
    | inl e ↦ rw (is_cid, e, parse_one) (λ c r. (let k = r.has_host in cc))
    | inr (host, is_host) ↦ elim (Option-cases (Host.get_attribute h node "jid")) [
      | inl e ↦ rw (is_cid, is_host, e, parse_one) (λ c r. (let k = r.has_jid in cc))
      | inr (jid, is_jid) ↦ elim (Option-cases (Host.get_attribute h node "priority")) [
        | inl e ↦ rw (is_cid, is_host, is_jid, e, parse_one) (λ c r. (let k = r.has_priority in cc))
        | inr (priority, is_priority) ↦
            parse_texts h f a node cid jid host priority is_cid is_jid is_host is_priority
      ]
    ]
  ]
]
