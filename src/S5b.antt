-- ===== src/S5b.antt =====
-- jingle-s5b/s5b.c and s5b.h: the transport by SOCKS5 bytestreams, its candidates and its elements.
--
-- A GInetAddress is a number. A candidate carries the address at which it was allocated. What GLib, GIO
-- and mcabber answer is in `S5bHost`; `none` is a fault: a read outside an array or of a variable that
-- was not set. The arrays of names are searched as in jingle/check.c.
pub mod Transport
pub mod Parsed
pub mod Candidates
pub mod Connect
pub mod Attempts
pub mod Listening
pub mod Ports
pub mod Elements
pub mod Interfaces
use mcabber_jingle.Base.{
  ℕ, zero, suc, ◌+◌, ◌-◌, ◌%◌, String, Bool, true, false, not, ◌&&◌, Option, none, some, List, [],
  ◌∷◌, ◌++◌, ltb, leb, length, str_eq, if◌then◌else◌,
}
use mcabber_jingle.Stanza.{
  Node, Nodes, element, nil, cons, node_name, node_children, Host, JingleAction, session_accept,
  transport_info, JingleContent, GError, error_missing, set_error,
}
use mcabber_jingle.Check.{index_in_array}
use mcabber_jingle.Jingle.{JingleHandleStatus, status_handled, status_not_handled, nodes_of, ◌>>=◌}
use mcabber_jingle.Send.{add_child}

abbrev pub ns_jingle_transport_socks5 : String
ns_jingle_transport_socks5 = "urn:xmpp:jingle:transports:s5b:1"

pub data JingleS5bType : Type 0 where
  s5b_direct s5b_assisted s5b_tunnel s5b_proxy : JingleS5bType

pub data JingleS5bModes : Type 0 where
  s5b_tcp s5b_udp : JingleS5bModes

abbrev pub jingle_s5b_types : List String
jingle_s5b_types = "direct" ∷ "assisted" ∷ "tunnel" ∷ "proxy" ∷ []

abbrev pub jingle_s5b_modes : List String
jingle_s5b_modes = "tcp" ∷ "udp" ∷ []

-- The entries of the two arrays.
abbrev pub type_name : JingleS5bType → String
type_name s5b_direct = "direct"
type_name s5b_assisted = "assisted"
type_name s5b_tunnel = "tunnel"
type_name s5b_proxy = "proxy"

abbrev pub mode_name : JingleS5bModes → String
mode_name s5b_tcp = "tcp"
mode_name s5b_udp = "udp"

-- An index in an enumeration; `none` is -1.
abbrev pub type_cast : Option ℕ → Option JingleS5bType
type_cast (some zero) = some s5b_direct
type_cast (some (suc zero)) = some s5b_assisted
type_cast (some (suc (suc zero))) = some s5b_tunnel
type_cast (some (suc (suc (suc zero)))) = some s5b_proxy
type_cast _ = none

abbrev pub mode_cast : Option ℕ → Option JingleS5bModes
mode_cast (some zero) = some s5b_tcp
mode_cast (some (suc zero)) = some s5b_udp
mode_cast _ = none

pub record S5bCandidate : Type 0 where
  pub addr : ℕ
  pub cid : Option String
  pub host : ℕ
  pub jid : Option String
  pub port : ℕ
  pub priority : ℕ
  pub type : JingleS5bType

pub record LocalIp : Type 0 where
  pub address : ℕ
  pub priority : ℕ
  pub type : JingleS5bType

-- A GSocketListener: none yet, one with the sockets that were added to it, or one that was freed.
pub data Listener : Type 0 where
  no_listener : Listener
  listening : List (ℕ × ℕ) → Listener
  listener_freed : Listener

-- `cancelconnect` is whether the GCancellable was cancelled, `client` whether it was made. `mode` is `none` for -1.
pub record JingleS5b : Type 0 where
  pub mode : Option JingleS5bModes
  pub sid : Option String
  pub connection : Option ℕ
  pub cancelconnect : Option Bool
  pub listener : Listener
  pub client : Bool
  pub candidates : List S5bCandidate
  pub ourcandidates : List S5bCandidate

-- `draw n` is what the call of `g_random_int_range` answers before which `n` were made; `strtoull`
-- is `g_ascii_strtoull (s, NULL, 10)`, which answers 0 for NULL; `sscanf` are the numbers that are read before
-- and after a "-"; `str_of` is the C string of these bytes.
pub record S5bHost : Type 0 where
  pub address_from_string : String → Option ℕ
  pub address_to_string : ℕ → String
  pub strtoull : Option String → ℕ
  pub show_uint : ℕ → String
  pub connection_jid : Option String
  pub draw : ℕ → ℕ → ℕ → ℕ
  pub sscanf : String → Option ℕ × Option ℕ
  pub port_range : Option String
  pub str_of : List ℕ → String

abbrev pub two_16 : ℕ
two_16 = 65536

-- `car[i]`.
abbrev pub car : ℕ → ℕ
car i = if ltb i 26 then 97 + i else if ltb i 52 then 65 + (i - 26) else 48 + (i - 52)

-- `random_str`, with `n` draws made before.
unfoldable pub random_str : S5bHost → ℕ → ℕ → List ℕ
random_str f n zero = []
random_str f n (suc len) = car (S5bHost.draw f n 0 62) ∷ random_str f (suc n) len

abbrev pub gen_random_sid : S5bHost → ℕ → String
gen_random_sid f n = f.str_of (random_str f n 7)

abbrev pub gen_random_cid : S5bHost → ℕ → String
gen_random_cid f n = f.str_of (random_str f n 7)

-- `prioritycmp (a, b) <= 0`.
abbrev pub is_before : S5bCandidate → S5bCandidate → Bool
is_before a b = not (ltb a.priority b.priority)

-- `g_slist_sort` by `prioritycmp`, which is stable.
unfoldable pub insert_sorted : S5bCandidate → List S5bCandidate → List S5bCandidate
insert_sorted c [] = c ∷ []
insert_sorted c (d ∷ ds) =
    let rest = insert_sorted c ds in if is_before c d then c ∷ d ∷ ds else d ∷ rest

unfoldable pub sort_candidates : List S5bCandidate → List S5bCandidate
unfolding insert_sorted
sort_candidates [] = []
sort_candidates (c ∷ cs) = insert_sorted c (sort_candidates cs)

-- The body of the loop of `parse_candidates`, for one child; `none` where it is left out.
unfoldable pub parse_one : Host → S5bHost → ℕ → Node → Option S5bCandidate
parse_one h f a node = do
  cid ← Host.get_attribute h node "cid"
  hoststr ← Host.get_attribute h node "host"
  jid ← Host.get_attribute h node "jid"
  prioritystr ← Host.get_attribute h node "priority"
  type ← type_cast (index_in_array (Host.get_attribute h node "type") jingle_s5b_types)
  host ← f.address_from_string hoststr
  some (record {
    addr = a;
    cid = some cid;
    host = host;
    jid = some jid;
    port = f.strtoull (Host.get_attribute h node "port") % two_16;
    priority = f.strtoull (some prioritystr);
    type = type;
  })

abbrev pub prepend : Option S5bCandidate → List S5bCandidate → List S5bCandidate
prepend none list = list
prepend (some c) list = c ∷ list

-- The loop: each child has the name of `node` tested, not its own.
unfoldable pub parse_children :
    Host → S5bHost → Node → ℕ → List Node → List S5bCandidate → List S5bCandidate
unfolding parse_one
parse_children h f node a [] list = list
parse_children h f node a (node2 ∷ rest) list =
    if str_eq (some (node_name node)) (some "candidate")
    then parse_children h f node (suc a) rest (prepend (parse_one h f a node2) list)
    else parse_children h f node a rest list

unfoldable pub parse_candidates : Host → S5bHost → ℕ → Node → List S5bCandidate
unfolding parse_children sort_candidates
parse_candidates h f a node = sort_candidates (parse_children h f node a (node_children node) [])

-- A candidate of ours: the field `type` is left at 0.
abbrev pub own_candidate : S5bHost → ℕ → ℕ → ℕ → LocalIp → S5bCandidate
own_candidate f port a n l = record {
  addr = a;
  cid = some (gen_random_cid f n);
  host = l.address;
  jid = f.connection_jid;
  port = port;
  priority = l.priority;
  type = s5b_direct;
}

-- The loop of `get_our_candidates`, with `n` draws made before.
unfoldable pub our_from : S5bHost → ℕ → ℕ → ℕ → List LocalIp → List S5bCandidate → List S5bCandidate
unfolding random_str
our_from f port a n [] list = list
our_from f port a n (l ∷ ls) list =
    our_from f port (suc a) (n + 7) ls (own_candidate f port a n l ∷ list)

unfoldable pub get_our_candidates : S5bHost → List LocalIp → ℕ → ℕ → ℕ → List S5bCandidate
unfolding our_from sort_candidates
get_our_candidates f local_ips port a n = sort_candidates (our_from f port a n local_ips [])

abbrev pub is_port : ℕ → Bool
is_port n = leb 1024 n && leb n 65535

-- `get_port`: a number that `sscanf` did not read is a variable that was not set.
unfoldable pub get_port : S5bHost → ℕ → Option ℕ
get_port f n =
    let default = some (f.draw n 1024 65535 % two_16) in
    elim f.port_range [
      | none ↦ default
      | some range ↦ do
        portstart ← (f.sscanf range).0
        if is_port portstart
            then (do
              portend ← (f.sscanf range).1
              if is_port portend && leb portstart portend
                  then some (f.draw n portstart portend % two_16)
                  else default)
            else default
    ]
