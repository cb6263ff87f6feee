-- ===== src/Registry.antt =====
-- jingle/register.c and jingle/register.h: the tables of application and transport modules.
--
-- A `funcs` pointer is a number, NULL is `none`. The two static lists are the fields of `Registry`.
pub mod Lookup
pub mod Best
use text.Mathlib.Text.{starts_with}
use mcabber_jingle.Base.{
  ℕ, String, Bool, Option, none, some, List, [], ◌∷◌, ◌++◌, ◌&&◌, ltb, str_eq, if◌then◌else◌, find?,
  remove_first,
}

pub data JingleTransportType : Type 0 where
  streaming datagram : JingleTransportType

pub data JingleTransportPriority : Type 0 where
  prio_low prio_normal prio_high : JingleTransportPriority

-- The values of the C enumeration: 0 is no priority.
abbrev pub prio_value : JingleTransportPriority → ℕ
prio_value prio_low = 1
prio_value prio_normal = 2
prio_value prio_high = 3

abbrev pub transport_type_eq : JingleTransportType → JingleTransportType → Bool
transport_type_eq streaming streaming = Bool.true
transport_type_eq datagram datagram = Bool.true
transport_type_eq _ _ = Bool.false

abbrev pub ns_jingle_app_prefix : String
ns_jingle_app_prefix = "urn:xmpp:jingle:apps:"

abbrev pub ns_jingle_transport_prefix : String
ns_jingle_transport_prefix = "urn:xmpp:jingle:transports:"

pub record AppHandlerEntry : Type 0 where
  pub xmlns : String
  pub funcs : ℕ
  pub transtype : JingleTransportType

pub record TransportHandlerEntry : Type 0 where
  pub xmlns : String
  pub funcs : ℕ
  pub transtype : JingleTransportType
  pub priority : JingleTransportPriority

pub record Registry : Type 0 where
  pub app_handlers : List AppHandlerEntry
  pub transport_handlers : List TransportHandlerEntry

unfoldable pub jingle_register_app : String → ℕ → JingleTransportType → Registry → Registry
jingle_register_app xmlns funcs type r =
    if starts_with xmlns ns_jingle_app_prefix
    then record r {
      app_handlers =
          r.app_handlers ++ record { xmlns = xmlns; funcs = funcs; transtype = type } ∷ [];
    }
    else r

unfoldable pub jingle_register_transport :
    String → ℕ → JingleTransportType → JingleTransportPriority → Registry → Registry
jingle_register_transport xmlns funcs type prio r =
    if starts_with xmlns ns_jingle_transport_prefix
    then record r {
      transport_handlers =
          r.transport_handlers
          ++ record { xmlns = xmlns; funcs = funcs; transtype = type; priority = prio } ∷ [];
    }
    else r

-- `jingle_entry_cmp (entry, xmlns) == 0`, at either kind of entry.
abbrev pub is_app : Option String → AppHandlerEntry → Bool
is_app xmlns e = str_eq (some e.xmlns) xmlns

abbrev pub is_transport : Option String → TransportHandlerEntry → Bool
is_transport xmlns e = str_eq (some e.xmlns) xmlns

unfoldable pub jingle_find_app : Option String → Registry → Option AppHandlerEntry
jingle_find_app xmlns r = find? (is_app xmlns) r.app_handlers

unfoldable pub jingle_find_transport : Option String → Registry → Option TransportHandlerEntry
jingle_find_transport xmlns r = find? (is_transport xmlns) r.transport_handlers

unfoldable pub jingle_get_appfuncs : Option String → Registry → Option ℕ
unfolding jingle_find_app
jingle_get_appfuncs xmlns r = elim (jingle_find_app xmlns r) [ none ↦ none | some e ↦ some e.funcs ]

unfoldable pub jingle_get_transportfuncs : Option String → Registry → Option ℕ
unfolding jingle_find_transport
jingle_get_transportfuncs xmlns r = elim (jingle_find_transport xmlns r) [
  | none ↦ none
  | some e ↦ some e.funcs
]

-- The entry found is the first that matches, so its link is the one that `g_slist_remove` takes out.
unfoldable pub jingle_unregister_app : String → Registry → Registry
jingle_unregister_app xmlns r = record r {
  app_handlers = remove_first (is_app (some xmlns)) r.app_handlers;
}

unfoldable pub jingle_unregister_transport : String → Registry → Registry
jingle_unregister_transport xmlns r = record r {
  transport_handlers = remove_first (is_transport (some xmlns)) r.transport_handlers;
}

-- `g_slist_find_custom (*forbid, xmlns, cmp_forbid) != NULL`.
unfoldable pub is_forbidden : List String → String → Bool
is_forbidden [] xmlns = Bool.false
is_forbidden (x ∷ xs) xmlns =
    if str_eq (some x) (some xmlns) then Bool.true else is_forbidden xs xmlns

-- `forbid` is NULL or points to a list.
abbrev pub forbids : Option (List String) → String → Bool
forbids none xmlns = Bool.false
forbids (some xs) xmlns = is_forbidden xs xmlns

-- One round of the loop over the transports: `bestprio` and `besttransport` after it.
unfoldable pub consider :
    JingleTransportType
    → Option (List String)
    → TransportHandlerEntry
    → ℕ × Option TransportHandlerEntry
    → ℕ × Option TransportHandlerEntry
consider requested forbid t (bestprio, best) =
    if forbids forbid t.xmlns
    then (bestprio, best)
    else if transport_type_eq t.transtype requested && ltb bestprio (prio_value t.priority)
    then (prio_value t.priority, some t)
    else (bestprio, best)

unfoldable pub choose :
    JingleTransportType
    → Option (List String)
    → List TransportHandlerEntry
    → ℕ × Option TransportHandlerEntry
    → Option TransportHandlerEntry
unfolding consider
choose requested forbid [] b = b.1
choose requested forbid (t ∷ ts) b = choose requested forbid ts (consider requested forbid t b)

-- How `jingle_transport_for_app` ends: with its result and the new `*forbid`, or by a read through
-- the NULL `besttransport`.
pub data Choice : Type 0 where
  chosen : Option String → Option (List String) → Choice
  null_deref : Choice

unfoldable pub finish_choice : Option TransportHandlerEntry → Option (List String) → Choice
finish_choice none none = chosen none none
finish_choice (some t) none = chosen (some t.xmlns) none
finish_choice none (some xs) = null_deref
finish_choice (some t) (some xs) = chosen (some t.xmlns) (some (xs ++ t.xmlns ∷ []))

unfoldable pub jingle_transport_for_app : Option String → Option (List String) → Registry → Choice
unfolding jingle_find_app choose finish_choice
jingle_transport_for_app appxmlns forbid r = elim (jingle_find_app appxmlns r) [
  | none ↦ chosen none forbid
  | some app ↦ finish_choice (choose app.transtype forbid r.transport_handlers (0, none)) forbid
]
