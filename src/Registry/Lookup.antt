-- ===== src/Registry/Lookup.antt =====
-- jingle/register.c: what a lookup finds after a module is registered or unregistered.
use mcabber_jingle.Base.{
  ℕ, String, ◌≡◌, Bool, true, false, none, some, List, [], ◌∷◌, ◌++◌, arith, str_eq, str_eq_self,
  find?, remove_first, find?-append, remove_first_of_none,
}
use mcabber_jingle.Registry.{
  JingleTransportType, JingleTransportPriority, is_transport, jingle_register_transport,
  jingle_unregister_transport, jingle_get_transportfuncs, Registry, jingle_register_app,
  jingle_unregister_app, jingle_get_appfuncs, is_app,
}

remove_first-append {ℓ} :
    {A : Type ℓ} (p : A → Bool) (xs : List A) (x : A)
    → find? p xs ≡ none
    → p x ≡ true
    → remove_first p (xs ++ x ∷ []) ≡ xs
remove_first-append p [] x h k = ground arith
remove_first-append p (y ∷ ys) x h k = ground (arith, remove_first-append p ys x)

-- An application that is registered under a namespace so far unknown, and unregistered, leaves the
-- tables as they were.
pub unregister-register :
    (x : String) (f : ℕ) (t : JingleTransportType) (r : Registry)
    → jingle_get_appfuncs (some x) r ≡ none
    → jingle_unregister_app x (jingle_register_app x f t r) ≡ r
unfolding jingle_register_app jingle_unregister_app jingle_get_appfuncs
unregister-register x f t r h =
    let unknown : find? (is_app (some x)) r.app_handlers ≡ none = ground arith in
    ground (
      arith,
      remove_first_of_none (is_app (some x)) r.app_handlers unknown,
      remove_first-append (is_app (some x)) r.app_handlers
          (record { xmlns = x; funcs = f; transtype = t }) unknown (str_eq_self (some x)),
    )

-- The same of a transport.
pub unregister_transport-register :
    (x : String) (f : ℕ) (t : JingleTransportType) (prio : JingleTransportPriority) (r : Registry)
    → jingle_get_transportfuncs (some x) r ≡ none
    → jingle_unregister_transport x (jingle_register_transport x f t prio r) ≡ r
unfolding jingle_register_transport jingle_unregister_transport jingle_get_transportfuncs
unregister_transport-register x f t prio r h =
    let unknown : find? (is_transport (some x)) r.transport_handlers ≡ none = ground arith in
    ground (
      arith,
      remove_first_of_none (is_transport (some x)) r.transport_handlers unknown,
      remove_first-append (is_transport (some x)) r.transport_handlers
          (record { xmlns = x; funcs = f; transtype = t; priority = prio }) unknown
          (str_eq_self (some x)),
    )

-- Another transport is as unknown as it was.
pub get_transportfuncs-register :
    (x y : String) (f : ℕ) (t : JingleTransportType) (prio : JingleTransportPriority) (r : Registry)
    → str_eq (some x) (some y) ≡ false
    → jingle_get_transportfuncs (some y) r ≡ none
    → jingle_get_transportfuncs (some y) (jingle_register_transport x f t prio r) ≡ none
unfolding jingle_register_transport jingle_get_transportfuncs
get_transportfuncs-register x y f t prio r ne h = ground (
  arith,
  find?-append (is_transport (some y)) r.transport_handlers
      (record { xmlns = x; funcs = f; transtype = t; priority = prio } ∷ []),
)
