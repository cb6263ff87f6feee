-- ===== src/Start/Balance.antt =====
-- jingle/jingle.c, jingle-ibb/ibb.c, jingle-ft/filetransfer.c and jingle-s5b/s5b.c: what each module
-- takes at its start and gives back at its end, beside its handler.
use mcabber_jingle.Base.{
  ℕ, String, ◌≡◌, refl, ap, ◌∙◌, not, true, some, ◌==◌, arith, if◌then◌else◌, str_eq, str_eq_iff,
  Bool-cases, inl, inr, subst, sym,
}
use mcabber_jingle.Jingle.{ns_jingle}
use mcabber_jingle.Ibb.{ns_jingle_transport_ibb}
use mcabber_jingle.Ft.{ns_jingle_app_ft}
use mcabber_jingle.S5b.{ns_jingle_transport_socks5}
use mcabber_jingle.Start.{
  Call, Program, jingle_register_lm_handlers, jingle_unregister_lm_handlers,
  jingle_ibb_register_lm_handlers, jingle_ibb_unregister_lm_handlers, jingle_init, jingle_uninit,
  jingle_ibb_init, jingle_ibb_uninit, jingle_ft_init, jingle_ft_uninit, jingle_socks5_uninit,
}
use mcabber_jingle.Start.Resources.{
  Thing, other, reference, hook, category, feature, command, held, taken, takes, gives_back,
  neither, held_if,
}

-- What each module takes, beside its handler, and gives back.
abbrev pub jingle_takes : ℕ → ℕ → ℕ → Thing → ℕ → ℕ
jingle_takes a x y t n = taken (other t) (takes (other (hook y))) (
    taken (other t) (takes (other (hook x))) (
      taken (other t) (takes (other (feature ns_jingle)))
        (taken (other t) (takes (other (reference a))) n)))

abbrev pub ibb_takes : ℕ → ℕ → ℕ → Thing → ℕ → ℕ
ibb_takes b u v t n = taken (other t) (takes (other (feature ns_jingle_transport_ibb))) (
    taken (other t) (takes (other (hook v)))
      (taken (other t) (takes (other (hook u))) (taken (other t) (takes (other (reference b))) n)))

abbrev pub ft_takes : ℕ → Thing → ℕ → ℕ
ft_takes cid t n = taken (other t) (takes (other (command "jft"))) (
    taken (other t) (if cid == 0 then neither else takes (other (category cid)))
      (taken (other t) (takes (other (feature ns_jingle_app_ft))) n))

abbrev pub s5b_takes : Thing → ℕ → ℕ
s5b_takes t n = taken (other t) (takes (other (feature ns_jingle_transport_socks5))) n

abbrev pub jingle_gives : ℕ → ℕ → ℕ → Thing → ℕ → ℕ
jingle_gives a x y t n = taken (other t) (gives_back (other (reference a))) (
    taken (other t) (gives_back (other (hook y))) (
      taken (other t) (gives_back (other (hook x)))
        (taken (other t) (gives_back (other (feature ns_jingle))) n)))

abbrev pub ibb_gives : ℕ → ℕ → ℕ → Thing → ℕ → ℕ
ibb_gives b u v t n = taken (other t) (gives_back (other (feature ns_jingle_transport_ibb))) (
    taken (other t) (gives_back (other (reference b))) (
      taken (other t) (gives_back (other (hook v)))
        (taken (other t) (gives_back (other (hook u))) n)))

abbrev pub ft_gives : ℕ → Thing → ℕ → ℕ
ft_gives cid t n =
    let m =
      taken (other t) (gives_back (other (command "file")))
        (taken (other t) (gives_back (other (feature ns_jingle_app_ft))) n) in
    if cid == 0 then m else taken (other t) (gives_back (other (category cid))) m

abbrev pub s5b_gives : Thing → ℕ → ℕ
s5b_gives t n = taken (other t) (gives_back (other (feature ns_jingle_transport_socks5))) n

-- All is given back but the command.
abbrev pub left_behind : Thing → ℕ
left_behind (command s) = if str_eq (some s) (some "jft") then 1 else 0
left_behind _ = 0

-- The command is given back by another name.
command_stays :
    (cid : ℕ) (s : String)
    → ft_gives cid (command s) (ft_takes cid (command s) 0) ≡ left_behind (command s)
unfolding str_eq
command_stays cid s = elim (Bool-cases (str_eq (some s) (some "jft"))) [
  | inl is_jft ↦
      subst (λ z. ft_gives cid (command z) (ft_takes cid (command z) 0) ≡ left_behind (command z))
        (sym (name_of is_jft)) (ground arith)
  | inr other_name ↦ ground arith
]
  where
    name_of : str_eq (some s) (some "jft") ≡ true → s ≡ "jft"
    name_of e = ground (arith, str_eq_iff (some s) (some "jft"))

pub jingle_init_things :
    (a x y : ℕ) (p : Program) (t : Thing)
    → held (other t) (jingle_init a x y p).calls ≡ jingle_takes a x y t (held (other t) p.calls)
unfolding jingle_init jingle_register_lm_handlers jingle_unregister_lm_handlers held
jingle_init_things a x y p t =
    held_if p.connected _ (other t) _ refl ∙ held_if p.connected _ (other t) _ refl

pub ibb_init_things :
    (b u v : ℕ) (p : Program) (t : Thing)
    → held (other t) (jingle_ibb_init b u v p).calls ≡ ibb_takes b u v t (held (other t) p.calls)
unfolding jingle_ibb_init jingle_ibb_register_lm_handlers jingle_ibb_unregister_lm_handlers held
ibb_init_things b u v p t = ap (taken (other t) (takes (other (feature ns_jingle_transport_ibb)))) (
    held_if p.connected (Call.lm_connection_register_message_handler b) (other t) _ refl
    ∙ held_if p.connected (Call.lm_connection_unregister_message_handler b) (other t) _ refl)

pub ft_init_things :
    (cid : ℕ) (p : Program) (t : Thing)
    → held (other t) (jingle_ft_init cid p).calls ≡ ft_takes cid t (held (other t) p.calls)
unfolding jingle_ft_init held
ft_init_things cid p t =
    let has_cid = not (cid == 0) in
    ap (taken (other t) (takes (other (command "jft")))) (
      held_if has_cid (Call.compl_add_category_word cid "flush") (other t) _ refl
      ∙ held_if has_cid (Call.compl_add_category_word cid "info") (other t) _ refl
      ∙ held_if has_cid (Call.compl_add_category_word cid "send") (other t) _ refl)

pub jingle_uninit_things :
    (p : Program) (t : Thing)
    → held (other t) (jingle_uninit p).calls
      ≡ jingle_gives p.jingle_iq_handler p.connect_hid p.disconn_hid t (held (other t) p.calls)
unfolding jingle_uninit jingle_unregister_lm_handlers held
jingle_uninit_things p t =
    held_if (not (p.ack_timeout_checker == 0)) (Call.g_source_destroy p.ack_timeout_checker)
      (other t) _ refl
    ∙ ap (taken (other t) (gives_back (other (reference p.jingle_iq_handler)))) (
        held_if p.connected (Call.lm_connection_unregister_message_handler p.jingle_iq_handler)
          (other t) _ refl)

pub ibb_uninit_things :
    (p : Program) (t : Thing)
    → held (other t) (jingle_ibb_uninit p).calls
      ≡ ibb_gives p.jingle_ibb_handler p.ibb_connect_hid p.ibb_disconn_hid t
          (held (other t) p.calls)
unfolding jingle_ibb_uninit held
ibb_uninit_things p t = refl

pub ft_uninit_things :
    (p : Program) (t : Thing)
    → held (other t) (jingle_ft_uninit p).calls ≡ ft_gives p.jft_cid t (held (other t) p.calls)
unfolding jingle_ft_uninit held
ft_uninit_things p t = ground arith

pub s5b_uninit_things :
    (p : Program) (t : Thing)
    → held (other t) (jingle_socks5_uninit p).calls ≡ s5b_gives t (held (other t) p.calls)
unfolding jingle_socks5_uninit held
s5b_uninit_things p t = refl

module _ (a x y b u v cid : ℕ) where
  pub all_back :
      (t : Thing)
      → jingle_gives a x y t (
          ibb_gives b u v t (
            ft_gives cid t (
              s5b_gives t
                (s5b_takes t (ft_takes cid t (ibb_takes b u v t (jingle_takes a x y t 0)))))))
        ≡ left_behind t
  all_back (reference n) = ground arith
  all_back (hook n) = ground arith
  all_back (category n) = ground arith
  all_back (feature s) = ground arith
  all_back (command s) = command_stays cid s
