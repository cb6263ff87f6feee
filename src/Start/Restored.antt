-- ===== src/Start/Restored.antt =====
-- jingle/register.c, for the modules of jingle-ibb, jingle-ft and jingle-s5b: the registry that their
-- registration and its undoing leave.
use mcabber_jingle.Base.{◌≡◌, refl, ap, ◌∙◌, none, some, str_eq}
use mcabber_jingle.Registry.{
  Registry, jingle_get_appfuncs, jingle_get_transportfuncs, jingle_register_app,
  jingle_register_transport, jingle_unregister_app, jingle_unregister_transport, streaming,
  prio_low, prio_high,
}
use mcabber_jingle.Registry.Lookup.{
  unregister-register, unregister_transport-register, get_transportfuncs-register,
}
use mcabber_jingle.Ibb.{ns_jingle_transport_ibb}
use mcabber_jingle.Ft.{ns_jingle_app_ft}
use mcabber_jingle.S5b.{ns_jingle_transport_socks5}
use mcabber_jingle.Start.{s5b_funcs, ft_funcs, ibb_funcs}

-- The registry with the three modules that register.
abbrev pub registered : Registry → Registry
registered r = jingle_register_transport ns_jingle_transport_socks5 s5b_funcs streaming prio_high (
    jingle_register_app ns_jingle_app_ft ft_funcs streaming
      (jingle_register_transport ns_jingle_transport_ibb ibb_funcs streaming prio_low r))

abbrev pub unregistered : Registry → Registry
unregistered r = jingle_unregister_transport ns_jingle_transport_ibb (
    jingle_unregister_app ns_jingle_app_ft
      (jingle_unregister_transport ns_jingle_transport_socks5 r))

pub registry_restored :
    (r : Registry)
    → jingle_get_appfuncs (some ns_jingle_app_ft) r ≡ none
    → jingle_get_transportfuncs (some ns_jingle_transport_ibb) r ≡ none
    → jingle_get_transportfuncs (some ns_jingle_transport_socks5) r ≡ none
    → unregistered (registered r) ≡ r
unfolding jingle_register_app jingle_get_transportfuncs jingle_get_appfuncs str_eq
    jingle_register_transport
registry_restored r no_ft no_ibb no_s5b =
    let with_ibb =
      jingle_register_transport ns_jingle_transport_ibb ibb_funcs streaming prio_low r in
    let with_ft = jingle_register_app ns_jingle_app_ft ft_funcs streaming with_ibb in
    ap
      (λ z.
        jingle_unregister_transport ns_jingle_transport_ibb
          (jingle_unregister_app ns_jingle_app_ft z))
      (unregister_transport-register ns_jingle_transport_socks5 s5b_funcs streaming prio_high
        with_ft
        (get_transportfuncs-register ns_jingle_transport_ibb ns_jingle_transport_socks5 ibb_funcs
          streaming prio_low r refl no_s5b))
    ∙ ap (jingle_unregister_transport ns_jingle_transport_ibb)
        (unregister-register ns_jingle_app_ft ft_funcs streaming with_ibb no_ft)
    ∙ unregister_transport-register ns_jingle_transport_ibb ibb_funcs streaming prio_low r no_ibb
