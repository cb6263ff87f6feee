-- ===== src/Start/Unload.antt =====
-- jingle/jingle.c, jingle-ibb/ibb.c, jingle-ft/filetransfer.c and jingle-s5b/s5b.c: what the modules
-- leave behind when they are unloaded.
use mcabber_jingle.Base.{
  ℕ, String, ◌≡◌, refl, ap, ◌∙◌, Bool, not, true, false, Option, none, some, List, [], ◌∷◌, ◌==◌,
  ◌&&◌, arith, if◌then◌else◌, subst,
}
use mcabber_jingle.Registry.{
  Registry, jingle_get_appfuncs, jingle_get_transportfuncs, jingle_register_transport, streaming,
  prio_high,
}
use mcabber_jingle.S5b.Interfaces.{Ifaddr, get_all_local_ips}
use mcabber_jingle.Jingle.{◌>>=◌}
use mcabber_jingle.Ibb.{ns_jingle_transport_ibb}
use mcabber_jingle.Ft.{ns_jingle_app_ft}
use mcabber_jingle.S5b.{LocalIp, ns_jingle_transport_socks5}
use mcabber_jingle.Start.{
  call, call_if, g_type_init, dlopen_gio, xmpp_add_feature, Call, s5b_funcs, Program, HookEvent,
  post_connect, pre_disconnect, run_hook, run_hooks, jingle_connect_hh, jingle_disconn_hh,
  jingle_ibb_connect_hh, jingle_ibb_disconn_hh, jingle_register_lm_handlers,
  jingle_unregister_lm_handlers, jingle_ibb_register_lm_handlers, jingle_ibb_unregister_lm_handlers,
  jingle_init, jingle_uninit, jingle_ibb_init, jingle_ibb_uninit, jingle_ft_init, jingle_ft_uninit,
  jingle_socks5_init, jingle_socks5_uninit,
}
use mcabber_jingle.Start.Resources.{Thing, iq_handler, other, held, held_if, unregistered_if}
use mcabber_jingle.Start.Balance.{
  jingle_takes, ibb_takes, ft_takes, s5b_takes, jingle_gives, ibb_gives, ft_gives, left_behind,
  all_back, jingle_init_things, ibb_init_things, ft_init_things, jingle_uninit_things,
  ibb_uninit_things, ft_uninit_things, s5b_uninit_things,
}
use mcabber_jingle.Start.Restored.{registered, unregistered, registry_restored}

-- The modules are unloaded in the opposite order: each needs the module jingle.
abbrev pub unload : Program → Program
unload p = jingle_uninit (jingle_ibb_uninit (jingle_ft_uninit (jingle_socks5_uninit p)))

-- What an answer gives, where there is one.
result_of {ℓ} :
    {A : Type ℓ} (o : Option A) (f : A → Program) (q : Program)
    → (o >>= λ x. some (f x)) ≡ some q
    → (x : A) × (f x ≡ q)
result_of none f q h = absurd (cc)
result_of (some x) f q h = (x, ground arith)

-- Of the handlers, only that of the module jingle is given back, and only where there is a connection.
unload_handler :
    (q : Program) (n : ℕ)
    → held (iq_handler n) (unload q).calls
      ≡ (if q.connected && (n == q.jingle_iq_handler) then 0 else held (iq_handler n) q.calls)
unfolding jingle_uninit jingle_ibb_uninit jingle_ft_uninit jingle_socks5_uninit
    jingle_unregister_lm_handlers held
unload_handler q n =
    held_if (not (q.ack_timeout_checker == 0)) (Call.g_source_destroy q.ack_timeout_checker)
      (iq_handler n) _ refl
    ∙ unregistered_if q.connected q.jingle_iq_handler n _
    ∙ ap (λ m. if q.connected && (n == q.jingle_iq_handler) then 0 else m)
        (held_if (not (q.jft_cid == 0)) (Call.compl_del_category q.jft_cid) (iq_handler n) _ refl)

module _ (a x y b u v cid : ℕ) where
  -- The modules as they are loaded.
  record IsLoaded (r : Registry) (q : Program) : Type 0 where
    is_iq : q.jingle_iq_handler ≡ a
    is_ibb : q.jingle_ibb_handler ≡ b
    connect : q.connect_hid ≡ x
    disconn : q.disconn_hid ≡ y
    ibb_connect : q.ibb_connect_hid ≡ u
    ibb_disconn : q.ibb_disconn_hid ≡ v
    words : q.jft_cid ≡ cid
    same_registry : q.registry ≡ r
    things :
        (t : Thing)
        → held (other t) q.calls
          ≡ s5b_takes t (ft_takes cid t (ibb_takes b u v t (jingle_takes a x y t 0)))

  IsLoaded-calls :
      (c : Bool) (cs : List Call) (r : Registry) (q : Program)
      → IsLoaded r q
      → ((t : Thing) → held (other t) cs ≡ held (other t) q.calls)
      → IsLoaded r (record q { connected = c; calls = cs })
  IsLoaded-calls c cs r q l kept = record {
    is_iq = l.is_iq;
    is_ibb = l.is_ibb;
    connect = l.connect;
    disconn = l.disconn;
    ibb_connect = l.ibb_connect;
    ibb_disconn = l.ibb_disconn;
    words = l.words;
    same_registry = l.same_registry;
    things = λ t. kept t ∙ l.things t;
  }

  run_hook-IsLoaded :
      (e : HookEvent) (r : Registry) (q : Program) → IsLoaded r q → IsLoaded r (run_hook e q)
  unfolding run_hook jingle_connect_hh jingle_disconn_hh jingle_ibb_connect_hh jingle_ibb_disconn_hh
      jingle_register_lm_handlers jingle_unregister_lm_handlers jingle_ibb_register_lm_handlers
      jingle_ibb_unregister_lm_handlers held
  run_hook-IsLoaded (HookEvent.event post_connect true) r q l =
      IsLoaded-calls true _ r q l (λ t. refl)
  run_hook-IsLoaded (HookEvent.event post_connect false) r q l =
      IsLoaded-calls false _ r q l (λ t. refl)
  run_hook-IsLoaded (HookEvent.event pre_disconnect true) r q l =
      IsLoaded-calls true _ r q l (λ t. refl)
  run_hook-IsLoaded (HookEvent.event pre_disconnect false) r q l =
      IsLoaded-calls false _ r q l (λ t. refl)

  run_hooks-IsLoaded :
      (es : List HookEvent) (r : Registry) (q : Program)
      → IsLoaded r q
      → IsLoaded r (run_hooks es q)
  unfolding run_hooks
  run_hooks-IsLoaded [] r q l = l
  run_hooks-IsLoaded (e ∷ es) r q l =
      run_hooks-IsLoaded es r (run_hook e q) (run_hook-IsLoaded e r q l)

  -- Before the SOCKS5 module.
  abbrev three : Program → Program
  three p = jingle_ft_init cid (jingle_ibb_init b u v (jingle_init a x y p))

  unload_things :
      (q : Program) (r : Registry) (t : Thing)
      → IsLoaded r q
      → held (other t) (unload q).calls ≡ left_behind t
  unfolding jingle_ibb_uninit jingle_ft_uninit jingle_socks5_uninit
  unload_things q r t l =
      let q1 = jingle_socks5_uninit q in
      let q2 = jingle_ft_uninit q1 in
      let q3 = jingle_ibb_uninit q2 in
      jingle_uninit_things q3 t
      ∙ ap (jingle_gives q.jingle_iq_handler q.connect_hid q.disconn_hid t) (
          ibb_uninit_things q2 t
          ∙ ap (ibb_gives q.jingle_ibb_handler q.ibb_connect_hid q.ibb_disconn_hid t)
              (ft_uninit_things q1 t ∙ ap (ft_gives q.jft_cid t) (s5b_uninit_things q t)))
      ∙ rw
          (
            l.is_iq,
            l.is_ibb,
            l.connect,
            l.disconn,
            l.ibb_connect,
            l.ibb_disconn,
            l.words,
            l.things t,
          )
          (all_back a x y b u v cid t)

  -- The SOCKS5 module without its list of addresses.
  abbrev added : Bool → Program → Program
  added threads p =
      let typed = call_if (not threads) g_type_init (call_if (not threads) dlopen_gio p) in
      call (xmpp_add_feature ns_jingle_transport_socks5) (record typed {
        registry =
            jingle_register_transport ns_jingle_transport_socks5 s5b_funcs streaming prio_high
              typed.registry;
      })

  module _ (is_link_local : ℕ → Bool) (ifblacklist : List String) (threads : Bool)
      (ifaddrs : Option (List Ifaddr)) where
    -- The modules are loaded one after the other.
    abbrev pub load : Program → Option Program
    load p = jingle_socks5_init is_link_local ifblacklist threads ifaddrs (three p)

    socks5_init_lem :
        (p q : Program)
        → jingle_socks5_init is_link_local ifblacklist threads ifaddrs p ≡ some q
        → (ips : List LocalIp) × (record (added threads p) { local_ips = ips } ≡ q)
    unfolding jingle_socks5_init
    socks5_init_lem p q done =
        result_of (get_all_local_ips is_link_local ifblacklist ifaddrs)
          (λ ips. record (added threads p) { local_ips = ips }) q done

    load-IsLoaded :
        (p q : Program)
        → ((t : Thing) → held (other t) p.calls ≡ 0)
        → load p ≡ some q
        → IsLoaded (registered p.registry) q
    unfolding held jingle_init jingle_ibb_init jingle_ft_init jingle_register_lm_handlers
        jingle_unregister_lm_handlers jingle_ibb_register_lm_handlers
        jingle_ibb_unregister_lm_handlers
    load-IsLoaded p q none_held loaded =
        let (ips, e) = socks5_init_lem (three p) q loaded in
        subst (IsLoaded (registered p.registry)) e (record {
          is_iq = refl;
          is_ibb = refl;
          connect = refl;
          disconn = refl;
          ibb_connect = refl;
          ibb_disconn = refl;
          words = refl;
          same_registry = refl;
          things = λ t. ap (s5b_takes t) (
              held_if (not threads) g_type_init (other t) _ refl
              ∙ held_if (not threads) dlopen_gio (other t) _ refl
              ∙ ft_init_things cid (jingle_ibb_init b u v (jingle_init a x y p)) t
              ∙ ap (ft_takes cid t) (
                  ibb_init_things b u v (jingle_init a x y p) t
                  ∙ ap (ibb_takes b u v t)
                      (jingle_init_things a x y p t ∙ ap (jingle_takes a x y t) (none_held t))));
        })

    -- The four modules are loaded, into a program that holds nothing yet and with a registry that does not
    -- know their namespaces, connections are made and closed in any order, and the modules are unloaded in the opposite order:
    -- then the registry is what it was, and each reference to a handler, hook, category of completions, feature and
    -- command that was taken is given back, except for the command "jft", which stays; of the handlers registered
    -- at loudmouth, that of the module jingle is given back if there is a connection, and every other one stays.
    pub unload-load :
        (es : List HookEvent) (p q : Program)
        → ((t : Thing) → held (other t) p.calls ≡ 0)
        → jingle_get_appfuncs (some ns_jingle_app_ft) p.registry ≡ none
        → jingle_get_transportfuncs (some ns_jingle_transport_ibb) p.registry ≡ none
        → jingle_get_transportfuncs (some ns_jingle_transport_socks5) p.registry ≡ none
        → load p ≡ some q
        → ((unload (run_hooks es q)).registry ≡ p.registry)
          × ((t : Thing) → held (other t) (unload (run_hooks es q)).calls ≡ left_behind t)
          × ((n : ℕ)
              → held (iq_handler n) (unload (run_hooks es q)).calls ≡ (
                  if (run_hooks es q).connected && (n == a)
                  then 0
                  else held (iq_handler n) (run_hooks es q).calls))
    unfolding jingle_uninit jingle_ibb_uninit jingle_ft_uninit jingle_socks5_uninit
        jingle_unregister_lm_handlers
    unload-load es p q none_held no_ft no_ibb no_s5b loaded =
        let q' = run_hooks es q in
        let l =
          run_hooks-IsLoaded es (registered p.registry) q (load-IsLoaded p q none_held loaded) in
        (
          ap unregistered l.same_registry ∙ registry_restored p.registry no_ft no_ibb no_s5b,
          λ t. unload_things q' _ t l,
          λ n.
              unload_handler q' n
              ∙ ap (λ m. if q'.connected && (n == m) then 0 else held (iq_handler n) q'.calls)
                  l.is_iq,
        )
