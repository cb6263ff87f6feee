-- ===== src/Start.antt =====
-- jingle/jingle.c, jingle-ibb/ibb.c, jingle-ft/filetransfer.c and jingle-s5b/s5b.c: how the modules
-- start and end, and the hooks that follow the connection.
--
-- loudmouth, GLib and mcabber are not modelled: `calls` is what they were asked, the latest first.
-- What they answer, a handler or the number of a hook, is an argument. `none` is a fault.
pub mod Resources
pub mod Hooks
pub mod Balance
pub mod Restored
pub mod Unload
use mcabber_jingle.Base.{ℕ, String, Bool, not, Option, some, List, [], ◌∷◌, ◌==◌, if◌then◌else◌}
use mcabber_jingle.Registry.{
  Registry, JingleTransportType, JingleTransportPriority, prio_low, prio_high, streaming,
  jingle_register_app, jingle_register_transport, jingle_unregister_app,
  jingle_unregister_transport,
}
use mcabber_jingle.Ibb.{ns_jingle_transport_ibb}
use mcabber_jingle.Ft.{ns_jingle_app_ft}
use mcabber_jingle.S5b.{LocalIp, ns_jingle_transport_socks5}
use mcabber_jingle.S5b.Interfaces.{Ifaddr, get_all_local_ips}
use mcabber_jingle.Jingle.{ns_jingle, ◌>>=◌}

pub data HookPoint : Type 0 where
  post_connect pre_disconnect : HookPoint

-- A handler, the number of a hook, a category of completions and a source are numbers.
pub data Call : Type 0 where
  lm_message_handler_new lm_message_handler_invalidate lm_message_handler_unref : ℕ → Call
  lm_connection_register_message_handler lm_connection_unregister_message_handler : ℕ → Call
  xmpp_add_feature xmpp_del_feature : String → Call
  hk_add_handler hk_del_handler : HookPoint → ℕ → Call
  compl_new_category compl_del_category : ℕ → Call
  compl_add_category_word : ℕ → String → Call
  cmd_add : String → ℕ → Call
  cmd_del : String → Call
  g_source_destroy : ℕ → Call
  dlopen_gio g_type_init : Call

-- The static variables of the modules. `connected` says that `lconnection` is not NULL.
pub record Program : Type 0 where
  pub connected : Bool
  pub calls : List Call
  pub registry : Registry
  pub jingle_iq_handler : ℕ
  pub connect_hid : ℕ
  pub disconn_hid : ℕ
  pub ack_timeout_checker : ℕ
  pub jingle_ibb_handler : ℕ
  pub ibb_connect_hid : ℕ
  pub ibb_disconn_hid : ℕ
  pub jft_cid : ℕ
  pub local_ips : List LocalIp

abbrev pub call : Call → Program → Program
call c p = record p { calls = c ∷ p.calls }

-- Calls under a condition.
abbrev pub call_if : Bool → Call → Program → Program
call_if b c p = record p { calls = if b then c ∷ p.calls else p.calls }

unfoldable pub jingle_unregister_lm_handlers : Program → Program
jingle_unregister_lm_handlers p =
    call_if p.connected (lm_connection_unregister_message_handler p.jingle_iq_handler) p

unfoldable pub jingle_register_lm_handlers : Program → Program
unfolding jingle_unregister_lm_handlers
jingle_register_lm_handlers p =
    let q = jingle_unregister_lm_handlers p in
    call_if q.connected (lm_connection_register_message_handler q.jingle_iq_handler) q

unfoldable pub jingle_connect_hh : Program → Program
unfolding jingle_register_lm_handlers
jingle_connect_hh p = jingle_register_lm_handlers p

unfoldable pub jingle_disconn_hh : Program → Program
unfolding jingle_unregister_lm_handlers
jingle_disconn_hh p = jingle_unregister_lm_handlers p

-- With the handler and the numbers of the hooks that are answered.
unfoldable pub jingle_init : ℕ → ℕ → ℕ → Program → Program
unfolding jingle_register_lm_handlers
jingle_init handler connect disconn p =
    let made = call (lm_message_handler_new handler) (record p { jingle_iq_handler = handler }) in
    let named = call (xmpp_add_feature ns_jingle) made in
    let first =
      call (hk_add_handler post_connect connect) (record named { connect_hid = connect }) in
    let both =
      call (hk_add_handler pre_disconnect disconn) (record first { disconn_hid = disconn }) in
    jingle_register_lm_handlers both

abbrev destroy_checker : Program → Program
destroy_checker p =
    call_if (not (p.ack_timeout_checker == 0)) (g_source_destroy p.ack_timeout_checker) p

unfoldable pub jingle_uninit : Program → Program
unfolding jingle_unregister_lm_handlers
jingle_uninit p =
    let unnamed = call (xmpp_del_feature ns_jingle) p in
    let one = call (hk_del_handler post_connect p.connect_hid) unnamed in
    let unhooked = call (hk_del_handler pre_disconnect p.disconn_hid) one in
    let gone = jingle_unregister_lm_handlers unhooked in
    destroy_checker (
      call (lm_message_handler_unref p.jingle_iq_handler)
        (call (lm_message_handler_invalidate p.jingle_iq_handler) gone))

unfoldable pub jingle_ibb_unregister_lm_handlers : Program → Program
jingle_ibb_unregister_lm_handlers p =
    call_if p.connected (lm_connection_unregister_message_handler p.jingle_ibb_handler) p

unfoldable pub jingle_ibb_register_lm_handlers : Program → Program
unfolding jingle_ibb_unregister_lm_handlers
jingle_ibb_register_lm_handlers p =
    let q = jingle_ibb_unregister_lm_handlers p in
    call_if q.connected (lm_connection_register_message_handler q.jingle_ibb_handler) q

unfoldable pub jingle_ibb_connect_hh : Program → Program
unfolding jingle_ibb_register_lm_handlers
jingle_ibb_connect_hh p = jingle_ibb_register_lm_handlers p

unfoldable pub jingle_ibb_disconn_hh : Program → Program
unfolding jingle_ibb_unregister_lm_handlers
jingle_ibb_disconn_hh p = jingle_ibb_unregister_lm_handlers p

-- The pointers to the functions of the transports and of the application.
abbrev pub ibb_funcs : ℕ
ibb_funcs = 1

abbrev pub s5b_funcs : ℕ
s5b_funcs = 2

abbrev pub ft_funcs : ℕ
ft_funcs = 3

-- The table of streams is that of Ibb.Receive, empty at first.
unfoldable pub jingle_ibb_init : ℕ → ℕ → ℕ → Program → Program
unfolding jingle_ibb_register_lm_handlers jingle_register_transport
jingle_ibb_init handler connect disconn p =
    let made = call (lm_message_handler_new handler) (record p { jingle_ibb_handler = handler }) in
    let first =
      call (hk_add_handler post_connect connect) (record made { ibb_connect_hid = connect }) in
    let both =
      call (hk_add_handler pre_disconnect disconn) (record first { ibb_disconn_hid = disconn }) in
    let q = jingle_ibb_register_lm_handlers both in
    call (xmpp_add_feature ns_jingle_transport_ibb) (record q {
      registry =
          jingle_register_transport ns_jingle_transport_ibb ibb_funcs streaming prio_low q.registry;
    })

unfoldable pub jingle_ibb_uninit : Program → Program
unfolding jingle_unregister_transport
jingle_ibb_uninit p =
    let invalid = call (lm_message_handler_invalidate p.jingle_ibb_handler) p in
    let one = call (hk_del_handler post_connect p.ibb_connect_hid) invalid in
    let unhooked = call (hk_del_handler pre_disconnect p.ibb_disconn_hid) one in
    let freed = call (lm_message_handler_unref p.jingle_ibb_handler) unhooked in
    let q = call (xmpp_del_feature ns_jingle_transport_ibb) freed in
    record q { registry = jingle_unregister_transport ns_jingle_transport_ibb q.registry }

abbrev add_words : ℕ → Program → Program
add_words cid p =
    let some_cid = not (cid == 0) in
    call_if some_cid (compl_add_category_word cid "flush") (
      call_if some_cid (compl_add_category_word cid "info")
        (call_if some_cid (compl_add_category_word cid "send") p))

-- `compl_new_category` answers a category, or 0 if there is none left.
unfoldable pub jingle_ft_init : ℕ → Program → Program
unfolding jingle_register_app
jingle_ft_init cid p =
    let q = record p {
      registry = jingle_register_app ns_jingle_app_ft ft_funcs streaming p.registry;
    } in
    let named = call (xmpp_add_feature ns_jingle_app_ft) q in
    let new = call (compl_new_category cid) (record named { jft_cid = cid }) in
    call (cmd_add "jft" cid) (add_words cid new)

unfoldable pub jingle_ft_uninit : Program → Program
unfolding jingle_unregister_app
jingle_ft_uninit p =
    let unnamed = call (xmpp_del_feature ns_jingle_app_ft) p in
    let q = record unnamed { registry = jingle_unregister_app ns_jingle_app_ft unnamed.registry } in
    let without = call (cmd_del "file") q in
    call_if (not (without.jft_cid == 0)) (compl_del_category without.jft_cid) without

-- A hook that mcabber runs: a connection was made, or is to be closed, and whether `lconnection` is set
-- then. The handlers of both modules run, in the order in which they were added.
pub data HookEvent : Type 0 where
  event : HookPoint → Bool → HookEvent

unfoldable pub run_hook : HookEvent → Program → Program
unfolding jingle_connect_hh jingle_disconn_hh jingle_ibb_connect_hh jingle_ibb_disconn_hh
run_hook (event post_connect b) p =
    jingle_ibb_connect_hh (jingle_connect_hh (record p { connected = b }))
run_hook (event pre_disconnect b) p =
    jingle_ibb_disconn_hh (jingle_disconn_hh (record p { connected = b }))

unfoldable pub run_hooks : List HookEvent → Program → Program
unfolding run_hook
run_hooks [] p = p
run_hooks (e ∷ es) p = run_hooks es (run_hook e p)

module _ (is_link_local : ℕ → Bool) (ifblacklist : List String) where
  -- With what `getifaddrs` answers, and whether the threads of GLib are initialised.
  unfoldable pub jingle_socks5_init : Bool → Option (List Ifaddr) → Program → Option Program
  unfolding jingle_register_transport get_all_local_ips
  jingle_socks5_init threads ifaddrs p =
      let typed = call_if (not threads) g_type_init (call_if (not threads) dlopen_gio p) in
      let q = record typed {
        registry =
            jingle_register_transport ns_jingle_transport_socks5 s5b_funcs streaming prio_high
              typed.registry;
      } in
      let named = call (xmpp_add_feature ns_jingle_transport_socks5) q in
      do
        ips ← get_all_local_ips is_link_local ifblacklist ifaddrs
        some (record named { local_ips = ips })

-- The list of local addresses is freed; the variable keeps its address.
unfoldable pub jingle_socks5_uninit : Program → Program
unfolding jingle_unregister_transport
jingle_socks5_uninit p =
    let q = call (xmpp_del_feature ns_jingle_transport_socks5) p in
    record q { registry = jingle_unregister_transport ns_jingle_transport_socks5 q.registry }
