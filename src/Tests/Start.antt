-- ===== src/Tests/Start.antt =====
-- The theorems on the start of the modules, on identifiers and on the roster, applied.
use mcabber_jingle.Base.{
  ℕ, ◌-◌, ◌≤◌, ◌≡◌, refl, ◌≢◌, true, false, Option, none, some, List, [], ◌∷◌, ◌==◌, ◌&&◌, arith,
  if◌then◌else◌, str_eq,
}
use mcabber_jingle.Registry.{jingle_get_appfuncs, jingle_get_transportfuncs}
use mcabber_jingle.Start.{
  Program, HookEvent, post_connect, pre_disconnect, run_hooks, jingle_socks5_init,
}
use mcabber_jingle.Start.Resources.{Thing, iq_handler, other, held}
use mcabber_jingle.Start.Hooks.{start_both, expected_after, run_hooks-Registered}
use mcabber_jingle.Start.Unload.{load, unload, unload-load}
use mcabber_jingle.Start.Balance.{left_behind}
use mcabber_jingle.S5b.Interfaces.{get_all_local_ips}
use mcabber_jingle.Ids.{jingle_generate_sid, gen_ibb_sid, random_str_in}
use mcabber_jingle.S5b.{S5bHost}
use mcabber_jingle.Ids.Drawn.{text_of, ids-Drawn}
use mcabber_jingle.Roster.{Buddies, jingle_find_compatible_res}
use mcabber_jingle.Roster.Compatible.{FoundFor, find_compatible_res-FoundFor}
use mcabber_jingle.Tests.Candidates.{interfaces, s5b_host}

abbrev idle : Program
idle = record {
  connected = false;
  calls = [];
  registry = record { app_handlers = []; transport_handlers = [] };
  jingle_iq_handler = 0;
  connect_hid = 0;
  disconn_hid = 0;
  ack_timeout_checker = 0;
  jingle_ibb_handler = 0;
  ibb_connect_hid = 0;
  ibb_disconn_hid = 0;
  jft_cid = 0;
  local_ips = [];
}

-- A connection is made, is lost, is made again and is to be closed.
abbrev hooks : List HookEvent
hooks =
    HookEvent.event post_connect true
    ∷ HookEvent.event pre_disconnect false
    ∷ HookEvent.event post_connect true
    ∷ []

abbrev iq : ℕ
iq = 5

different : iq ≢ 6
different e = absurd (omega (arith, e))

run_hooks-Registered_example :
    (held (iq_handler iq) (run_hooks hooks (start_both iq 6 different 1 2 3 4 idle)).calls ≡ 1)
    × (held (iq_handler 6) (run_hooks hooks (start_both iq 6 different 1 2 3 4 idle)).calls ≡ 1)
    × (1 ≤ 1)
unfolding held expected_after
run_hooks-Registered_example = run_hooks-Registered iq 6 different 1 2 3 4 hooks idle refl refl

abbrev program_of : Option Program → Program
program_of none = idle
program_of (some p) = p

unfoldable loaded : Program
unfolding jingle_socks5_init get_all_local_ips
loaded = program_of (load 5 1 2 6 3 4 9 (λ a. false) [] false (some interfaces) idle)

unload-load_example :
    ((unload (run_hooks hooks loaded)).registry ≡ idle.registry)
    × ((t : Thing) → held (other t) (unload (run_hooks hooks loaded)).calls ≡ left_behind t)
    × ((n : ℕ)
        → held (iq_handler n) (unload (run_hooks hooks loaded)).calls ≡ (
            if (run_hooks hooks loaded).connected && (n == 5)
            then 0
            else held (iq_handler n) (run_hooks hooks loaded).calls))
unfolding held loaded jingle_socks5_init get_all_local_ips jingle_get_appfuncs
    jingle_get_transportfuncs
unload-load_example =
    unload-load 5 1 2 6 3 4 9 (λ a. false) [] false (some interfaces) hooks idle loaded (λ t. refl)
      refl refl refl refl

-- Each number that is drawn is the last of its range.
abbrev last_drawn : S5bHost
last_drawn = record s5b_host { draw = λ i begin end. end - 1 }

ids-Drawn_example :
    (text_of (jingle_generate_sid (S5bHost.draw last_drawn))
      ≡ some (57 ∷ 57 ∷ 57 ∷ 57 ∷ 57 ∷ 57 ∷ 57 ∷ 57 ∷ 57 ∷ 57 ∷ []))
    × (text_of (gen_ibb_sid (S5bHost.draw last_drawn)) ≡ some [])
    × (text_of (random_str_in (S5bHost.draw last_drawn) 8) ≡ none)
ids-Drawn_example = ids-Drawn last_drawn 8 (λ i. omega arith) (λ i. omega arith)

-- Of two resources, the second has the feature.
abbrev buddies : Buddies
buddies = record {
  buddy_search_jid = λ jid. if str_eq (some jid) (some "you@there") then some 1 else none;
  buddy_getresources = λ usr. "phone" ∷ "home" ∷ [];
  buddy_resource_getcaps = λ usr res. some res;
  caps_has_feature = λ caps n. str_eq caps (some "home");
}

find_compatible_res-FoundFor_example :
    FoundFor buddies ("urn:xmpp:jingle:1" ∷ []) "you@there" (some (some "home"))
unfolding jingle_find_compatible_res str_eq
find_compatible_res-FoundFor_example =
    find_compatible_res-FoundFor buddies "you@there" ("urn:xmpp:jingle:1" ∷ [])
