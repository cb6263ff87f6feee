-- ===== src/Tests/Offers.antt =====
-- The theorems on sessions that this client offers, applied.
use mcabber_jingle.Base.{ℕ, suc, ◌≡◌, refl, ◌++◌, true, false, none, some, [], ◌∷◌, arith, str_eq}
use mcabber_jingle.Stanza.{Node, session_initiate}
use mcabber_jingle.Registry.{
  jingle_get_appfuncs, jingle_get_transportfuncs, jingle_transport_for_app,
}
use mcabber_jingle.Session.{session_find_by_app}
use mcabber_jingle.Jingle.{Jingle, request, ◌>>=◌}
use mcabber_jingle.Send.{set_attribute, lm_message_from_jinglesession}
use mcabber_jingle.Calls.{App, new_session_with_apps, jingle_handle_app}
use mcabber_jingle.Calls.Offered.{with_transport, offered_app-Sent}
use mcabber_jingle.Ft.{JingleFt, new_jingle_ft, ft_outgoing}
use mcabber_jingle.Ft.Sender.{FtStore}
use mcabber_jingle.Roster.{jingle_find_compatible_res}
use mcabber_jingle.Ft.Commands.{FileAnswers, FtList, new_file, Recipient, jft_send}
use mcabber_jingle.Ft.Offering.{listed, file_app, jft_send-Sent}
use mcabber_jingle.Tests.Files.{ft_host}
use mcabber_jingle.Tests.World.{host, modules, registry, busy, ns_file, ns_ibb}

abbrev file : App
file = record { name = "file"; ns = ns_file; app_data = some 33 }

offered_app-Sent_example :
    let t = with_transport registry 7 (some "us@here") "s9" "them@there" file ns_ibb 2 (some 40) in
    (node : Node) × (j' : Jingle ℕ) × (lm_message_from_jinglesession modules 41 t session_initiate
      ≡ some (some (some "them@there", node)))
    × ((new_session_with_apps (some "us@here") "s9" "them@there" (file ∷ []) busy
          >>= jingle_handle_app host modules true (λ funcs w. (some w, suc w)) "file" ns_file 33)
        ≡ some j')
    × (j'.sent
        ≡ [] ++ request (some "them@there") (set_attribute "initiator" (some "us@here") node) ∷ [])
    × (j'.sessions ≡ busy.sessions ++ t ∷ [])
unfolding str_eq jingle_get_appfuncs jingle_get_transportfuncs jingle_transport_for_app
    session_find_by_app
offered_app-Sent_example =
    offered_app-Sent host modules (λ funcs w. (some w, suc w)) (some "us@here") "s9" "them@there"
      file 33 1 2 ns_ibb busy refl refl refl refl refl (omega arith, (omega arith, tt))

-- Modules that count their calls and keep no file.
abbrev no_files : FtStore ℕ
no_files = record { load = λ p w. none; save = λ p x w. w }

abbrev readable : FileAnswers
readable = record {
  stats = true;
  is_regular = true;
  is_symlink = false;
  st_mtime = 1;
  st_size = 3;
  opens = true;
  encodes = true;
}

abbrev buddy : Recipient
buddy = record {
  current_jid = some "them@there";
  buddies = record {
    buddy_search_jid = λ jid. some 1;
    buddy_getresources = λ usr. "phone" ∷ "home" ∷ [];
    buddy_resource_getcaps = λ usr res. some res;
    caps_has_feature = λ caps n. str_eq caps (some "home");
  };
  full_jid = λ jid ressource. "them@there/home";
}

abbrev no_list : FtList
no_list = record { info_list = []; last_index = 0 }

abbrev opened_file : JingleFt
opened_file = record new_jingle_ft {
  desc = some "a";
  name = some "/home/a";
  dir = ft_outgoing;
  date = 1;
  size = 3;
  outfile = some (record { contents = [] });
}

jft_send-Sent_example :
    let t =
      with_transport registry 9
        (some "us@here")
        "s9"
        "them@there/home"
        (file_app 7)
        ns_ibb
        2
        (some 40) in
    (node : Node) × (j' : Jingle ℕ) × (lm_message_from_jinglesession modules 41 t session_initiate
      ≡ some (some (some "them@there/home", node)))
    × (jft_send host ft_host no_files modules true
          (λ funcs w. (some w, suc w))
          (some "us@here")
          "s9"
          buddy
          (some "a")
          "/home/a"
          readable
          no_list
          busy
        ≡ some (listed no_list 7, j'))
    × (j'.sent
        ≡ []
          ++ request (some "them@there/home") (set_attribute "initiator" (some "us@here") node)
            ∷ [])
    × (j'.sessions ≡ busy.sessions ++ t ∷ [])
unfolding str_eq jingle_get_appfuncs jingle_get_transportfuncs jingle_transport_for_app
    session_find_by_app new_file jingle_find_compatible_res
jft_send-Sent_example =
    jft_send-Sent host ft_host no_files modules (λ funcs w. (some w, suc w)) (some "us@here") "s9"
      buddy "a" "/home/a" readable opened_file no_list "them@there" "home" ns_ibb 1 2 busy refl refl
      refl refl refl refl refl (omega arith, (omega arith, tt))
