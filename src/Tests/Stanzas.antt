-- ===== src/Tests/Stanzas.antt =====
-- The theorems on what is done with stanzas, applied.
use mcabber_jingle.Base.{ℕ, suc, String, ◌≡◌, refl, some, [], ◌∷◌, str_eq, arith}
use mcabber_jingle.Registry.{jingle_get_appfuncs, jingle_get_transportfuncs}
use mcabber_jingle.Check.{check_contents, check_content, index_in_array}
use mcabber_jingle.Actions.{jingle_action_from_str}
use mcabber_jingle.Session.{session_find_by_sid, session_new}
use mcabber_jingle.Jingle.{Jingle}
use mcabber_jingle.Handlers.{handle_session_initiate, session_find}
use mcabber_jingle.Handlers.Active.{handle_session_info, handle_session_terminate}
use mcabber_jingle.Handlers.Dispatch.{jingle_handle_iq, remove_message}
use mcabber_jingle.Handlers.Step.{IsConsistent}
use mcabber_jingle.Handlers.Answers.{
  IqOutcome, jingle_handle_iq-IqOutcome, run_iqs, run_iqs-IsConsistent,
}
use mcabber_jingle.Handlers.Faults.{TerminateOutcome, handle_session_terminate-TerminateOutcome}
use mcabber_jingle.Handlers.Stored.{Accepts, stored_contents}
use mcabber_jingle.Handlers.Success.{Offered, handle_session_initiate-Offered}
use mcabber_jingle.Tests.World.{
  host, modules, registry, content_of, initiate_iq, initiate_jn, read_jn, idle, busy, info_iq,
}

-- The modules accept the contents of the stanza.
abbrev accepts : (name : String) → Accepts host modules registry (content_of name)
unfolding jingle_get_appfuncs jingle_get_transportfuncs str_eq
accepts name = record {
  app = 1;
  trans = 2;
  has_app = refl;
  has_trans = refl;
  app_data = λ w. w;
  app_world = suc;
  trans_data = λ w. w;
  trans_world = suc;
  app_made = λ w. refl;
  trans_made = λ w. refl;
}

handle_session_initiate-Offered_example :
    (j' : Jingle ℕ) × (handle_session_initiate host modules initiate_jn idle ≡ some (read_jn, j'))
    × Offered host modules initiate_iq read_jn "them@there" "us@here"
        (stored_contents host modules registry
          (content_of "one" ∷ content_of "two" ∷ [])
          (accepts "one", (accepts "two", tt))
          8
          40)
        idle
        j'
unfolding check_contents session_find session_find_by_sid str_eq check_content index_in_array
handle_session_initiate-Offered_example =
    handle_session_initiate-Offered host modules initiate_iq initiate_jn read_jn "them@there"
      "us@here" (content_of "one") (content_of "two" ∷ []) idle (accepts "one", (accepts "two", tt))
      refl refl refl refl refl refl refl refl ((refl, tt), (tt, tt)) tt

-- What handling the stanza of a session-initiate comes to.
iq_result :
    (j' : Jingle ℕ) × (jingle_handle_iq host modules initiate_iq idle ≡ some (remove_message, j'))
unfolding jingle_handle_iq str_eq jingle_get_appfuncs jingle_get_transportfuncs session_find_by_sid
    jingle_action_from_str handle_session_initiate check_content session_new index_in_array
iq_result = (_, refl)

jingle_handle_iq-IqOutcome_example :
    IqOutcome host modules initiate_iq idle (remove_message, iq_result.0)
jingle_handle_iq-IqOutcome_example =
    jingle_handle_iq-IqOutcome host modules initiate_iq idle (remove_message, iq_result.0)
      iq_result.1

idle-IsConsistent : IsConsistent host idle
idle-IsConsistent = record { keys_distinct = tt; keys_below = tt; contents_below = tt }

busy-IsConsistent : IsConsistent host busy
unfolding str_eq
busy-IsConsistent = record {
  keys_distinct = (((λ e. omega (arith, e), refl), tt), (tt, tt));
  keys_below = (omega arith, (omega arith, tt));
  contents_below =
      ((((λ e. omega (arith, e), tt), (tt, tt)), (omega arith, (omega arith, tt))), ((tt, tt), tt));
}

run_result : (j' : Jingle ℕ) × (run_iqs host modules (initiate_iq ∷ info_iq ∷ []) idle ≡ some j')
unfolding run_iqs jingle_handle_iq str_eq jingle_get_appfuncs jingle_get_transportfuncs
    session_find_by_sid jingle_action_from_str handle_session_initiate check_content session_new
    index_in_array handle_session_info
run_result = (_, refl)

run_iqs-IsConsistent_example : IsConsistent host run_result.0
run_iqs-IsConsistent_example =
    run_iqs-IsConsistent host modules (initiate_iq ∷ info_iq ∷ []) idle run_result.0 run_result.1
      idle-IsConsistent

handle_session_terminate-TerminateOutcome_example :
    TerminateOutcome host modules initiate_iq initiate_jn busy
      (handle_session_terminate host modules initiate_jn busy)
handle_session_terminate-TerminateOutcome_example =
    handle_session_terminate-TerminateOutcome host modules initiate_iq initiate_jn busy refl
      busy-IsConsistent
