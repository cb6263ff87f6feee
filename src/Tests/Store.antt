-- ===== src/Tests/Store.antt =====
-- The theorems on the tables, the elements, the sessions and the handles, applied.
use mcabber_jingle.Base.{ℕ, ◌≡◌, refl, ◌↔◌, ◌⊎◌, none, some, [], ◌∷◌, All, arith}
use mcabber_jingle.Stanza.{new_jingle_node, held, node_children}
use mcabber_jingle.Registry.{AppHandlerEntry, jingle_find_app, jingle_transport_for_app, chosen}
use mcabber_jingle.Registry.Best.{ChoiceFor, transport_for_app-ChoiceFor}
use mcabber_jingle.Check.{check_jingle, check_children}
use mcabber_jingle.Check.Element.{IsJingle, IsStored, check_jingle_iff}
use mcabber_jingle.Check.Contents.{ReadAll, Refused, check_children_total}
use mcabber_jingle.Session.{session_free, get_session}
use mcabber_jingle.Session.Links.{FreeOutcome, session_free-FreeOutcome}
use mcabber_jingle.Jingle.{Jingle, JingleAckHandle, on_initiate_ack, on_ibb_ack}
use mcabber_jingle.Ack.{ack_timeout, Run, call_back, jingle_ack_timeout_checker}
use mcabber_jingle.Ack.Timeout.{expire_all, KeepsList, checker-expire_all}
use mcabber_jingle.Ack.Outcome.{ReadsFreed, checker-ReadsFreed}
use mcabber_jingle.Send.{jingle_handle_ack_iq_session, run_callback, jingle_handle_ack_iq_si}
use mcabber_jingle.Send.Callbacks.{
  ack_iq_session-handles, AnswerOutcome, ack_iq_session-AnswerOutcome,
}
use mcabber_jingle.Send.Messages.{IsBound}
use mcabber_jingle.Tests.World.{
  host, registry, ns_file, initiate_node, initiate_iq, session, one, two, busy, handle_of,
}

transport_for_app-ChoiceFor_example :
    ((jingle_find_app (some ns_file) registry ≡ none)
      × (jingle_transport_for_app (some ns_file) none registry ≡ chosen none none))
    ⊎ ((app : AppHandlerEntry) × (jingle_find_app (some ns_file) registry ≡ some app)
        × ChoiceFor app.transtype none registry
            (jingle_transport_for_app (some ns_file) none registry))
transport_for_app-ChoiceFor_example = transport_for_app-ChoiceFor (some ns_file) none registry

check_jingle_iff_example :
    ((check_jingle host initiate_iq initiate_node new_jingle_node none).1 ≡ none
      ↔ IsJingle host initiate_node)
    × (IsJingle host initiate_node
        → IsStored host initiate_node initiate_iq new_jingle_node
            (check_jingle host initiate_iq initiate_node new_jingle_node none).0)
check_jingle_iff_example = check_jingle_iff host initiate_node initiate_iq new_jingle_node

check_children_total_example :
    ReadAll host
      (node_children initiate_node)
      []
      (check_children host (node_children initiate_node) (held []) none)
    ⊎ Refused host
        (node_children initiate_node)
        []
        (check_children host (node_children initiate_node) (held []) none)
check_children_total_example = check_children_total host (node_children initiate_node) [] none

session_free-FreeOutcome_example : FreeOutcome session (session_free session)
session_free-FreeOutcome_example =
    session_free-FreeOutcome session ((λ e. omega (arith, e), tt), (tt, tt))

-- The callbacks of the program; the handle of the stream has no timeout.
abbrev callbacks : Run ℕ
callbacks = run_callback host (λ sc type answer j. some j)

abbrev initiated : JingleAckHandle
initiated = record (handle_of 4 60) { callback = some (on_initiate_ack 5) }

abbrev three_handles : Jingle ℕ
three_handles = record busy {
  ack_handlers =
      record (handle_of 3 0) {
        callback =
            some
              (on_ibb_ack (record { sid = some "s1"; from = some "us@here"; name = some "one" }));
      }
      ∷ initiated
      ∷ handle_of 6 90
      ∷ [];
}

initiated-KeepsList : KeepsList callbacks 100 initiated
unfolding run_callback jingle_handle_ack_iq_si
initiated-KeepsList over j j' e = ack_iq_session-handles host 5 none j j' e

checker-expire_all_example :
    jingle_ack_timeout_checker callbacks three_handles
    ≡ expire_all callbacks 100 three_handles.ack_handlers three_handles
checker-expire_all_example =
    checker-expire_all callbacks three_handles
      (
        (λ over. absurd (ground arith)),
        (initiated-KeepsList, ((λ over. absurd (ground arith)), tt)),
      )
      ((refl, (refl, tt)), ((refl, tt), (tt, tt))) refl

abbrev first_over : Jingle ℕ
first_over = record busy { ack_handlers = initiated ∷ handle_of 6 90 ∷ [] }

checker-ReadsFreed_example :
    ((call_back callbacks (some (on_initiate_ack 5)) ack_timeout none first_over ≡ none)
      ⊎ ReadsFreed callbacks initiated (handle_of 6 90) [] first_over)
    × (jingle_ack_timeout_checker callbacks first_over ≡ none)
checker-ReadsFreed_example =
    checker-ReadsFreed callbacks initiated (handle_of 6 90) [] first_over initiated-KeepsList
      ((refl, tt), (tt, tt)) refl refl

ack_iq_session-AnswerOutcome_example :
    AnswerOutcome host session ack_timeout none busy
      (jingle_handle_ack_iq_session host 0 ack_timeout none busy)
unfolding get_session
ack_iq_session-AnswerOutcome_example =
    ack_iq_session-AnswerOutcome host session ack_timeout none busy refl
      ((λ e. omega (arith, e), tt), (tt, tt))

abbrev bound : All IsBound (one ∷ two ∷ [])
bound = (
  record { app = 1; trans = 2; has_app = refl; has_trans = refl },
  (record { app = 1; trans = 2; has_app = refl; has_trans = refl }, tt),
)
