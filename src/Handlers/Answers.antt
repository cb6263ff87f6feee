-- ===== src/Handlers/Answers.antt =====
-- jingle/jingle.c, `jingle_handle_iq`: the answers to an IQ, and sequences of IQs.
use mcabber_jingle.Base.{
  String, ◌≡◌, refl, sym, subst, ◌≢◌, ◌⊎◌, inl, inr, false, Option, none, some, List, [], ◌∷◌,
  arith, Bool-cases, Option-cases, str_eq, str_eq_iff, str_eq→eq,
}
use mcabber_jingle.Stanza.{
  Host, Node, Message, LmMessageSubType, sub_set, JingleNode, new_jingle_node, GError, held,
}
use mcabber_jingle.Actions.{
  Handler, on_session_accept, on_session_info, on_session_initiate, on_session_terminate,
  on_transport_info, action_handler,
}
use mcabber_jingle.Check.{check_jingle}
use mcabber_jingle.Check.Element.{check_jingle_iff}
use mcabber_jingle.Jingle.{Jingle, Modules, jingle_send_iq_error, ns_jingle, ◌>>=◌}
use mcabber_jingle.Handlers.Step.{IsConsistent, Step, error-Step}
use mcabber_jingle.Handlers.Initiate.{handle_session_initiate-Step}
use mcabber_jingle.Handlers.Others.{
  handle_session_accept-Step, handle_session_info-Step, handle_transport_info-Step,
}
use mcabber_jingle.Handlers.Terminate.{handle_session_terminate-Step}
use mcabber_jingle.Handlers.Dispatch.{
  LmHandlerResult, allow_more_handlers, remove_message, is_set_iq, jingle_free_jinglenode,
  run_handler, dispatch, jingle_handle_iq,
}

free_lem : {A : Type 0} (jn : JingleNode) (a b : A) → jingle_free_jinglenode jn a ≡ some b → a ≡ b
unfolding jingle_free_jinglenode
free_lem jn a b e = ground arith

module _ (h : Host) {W : Type 0} (m : Modules W) where
  run_handler-Step :
      (f : Handler) (jn jn' : JingleNode) (msg : Message) (j j' : Jingle W)
      → jn.message ≡ some msg
      → jn.content ≡ held []
      → run_handler h m f jn j ≡ some (jn', j')
      → Step h msg j j'
  unfolding run_handler
  run_handler-Step on_session_accept jn jn' msg j j' a b e =
      handle_session_accept-Step h m jn jn' msg j j' a e
  run_handler-Step on_session_info jn jn' msg j j' a b e =
      handle_session_info-Step h m jn jn' msg j j' a e
  run_handler-Step on_session_initiate jn jn' msg j j' a b e =
      handle_session_initiate-Step h m jn jn' msg j j' a e
  run_handler-Step on_session_terminate jn jn' msg j j' a b e =
      handle_session_terminate-Step h m jn jn' msg j j' a e
  run_handler-Step on_transport_info jn jn' msg j j' a b e =
      handle_transport_info-Step h m jn jn' msg j j' a b e

  -- What comes of a stanza that is dispatched.
  abbrev Dispatched : Message → Jingle W → LmHandlerResult × Jingle W → Type 0
  Dispatched msg j r = (r.0 ≡ remove_message) × Step h msg j r.1

  Dispatched-error :
      (msg : Message) (jn : JingleNode) (cond : String) (j : Jingle W)
      (r : LmHandlerResult × Jingle W)
      → jingle_free_jinglenode jn
          (remove_message, jingle_send_iq_error h msg "cancel" (some cond) none j)
        ≡ some r
      → Dispatched msg j r
  Dispatched-error msg jn cond j r e =
      subst (Dispatched msg j) (free_lem jn _ r e)
        (refl, error-Step h msg "cancel" (some cond) none j)

  dispatch-Dispatched :
      (msg : Message) (jn : JingleNode) (err : Option GError) (j : Jingle W)
      (r : LmHandlerResult × Jingle W)
      → (err ≡ none → (jn.message ≡ some msg) × (jn.content ≡ held []))
      → dispatch h m msg (jn, err) j ≡ some r
      → Dispatched msg j r
  unfolding dispatch
  dispatch-Dispatched msg jn (some g) j r stored e = Dispatched-error msg jn "bad-request" j r e
  dispatch-Dispatched msg jn none j r stored e = elim (Option-cases (action_handler jn.action)) [
    | inl no_handler ↦ Dispatched-error msg jn "feature-not-implemented" j r (ground arith)
    | inr (f, has_handler) ↦ elim (Option-cases (run_handler h m f jn j)) [
      | inl fault ↦ absurd (ground arith)
      | inr ((jn', j'), handled) ↦
          subst (Dispatched msg j) (free_lem jn' (remove_message, j') r (ground arith))
            (refl, run_handler-Step f jn jn' msg j j' (stored refl).0 (stored refl).1 handled)
    ]
  ]

  -- The ways in which an IQ is handled: it is no jingle request, and is left to other handlers; its
  -- <jingle> element is of another namespace, and it is taken with no answer; or it is dispatched.
  pub data IqOutcome (msg : Message) (j : Jingle W) (r : LmHandlerResult × Jingle W) : Type 0 where
    passes_on :
        (msg.sub_type ≢ sub_set) ⊎ (Host.get_child h msg.node "jingle" ≡ none)
        → r ≡ (allow_more_handlers, j)
        → IqOutcome msg j r
    swallows :
        (jnode : Node)
        → msg.sub_type ≡ sub_set
        → Host.get_child h msg.node "jingle" ≡ some jnode
        → Host.get_attribute h jnode "xmlns" ≢ some ns_jingle
        → r ≡ (remove_message, j)
        → IqOutcome msg j r
    answers :
        (jnode : Node)
        → msg.sub_type ≡ sub_set
        → Host.get_child h msg.node "jingle" ≡ some jnode
        → Host.get_attribute h jnode "xmlns" ≡ some ns_jingle
        → r.0 ≡ remove_message
        → Step h msg j r.1
        → IqOutcome msg j r

  set_cases : (t : LmMessageSubType) → (t ≡ sub_set) ⊎ ((t ≢ sub_set) × (is_set_iq t ≡ false))
  set_cases sub_set = inl refl
  set_cases _ = inr (λ e. cc, refl)

  -- An IQ that is handled without a fault is passed on untouched, if it is no jingle request; else it
  -- is taken: with no answer if its namespace is another, and otherwise with exactly one answer,
  -- and then the sessions are consistent if they were.
  pub jingle_handle_iq-IqOutcome :
      (msg : Message) (j : Jingle W) (r : LmHandlerResult × Jingle W)
      → jingle_handle_iq h m msg j ≡ some r
      → IqOutcome msg j r
  unfolding jingle_handle_iq
  jingle_handle_iq-IqOutcome msg j r e = elim (set_cases msg.sub_type) [
    | inr (other, not_set) ↦ passes_on (inl other) (ground arith)
    | inl is_set ↦ elim (Option-cases (Host.get_child h msg.node "jingle")) [
      | inl no_child ↦ passes_on (inr no_child) (ground arith)
      | inr (jnode, child) ↦
          elim (Bool-cases (str_eq (Host.get_attribute h jnode "xmlns") (some ns_jingle))) [
            | inr other ↦
                swallows jnode is_set child
                  (λ k.
                    ground
                      (arith, str_eq_iff (Host.get_attribute h jnode "xmlns") (some ns_jingle)))
                  (ground arith)
            | inl same ↦
                let checked = check_jingle h msg jnode new_jingle_node none in
                let (stored, taken) =
                  dispatch-Dispatched msg checked.0 checked.1 j r
                    (λ e'.
                      let st =
                        (check_jingle_iff h jnode msg new_jingle_node).1
                          ((check_jingle_iff h jnode msg new_jingle_node).0.0 e') in
                      (st.from_message, st.content))
                    (ground arith) in
                answers jnode is_set child (str_eq→eq _ _ same) stored taken
          ]
    ]
  ]

  -- The module at work: IQs are handled one after the other, until one faults.
  unfoldable pub run_iqs : List Message → Jingle W → Option (Jingle W)
  run_iqs [] j = some j
  run_iqs (msg ∷ rest) j = jingle_handle_iq h m msg j >>= λ r. run_iqs rest r.1

  outcome-IsConsistent :
      (msg : Message) (j : Jingle W) (r : LmHandlerResult × Jingle W)
      → IqOutcome msg j r
      → IsConsistent h j
      → IsConsistent h r.1
  outcome-IsConsistent msg j r (passes_on other e) c = subst (λ x. IsConsistent h x.1) (sym e) c
  outcome-IsConsistent msg j r (swallows jnode a b d e) c =
      subst (λ x. IsConsistent h x.1) (sym e) c
  outcome-IsConsistent msg j r (answers jnode a b d e s) c = s.consistent c

  -- Any number of IQs that are handled without a fault, whatever they ask and whatever the registered
  -- modules do, leave the sessions consistent if they were.
  pub run_iqs-IsConsistent :
      (msgs : List Message) (j j' : Jingle W)
      → run_iqs msgs j ≡ some j'
      → IsConsistent h j
      → IsConsistent h j'
  unfolding run_iqs
  run_iqs-IsConsistent [] j j' e c = subst (IsConsistent h) (ground arith) c
  run_iqs-IsConsistent (msg ∷ rest) j j' e c = elim (Option-cases (jingle_handle_iq h m msg j)) [
    | inl fault ↦ absurd (ground arith)
    | inr (r, handled) ↦
        run_iqs-IsConsistent rest r.1 j' (ground arith)
          (outcome-IsConsistent msg j r (jingle_handle_iq-IqOutcome msg j r handled) c)
  ]
