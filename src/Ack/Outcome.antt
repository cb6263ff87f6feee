-- ===== src/Ack/Outcome.antt =====
-- jingle/jingle.c, `jingle_ack_timeout_checker`: what it comes to for the list of handles.
use mcabber_jingle.Base.{
  ℕ, suc, ◌≡◌, ap, ◌∙◌, inl, inr, ◌⊎◌, true, none, some, List, [], ◌∷◌, arith, Option-cases, find?,
  remove_first, length,
}
use mcabber_jingle.Jingle.{Jingle, JingleAckHandle}
use mcabber_jingle.Ack.{
  ack_timeout, Run, handle_has_addr, is_expired, next_link, first_link, or_zero,
  jingle_ack_handler_free, call_back, check_one, check_links, jingle_ack_timeout_checker,
}
use mcabber_jingle.Ack.Links.{
  DistinctHandles, find-link, remove-link, next_link_absent, Avoids-DistinctHandles,
}
use mcabber_jingle.Ack.Timeout.{KeepsList, any_left}

module _ {W : Type 0} (run : Run W) where
  check_one-first :
      (h k : JingleAckHandle) (hs : List JingleAckHandle) (j j' : Jingle W)
      → find? (handle_has_addr h.addr) j.ack_handlers ≡ some h
      → is_expired j.now h ≡ true
      → call_back run h.callback ack_timeout none j ≡ some j'
      → (jingle_ack_handler_free h.addr j').ack_handlers ≡ k ∷ hs
      → check_one run j.now h.addr h.addr j ≡ some (jingle_ack_handler_free h.addr j', some h.addr)
  unfolding check_one jingle_ack_handler_free
  check_one-first h k hs j j' found over called left =
      rw (found, over, called)
        (ap (λ o. some (jingle_ack_handler_free h.addr j', o))
          (any_left run j.now [] k hs _ h.addr left))

  loop_faults :
      (fuel el prev el' : ℕ) (j j' : Jingle W)
      → check_one run j.now el prev j ≡ some (j', some el')
      → next_link el' j'.ack_handlers ≡ none
      → check_links run j.now (suc fuel) (some el) prev j ≡ none
  unfolding check_links
  loop_faults fuel el prev el' j j' round link = ground arith

  call_faults :
      (fuel prev : ℕ) (h : JingleAckHandle) (j : Jingle W)
      → find? (handle_has_addr h.addr) j.ack_handlers ≡ some h
      → is_expired j.now h ≡ true
      → call_back run h.callback ack_timeout none j ≡ none
      → check_links run j.now (suc fuel) (some h.addr) prev j ≡ none
  unfolding check_links check_one
  call_faults fuel prev h j found over fault = ground arith

  -- The first round of the loop ends with `el` at the handle that it has freed, which is in no link any more,
  -- and the loop reads the next link there, whatever fuel it has.
  pub record ReadsFreed (h k : JingleAckHandle) (hs : List JingleAckHandle) (j : Jingle W)
      : Type 0 where
    pub called_back : Jingle W
    pub returned : call_back run h.callback ack_timeout none j ≡ some called_back
    pub freed : (jingle_ack_handler_free h.addr called_back).ack_handlers ≡ k ∷ hs
    pub round :
        check_one run j.now h.addr h.addr j
        ≡ some (jingle_ack_handler_free h.addr called_back, some h.addr)
    pub no_link : next_link h.addr (jingle_ack_handler_free h.addr called_back).ack_handlers ≡ none
    pub no_fuel_helps : (fuel : ℕ) → check_links run j.now (suc fuel) (some h.addr) h.addr j ≡ none

  -- If the first of several handles at distinct addresses has waited too long, with a callback that leaves the list
  -- of handles alone if it returns, then that callback faults, or the loop reads the next link from the handle that it has
  -- just freed.
  pub checker-ReadsFreed :
      (h k : JingleAckHandle) (hs : List JingleAckHandle) (j : Jingle W)
      → KeepsList run j.now h
      → DistinctHandles (h ∷ k ∷ hs)
      → j.ack_handlers ≡ h ∷ k ∷ hs
      → is_expired j.now h ≡ true
      → ((call_back run h.callback ack_timeout none j ≡ none) ⊎ ReadsFreed h k hs j)
        × (jingle_ack_timeout_checker run j ≡ none)
  unfolding jingle_ack_handler_free jingle_ack_timeout_checker
  checker-ReadsFreed h k hs j keeps d e over =
      let found = ap (find? (handle_has_addr h.addr)) e ∙ find-link [] h (k ∷ hs) tt in
      let run_with =
        ap
          (λ l.
            check_links run j.now (suc (suc (length l))) (first_link l) (or_zero (first_link l)) j)
          e in
      elim (Option-cases (call_back run h.callback ack_timeout none j)) [
        | inl fault ↦ (
          inl fault,
          run_with ∙ call_faults (suc (length (h ∷ k ∷ hs))) h.addr h j found over fault,
        )
        | inr (j', called) ↦
            let left =
              ap (remove_first (handle_has_addr h.addr)) (keeps over j j' called ∙ e)
              ∙ remove-link [] h (k ∷ hs) tt in
            let round = check_one-first h k hs j j' found over called left in
            let link =
              ap (next_link h.addr) left
              ∙ next_link_absent h.addr (k ∷ hs) (Avoids-DistinctHandles h (k ∷ hs) d.0) in
            (
              inr (record {
                called_back = j';
                returned = called;
                freed = left;
                round = round;
                no_link = link;
                no_fuel_helps = λ fuel. loop_faults fuel h.addr h.addr h.addr j _ round link;
              }),
              run_with
                  ∙ loop_faults (suc (length (h ∷ k ∷ hs))) h.addr h.addr h.addr j _ round link,
            )
      ]
