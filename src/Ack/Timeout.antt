-- ===== src/Ack/Timeout.antt =====
-- jingle/jingle.c, `jingle_ack_timeout_checker`: what the loop over the links of the list does.
use mcabber_jingle.Base.{
  ℕ, zero, suc, ◌<◌, ◌≡◌, refl, sym, ap, subst, ◌∙◌, ◌⊎◌, inl, inr, true, false, Option, none, some,
  List, [], ◌∷◌, ◌++◌, arith, Bool-cases, Option-cases, find?, remove_first, All, length,
  append_assoc,
}
use mcabber_jingle.Jingle.{Jingle, JingleAckHandle}
use mcabber_jingle.Ack.{
  ack_timeout, Run, handle_has_addr, is_expired, next_link, first_link, or_zero,
  jingle_ack_handler_free, call_back, check_one, check_links, jingle_ack_timeout_checker,
}
use mcabber_jingle.Ack.Links.{
  DistinctHandles, Avoids-prefix, find-link, remove-link, next_link-append, DistinctHandles-without,
}

module _ {W : Type 0} (run : Run W) (now : ℕ) where
  -- What the checker is for: the handles that have waited too long, the oldest first, are called back
  -- and taken out.
  unfoldable pub expire_all : List JingleAckHandle → Jingle W → Option (Jingle W)
  expire_all [] j = some j
  expire_all (h ∷ hs) j = elim (is_expired now h) [
    | false ↦ expire_all hs j
    | true ↦ elim (call_back run h.callback ack_timeout none j) [
      | none ↦ none
      | some j' ↦ expire_all hs (jingle_ack_handler_free h.addr j')
    ]
  ]

  -- If the handle has waited too long, its callback leaves the list of handles as it is, if it returns.
  abbrev pub KeepsList : JingleAckHandle → Type 0
  KeepsList h =
      is_expired now h ≡ true
      → (j j' : Jingle W) → call_back run h.callback ack_timeout none j ≡ some j'
      → j'.ack_handlers ≡ j.ack_handlers

  -- One round at a handle that waits on, and one at a handle that is taken out.
  pub check_one-kept :
      (ps : List JingleAckHandle) (h : JingleAckHandle) (hs : List JingleAckHandle) (prev : ℕ)
      (j : Jingle W)
      → j.ack_handlers ≡ ps ++ h ∷ hs
      → DistinctHandles (ps ++ h ∷ hs)
      → is_expired now h ≡ false
      → check_one run now h.addr prev j ≡ some (j, some h.addr)
  unfolding check_one
  check_one-kept ps h hs prev j e d wait =
      rw (ap (find? (handle_has_addr h.addr)) e ∙ find-link ps h hs (Avoids-prefix ps h hs d), wait)

  pub any_left :
      (ps : List JingleAckHandle) (p : JingleAckHandle) (hs ks : List JingleAckHandle) (prev : ℕ)
      → ks ≡ ps ++ p ∷ hs
      → (elim ks as (λ x. Option ℕ) [ [] ↦ none | h ∷ rest ↦ some prev ]) ≡ some prev
  any_left [] p hs ks prev e = rw e
  any_left (q ∷ ps) p hs ks prev e = rw e

  pub check_one-expired :
      (ps : List JingleAckHandle) (p h : JingleAckHandle) (hs : List JingleAckHandle) (j : Jingle W)
      → KeepsList h
      → j.ack_handlers ≡ (ps ++ p ∷ []) ++ h ∷ hs
      → DistinctHandles ((ps ++ p ∷ []) ++ h ∷ hs)
      → is_expired now h ≡ true
      → ((call_back run h.callback ack_timeout none j ≡ none)
          × (check_one run now h.addr p.addr j ≡ none))
        ⊎ ((j' : Jingle W) × (call_back run h.callback ack_timeout none j ≡ some j')
            × ((jingle_ack_handler_free h.addr j').ack_handlers ≡ ps ++ p ∷ hs)
            × (check_one run now h.addr p.addr j
                ≡ some (jingle_ack_handler_free h.addr j', some p.addr)))
  unfolding check_one jingle_ack_handler_free
  check_one-expired ps p h hs j keeps e d over =
      let before = ps ++ p ∷ [] in
      let avoids = Avoids-prefix before h hs d in
      let found = ap (find? (handle_has_addr h.addr)) e ∙ find-link before h hs avoids in
      elim (Option-cases (call_back run h.callback ack_timeout none j)) [
        | inl fault ↦ inl (fault, rw (found, over, fault))
        | inr (j', called) ↦
            let left =
              ap (remove_first (handle_has_addr h.addr)) (keeps over j j' called ∙ e)
              ∙ remove-link before h hs avoids
              ∙ append_assoc ps (p ∷ []) hs in
            inr (
              j',
              called,
              left,
              rw (found, over, called)
                  (ap (λ o. some (jingle_ack_handler_free h.addr j', o))
                    (any_left ps p hs _ p.addr left)),
            )
      ]

  pub loop_next :
      (fuel el prev el' : ℕ) (next : Option ℕ) (j j' : Jingle W)
      → check_one run now el prev j ≡ some (j', some el')
      → next_link el' j'.ack_handlers ≡ some next
      → check_links run now (suc fuel) (some el) prev j ≡ check_links run now fuel next el' j'
  unfolding check_links
  loop_next fuel el prev el' next j j' round link = ground arith

  pub expire_kept :
      (h : JingleAckHandle) (hs : List JingleAckHandle) (j : Jingle W)
      → is_expired now h ≡ false
      → expire_all (h ∷ hs) j ≡ expire_all hs j
  unfolding expire_all
  expire_kept h hs j wait = rw (wait, expire_all)

  pub expire_over :
      (h : JingleAckHandle) (hs : List JingleAckHandle) (j j' : Jingle W)
      → is_expired now h ≡ true
      → call_back run h.callback ack_timeout none j ≡ some j'
      → expire_all (h ∷ hs) j ≡ expire_all hs (jingle_ack_handler_free h.addr j')
  unfolding expire_all
  expire_over h hs j j' over called = ground arith

  both_fault :
      (fuel prev : ℕ) (h : JingleAckHandle) (hs : List JingleAckHandle) (j : Jingle W)
      → is_expired now h ≡ true
      → call_back run h.callback ack_timeout none j ≡ none
      → check_one run now h.addr prev j ≡ none
      → check_links run now (suc fuel) (some h.addr) prev j ≡ expire_all (h ∷ hs) j
  unfolding check_links expire_all
  both_fault fuel prev h hs j over fault round = ground arith

  -- The loop with links before it: it stands at the first of `hs`, and `p` is the link before.
  check_links-expire_all :
      (hs : List JingleAckHandle) (fuel : ℕ) (ps : List JingleAckHandle) (p : JingleAckHandle)
      (j : Jingle W)
      → All KeepsList hs
      → j.ack_handlers ≡ ps ++ p ∷ hs
      → DistinctHandles (ps ++ p ∷ hs)
      → length hs < fuel
      → check_links run now fuel (first_link hs) p.addr j ≡ expire_all hs j
  unfolding check_links expire_all
  check_links-expire_all hs zero ps p j keeps e d f = ground arith
  check_links-expire_all [] (suc fuel) ps p j keeps e d f = refl
  check_links-expire_all (h ∷ hs) (suc fuel) ps p j keeps e d f =
      let before = append_assoc ps (p ∷ []) (h ∷ hs) in
      let e' = e ∙ sym before in
      let d' = subst DistinctHandles (sym before) d in
      elim (Bool-cases (is_expired now h)) [
        | inr wait ↦
            let round = check_one-kept (ps ++ p ∷ []) h hs p.addr j e' d' wait in
            let next =
              ap (next_link h.addr) e'
              ∙ next_link-append (ps ++ p ∷ []) h hs (Avoids-prefix (ps ++ p ∷ []) h hs d') in
            loop_next fuel h.addr p.addr h.addr _ j j round next
            ∙ check_links-expire_all hs fuel (ps ++ p ∷ []) h j keeps.1 e' d' (omega (arith, f))
            ∙ sym (expire_kept h hs j wait)
        | inl over ↦ elim (check_one-expired ps p h hs j keeps.0 e' d' over) [
          | inl (fault, round) ↦ both_fault fuel p.addr h hs j over fault round
          | inr (j', called, left, round) ↦
              let shorter =
                subst DistinctHandles (append_assoc ps (p ∷ []) hs)
                  (DistinctHandles-without (ps ++ p ∷ []) h hs d') in
              let next =
                ap (next_link p.addr) left
                ∙ next_link-append ps p hs (Avoids-prefix ps p hs shorter) in
              loop_next fuel h.addr p.addr p.addr _ j _ round next
              ∙ check_links-expire_all hs fuel ps p (jingle_ack_handler_free h.addr j') keeps.1 left
                  shorter (omega (arith, f))
              ∙ sym (expire_over h hs j j' over called)
        ]
      ]

module _ {W : Type 0} (run : Run W) where
  -- The first handle waits on, if there is one.
  abbrev pub FirstWaits : ℕ → List JingleAckHandle → Type 0
  FirstWaits now [] = Unit
  FirstWaits now (h ∷ hs) = is_expired now h ≡ false

  from_first :
      (hs : List JingleAckHandle) (j : Jingle W)
      → All (KeepsList run j.now) hs
      → DistinctHandles hs
      → FirstWaits j.now hs
      → j.ack_handlers ≡ hs
      → check_links run j.now (suc (suc (length hs))) (first_link hs) (or_zero (first_link hs)) j
        ≡ expire_all run j.now hs j
  unfolding check_links expire_all
  from_first [] j keeps d wait e = refl
  from_first (h ∷ hs) j keeps d wait e =
      let link = ap (next_link h.addr) e ∙ next_link-append [] h hs tt in
      loop_next run j.now (suc (suc (length hs))) h.addr h.addr h.addr _ j j
        (check_one-kept run j.now [] h hs h.addr j e d wait) link
      ∙ check_links-expire_all run j.now hs (suc (suc (length hs))) [] h j keeps.1 e d (omega arith)
      ∙ sym (expire_kept run j.now h hs j wait)

  -- On handles at distinct addresses of which the first waits on, and of which those that have waited too long have a
  -- callback that leaves the list of handles alone, the checker does what it is for, to the faults of the callbacks: each handle that
  -- has waited too long is called back and taken out, in order, and its fuel is enough.
  pub checker-expire_all :
      (j : Jingle W)
      → All (KeepsList run j.now) j.ack_handlers
      → DistinctHandles j.ack_handlers
      → FirstWaits j.now j.ack_handlers
      → jingle_ack_timeout_checker run j ≡ expire_all run j.now j.ack_handlers j
  unfolding jingle_ack_timeout_checker
  checker-expire_all j keeps d wait = from_first j.ack_handlers j keeps d wait refl
