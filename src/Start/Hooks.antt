-- ===== src/Start/Hooks.antt =====
-- jingle/jingle.c and jingle-ibb/ibb.c: the handlers that loudmouth has after any connections.
use mcabber_jingle.Base.{ℕ, ◌≤◌, ◌≡◌, ◌≢◌, refl, Bool, true, false, List, [], ◌∷◌, arith, subst}
use mcabber_jingle.Start.{
  jingle_init, jingle_ibb_init, jingle_connect_hh, jingle_disconn_hh, jingle_ibb_connect_hh,
  jingle_ibb_disconn_hh, jingle_register_lm_handlers, jingle_unregister_lm_handlers,
  jingle_ibb_register_lm_handlers, jingle_ibb_unregister_lm_handlers, post_connect, pre_disconnect,
  Program, HookEvent, run_hook, run_hooks,
}
use mcabber_jingle.Start.Resources.{iq_handler, held}

-- How often a handler should be registered after an event, and after several.
abbrev pub expected : HookEvent → ℕ → ℕ
expected (HookEvent.event post_connect true) n = 1
expected (HookEvent.event pre_disconnect true) n = 0
expected (HookEvent.event _ false) n = n

unfoldable pub expected_after : List HookEvent → ℕ → ℕ
expected_after [] n = n
expected_after (e ∷ es) n = expected_after es (expected e n)

module _ (a b : ℕ) (different : a ≢ b) where
  -- The two handlers are made, and are registered `m` and `n` times.
  pub record IsRegistered (m n : ℕ) (p : Program) : Type 0 where
    pub is_iq : p.jingle_iq_handler ≡ a
    pub is_ibb : p.jingle_ibb_handler ≡ b
    pub iq_held : held (iq_handler a) p.calls ≡ m
    pub ibb_held : held (iq_handler b) p.calls ≡ n

  run_hook-IsRegistered :
      (e : HookEvent) (m n : ℕ) (p : Program)
      → IsRegistered m n p
      → IsRegistered (expected e m) (expected e n) (run_hook e p)
  unfolding run_hook jingle_connect_hh jingle_disconn_hh jingle_ibb_connect_hh jingle_ibb_disconn_hh
      jingle_register_lm_handlers jingle_unregister_lm_handlers jingle_ibb_register_lm_handlers
      jingle_ibb_unregister_lm_handlers held
  run_hook-IsRegistered (HookEvent.event post_connect true) m n p r = record {
    is_iq = r.is_iq;
    is_ibb = r.is_ibb;
    iq_held = ground arith;
    ibb_held = ground arith;
  }
  run_hook-IsRegistered (HookEvent.event post_connect false) m n p r = record {
    is_iq = r.is_iq;
    is_ibb = r.is_ibb;
    iq_held = r.iq_held;
    ibb_held = r.ibb_held;
  }
  run_hook-IsRegistered (HookEvent.event pre_disconnect true) m n p r = record {
    is_iq = r.is_iq;
    is_ibb = r.is_ibb;
    iq_held = ground arith;
    ibb_held = ground arith;
  }
  run_hook-IsRegistered (HookEvent.event pre_disconnect false) m n p r = record {
    is_iq = r.is_iq;
    is_ibb = r.is_ibb;
    iq_held = r.iq_held;
    ibb_held = r.ibb_held;
  }

  run_hooks-IsRegistered :
      (es : List HookEvent) (m n : ℕ) (p : Program)
      → IsRegistered m n p
      → IsRegistered (expected_after es m) (expected_after es n) (run_hooks es p)
  unfolding run_hooks expected_after
  run_hooks-IsRegistered [] m n p r = r
  run_hooks-IsRegistered (e ∷ es) m n p r =
      run_hooks-IsRegistered es (expected e m) (expected e n) (run_hook e p)
        (run_hook-IsRegistered e m n p r)

-- A handler that is expected once or never stays so.
expected_after-bounded : (es : List HookEvent) (n : ℕ) → n ≤ 1 → expected_after es n ≤ 1
unfolding expected_after
expected_after-bounded [] n l = l
expected_after-bounded (e ∷ es) n l = expected_after-bounded es (expected e n) (bounded e n l)
  where
    bounded : (e : HookEvent) (n : ℕ) → n ≤ 1 → expected e n ≤ 1
    bounded (HookEvent.event post_connect true) n l = omega arith
    bounded (HookEvent.event post_connect false) n l = l
    bounded (HookEvent.event pre_disconnect true) n l = omega arith
    bounded (HookEvent.event pre_disconnect false) n l = l

module _ (a b : ℕ) (different : a ≢ b) (x y u v : ℕ) where
  -- The start of the two modules with a handler.
  abbrev pub start_both : Program → Program
  start_both p = jingle_ibb_init b u v (jingle_init a x y p)

  -- The handler that a start registers, on each value of `lconnection`.
  jingle_init_lem :
      (c : Bool) (p : Program)
      → held (iq_handler a) p.calls ≡ 0
      → held (iq_handler b) p.calls ≡ 0
      → let q = jingle_init a x y (record p { connected = c }) in
        (q.connected ≡ c)
        × (q.jingle_iq_handler ≡ a)
        × (held (iq_handler a) q.calls ≡ expected (HookEvent.event post_connect c) 0)
        × (held (iq_handler b) q.calls ≡ 0)
  unfolding jingle_init jingle_register_lm_handlers jingle_unregister_lm_handlers held
  jingle_init_lem true p none_a none_b = (refl, refl, ground arith, ground arith)
  jingle_init_lem false p none_a none_b = (refl, refl, none_a, none_b)

  jingle_ibb_init_lem :
      (c : Bool) (n : ℕ) (p : Program)
      → p.jingle_iq_handler ≡ a
      → held (iq_handler a) p.calls ≡ n
      → held (iq_handler b) p.calls ≡ 0
      → IsRegistered a b different n
          (expected (HookEvent.event post_connect c) 0)
          (jingle_ibb_init b u v (record p { connected = c }))
  unfolding jingle_ibb_init jingle_ibb_register_lm_handlers jingle_ibb_unregister_lm_handlers held
  jingle_ibb_init_lem true n p is_a held_a held_b = record {
    is_iq = is_a;
    is_ibb = refl;
    iq_held = ground arith;
    ibb_held = ground arith;
  }
  jingle_ibb_init_lem false n p is_a held_a held_b = record {
    is_iq = is_a;
    is_ibb = refl;
    iq_held = held_a;
    ibb_held = held_b;
  }

  init-IsRegistered :
      (p : Program)
      → held (iq_handler a) p.calls ≡ 0
      → held (iq_handler b) p.calls ≡ 0
      → let n = expected (HookEvent.event post_connect p.connected) 0 in
        IsRegistered a b different n n (start_both p)
  init-IsRegistered p none_a none_b =
      let q = jingle_init a x y p in
      let (same, is_a, held_a, held_b) = jingle_init_lem p.connected p none_a none_b in
      subst
        (λ c.
          IsRegistered a b different (expected (HookEvent.event post_connect p.connected) 0)
            (expected (HookEvent.event post_connect c) 0) (start_both p))
        same (jingle_ibb_init_lem q.connected _ q is_a held_a held_b)

  -- From the start of the jingle and the IBB module on, after any sequence of connections made and closed, the
  -- IQ handler of each is registered at loudmouth as often as the last of these events at which there was a
  -- connection says, the start included: once if it was made, never if it is to be closed. So none is ever registered twice.
  pub run_hooks-Registered :
      (es : List HookEvent) (p : Program)
      → held (iq_handler a) p.calls ≡ 0
      → held (iq_handler b) p.calls ≡ 0
      → let n = expected_after (HookEvent.event post_connect p.connected ∷ es) 0 in
        (held (iq_handler a) (run_hooks es (start_both p)).calls ≡ n)
        × (held (iq_handler b) (run_hooks es (start_both p)).calls ≡ n)
        × (n ≤ 1)
  unfolding expected_after
  run_hooks-Registered es p none_a none_b =
      let first = HookEvent.event post_connect p.connected in
      let n = expected first 0 in
      let r =
        run_hooks-IsRegistered a b different es n n (start_both p)
          (init-IsRegistered p none_a none_b) in
      (r.iq_held, r.ibb_held, expected_after-bounded (first ∷ es) 0 (omega arith))
