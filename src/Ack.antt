-- ===== src/Ack.antt =====
-- jingle/jingle.c: the handlers that wait for the answer to an IQ, and the check for those that have
-- waited too long.
--
-- The callbacks are an argument, `run`: `Send` has two of them. A link of the list `ack_handlers` is
-- named by the address of the handle in it.
pub mod Links
pub mod Timeout
pub mod Outcome
use mcabber_jingle.Base.{
  ℕ, zero, suc, ◌+◌, Bool, true, false, Option, none, some, List, [], ◌∷◌, ◌++◌, ◌&&◌, not, ◌==◌,
  leb, if◌then◌else◌, find?, remove_first, length,
}
use mcabber_jingle.Stanza.{Message}
use mcabber_jingle.Jingle.{Jingle, JingleAckHandle, AckCallback, ◌>>=◌}

pub data JingleAckType : Type 0 where
  ack_response ack_timeout : JingleAckType

-- A callback: why it is called, and the answer, NULL if there is none.
abbrev pub Run : Type 0 → Type 0
Run W = AckCallback → JingleAckType → Option Message → Jingle W → Option (Jingle W)

abbrev pub handle_has_addr : ℕ → JingleAckHandle → Bool
handle_has_addr a h = h.addr == a

-- Whether the checker takes a handle out: a timeout of 0 never ends.
abbrev pub is_expired : ℕ → JingleAckHandle → Bool
is_expired now ah = not (ah.timeout == 0) && leb (ah.inserted + ah.timeout) now

-- The link after the one of address `a`, itself NULL at the end of the list; `none` if that link
-- is not in the list.
unfoldable pub next_link : ℕ → List JingleAckHandle → Option (Option ℕ)
next_link a [] = none
next_link a (h ∷ []) = if h.addr == a then some none else none
next_link a (h ∷ k ∷ hs) = if h.addr == a then some (some k.addr) else next_link a (k ∷ hs)

abbrev pub first_link : List JingleAckHandle → Option ℕ
first_link [] = none
first_link (h ∷ hs) = some h.addr

abbrev pub or_zero : Option ℕ → ℕ
or_zero none = 0
or_zero (some n) = n

module _ {W : Type 0} where
  -- `jingle_new_ack_handler` on a new handle with this callback and timeout.
  unfoldable pub jingle_new_ack_handler : Option AckCallback → ℕ → Jingle W → Jingle W
  jingle_new_ack_handler callback timeout j = record j {
    fresh = suc j.fresh;
    ack_handlers =
        j.ack_handlers
        ++ record { addr = j.fresh; callback = callback; timeout = timeout; inserted = j.now } ∷ [];
  }

  unfoldable pub jingle_ack_handler_free : ℕ → Jingle W → Jingle W
  jingle_ack_handler_free a j = record j {
    ack_handlers = remove_first (handle_has_addr a) j.ack_handlers;
  }

  abbrev pub call_back :
      Run W → Option AckCallback → JingleAckType → Option Message → Jingle W → Option (Jingle W)
  call_back run none type m j = some j
  call_back run (some c) type m j = run c type m j

  -- `jingle_handle_ack_iq`: the answer to an IQ goes to the callback of its handle.
  unfoldable pub jingle_handle_ack_iq : Run W → ℕ → Message → Jingle W → Option (Jingle W)
  unfolding jingle_ack_handler_free
  jingle_handle_ack_iq run a m j = do
    ah ← find? (handle_has_addr a) j.ack_handlers
    j' ← call_back run ah.callback ack_response (some m) j
    some (jingle_ack_handler_free a j')

  -- The body of the loop up to `prev = el`: the state, and `el`; `none` there is the `break`.
  unfoldable pub check_one : Run W → ℕ → ℕ → ℕ → Jingle W → Option (Jingle W × Option ℕ)
  unfolding jingle_ack_handler_free
  check_one run now el prev j = do
    ah ← find? (handle_has_addr el) j.ack_handlers
    if is_expired now ah
        then (do
          j' ← call_back run ah.callback ack_timeout none j
          let j'' = jingle_ack_handler_free el j'
          some (j'', elim j''.ack_handlers [ [] ↦ none | h ∷ hs ↦ some prev ]))
        else some (j, some el)

  -- The loop, with `fuel` bounding its rounds; `none` is a fault, or that the fuel ran out.
  unfoldable pub check_links : Run W → ℕ → ℕ → Option ℕ → ℕ → Jingle W → Option (Jingle W)
  unfolding check_one next_link
  check_links run now zero el prev j = none
  check_links run now (suc fuel) none prev j = some j
  check_links run now (suc fuel) (some el) prev j = elim (check_one run now el prev j) [
    | none ↦ none
    | some (j', stop) ↦ elim stop [
      | none ↦ some j'
      | some el' ↦ elim (next_link el' j'.ack_handlers) [
        | none ↦ none
        | some next ↦ check_links run now fuel next el' j'
      ]
    ]
  ]

  unfoldable pub jingle_ack_timeout_checker : Run W → Jingle W → Option (Jingle W)
  unfolding check_links
  jingle_ack_timeout_checker run j =
      check_links run j.now (suc (suc (length j.ack_handlers))) (first_link j.ack_handlers)
        (or_zero (first_link j.ack_handlers)) j
