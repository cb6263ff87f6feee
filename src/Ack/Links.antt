-- ===== src/Ack/Links.antt =====
-- jingle/jingle.c, `ack_handlers`: handles at distinct addresses, and the links between them.
use mcabber_jingle.Base.{
  ℕ, ◌≡◌, refl, false, none, some, List, [], ◌∷◌, ◌++◌, arith, find?, remove_first, All,
}
use mcabber_jingle.Jingle.{JingleAckHandle}
use mcabber_jingle.Ack.{handle_has_addr, next_link, first_link}

-- No handle of the list stands at the address `a`.
abbrev pub Avoids : ℕ → List JingleAckHandle → Type 0
Avoids a hs = All (λ k. handle_has_addr a k ≡ false) hs

-- The handles stand at distinct addresses.
abbrev pub DistinctHandles : List JingleAckHandle → Type 0
DistinctHandles [] = Unit
DistinctHandles (h ∷ hs) = All (λ k. handle_has_addr k.addr h ≡ false) hs × DistinctHandles hs

pub All-middle :
    (P : JingleAckHandle → Type 0) (ps : List JingleAckHandle) (h : JingleAckHandle)
    (hs : List JingleAckHandle)
    → All P (ps ++ h ∷ hs)
    → P h
All-middle P [] h hs a = a.0
All-middle P (p ∷ ps) h hs a = All-middle P ps h hs a.1

pub Avoids-prefix :
    (ps : List JingleAckHandle) (h : JingleAckHandle) (hs : List JingleAckHandle)
    → DistinctHandles (ps ++ h ∷ hs)
    → Avoids h.addr ps
Avoids-prefix [] h hs d = tt
Avoids-prefix (p ∷ ps) h hs d =
    (All-middle (λ k. handle_has_addr k.addr p ≡ false) ps h hs d.0, Avoids-prefix ps h hs d.1)

pub All-without :
    (P : JingleAckHandle → Type 0) (ps : List JingleAckHandle) (h : JingleAckHandle)
    (hs : List JingleAckHandle)
    → All P (ps ++ h ∷ hs)
    → All P (ps ++ hs)
All-without P [] h hs a = a.1
All-without P (p ∷ ps) h hs a = (a.0, All-without P ps h hs a.1)

pub DistinctHandles-without :
    (ps : List JingleAckHandle) (h : JingleAckHandle) (hs : List JingleAckHandle)
    → DistinctHandles (ps ++ h ∷ hs)
    → DistinctHandles (ps ++ hs)
DistinctHandles-without [] h hs d = d.1
DistinctHandles-without (p ∷ ps) h hs d = (
  All-without (λ k. handle_has_addr k.addr p ≡ false) ps h hs d.0,
  DistinctHandles-without ps h hs d.1,
)

pub find-link :
    (ps : List JingleAckHandle) (h : JingleAckHandle) (hs : List JingleAckHandle)
    → Avoids h.addr ps
    → find? (handle_has_addr h.addr) (ps ++ h ∷ hs) ≡ some h
find-link [] h hs d = ground arith
find-link (p ∷ ps) h hs d = ground (arith, find-link ps h hs)

pub remove-link :
    (ps : List JingleAckHandle) (h : JingleAckHandle) (hs : List JingleAckHandle)
    → Avoids h.addr ps
    → remove_first (handle_has_addr h.addr) (ps ++ h ∷ hs) ≡ ps ++ hs
remove-link [] h hs d = ground arith
remove-link (p ∷ ps) h hs d = ground (arith, remove-link ps h hs)

pub next_link-append :
    (ps : List JingleAckHandle) (p : JingleAckHandle) (hs : List JingleAckHandle)
    → Avoids p.addr ps
    → next_link p.addr (ps ++ p ∷ hs) ≡ some (first_link hs)
unfolding next_link
next_link-append [] p [] d = ground arith
next_link-append [] p (h ∷ hs) d = ground arith
next_link-append (q ∷ []) p hs d = ground (arith, next_link-append [] p hs tt)
next_link-append (q ∷ r ∷ ps) p hs d = ground (arith, next_link-append (r ∷ ps) p hs d.1)

pub next_link_absent : (a : ℕ) (hs : List JingleAckHandle) → Avoids a hs → next_link a hs ≡ none
unfolding next_link
next_link_absent a [] d = refl
next_link_absent a (h ∷ []) d = ground arith
next_link_absent a (h ∷ k ∷ hs) d = ground (arith, next_link_absent a (k ∷ hs) d.1)

pub Avoids-DistinctHandles :
    (h : JingleAckHandle) (hs : List JingleAckHandle)
    → All (λ k. handle_has_addr k.addr h ≡ false) hs
    → Avoids h.addr hs
Avoids-DistinctHandles h [] d = tt
Avoids-DistinctHandles h (k ∷ hs) d = (ground arith, Avoids-DistinctHandles h hs d.1)
