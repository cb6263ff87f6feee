-- ===== src/Registry/Best.antt =====
-- jingle/register.c: the transport that is chosen for an application.
use mcabber_jingle.Base.{
  ℕ, String, ◌≡◌, refl, ◌≤◌, ◌<◌, ◌⊎◌, inl, inr, false, Option, none, some, List, [], ◌∷◌, ◌++◌, ap,
  sym, subst, ◌∙◌, arith, All, Option-cases,
}
use mcabber_jingle.Registry.{
  JingleTransportType, JingleTransportPriority, Choice, TransportHandlerEntry, Registry, prio_value,
  forbids, consider, choose, jingle_transport_for_app, jingle_find_app, finish_choice, chosen,
  null_deref, AppHandlerEntry,
}

-- A transport may be chosen if it is not forbidden and of the type that the application asks for.
abbrev pub Eligible : JingleTransportType → Option (List String) → TransportHandlerEntry → Type 0
Eligible type forbid t = (forbids forbid t.xmlns ≡ false) × (t.transtype ≡ type)

-- `t` is the first of the eligible transports of greatest priority, above `floor`.
pub record IsBest (type : JingleTransportType) (forbid : Option (List String)) (floor : ℕ)
    (ts : List TransportHandlerEntry) (t : TransportHandlerEntry) : Type 0 where
  pub before : List TransportHandlerEntry
  pub after : List TransportHandlerEntry
  pub place : ts ≡ before ++ t ∷ after
  pub eligible : Eligible type forbid t
  pub above_floor : floor < prio_value t.priority
  pub above_before :
      All (λ u. Eligible type forbid u → prio_value u.priority < prio_value t.priority) before
  pub above_after :
      All (λ u. Eligible type forbid u → prio_value u.priority ≤ prio_value t.priority) after

abbrev Chooses :
    JingleTransportType
    → Option (List String)
    → ℕ
    → List TransportHandlerEntry
    → Option TransportHandlerEntry
    → Option TransportHandlerEntry
    → Type 0
Chooses type forbid floor ts start result =
    ((result ≡ start) × All (λ u. Eligible type forbid u → prio_value u.priority ≤ floor) ts)
    ⊎ ((t : TransportHandlerEntry) × (result ≡ some t) × IsBest type forbid floor ts t)

consider_cases :
    (type : JingleTransportType) (forbid : Option (List String)) (t : TransportHandlerEntry)
    (floor : ℕ) (start : Option TransportHandlerEntry)
    → ((consider type forbid t (floor, start) ≡ (prio_value t.priority, some t))
        × Eligible type forbid t
        × (floor < prio_value t.priority))
      ⊎ ((consider type forbid t (floor, start) ≡ (floor, start))
          × (Eligible type forbid t → prio_value t.priority ≤ floor))
unfolding consider
consider_cases type forbid t floor start = ground arith

IsBest-cons :
    (type : JingleTransportType) (forbid : Option (List String)) (floor prio : ℕ)
    (t u : TransportHandlerEntry) (ts : List TransportHandlerEntry)
    → floor ≤ prio
    → (Eligible type forbid t → prio_value t.priority ≤ prio)
    → IsBest type forbid prio ts u
    → IsBest type forbid floor (t ∷ ts) u
IsBest-cons type forbid floor prio t u ts le low b = record {
  before = t ∷ b.before;
  after = b.after;
  place = ap (◌∷◌ t) b.place;
  eligible = b.eligible;
  above_floor = omega (arith, b.above_floor);
  above_before = ((λ e. omega (arith, b.above_floor, low e)), b.above_before);
  above_after = b.above_after;
}

-- The two ways of a round: `t` becomes the best so far, or not.
module _ (type : JingleTransportType) (forbid : Option (List String)) (floor : ℕ)
    (t : TransportHandlerEntry) (ts : List TransportHandlerEntry)
    (start result : Option TransportHandlerEntry) where
  Chooses-taken :
      Eligible type forbid t
      → floor < prio_value t.priority
      → Chooses type forbid (prio_value t.priority) ts (some t) result
      → Chooses type forbid floor (t ∷ ts) start result
  Chooses-taken fits higher (inl (e, low)) = inr (
    t,
    e,
    record {
      before = [];
      after = ts;
      place = refl;
      eligible = fits;
      above_floor = higher;
      above_before = tt;
      above_after = low;
    },
  )
  Chooses-taken fits higher (inr (u, e, b)) =
      inr (u, e, IsBest-cons type forbid floor _ t u ts (omega arith) (λ _. omega arith) b)

  Chooses-left :
      (Eligible type forbid t → prio_value t.priority ≤ floor)
      → Chooses type forbid floor ts start result
      → Chooses type forbid floor (t ∷ ts) start result
  Chooses-left low (inl (e, rest)) = inl (e, (low, rest))
  Chooses-left low (inr (u, e, b)) =
      inr (u, e, IsBest-cons type forbid floor floor t u ts (omega arith) low b)

choose-Chooses :
    (type : JingleTransportType) (forbid : Option (List String)) (ts : List TransportHandlerEntry)
    (floor : ℕ) (start : Option TransportHandlerEntry)
    → Chooses type forbid floor ts start (choose type forbid ts (floor, start))
unfolding choose
choose-Chooses type forbid [] floor start = inl (refl, tt)
choose-Chooses type forbid (t ∷ ts) floor start = elim (consider_cases type forbid t floor start) [
  | inl (taken, fits, higher) ↦ rw taken (
      Chooses-taken type forbid floor t ts start _ fits higher
        (choose-Chooses type forbid ts (prio_value t.priority) (some t)))
  | inr (left, low) ↦
      rw left (
        Chooses-left type forbid floor t ts start _ low (choose-Chooses type forbid ts floor start))
]

-- No transport is eligible.
abbrev pub NoneEligible : JingleTransportType → Option (List String) → Registry → Type 0
NoneEligible type forbid r = All (λ u. ¬ Eligible type forbid u) r.transport_handlers

-- With no transport, the result is NULL if no list is given, and else a read through NULL.
abbrev pub NothingFor : Option (List String) → Choice → Type 0
NothingFor none result = result ≡ chosen none none
NothingFor (some xs) result = result ≡ null_deref

-- The namespaces that are forbidden from then on, where a list is given.
abbrev pub forbidden_too : String → Option (List String) → Option (List String)
forbidden_too xmlns none = none
forbidden_too xmlns (some xs) = some (xs ++ xmlns ∷ [])

-- What the transport chosen for a registered application is. With no eligible transport the result
-- is NULL, and a read through a NULL pointer if `forbid` is given. Otherwise it is the namespace of
-- the first eligible transport of greatest priority, which is added to the forbidden ones.
abbrev pub ChoiceFor : JingleTransportType → Option (List String) → Registry → Choice → Type 0
ChoiceFor type forbid r result =
    (NoneEligible type forbid r × NothingFor forbid result)
    ⊎ ((t : TransportHandlerEntry) × IsBest type forbid 0 r.transport_handlers t
        × (result ≡ chosen (some t.xmlns) (forbidden_too t.xmlns forbid)))

nothing_lem : (forbid : Option (List String)) → NothingFor forbid (finish_choice none forbid)
unfolding finish_choice
nothing_lem none = refl
nothing_lem (some xs) = refl

best_lem :
    (t : TransportHandlerEntry) (forbid : Option (List String))
    → finish_choice (some t) forbid ≡ chosen (some t.xmlns) (forbidden_too t.xmlns forbid)
unfolding finish_choice
best_lem t none = refl
best_lem t (some xs) = refl

prio_pos : (p : JingleTransportPriority) → 0 < prio_value p
prio_pos p = ground arith

-- Every priority is above 0, so what is not above 0 is not eligible.
not-Eligible :
    (type : JingleTransportType) (forbid : Option (List String)) (ts : List TransportHandlerEntry)
    → All (λ u. Eligible type forbid u → prio_value u.priority ≤ 0) ts
    → All (λ u. ¬ Eligible type forbid u) ts
not-Eligible type forbid [] a = tt
not-Eligible type forbid (t ∷ ts) a =
    ((λ e. absurd (omega (arith, a.0 e, prio_pos t.priority))), not-Eligible type forbid ts a.1)

-- The transport chosen for an application: NULL for an unknown application; for a known one that no
-- eligible transport serves, NULL, or a read through NULL where a list of forbidden transports is
-- given; else the namespace of the first of the eligible transports of greatest priority, which is put last
-- in the list of forbidden ones, where one is given.
pub transport_for_app-ChoiceFor :
    (name : Option String) (forbid : Option (List String)) (r : Registry)
    → ((jingle_find_app name r ≡ none)
        × (jingle_transport_for_app name forbid r ≡ chosen none forbid))
      ⊎ ((app : AppHandlerEntry) × (jingle_find_app name r ≡ some app)
          × ChoiceFor app.transtype forbid r (jingle_transport_for_app name forbid r))
unfolding jingle_transport_for_app
transport_for_app-ChoiceFor name forbid r = elim (Option-cases (jingle_find_app name r)) [
  | inl unknown ↦ inl (unknown, rw (unknown, jingle_transport_for_app))
  | inr (app, known) ↦ inr (
    app,
    known,
    rw (known, jingle_transport_for_app)
        (elim (choose-Chooses app.transtype forbid r.transport_handlers 0 none) [
          | inl (e, low) ↦ inl (
            not-Eligible _ forbid _ low,
            subst (NothingFor forbid) (ap (λ o. finish_choice o forbid) (sym e))
                (nothing_lem forbid),
          )
          | inr (t, e, b) ↦ inr (t, b, ap (λ o. finish_choice o forbid) e ∙ best_lem t forbid)
        ]),
  )
]
