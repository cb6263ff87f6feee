-- ===== src/S5b/Attempts.antt =====
-- jingle-s5b/s5b.c: what the attempts to connect to the candidates come to.
use mcabber_jingle.Base.{
  ℕ, ◌≤◌, ◌<◌, ◌≡◌, ◌≢◌, inl, inr, refl, sym, ap, subst, ◌∙◌, Bool, true, false, not, ◌||◌, Option,
  none, some, List, [], ◌∷◌, length, get_elem?, All, arith, ◌==◌, Bool-cases, if◌then◌else◌,
}
use mcabber_jingle.S5b.{JingleS5b, S5bCandidate}
use mcabber_jingle.S5b.Connect.{
  Attempt, connected, failed, io_cancelled, io_failed, other_domain, is_cancelled,
  connect_candidate, find_link, connect_next_candidate, handle_client_connect,
  connect_cancel_timeout, Ending, end_attempt, run_attempts,
}

abbrev pub IsOther : S5bCandidate → S5bCandidate → Type 0
IsOther c d = d.addr ≢ c.addr

abbrev pub DistinctCandidates : List S5bCandidate → Type 0
DistinctCandidates [] = Unit
DistinctCandidates (c ∷ cs) = All (IsOther c) cs × DistinctCandidates cs

All-find_link :
    (P : S5bCandidate → Type 0) (x : ℕ) (cs : List S5bCandidate) → All P cs → All P (find_link x cs)
unfolding find_link
All-find_link P x [] all = tt
All-find_link P x (c ∷ cs) all = elim (Bool-cases (c.addr == x)) [
  | inl hit ↦ rw hit all
  | inr miss ↦ rw miss (All-find_link P x cs all.1)
]

find_here : (c : S5bCandidate) (cs : List S5bCandidate) → find_link c.addr (c ∷ cs) ≡ c ∷ cs
unfolding find_link
find_here c cs = ground arith

-- The link after that of a candidate is that of the next one.
find_next :
    (x : ℕ) (cs : List S5bCandidate) (c d : S5bCandidate) (ds : List S5bCandidate)
    → DistinctCandidates cs
    → find_link x cs ≡ c ∷ d ∷ ds
    → find_link d.addr cs ≡ d ∷ ds
unfolding find_link
find_next x [] c d ds distinct e = cc
find_next x (u ∷ us) c d ds distinct e = elim (Bool-cases (u.addr == x)) [
  | inl hit ↦
      let there : us ≡ d ∷ ds = ground arith in
      let apart = (subst (All (IsOther u)) there distinct.0).0 in
      let skip : (u.addr == d.addr) ≡ false = ground (arith, apart) in
      rw skip (ap (find_link d.addr) there ∙ find_here d ds)
  | inr miss ↦
      let there : find_link x us ≡ c ∷ d ∷ ds = ground arith in
      let apart = (subst (All (IsOther u)) there (All-find_link (IsOther u) x us distinct.0)).1.0 in
      let skip : (u.addr == d.addr) ≡ false = ground (arith, apart) in
      rw skip (find_next x us c d ds distinct.1 there)
]

-- An attempt whose time was over ends as cancelled.
abbrev pub is_proper : Ending → Bool
is_proper (timed_out, conn) = not timed_out || is_cancelled conn

end_attempt_lem :
    (js5b : JingleS5b) (x : ℕ) (e : Ending)
    → end_attempt e (connect_candidate js5b x)
      ≡ (if is_proper e then connect_next_candidate js5b x else none)
unfolding end_attempt handle_client_connect connect_cancel_timeout connect_candidate
    connect_next_candidate
end_attempt_lem js5b x (true, connected c) = refl
end_attempt_lem js5b x (true, failed io_cancelled) = refl
end_attempt_lem js5b x (true, failed io_failed) = refl
end_attempt_lem js5b x (true, failed other_domain) = refl
end_attempt_lem js5b x (false, connected c) = refl
end_attempt_lem js5b x (false, failed io_cancelled) = refl
end_attempt_lem js5b x (false, failed io_failed) = refl
end_attempt_lem js5b x (false, failed other_domain) = refl

next_lem :
    (js5b : JingleS5b) (c d : S5bCandidate) (ds : List S5bCandidate) (x : ℕ)
    → find_link x js5b.candidates ≡ c ∷ d ∷ ds
    → connect_next_candidate js5b x ≡ some (connect_candidate js5b d.addr)
unfolding connect_next_candidate
next_lem js5b c d ds x e = rw (e, connect_next_candidate) refl

last_lem :
    (js5b : JingleS5b) (c : S5bCandidate) (x : ℕ)
    → find_link x js5b.candidates ≡ c ∷ []
    → connect_next_candidate js5b x ≡ none
unfolding connect_next_candidate
last_lem js5b c x e = rw (e, connect_next_candidate) refl

if_none : (b : Bool) {o : Option Attempt} → o ≡ none → (if b then o else none) ≡ none
if_none true e = e
if_none false e = refl

runs_out :
    (js5b : JingleS5b) (es : List Ending) (x : ℕ) (c : S5bCandidate) (cs : List S5bCandidate)
    → DistinctCandidates js5b.candidates
    → find_link x js5b.candidates ≡ c ∷ cs
    → length cs < length es
    → run_attempts es (connect_candidate js5b x) ≡ none
unfolding run_attempts
runs_out js5b [] x c cs distinct at lt = absurd (omega (arith, lt))
runs_out js5b (e ∷ es) x c [] distinct at lt =
    let step : end_attempt e (connect_candidate js5b x) ≡ none =
      end_attempt_lem js5b x e ∙ if_none (is_proper e) (last_lem js5b c x at) in
    rw step refl
runs_out js5b (e ∷ es) x c (d ∷ ds) distinct at lt = elim (Bool-cases (is_proper e)) [
  | inr early ↦
      let step : end_attempt e (connect_candidate js5b x) ≡ none =
        end_attempt_lem js5b x e ∙ rw early refl in
      rw step refl
  | inl proper ↦
      let step : end_attempt e (connect_candidate js5b x) ≡ some (connect_candidate js5b d.addr) =
        end_attempt_lem js5b x e ∙ rw proper (next_lem js5b c d ds x at) in
      rw step (
        runs_out js5b es d.addr d ds distinct (find_next x js5b.candidates c d ds distinct at)
          (omega (arith, lt)))
]

runs_on :
    (js5b : JingleS5b) (es : List Ending) (x : ℕ) (c : S5bCandidate) (cs : List S5bCandidate)
    → DistinctCandidates js5b.candidates
    → c.addr ≡ x
    → find_link x js5b.candidates ≡ c ∷ cs
    → All (λ e. is_proper e ≡ true) es
    → length es ≤ length cs
    → (d : S5bCandidate) × (get_elem? (c ∷ cs) (length es) ≡ some d)
      × (run_attempts es (connect_candidate js5b x) ≡ some (connect_candidate js5b d.addr))
unfolding run_attempts
runs_on js5b [] x c cs distinct own at proper le =
    (c, refl, ap (λ y. some (connect_candidate js5b y)) (sym own))
runs_on js5b (e ∷ es) x c [] distinct own at proper le = absurd (omega (arith, le))
runs_on js5b (e ∷ es) x c (d ∷ ds) distinct own at proper le =
    let (d', found, ran) =
      runs_on js5b es d.addr d ds distinct refl (find_next x js5b.candidates c d ds distinct at)
        proper.1 (omega (arith, le)) in
    let step : end_attempt e (connect_candidate js5b x) ≡ some (connect_candidate js5b d.addr) =
      end_attempt_lem js5b x e ∙ rw proper.0 (next_lem js5b c d ds x at) in
    (d', found, rw step ran)

-- The module leaves the list of candidates empty; this is what its attempts come to where the list is not. From the first
-- of some candidates with distinct addresses on: as long as no more attempts have ended than there are
-- other candidates, each as cancelled if its time was over, the next candidate is tried, and no connection is ever kept,
-- not even one that was made; and once all candidates were tried, however the attempts ended, the last
-- link's successor is read through NULL, or an array that was freed before.
pub run_attempts-Fails :
    (js5b : JingleS5b) (c : S5bCandidate) (cs : List S5bCandidate) (es : List Ending)
    → js5b.candidates ≡ c ∷ cs
    → DistinctCandidates js5b.candidates
    → (length cs < length es → run_attempts es (connect_candidate js5b c.addr) ≡ none)
      × (All (λ e. is_proper e ≡ true) es
          → length es ≤ length cs
          → (d : S5bCandidate) × (get_elem? (c ∷ cs) (length es) ≡ some d)
            × (run_attempts es (connect_candidate js5b c.addr)
                ≡ some (connect_candidate js5b d.addr))
            × (JingleS5b.connection (Attempt.js5b (connect_candidate js5b d.addr))
                ≡ js5b.connection))
unfolding connect_candidate
run_attempts-Fails js5b c cs es same distinct =
    let at : find_link c.addr js5b.candidates ≡ c ∷ cs =
      ap (find_link c.addr) same ∙ find_here c cs in
    (
      λ lt. runs_out js5b es c.addr c cs distinct at lt,
      λ proper le.
          let (d, found, ran) = runs_on js5b es c.addr c cs distinct refl at proper le in
          (d, found, ran, refl),
    )
