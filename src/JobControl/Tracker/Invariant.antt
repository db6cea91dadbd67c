-- ===== src/JobControl/Tracker/Invariant.antt =====
-- internal/jobcontrol: what holds of the slot and the trackers between two steps.
use Prim.Native.String.{String}
use mathlib.Core.Path.{fun_ext}
use hexmagnet.Prelude.{
  ◌≡◌, refl, sym, ◌∙◌, ap, subst, true, false, if◌then◌else◌, Bool-cases, inl, inr, ◌⊎◌, [], ◌∷◌,
  Option, none, some, string_eq, beq_self, insert, delete, arith,
}
use hexmagnet.JobControl.Batch.{BatchProgress, can_resume}
use hexmagnet.JobControl.Tracker.{
  Controller, try_acquire, release, BatchTracker, at_work, works, StartOptions, StartResult,
  started, already_in_progress, another_operation, prepare_failed, new_progress, fresh, choose,
  mark, start,
}
use hexmagnet.JobControl.Tracker.Slot.{Phase, idle, working, System, update, phase_after}

-- A free slot means that nothing is at work; a taken one is one job's, which is the only one that is
-- not idle.
abbrev pub Slots : Controller → (String → Phase) → Type 0
Slots slot phase =
    ((slot ≡ []) × ((j : String) → phase j ≡ idle))
    ⊎ ((k : String) × (slot ≡ (k, tt) ∷ [])
        × (phase k ≡ idle → ⊥)
        × ((j : String) → string_eq.beq k j ≡ false → phase j ≡ idle))

-- A job whose goroutine works has a progress at work, and the other way round.
pub record Fits (j : String) (phase : Phase) (t : BatchTracker) : Type 0 where
  pub named : t.job ≡ j
  pub working_works : phase ≡ working → works t.progress ≡ true
  pub works_working : works t.progress ≡ true → phase ≡ working

pub record Inv (s : System) : Type 0 where
  pub slots : Slots s.slot s.phase
  pub fits : (j : String) → Fits j (s.phase j) (s.trackers j)

-- What holds everywhere, after one tracker and maybe its phase has changed.
pub Fits-update :
    (f : String → Phase) (g : String → BatchTracker) (k : String) (ph : Phase) (t : BatchTracker)
    → Fits k ph t
    → ((j : String) → Fits j (f j) (g j))
    → (j : String) → Fits j (update f k ph j) (update g k t j)
Fits-update f g k ph t h all j = elim (Bool-cases (string_eq.beq k j)) [
  | inl e ↦ rw e (subst (λ i. Fits i ph t) ((string_eq.beq_iff k j).0 e) h)
  | inr e ↦ rw e (all j)
]

pub Fits-update_tracker :
    (f : String → Phase) (g : String → BatchTracker) (k : String) (t : BatchTracker)
    → Fits k (f k) t
    → ((j : String) → Fits j (f j) (g j))
    → (j : String) → Fits j (f j) (update g k t j)
Fits-update_tracker f g k t h all j = elim (Bool-cases (string_eq.beq k j)) [
  | inl e ↦ rw e (subst (λ i. Fits i (f i) t) ((string_eq.beq_iff k j).0 e) h)
  | inr e ↦ rw e (all j)
]

pub Fits-update_phase :
    (f : String → Phase) (g : String → BatchTracker) (k : String) (ph : Phase)
    → Fits k ph (g k)
    → ((j : String) → Fits j (f j) (g j))
    → (j : String) → Fits j (update f k ph j) (g j)
Fits-update_phase f g k ph h all j = elim (Bool-cases (string_eq.beq k j)) [
  | inl e ↦ rw e (subst (λ i. Fits i ph (g i)) ((string_eq.beq_iff k j).0 e) h)
  | inr e ↦ rw e (all j)
]

-- A job that is not idle keeps the slot.
pub Slots-busy :
    (c : Controller) (f : String → Phase) (j : String) (ph : Phase)
    → (f j ≡ idle → ⊥)
    → (ph ≡ idle → ⊥)
    → Slots c f
    → Slots c (update f j ph)
Slots-busy c f j ph h k (inl (e, all)) = absurd (h (all j))
Slots-busy c f j ph h k (inr (i, e, busy, others)) = inr (i, e, still, quiet)
  where
    still : update f j ph i ≡ idle → ⊥
    still = elim (Bool-cases (string_eq.beq j i)) [ inl b ↦ rw b k | inr b ↦ rw b busy ]

    quiet : (o : String) → string_eq.beq i o ≡ false → update f j ph o ≡ idle
    quiet o d = elim (Bool-cases (string_eq.beq j o)) [
      | inl b ↦
          absurd (h (subst (λ x. f x ≡ idle) (sym ((string_eq.beq_iff j o).0 b)) (others o d)))
      | inr b ↦ rw b (others o d)
    ]

pub Slots-release :
    (c : Controller) (f : String → Phase) (j : String)
    → (f j ≡ idle → ⊥)
    → Slots c f
    → Slots (release j c) (update f j idle)
unfolding release delete
Slots-release c f j h (inl (e, all)) = absurd (h (all j))
Slots-release c f j h (inr (i, e, busy, others)) = elim (Bool-cases (string_eq.beq i j)) [
  | inr b ↦ absurd (h (others j b))
  | inl b ↦ inl (ap (delete j) e ∙ rw b refl, quiet b)
]
  where
    quiet : string_eq.beq i j ≡ true → (o : String) → update f j idle o ≡ idle
    quiet b o = elim (Bool-cases (string_eq.beq j o)) [
      | inl d ↦ rw d refl
      | inr d ↦ rw d (others o (ap (λ x. string_eq.beq x o) ((string_eq.beq_iff i j).0 b) ∙ d))
    ]

pub Slots-acquire :
    (f : String → Phase) (j : String) → Slots [] f → Slots ((j, tt) ∷ []) (update f j working)
Slots-acquire f j (inr (i, e, busy, others)) = absurd (clash e)
  where
    clash : ◌≡◌ {A = Controller} [] ((i, tt) ∷ []) → ⊥
    clash e = cc
Slots-acquire f j (inl (e, all)) = inr (j, refl, busy, quiet)
  where
    clash : working ≡ idle → ⊥
    clash e = cc

    busy : update f j working j ≡ idle → ⊥
    busy h = clash (sym (ap (λ b. if b then working else f j) (beq_self j)) ∙ h)

    quiet : (o : String) → string_eq.beq j o ≡ false → update f j working o ≡ idle
    quiet o b = rw b (all o)

-- A start is refused and changes nothing, or it takes a free slot for a progress at work.
unfoldable pub Started : StartOptions → Controller → BatchTracker → Type 0
Started opts c t =
    ((r : StartResult) × (start opts c t ≡ (c, t, r)) × ((now : Phase) → phase_after r now ≡ now))
    ⊎ ((p : BatchProgress) × (c ≡ [])
        × (start opts c t ≡ ((t.job, tt) ∷ [], record t { progress = some p }, started))
        × (at_work p ≡ true))

fresh_undone : (opts : StartOptions) → (p : BatchProgress) → fresh opts ≡ some p → p.done ≡ false
unfolding new_progress
fresh_undone opts p e = ground arith

choose_undone :
    (opts : StartOptions) (o : Option BatchProgress) (p : BatchProgress)
    → choose opts o ≡ some p
    → p.done ≡ false
unfolding choose can_resume new_progress
choose_undone opts none p e = fresh_undone opts p e
choose_undone opts (some q) p e = ground (arith, fresh_undone opts p)

pub start-Started : (opts : StartOptions) (c : Controller) (t : BatchTracker) → Started opts c t
unfolding start try_acquire release delete insert Started
start-Started opts c t = elim (Bool-cases (works t.progress)) [
  | inl w ↦ inl (already_in_progress, rw w refl, λ now. refl)
  | inr w ↦ by_slot c w
]
  where
    chosen :
        works t.progress ≡ false
        → (o : Option BatchProgress) → choose opts t.progress ≡ o
        → Started opts [] t
    chosen w none e = inl (prepare_failed, rw (w, e, beq_self t.job) refl, λ now. refl)
    chosen w (some p) e =
        inr (mark p, refl, rw (w, e) refl, rw (choose_undone opts t.progress p e) refl)

    by_slot : (c : Controller) → works t.progress ≡ false → Started opts c t
    by_slot [] w = chosen w (choose opts t.progress) refl
    by_slot (job ∷ jobs) w = inl (another_operation, rw w refl, λ now. refl)

pub update_same : (f : String → Phase) (k : String) (v : Phase) → v ≡ f k → update f k v ≡ f
update_same f k v e = fun_ext same
  where
    same : (j : String) → update f k v j ≡ f j
    same j = elim (Bool-cases (string_eq.beq k j)) [
      | inl b ↦ rw b (e ∙ ap f ((string_eq.beq_iff k j).0 b))
      | inr b ↦ rw b refl
    ]
