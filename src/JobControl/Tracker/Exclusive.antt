-- ===== src/JobControl/Tracker/Exclusive.antt =====
-- internal/jobcontrol: no two jobs are at work.
use Prim.Native.String.{String}
use hexmagnet.Prelude.{
  ◌≡◌, refl, sym, ◌∙◌, ap, subst, Bool, true, false, Bool-cases, inl, inr, [], ◌∷◌, Option, none,
  some, string_eq, arith,
}
use hexmagnet.JobControl.Batch.{BatchProgress, State, World, fail, finish, advance, set_out}
use hexmagnet.JobControl.Tracker.{
  paused, release, at_work, works, running, StartOptions, start, load, discard,
}
use hexmagnet.JobControl.Tracker.Slot.{
  Phase, idle, working, closing, System, update, with_progress, phase_after, after_start, Step,
  starts, sets_out, advances, fails, finishes, releases, discards, loads, initial, Reach, begin,
  next,
}
use hexmagnet.JobControl.Tracker.Invariant.{
  Slots, Fits, Inv, Fits-update, Fits-update_tracker, Fits-update_phase, Slots-busy, Slots-release,
  Slots-acquire, Started, start-Started, update_same,
}

starts-Inv :
    (s : System) (j : String) (opts : StartOptions)
    → Inv s
    → Inv (after_start s j (start opts s.slot (s.trackers j)))
unfolding Started
starts-Inv s j opts inv = elim (start-Started opts s.slot (s.trackers j)) [
  | inl (r, e, same) ↦
      subst (λ x. Inv (after_start s j x)) (sym e)
        (record {
          slots =
              subst (Slots s.slot)
                (sym (update_same s.phase j (phase_after r (s.phase j)) (same (s.phase j))))
                inv.slots;
          fits =
              Fits-update s.phase s.trackers j (phase_after r (s.phase j)) (s.trackers j)
                (subst (λ ph. Fits j ph (s.trackers j)) (sym (same (s.phase j))) (inv.fits j))
                inv.fits;
        })
  | inr (p, free, e, w) ↦
      subst (λ x. Inv (after_start s j x)) (sym e)
        (record {
          slots =
              subst (λ k. Slots ((k, tt) ∷ []) (update s.phase j working)) (sym (inv.fits j).named)
                (Slots-acquire s.phase j (subst (λ c. Slots c s.phase) free inv.slots));
          fits =
              Fits-update s.phase s.trackers j working (record (s.trackers j) { progress = some p })
                (record {
                  named = (inv.fits j).named;
                  working_works = λ h. w;
                  works_working = λ h. refl;
                })
                inv.fits;
        })
]

module _ (s : System) (inv : Inv s) (j : String) where
  busy : (ph : Phase) → (ph ≡ idle → ⊥) → s.phase j ≡ ph → s.phase j ≡ idle → ⊥
  busy ph h e i = h (sym e ∙ i)

  -- A step of the work keeps the job at work.
  works-Inv :
      (p q : BatchProgress)
      → s.phase j ≡ working
      → (s.trackers j).progress ≡ some p
      → at_work q ≡ at_work p
      → Inv (with_progress s j q)
  works-Inv p q h e same = record {
    slots = inv.slots;
    fits =
        Fits-update_tracker s.phase s.trackers j (record (s.trackers j) { progress = some q })
          (record {
            named = (inv.fits j).named;
            working_works = λ k. same ∙ (sym (ap works e) ∙ (inv.fits j).working_works k);
            works_working = λ k. h;
          })
          inv.fits;
  }

  -- The end of the work.
  ends-Inv :
      (q : BatchProgress)
      → s.phase j ≡ working
      → at_work q ≡ false
      → Inv (record (with_progress s j q) { phase = update s.phase j closing })
  ends-Inv q h e = record {
    slots =
        Slots-busy s.slot s.phase j closing (busy working (λ k. apart k) h) (λ k. shut k) inv.slots;
    fits =
        Fits-update s.phase s.trackers j closing (record (s.trackers j) { progress = some q })
          (record {
            named = (inv.fits j).named;
            working_works = λ k. absurd (open_shut k);
            works_working = λ k. absurd (clash (sym e ∙ k));
          })
          inv.fits;
  }
    where
      apart : working ≡ idle → ⊥
      apart k = cc

      shut : closing ≡ idle → ⊥
      shut k = cc

      open_shut : closing ≡ working → ⊥
      open_shut k = cc

      clash : false ≡ true → ⊥
      clash k = cc

  releases-Inv :
      s.phase j ≡ closing
      → Inv (record s { slot = release j s.slot; phase = update s.phase j idle })
  releases-Inv h = record {
    slots = Slots-release s.slot s.phase j (busy closing (λ k. shut k) h) inv.slots;
    fits =
        Fits-update_phase s.phase s.trackers j idle
          (record {
            named = (inv.fits j).named;
            working_works = λ k. absurd (apart k);
            works_working = λ k. absurd (open_shut (sym h ∙ (inv.fits j).works_working k));
          })
          inv.fits;
  }
    where
      apart : idle ≡ working → ⊥
      apart k = cc

      shut : closing ≡ idle → ⊥
      shut k = cc

      open_shut : closing ≡ working → ⊥
      open_shut k = cc

  discards-Inv : Inv (record s { trackers = update s.trackers j (discard (s.trackers j)).0 })
  unfolding discard
  discards-Inv = record {
    slots = inv.slots;
    fits =
        Fits-update_tracker s.phase s.trackers j (discard (s.trackers j)).0
          (discarded (works (s.trackers j).progress) refl) inv.fits;
  }
    where
      clash : false ≡ true → ⊥
      clash k = cc

      discarded :
          (b : Bool)
          → works (s.trackers j).progress ≡ b
          → Fits j (s.phase j) (discard (s.trackers j)).0
      discarded true e = rw (discard, e) (inv.fits j)
      discarded false e =
          rw (discard, e)
            (record {
              named = (inv.fits j).named;
              working_works = λ k. absurd (clash (sym e ∙ (inv.fits j).working_works k));
              works_working = λ k. absurd (clash k);
            })

  loads-Inv :
      (stored : Option State) (fingerprint : String)
      → s.phase j ≡ idle
      → Inv (record s { trackers = update s.trackers j (load stored fingerprint (s.trackers j)) })
  unfolding load
  loads-Inv stored fingerprint h = record {
    slots = inv.slots;
    fits =
        Fits-update_tracker s.phase s.trackers j (load stored fingerprint (s.trackers j))
          (loaded stored) inv.fits;
  }
    where
      apart : idle ≡ working → ⊥
      apart k = cc

      clash : false ≡ true → ⊥
      clash k = cc

      loaded : (stored : Option State) → Fits j (s.phase j) (load stored fingerprint (s.trackers j))
      loaded none = inv.fits j
      loaded (some t) = record {
        named = (inv.fits j).named;
        working_works = λ k. absurd (apart (sym h ∙ k));
        works_working = λ k. absurd (clash k);
      }

at_work-set_out : (w : World) (p : BatchProgress) → at_work (set_out w p) ≡ at_work p
unfolding set_out
at_work-set_out w p = ground arith

at_work-finish : (p : BatchProgress) → at_work (finish p) ≡ false
unfolding finish
at_work-finish p = ground arith

Step-Inv : {s t : System} → Step s t → Inv s → Inv t
unfolding advance fail
Step-Inv (starts s j opts) inv = starts-Inv s j opts inv
Step-Inv (sets_out s j p w h e) inv = works-Inv s inv j p (set_out w p) h e (at_work-set_out w p)
Step-Inv (advances s j p n last h e) inv = works-Inv s inv j p (advance n last p) h e refl
Step-Inv (fails s j p why h e) inv = ends-Inv s inv j (fail why p) h refl
Step-Inv (finishes s j p h e) inv = ends-Inv s inv j (finish p) h (at_work-finish p)
Step-Inv (releases s j h) inv = releases-Inv s inv j h
Step-Inv (discards s j) inv = discards-Inv s inv j
Step-Inv (loads s j stored fingerprint h) inv = loads-Inv s inv j stored fingerprint h

initial-Inv : Inv initial
initial-Inv = record {
  slots = inl (refl, λ j. refl);
  fits = λ j. record {
    named = refl;
    working_works = λ k. absurd (apart k);
    works_working = λ k. absurd (clash k);
  };
}
  where
    apart : idle ≡ working → ⊥
    apart k = cc

    clash : false ≡ true → ⊥
    clash k = cc

Reach-Inv : {s : System} → Reach s → Inv s
Reach-Inv begin = initial-Inv
Reach-Inv (next r st) = Step-Inv st (Reach-Inv r)

-- In every state that jobs with one slot can reach, at most one job is running, and while one is,
-- the slot's controller is paused.
pub running_once :
    (s : System) (i j : String)
    → Reach s
    → running (s.trackers i) ≡ true
    → running (s.trackers j) ≡ true
    → (i ≡ j) × (paused s.slot ≡ true)
unfolding running paused
running_once s i j r hi hj = by_slot (Reach-Inv r).slots
  where
    apart : working ≡ idle → ⊥
    apart k = cc

    at_one :
        (k o : String)
        → running (s.trackers o) ≡ true
        → ((x : String) → string_eq.beq k x ≡ false → s.phase x ≡ idle)
        → k ≡ o
    at_one k o h others = elim (Bool-cases (string_eq.beq k o)) [
      | inl b ↦ (string_eq.beq_iff k o).0 b
      | inr b ↦ absurd (apart (sym (((Reach-Inv r).fits o).works_working h) ∙ others o b))
    ]

    by_slot : Slots s.slot s.phase → (i ≡ j) × (paused s.slot ≡ true)
    by_slot (inl (e, all)) = absurd (apart (sym (((Reach-Inv r).fits i).works_working hi) ∙ all i))
    by_slot (inr (k, e, busy, others)) =
        (sym (at_one k i hi others) ∙ at_one k j hj others, ap paused e)
