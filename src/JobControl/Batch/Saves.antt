-- ===== src/JobControl/Batch/Saves.antt =====
-- internal/jobcontrol/batch.go: what the state that the store has of a run leaves to do.
use mathlib.Core.List.{append_assoc}
use hexmagnet.Prelude.{
  ℕ, suc, ◌+◌, ◌<◌, ◌≡◌, refl, sym, ◌∙◌, ap, Bool, true, false, Bool-cases, inl, inr, List, [], ◌∷◌,
  ◌++◌, Option-cases, none, some, length, arith,
}
use hexmagnet.JobControl.Batch.{
  Row, Timestamptz, BatchProgress, State, state_of, cursor_param, time_to_pgtype, World, rows_after,
  last_saved,
}

-- What is left to do.
abbrev pub pending : World → BatchProgress → List Row
pending w p =
    rows_after w.table p.barrier_time.time (cursor_param p.cursor_created_at) p.cursor_info_hash

-- A time that reads back as it was written.
abbrev pub IsTimed : Timestamptz → Type 0
IsTimed t = time_to_pgtype t.time ≡ t

-- A state in the store is that of a progress of the run: the pages until then and what is pending
-- after it make up what there was to do, and the pages since then are those that are done again.
-- There are none of these if the last save did not fail.
pub record Keeps (w : World) (p : BatchProgress) (visited : List Row) (asked : List State)
    (fails : ℕ → Bool) (n : ℕ) (s : State) : Type 0 where
  pub at : BatchProgress
  pub is_its : s ≡ state_of at
  pub barrier : at.barrier_time ≡ p.barrier_time
  pub timed : IsTimed p.cursor_created_at → IsTimed at.cursor_created_at
  pub kept : List Row
  pub redone : List Row
  pub split : visited ≡ kept ++ redone
  pub all : kept ++ pending w at ≡ pending w p
  pub whole : p.done ≡ false → s.done ≡ true → (pending w at ≡ []) × (redone ≡ [])
  pub exact : (k : ℕ) → suc k ≡ n + length asked → fails k ≡ false → redone ≡ []

Option-clash : {s : State} → none ≡ some s → ⊥
Option-clash e = cc

true-clash : true ≡ false → ⊥
true-clash e = cc

some-inj : {x s : State} → some x ≡ some s → s ≡ x
some-inj e = cc

-- Where nothing is stored, the last save failed.
last_saved-none :
    (fails : ℕ → Bool) (n k : ℕ) (x : State) (xs : List State)
    → last_saved fails n (x ∷ xs) ≡ none
    → suc k ≡ n + length (x ∷ xs)
    → fails k ≡ true
unfolding last_saved
last_saved-none fails n k x [] h e = elim (Bool-cases (fails n)) [
  | inl f ↦ ap fails (same e) ∙ f
  | inr f ↦ absurd (Option-clash {s = x} (sym h ∙ rw f refl))
]
  where
    same : suc k ≡ n + 1 → k ≡ n
    same e = omega (arith, e)
last_saved-none fails n k x (y ∷ ys) h e = elim (Option-cases (last_saved fails (suc n) (y ∷ ys))) [
  | inl f ↦ last_saved-none fails (suc n) k y ys f (omega (arith, e))
  | inr (s, f) ↦ absurd (Option-clash {s = s} (sym h ∙ rw f refl))
]

module _ (w : World) (fails : ℕ → Bool) where
  -- A run that deals with no page and saves once.
  pub ends-Keeps :
      (p q : BatchProgress) (n : ℕ) (s : State)
      → q.barrier_time ≡ p.barrier_time
      → (IsTimed p.cursor_created_at → IsTimed q.cursor_created_at)
      → pending w q ≡ pending w p
      → (q.done ≡ true → pending w q ≡ [])
      → last_saved fails n (state_of q ∷ []) ≡ some s
      → Keeps w p [] (state_of q ∷ []) fails n s
  unfolding last_saved
  ends-Keeps p q n s b t e d h = record {
    at = q;
    is_its = it;
    barrier = b;
    timed = t;
    kept = [];
    redone = [];
    split = refl;
    all = e;
    whole = λ u v. (d (ap (λ (x : State). x.done) (sym it) ∙ v), refl);
    exact = λ k u v. refl;
  }
    where
      it : s ≡ state_of q
      it = elim (Bool-cases (fails n)) [
        | inl f ↦ absurd (Option-clash (rw f at h))
        | inr f ↦ some-inj (rw f at h)
      ]

  -- A page before a run of which all that is said is known.
  pub after_page-Keeps :
      (p p' : BatchProgress) (n : ℕ) (s : State) (page visited : List Row) (asked : List State)
      → p'.barrier_time ≡ p.barrier_time
      → p'.done ≡ p.done
      → IsTimed p'.cursor_created_at
      → page ++ pending w p' ≡ pending w p
      → 0 < length asked
      → ((s : State)
          → last_saved fails (suc n) asked ≡ some s
          → Keeps w p' visited asked fails (suc n) s)
      → last_saved fails n (state_of p' ∷ asked) ≡ some s
      → Keeps w p (page ++ visited) (state_of p' ∷ asked) fails n s
  unfolding last_saved
  after_page-Keeps p p' n s page visited [] b d t e l k h = elim l [ ]
  after_page-Keeps p p' n s page visited (y ∷ ys) b d t e l k h =
      elim (Option-cases (last_saved fails (suc n) (y ∷ ys))) [
        | inr (s', f) ↦ later (k s (f ∙ ap some (sym (some-inj (rw f at h)))))
        | inl f ↦ here f (elim (Bool-cases (fails n)) [
          | inl g ↦ absurd (Option-clash (rw (f, g) at h))
          | inr g ↦ some-inj (rw (f, g) at h)
        ])
      ]
    where
      later :
          Keeps w p' visited (y ∷ ys) fails (suc n) s
          → Keeps w p (page ++ visited) (state_of p' ∷ y ∷ ys) fails n s
      later q = record {
        at = q.at;
        is_its = q.is_its;
        barrier = q.barrier ∙ b;
        timed = λ u. q.timed t;
        kept = page ++ q.kept;
        redone = q.redone;
        split = ap (λ l. page ++ l) q.split ∙ sym (append_assoc page q.kept q.redone);
        all = append_assoc page q.kept (pending w q.at) ∙ (ap (λ l. page ++ l) q.all ∙ e);
        whole = λ u. q.whole (d ∙ u);
        exact = λ k u. q.exact k (omega (arith, u));
      }

      here :
          last_saved fails (suc n) (y ∷ ys) ≡ none
          → s ≡ state_of p'
          → Keeps w p (page ++ visited) (state_of p' ∷ y ∷ ys) fails n s
      here f it = record {
        at = p';
        is_its = it;
        barrier = b;
        timed = λ u. t;
        kept = page;
        redone = visited;
        split = refl;
        all = e;
        whole = λ u v. absurd (true-clash (sym v ∙ (ap (λ (x : State). x.done) it ∙ (d ∙ u))));
        exact = λ k u v.
            absurd
              (true-clash (sym (last_saved-none fails (suc n) k y ys f (omega (arith, u))) ∙ v));
      }
