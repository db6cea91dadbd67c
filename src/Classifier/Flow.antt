-- ===== src/Classifier/Flow.antt =====
-- internal/classifier: which action of `find_match` counts, and workflows that call one another.
use Prim.Native.String.{String}
use hexmagnet.Prelude.{
  ℕ, zero, suc, ◌≡◌, ◌⊎◌, inl, inr, refl, ap, ◌∙◌, Bool, true, false, if◌then◌else◌, Bool-cases,
  List, ◌∷◌, none, some, lookup, string_eq,
}
use hexmagnet.Classifier.{
  ClassificationResult, Outcome, returned, failed, panics, Action, Actions, block, find_match,
  run_workflow, is_unmatched, runtime_error, Flags, Env, Run, or_run, run_names, run_action,
  run_all, run_first, Workflows, call_found, call, run_found, run, empty_result,
}

abbrev pub append : Actions → Actions → Actions
append Actions.end bs = bs
append (Actions.more a rest) bs = Actions.more a (append rest bs)

-- What an action counts for: an unmatched error does not count.
abbrev pub counts : Outcome ClassificationResult → Bool
counts (returned cl) = true
counts (failed e) = if is_unmatched e then false else true
counts panics = true

abbrev pub at_path : List String → Outcome ClassificationResult → Outcome ClassificationResult
at_path path (returned cl) = returned cl
at_path path (failed e) = failed (runtime_error path e)
at_path path panics = panics

module _ (env : Env) (flags : Flags) (g : String → ClassificationResult → Run) where
  -- Every action fails with an unmatched error.
  abbrev pub AllUnmatched : Actions → ClassificationResult → Type 0
  AllUnmatched Actions.end cl = Unit
  AllUnmatched (Actions.more a rest) cl =
      ((o : Outcome ClassificationResult) × (run_action env flags g a cl ≡ some o)
        × (counts o ≡ false))
      × AllUnmatched rest cl

  -- The first action that counts, after others that do not.
  pub record First (path : List String) (rest : Actions) (cl : ClassificationResult)
      (o : Outcome ClassificationResult) : Type 0 where
    pub before : Actions
    pub action : Action
    pub after : Actions
    pub split : rest ≡ append before (Actions.more action after)
    pub unmatched : AllUnmatched before cl
    pub outcome : Outcome ClassificationResult
    pub runs : run_action env flags g action cl ≡ some outcome
    pub matched : counts outcome ≡ true
    pub result : o ≡ at_path path outcome

  abbrev pub FirstOf :
      List String → Actions → ClassificationResult → Outcome ClassificationResult → Type 0
  FirstOf path rest cl o = (AllUnmatched rest cl × (o ≡ returned cl)) ⊎ First path rest cl o

  run_first-FirstOf :
      (path : List String) (rest : Actions) (cl : ClassificationResult)
      (o : Outcome ClassificationResult)
      → run_first env flags g path rest cl ≡ some o
      → FirstOf path rest cl o
  unfolding run_first
  run_first-FirstOf path Actions.end cl o h = inl (tt, cc)
  run_first-FirstOf path (Actions.more a rest) cl o h =
      step (run_first-FirstOf path rest cl o) (run_action env flags g a cl) refl h
    where
      here :
          (r : Outcome ClassificationResult)
          → run_action env flags g a cl ≡ some r
          → counts r ≡ true
          → o ≡ at_path path r
          → First path (Actions.more a rest) cl o
      here r e c p = record {
        before = Actions.end;
        action = a;
        after = rest;
        split = refl;
        unmatched = tt;
        outcome = r;
        runs = e;
        matched = c;
        result = p;
      }

      later :
          (r : Outcome ClassificationResult)
          → run_action env flags g a cl ≡ some r
          → counts r ≡ false
          → FirstOf path rest cl o
          → FirstOf path (Actions.more a rest) cl o
      later r e c (inl x) = inl (((r, e, c), x.0), x.1)
      later r e c (inr x) = inr (record {
        before = Actions.more a x.before;
        action = x.action;
        after = x.after;
        split = ap (Actions.more a) x.split;
        unmatched = ((r, e, c), x.unmatched);
        outcome = x.outcome;
        runs = x.runs;
        matched = x.matched;
        result = x.result;
      })

      step :
          (run_first env flags g path rest cl ≡ some o → FirstOf path rest cl o)
          → (m : Run) → run_action env flags g a cl ≡ m
          → or_run path m (run_first env flags g path rest cl) ≡ some o
          → FirstOf path (Actions.more a rest) cl o
      step again none e p = cc
      step again (some (returned r)) e p = inr (here (returned r) e refl (cc))
      step again (some panics) e p = inr (here panics e refl (cc))
      step again (some (failed x)) e p = elim (Bool-cases (is_unmatched x)) [
        | inl u ↦ later (failed x) e (rw u refl) (again (rw u at p))
        | inr u ↦ inr (here (failed x) e (rw u refl) (cc (rw u at p)))
      ]

  -- Where find_match comes to an end, either all its actions fail with an unmatched error and it
  -- returns the result that it was given, or it ends as the first of its actions does that does
  -- not, with its own path put before an error; and its own error is never an unmatched one.
  pub find_match-FirstOf :
      (path : List String) (rest : Actions) (cl : ClassificationResult)
      (o : Outcome ClassificationResult)
      → run_action env flags g (find_match path rest) cl ≡ some o
      → FirstOf path rest cl o × (counts o ≡ true)
  unfolding run_action
  find_match-FirstOf path rest cl o h = let f = run_first-FirstOf path rest cl o h in (f, counted f)
    where
      at_path-counts :
          (r : Outcome ClassificationResult) → counts r ≡ true → counts (at_path path r) ≡ true
      at_path-counts (returned cl) c = refl
      at_path-counts (failed e) c = c
      at_path-counts panics c = refl

      counted : FirstOf path rest cl o → counts o ≡ true
      counted (inl x) = ap counts x.1
      counted (inr x) = ap counts x.result ∙ at_path-counts x.outcome x.matched

-- A workflow that begins with a call of another of the kind.
pub record Calls (ws : Workflows) (IsLooping : String → Type 0) (name : String) : Type 0 where
  pub next : String
  pub loops : IsLooping next
  pub others : List String
  pub rest : Actions
  pub found : lookup name ws ≡ some (block (Actions.more (run_workflow (next ∷ others)) rest))

module _ (env : Env) (flags : Flags) (ws : Workflows) (IsLooping : String → Type 0)
    (looping : (name : String) → IsLooping name → Calls ws IsLooping name) where
  call_loops :
      (f : ℕ) (name : String) (cl : ClassificationResult)
      → IsLooping name
      → call env flags ws f name cl ≡ none
  unfolding call call_found run_action run_all run_names
  call_loops zero name cl h = refl
  call_loops (suc f) name cl h =
      let c = looping name h in rw (c.found) (rw (call_loops f c.next cl c.loops) refl)

  -- A workflow of a class in which every one begins with a call of another of the class, such as
  -- one that calls itself, never comes to an end: running it is out of fuel for every fuel.
  pub run_loops : (f : ℕ) (name : String) → IsLooping name → run env flags ws f name ≡ none
  unfolding run run_found run_action run_all run_names
  run_loops f name h =
      let c = looping name h in rw (c.found) (rw (call_loops f c.next empty_result c.loops) refl)
