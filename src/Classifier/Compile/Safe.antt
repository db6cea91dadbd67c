-- ===== src/Classifier/Compile/Safe.antt =====
-- internal/classifier: what runs of compiled workflows cannot do.
use Prim.Native.String.{String}
use hexmagnet.Prelude.{
  ℕ, zero, suc, ◌≤◌, ◌≡◌, refl, subst, Bool, true, false, if◌then◌else◌, Bool-cases, inl, inr, List,
  [], ◌∷◌, All, Option, none, some, lookup, string_eq, str_eq,
}
use hexmagnet.Calendar.{is_nil}
use hexmagnet.Webhook.{mem}
use hexmagnet.Classifier.{
  ClassificationResult, Outcome, returned, failed, panics, Action, Actions, OptAction, block,
  find_match, if_else, run_workflow, unmatched, set_content_type, attach_local_content_by_search,
  attach_tmdb_content_by_search, parse_date, parse_video_content, llm_classify, absent, present,
  is_unmatched, runtime_error, Flags, Env, check, Run, then_run, or_run, branch, run_names,
  run_action, run_all, run_first, run_opt, Workflows, call_found, call, run_found, run,
  empty_result,
}
use hexmagnet.Classifier.Settled.{IsSettled, IsCalm, if-IsSettled, merge_video-IsSettled}
use hexmagnet.Classifier.Returns.{check-IsSettled, local-IsSettled, tmdb-IsSettled}
use hexmagnet.Classifier.Payload.{Value, fatal_at, Compiled, Tools, child}
use hexmagnet.Classifier.Compile.{compile_each, workflow_names, compile_workflows}
use hexmagnet.Classifier.Compile.Gives.{size, Gives, map_err-Gives, bind-Gives, Decodes}
use hexmagnet.Classifier.Compile.Calls.{AreNames, CallsKnown, AllKnown, OptKnown}
use hexmagnet.Classifier.Compile.Known.{compile_action-CallsKnown}

-- A run that ends without a panic, if it ends.
abbrev pub IsSafe : Run → Type 0
IsSafe none = Unit
IsSafe (some o) = IsSettled o

then_run-IsSafe :
    (m : Run) (k : ClassificationResult → Run)
    → IsSafe m
    → ((cl : ClassificationResult) → IsSafe (k cl))
    → IsSafe (then_run m k)
then_run-IsSafe none k s h = tt
then_run-IsSafe (some (returned cl)) k s h = h cl
then_run-IsSafe (some (failed e)) k s h = tt
then_run-IsSafe (some panics) k s h = absurd s

or_run-IsSafe : (path : List String) (m r : Run) → IsSafe m → IsSafe r → IsSafe (or_run path m r)
or_run-IsSafe path none r s h = tt
or_run-IsSafe path (some (returned cl)) r s h = tt
or_run-IsSafe path (some (failed e)) r s h = if-IsSafe (is_unmatched e)
  where
    if-IsSafe : (b : Bool) → IsSafe (if b then r else some (failed (runtime_error path e)))
    if-IsSafe true = h
    if-IsSafe false = tt
or_run-IsSafe path (some panics) r s h = absurd s

branch-IsSafe :
    (o : Outcome Bool) (a b : Run) → IsSettled o → IsSafe a → IsSafe b → IsSafe (branch o a b)
branch-IsSafe (returned true) a b s h k = h
branch-IsSafe (returned false) a b s h k = k
branch-IsSafe (failed e) a b s h k = tt
branch-IsSafe panics a b s h k = absurd s

-- Each of the names has a workflow, and workflows call those of other names.
pub record Covers (ns names : List String) (ws : Workflows) : Type 0 where
  pub found : (name : String) → mem name names ≡ true → (a : Action) × (lookup name ws ≡ some a)
  pub known : (name : String) (a : Action) → lookup name ws ≡ some a → CallsKnown ns a

module _ (env : Env) (calm : IsCalm env) (flags : Flags) (ns : List String) where
  module _ (g : String → ClassificationResult → Run)
      (calls : (name : String) (cl : ClassificationResult)
        → mem name ns ≡ true
        → IsSafe (g name cl)) where
    names-IsSafe :
        (names : List String) (cl : ClassificationResult)
        → AreNames ns names
        → IsSafe (run_names env flags g names cl)
    unfolding run_names
    names-IsSafe [] cl k = tt
    names-IsSafe (name ∷ names) cl k =
        then_run-IsSafe (g name cl) (run_names env flags g names) (calls name cl k.0)
          (λ cl'. names-IsSafe names cl' k.1)

    mutual
      unfolding run_action run_all run_first run_opt

      action-IsSafe :
          (a : Action) (cl : ClassificationResult)
          → CallsKnown ns a
          → IsSafe (run_action env flags g a cl)
      action-IsSafe (block rest) cl k = all-IsSafe rest cl k
      action-IsSafe (find_match path rest) cl k = first-IsSafe path rest cl k
      action-IsSafe (if_else c a b) cl k =
          branch-IsSafe (check env flags c cl) _ _ (check-IsSettled env calm flags c cl)
            (opt-IsSafe a cl k.0) (opt-IsSafe b cl k.1)
      action-IsSafe (run_workflow names) cl k = names-IsSafe names cl k
      action-IsSafe (unmatched path) cl k = tt
      action-IsSafe (set_content_type ct) cl k = tt
      action-IsSafe attach_local_content_by_search cl k =
          local-IsSettled env calm flags cl.attributes.content_type cl.attributes.base_title cl
      action-IsSafe attach_tmdb_content_by_search cl k =
          tmdb-IsSettled env calm flags cl.attributes.content_type cl.attributes.base_title cl
      action-IsSafe parse_date cl k = if-IsSettled (is_nil env.parsed_date) _ _ tt tt
      action-IsSafe parse_video_content cl k =
          merge_video-IsSettled (env.parse_video cl) cl (calm.video cl)
      action-IsSafe llm_classify cl k = calm.llm flags cl

      all-IsSafe :
          (rest : Actions) (cl : ClassificationResult)
          → AllKnown ns rest
          → IsSafe (run_all env flags g rest cl)
      all-IsSafe Actions.end cl k = tt
      all-IsSafe (Actions.more a rest) cl k =
          then_run-IsSafe (run_action env flags g a cl) (run_all env flags g rest)
            (action-IsSafe a cl k.0) (λ cl'. all-IsSafe rest cl' k.1)

      first-IsSafe :
          (path : List String) (rest : Actions) (cl : ClassificationResult)
          → AllKnown ns rest
          → IsSafe (run_first env flags g path rest cl)
      first-IsSafe path Actions.end cl k = tt
      first-IsSafe path (Actions.more a rest) cl k =
          or_run-IsSafe path (run_action env flags g a cl) _ (action-IsSafe a cl k.0)
            (first-IsSafe path rest cl k.1)

      opt-IsSafe :
          (a : OptAction) (cl : ClassificationResult)
          → OptKnown ns a
          → IsSafe (run_opt env flags g a cl)
      opt-IsSafe absent cl k = tt
      opt-IsSafe (present a) cl k = action-IsSafe a cl k

  module _ (ws : Workflows) (table : Covers ns ns ws) where
    call-IsSafe :
        (f : ℕ) (name : String) (cl : ClassificationResult)
        → mem name ns ≡ true
        → IsSafe (call env flags ws f name cl)
    unfolding call call_found
    call-IsSafe zero name cl h = tt
    call-IsSafe (suc f) name cl h =
        let a = table.found name h in
        rw (a.1) (
          action-IsSafe (call env flags ws f) (λ name' cl' h'. call-IsSafe f name' cl' h') (a.0) cl
            (table.known name a.0 a.1))

    run-IsSafe : (f : ℕ) (name : String) → IsSafe (run env flags ws f name)
    unfolding run run_found
    run-IsSafe f name =
        by_case (lookup name ws) (table.known name) (λ name' cl' h'. call-IsSafe f name' cl' h')
      where
        by_case :
            (o : Option Action)
            → ((a : Action) → o ≡ some a → CallsKnown ns a)
            → ((name' : String) (cl' : ClassificationResult)
                → mem name' ns ≡ true
                → IsSafe (call env flags ws f name' cl'))
            → IsSafe (run_found env flags ws f o)
        by_case none k again = tt
        by_case (some a) k again =
            action-IsSafe (call env flags ws f) again a empty_result (k a refl)

module _ (t : Tools) (d : Decodes t) (ns : List String) where
  table-more :
      (names : List String) (ws : Workflows) (name : String) (a : Action)
      → CallsKnown ns a
      → Covers ns names ws
      → Covers ns (name ∷ names) ((name, a) ∷ ws)
  unfolding lookup
  table-more names ws name a k h = record {
    found = λ name' m. elim (Bool-cases (str_eq name name')) [
      | inl e ↦ (a, rw e refl)
      | inr e ↦ let r = h.found name' (rw e at m) in (r.0, rw e (r.1))
    ];
    known = λ name' b m. elim (Bool-cases (str_eq name name')) [
      | inl e ↦ subst (CallsKnown ns) (some-inj a b (rw e at m)) k
      | inr e ↦ h.known name' b (rw e at m)
    ];
  }
    where
      some-inj : (a b : Action) → some a ≡ some b → a ≡ b
      some-inj a b h = cc

  compile_each-Covers :
      (f : ℕ) (source : List (String × Value))
      → All (λ x. size x.1 ≤ f) source
      → Gives (Covers ns (workflow_names source)) (compile_each t ns f source)
  unfolding compile_each lookup
  compile_each-Covers f [] h = record { found = λ name m. cc; known = λ name a m. cc }
  compile_each-Covers f (x ∷ xs) h =
      bind-Gives (CallsKnown ns) (Covers ns (workflow_names (x ∷ xs))) _ _
        (map_err-Gives (CallsKnown ns) (fatal_at []) _
          (compile_action-CallsKnown ns t d f (child ("workflows" ∷ []) x.0) x.1 h.0))
        (λ a k.
          bind-Gives (Covers ns (workflow_names xs)) (Covers ns (workflow_names (x ∷ xs))) _ _
            (compile_each-Covers f xs h.1) (λ ws w. table-more (workflow_names xs) ws x.0 a k w))

-- Workflows that have compiled never call one that is not there. Where the decoder does what it is
-- documented to do, and the searches, the expressions and the other parameters do not panic,
-- compiling the workflows of a source ends, with fuel of the size of the largest; and where it
-- gives workflows, a run of any of them, with any flags and for every fuel, is out of fuel, a
-- result or an error, but not a panic.
pub compile_workflows-IsSafe :
    (t : Tools)
    → Decodes t
    → (f : ℕ) (source : List (String × Value)) → All (λ x. size x.1 ≤ f) source
    → (env : Env) → IsCalm env
    → (flags : Flags) (f' : ℕ) (name : String)
    → Gives (λ ws. IsSafe (run env flags ws f' name)) (compile_workflows t f source)
unfolding compile_workflows
compile_workflows-IsSafe t d f source h env calm flags f' name =
    weaken (compile_each t (workflow_names source) f source)
      (compile_each-Covers t d (workflow_names source) f source h)
  where
    weaken :
        (m : Compiled Workflows)
        → Gives (Covers (workflow_names source) (workflow_names source)) m
        → Gives (λ ws. IsSafe (run env flags ws f' name)) m
    weaken (Compiled.ok ws) g = run-IsSafe env calm flags (workflow_names source) ws g f' name
    weaken (Compiled.err e) g = tt
    weaken Compiled.stuck g = absurd g
