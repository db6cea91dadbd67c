-- ===== src/Classifier/Examples.antt =====
-- The theorems of the classifier at concrete workflows.
mod Compiling
mod Merging
use Prim.Native.String.{String}
use hexmagnet.Prelude.{
  ℕ, ◌≤◌, ◌≡◌, ◌⊎◌, inl, inr, refl, sym, subst, true, if◌then◌else◌, Bool-cases, str_eq, [], ◌∷◌,
  none, some, lookup, string_eq, arith,
}
use hexmagnet.Torznab.{movie, tv_show}
use hexmagnet.Classifier.{
  ClassificationResult, Outcome, returned, failed, Action, Actions, block, find_match, if_else,
  expression, absent, present, run_workflow, set_content_type, unmatched, err_unmatched, Env,
  run_action, run_first, run_opt, Workflows, call, run, empty_result, check,
}
use hexmagnet.Classifier.Settled.{IsSettled, IsCalm, CallsBelow}
use hexmagnet.Classifier.Returns.{run-IsSettled}
use hexmagnet.Classifier.Flow.{FirstOf, counts, find_match-FirstOf, Calls, run_loops}

-- Every expression holds, no search finds anything, and no name tells anything.
abbrev env : Env
env = record {
  evaluate = λ program flags cl. returned true;
  content_by_search = λ ct title year. failed err_unmatched;
  search_tv_show = λ title year. failed err_unmatched;
  search_movie = λ title year. failed err_unmatched;
  parsed_date = record { year = 0; month = 0; day = 0 };
  parse_video = λ cl. failed err_unmatched;
  llm = λ flags cl. failed err_unmatched;
}

env-IsCalm : IsCalm env
env-IsCalm = record {
  evaluate = λ p fs cl. tt;
  search = λ ct s year. tt;
  tv_show = λ s year. tt;
  movie = λ s year. tt;
  video = λ cl. tt;
  llm = λ fs cl. tt;
}

-- The second action is the first that counts.
abbrev choices : Actions
choices = Actions.more (unmatched []) (
    Actions.more
      (if_else (expression "result.contentType == 0") (present (set_content_type (some movie)))
        absent)
      (Actions.more (set_content_type (some tv_show)) Actions.end))

abbrev sub_workflow : Action
sub_workflow = block (Actions.more (find_match [] choices) Actions.end)

abbrev default_workflow : Action
default_workflow = block (Actions.more (run_workflow ("sub" ∷ [])) Actions.end)

abbrev workflows : Workflows
workflows = ("default", default_workflow) ∷ ("sub", sub_workflow) ∷ []

abbrev rank : String → ℕ
rank name = if str_eq "default" name then 1 else 0

workflows_ranked :
    (name : String) (a : Action)
    → lookup name workflows ≡ some a
    → CallsBelow rank workflows (rank name) a
unfolding lookup
workflows_ranked name a e = elim (Bool-cases (str_eq "default" name)) [
  | inl h ↦
      subst (CallsBelow rank workflows (rank name)) (same default_workflow (rw h at e))
        ((rw h (omega arith), ((sub_workflow, refl), tt)), tt)
  | inr h ↦ elim (Bool-cases (str_eq "sub" name)) [
    | inl g ↦
        subst (CallsBelow rank workflows (rank name)) (same sub_workflow (rw (h, g) at e))
          ((tt, ((tt, tt), (tt, tt))), tt)
    | inr g ↦ absurd (clash (rw (h, g) at e))
  ]
]
  where
    same : (b : Action) → some b ≡ some a → b ≡ a
    same b p = cc

    clash : none ≡ some a → ⊥
    clash p = cc

run-IsSettled_example :
    (o : Outcome ClassificationResult) × IsSettled o
    × ((f : ℕ) → rank "default" ≤ f → run env [] workflows f "default" ≡ some o)
run-IsSettled_example = run-IsSettled env env-IsCalm [] rank workflows workflows_ranked "default"

abbrev as_movie : Outcome ClassificationResult
as_movie = returned (record empty_result {
  attributes = record (empty_result.attributes) { content_type = some movie };
})

chosen :
    run_action env [] (call env [] workflows 0) (find_match [] choices) empty_result ≡ some as_movie
unfolding run_action run_first run_opt check
chosen = refl

find_match-FirstOf_example :
    FirstOf env [] (call env [] workflows 0) [] choices empty_result as_movie
    × (counts as_movie ≡ true)
find_match-FirstOf_example =
    find_match-FirstOf env [] (call env [] workflows 0) [] choices empty_result as_movie chosen

-- Two workflows that begin with a call of each other.
abbrev circular : Workflows
circular =
    ("a", block (Actions.more (run_workflow ("b" ∷ [])) Actions.end))
    ∷ ("b", block (Actions.more (run_workflow ("a" ∷ [])) Actions.end))
    ∷ []

abbrev IsCircular : String → Type 0
IsCircular name = (name ≡ "a") ⊎ (name ≡ "b")

circular-Calls : (name : String) → IsCircular name → Calls circular IsCircular name
unfolding lookup
circular-Calls name (inl e) =
    subst (Calls circular IsCircular) (sym e)
      (record { next = "b"; loops = inr refl; others = []; rest = Actions.end; found = refl })
circular-Calls name (inr e) =
    subst (Calls circular IsCircular) (sym e)
      (record { next = "a"; loops = inl refl; others = []; rest = Actions.end; found = refl })

run_loops_example : run env [] circular 100 "a" ≡ none
run_loops_example = run_loops env [] circular IsCircular circular-Calls 100 "a" (inl refl)
