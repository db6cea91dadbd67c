-- ===== src/Classifier/Compile/Rules/Sources.antt =====
-- internal/classifier: that the values which rules are written as compile to what the rules mean.
use Prim.Native.String.{String}
use hexmagnet.Prelude.{
  ℕ, zero, suc, ◌≤◌, ◌≡◌, refl, sym, ap, ◌∙◌, ◌+◌, List, [], ◌∷◌, All, Option, none, some,
  string_eq, arith,
}
use hexmagnet.Classifier.{Condition, Action, Actions, block, Workflows}
use hexmagnet.Classifier.Payload.{
  Value, seq, empty, field, items, SourcePath, CompileErrors, Compiled, ok, Tools, child, each,
}
use hexmagnet.Classifier.Compile.{
  actions, gathered, gather, compile_present, compile_opt, compile_single, compile_single_at,
  compile_actions, compile_action, compile_each, workflow_names, compile_workflows,
  compile_condition,
}
use hexmagnet.Classifier.Compile.Gives.{
  size, items_size, fields_size, Decodes, DecodesParts, optional, or_null,
}
use hexmagnet.Classifier.Compile.Ends.{no_fuel}
use hexmagnet.Classifier.Compile.Rules.{
  Rule, Rules, OptRules, simple, first, choice, workflow, content_type, no_rules, one, rules,
  rule_value, condition_value, rule_values, opt_value, rule_action, rule_blocks, rule_actions,
  opt_action, IsRule, AreRules, OptIsRules,
}
use hexmagnet.Classifier.Compile.Rules.Meaning.{condition-means}
use hexmagnet.Classifier.Compile.Rules.Singles.{
  simple-means, first-means, choice-means, workflow-means, type-means,
}

-- The value of a workflow of rules, and what it means.
abbrev pub sources : List (String × Rules) → List (String × Value)
sources [] = []
sources (x ∷ xs) = (x.0, seq (rule_values x.1)) ∷ sources xs

abbrev pub meanings : Tools → List (String × Rules) → Workflows
meanings t [] = []
meanings t (x ∷ xs) =
    (x.0, block (rule_actions t (child ("workflows" ∷ []) x.0) 0 x.1)) ∷ meanings t xs

-- The size of a branch that may be left out.
abbrev opt_size : Option Value → ℕ
opt_size none = 0
opt_size (some v) = size v

opt_size-le :
    (c : Value) (a b : Option Value)
    → size c + (opt_size a + opt_size b)
      ≤ fields_size (field "condition" c (optional "if_action" a (optional "else_action" b empty)))
opt_size-le c none none = omega arith
opt_size-le c none (some y) = omega arith
opt_size-le c (some x) none = omega arith
opt_size-le c (some x) (some y) = omega arith

module _ (t : Tools) (d : Decodes t) (parts : DecodesParts t) (ns : List String) where
  single-action :
      (r : Rule) (m : ℕ) (path : SourcePath) (a : Action)
      → compile_single t (compile_condition t m) (compile_action t ns m) ns path (rule_value r)
        ≡ ok (some a)
      → compile_action t ns (suc m) path (rule_value r) ≡ ok (block (Actions.more a Actions.end))
  unfolding compile_action compile_actions gather
  single-action (simple s) m path a h = rw h refl
  single-action (first rs) m path a h = rw h refl
  single-action (choice c x y) m path a h = rw h refl
  single-action (workflow names) m path a h = rw h refl
  single-action (content_type ct) m path a h = rw h refl

  -- What a rule is written as is not nil.
  compile_opt-rule :
      (cond : SourcePath → Value → Compiled Condition) (act : SourcePath → Value → Compiled Action)
      (path : SourcePath) (r : Rule)
      → compile_opt t cond act path (rule_value r) ≡ compile_present t cond act path (rule_value r)
  unfolding compile_opt
  compile_opt-rule cond act path (simple s) = refl
  compile_opt-rule cond act path (first rs) = refl
  compile_opt-rule cond act path (choice c x y) = refl
  compile_opt-rule cond act path (workflow names) = refl
  compile_opt-rule cond act path (content_type ct) = refl

  abbrev block_list : SourcePath → ℕ → Rules → List Action
  block_list path i Rules.end = []
  block_list path i (Rules.more r rs) =
      block (Actions.more (rule_action t (child path (t.numeric_path_part i)) r) Actions.end)
      ∷ block_list path (suc i) rs

  actions-block_list :
      (path : SourcePath) (i : ℕ) (rs : Rules)
      → actions (block_list path i rs) ≡ rule_blocks t path i rs
  actions-block_list path i Rules.end = refl
  actions-block_list path i (Rules.more r rs) =
      ap
        (Actions.more
          (block (Actions.more (rule_action t (child path (t.numeric_path_part i)) r) Actions.end)))
        (actions-block_list path (suc i) rs)

  mutual
    unfolding compile_action compile_actions gather compile_opt compile_present compile_single_at
        each

    rule-means :
        (r : Rule) (n : ℕ) (path : SourcePath)
        → IsRule t ns r
        → size (rule_value r) ≤ suc n
        → compile_single t (compile_condition t n) (compile_action t ns n) ns path (rule_value r)
          ≡ ok (some (rule_action t path r))
    rule-means (simple s) n path w l =
        simple-means t d ns (compile_condition t n) (compile_action t ns n) path s
    rule-means (first rs) n path w l =
        rw (sym (actions-block_list (child path "find_match") 0 rs)) (
          first-means t d ns (compile_condition t n) (compile_action t ns n) path rs
            (block_list (child path "find_match") 0 rs)
            (blocks-mean rs n (child path "find_match") 0 w (omega (arith, l))))
    rule-means (choice c a b) n path w l =
        let k = opt_size-le (condition_value c) (opt_value a) (opt_value b) in
        choice-means t d ns (compile_condition t n) (compile_action t ns n) path c a b parts
          (condition-means t d c n (child (child path "if_else") "condition") w.0
            (omega (arith, k, l)))
          (opt-means a n (child (child path "if_else") "if_action") w.1 (omega (arith, k, l)))
          (opt-means b n (child (child path "if_else") "else_action") w.2 (omega (arith, k, l)))
    rule-means (workflow names) n path w l =
        workflow-means t d ns (compile_condition t n) (compile_action t ns n) path names w
    rule-means (content_type ct) n path w l =
        type-means t d ns (compile_condition t n) (compile_action t ns n) path ct

    blocks-mean :
        (rs : Rules) (n : ℕ) (path : SourcePath) (i : ℕ)
        → AreRules t ns rs
        → items_size (rule_values rs) ≤ n
        → each
            (λ i x. compile_action t ns n (child path (t.numeric_path_part i)) x)
            i
            (items (rule_values rs))
          ≡ ok (block_list path i rs)
    blocks-mean Rules.end n path i w l = refl
    blocks-mean (Rules.more r rs) zero path i w l =
        absurd (no_fuel (rule_value r) (omega (arith, l)))
    blocks-mean (Rules.more r rs) (suc m) path i w l =
        rw
          (single-action r m (child path (t.numeric_path_part i))
            (rule_action t (child path (t.numeric_path_part i)) r)
            (rule-means r m (child path (t.numeric_path_part i)) w.0 (omega (arith, l))))
          (rw (blocks-mean rs (suc m) path (suc i) w.1 (omega (arith, l))) refl)

    rules-mean :
        (rs : Rules) (n : ℕ) (path : SourcePath) (i : ℕ)
        → AreRules t ns rs
        → items_size (rule_values rs) ≤ suc n
        → gather
            (compile_single_at t (compile_condition t n) (compile_action t ns n) ns path)
            i
            (items (rule_values rs))
          ≡ ok (gathered (rule_actions t path i rs) CompileErrors.end)
    rules-mean Rules.end n path i w l = refl
    rules-mean (Rules.more r rs) n path i w l =
        rw (rule-means r n (child path (t.numeric_path_part i)) w.0 (omega (arith, l)))
          (rw (rules-mean rs n path (suc i) w.1 (omega (arith, l))) refl)

    opt-means :
        (a : OptRules) (n : ℕ) (path : SourcePath)
        → OptIsRules t ns a
        → opt_size (opt_value a) ≤ n
        → compile_opt t (compile_condition t n) (compile_action t ns n) path (or_null (opt_value a))
          ≡ ok (opt_action t path a)
    opt-means no_rules n path w l = refl
    opt-means (one r) zero path w l = absurd (no_fuel (rule_value r) l)
    opt-means (one r) (suc m) path w l =
        compile_opt-rule (compile_condition t (suc m)) (compile_action t ns (suc m)) path r
        ∙ rw
            (single-action r m path (rule_action t path r)
              (rule-means r m path w (omega (arith, l))))
            refl
    opt-means (rules rs) zero path w l = absurd (no_fuel (seq (rule_values rs)) l)
    opt-means (rules rs) (suc m) path w l = rw (rules-mean rs m path 0 w (omega (arith, l))) refl

  rules-action :
      (rs : Rules) (f : ℕ) (path : SourcePath)
      → AreRules t ns rs
      → size (seq (rule_values rs)) ≤ f
      → compile_action t ns f path (seq (rule_values rs)) ≡ ok (block (rule_actions t path 0 rs))
  unfolding compile_action compile_actions
  rules-action rs zero path w l = absurd (no_fuel (seq (rule_values rs)) l)
  rules-action rs (suc m) path w l = rw (rules-mean rs m path 0 w (omega (arith, l))) refl

  compile_each-meanings :
      (f : ℕ) (xs : List (String × Rules))
      → All (λ x. AreRules t ns x.1 × (size (seq (rule_values x.1)) ≤ f)) xs
      → compile_each t ns f (sources xs) ≡ ok (meanings t xs)
  unfolding compile_each
  compile_each-meanings f [] h = refl
  compile_each-meanings f (x ∷ xs) h =
      rw (rules-action x.1 f (child ("workflows" ∷ []) x.0) h.0.0 h.0.1)
        (rw (compile_each-meanings f xs h.1) refl)

-- The rules that workflows are written as, lists of single rules whose branches of an if_else are
-- a rule, a list of rules or left out, compile to what they mean. Where the decoder does what it
-- is documented to do, the expressions of the rules compile, the workflows that they run are among
-- those of the source, and there is fuel for the size of each workflow, the workflows of the
-- source compile, and each becomes the block of the actions that its rules mean, with the paths
-- that their errors report.
pub compile_workflows-meanings :
    (t : Tools)
    → Decodes t
    → DecodesParts t
    → (f : ℕ) (xs : List (String × Rules))
    → All
        (λ x. AreRules t (workflow_names (sources xs)) x.1 × (size (seq (rule_values x.1)) ≤ f))
        xs
    → compile_workflows t f (sources xs) ≡ ok (meanings t xs)
unfolding compile_workflows
compile_workflows-meanings t d parts f xs h =
    compile_each-meanings t d parts (workflow_names (sources xs)) f xs h
