-- ===== src/Classifier/Compile/Rules/Meaning.antt =====
-- internal/classifier: that conditions compile to what they mean.
use Prim.Native.String.{String}
use hexmagnet.Prelude.{ℕ, zero, suc, ◌≤◌, ◌≡◌, refl, ap, true, false, List, [], ◌∷◌, str_eq, arith}
use hexmagnet.Classifier.{Condition, Conditions, and, or, negated, expression}
use hexmagnet.Classifier.Payload.{
  Value, text, object, empty, field, items, SourcePath, Compiled, ok, map_err, fatal_at, error_at,
  Tools, child, each, payload_any, payload_string, payload_must_succeed, payload_union,
}
use hexmagnet.Classifier.Compile.{
  no_condition, conditions, program, compile_and, compile_or, compile_not, compile_expression,
  compile_condition,
}
use hexmagnet.Classifier.Compile.Gives.{size, items_size, Decodes}
use hexmagnet.Classifier.Compile.Ends.{no_fuel}
use hexmagnet.Classifier.Compile.Finds.{
  Fails, bind-Fails, Finds-here, Finds-later, map_err-Fails, single_key-same, single_key-other,
  single_key-text, ArePresent, list_at-seq, list_at-other, list_at-text,
}
use hexmagnet.Classifier.Compile.Rules.{condition_value, condition_values, IsTyped, AreTyped}

abbrev condition_list : Conditions → List Condition
condition_list Conditions.end = []
condition_list (Conditions.more c cs) = c ∷ condition_list cs

conditions-condition_list : (cs : Conditions) → conditions (condition_list cs) ≡ cs
conditions-condition_list Conditions.end = refl
conditions-condition_list (Conditions.more c cs) =
    ap (Conditions.more c) (conditions-condition_list cs)

module _ (t : Tools) (d : Decodes t) where
  condition-present :
      (c : Condition) (path : SourcePath)
      → payload_any t path (condition_value c) ≡ ok (condition_value c)
  unfolding payload_any
  condition-present (and cs) path = refl
  condition-present (or cs) path = refl
  condition-present (negated c) path = refl
  condition-present (expression p) path = refl

  conditions-ArePresent : (cs : Conditions) → ArePresent t d (condition_values cs)
  conditions-ArePresent Conditions.end = tt
  conditions-ArePresent (Conditions.more c cs) = (condition-present c, conditions-ArePresent cs)

  module _ (again : SourcePath → Value → Compiled Condition) (path : SourcePath) where
    and-other :
        (k : String) (x : Value)
        → str_eq k "and" ≡ false
        → Fails (compile_and t again path (object (field k x empty)))
    unfolding compile_and
    and-other k x h =
        bind-Fails _ _ (map_err-Fails (error_at path) _ (list_at-other t d "and" _ path k x h))

    and-text : (s : String) → Fails (compile_and t again path (text s))
    unfolding compile_and
    and-text s = bind-Fails _ _ (map_err-Fails (error_at path) _ (list_at-text t d "and" _ path s))

    or-other :
        (k : String) (x : Value)
        → str_eq k "or" ≡ false
        → Fails (compile_or t again path (object (field k x empty)))
    unfolding compile_or
    or-other k x h = bind-Fails _ _ (list_at-other t d "or" _ path k x h)

    or-text : (s : String) → Fails (compile_or t again path (text s))
    unfolding compile_or
    or-text s = bind-Fails _ _ (list_at-text t d "or" _ path s)

    not-other :
        (k : String) (x : Value)
        → str_eq k "not" ≡ false
        → Fails (compile_not t again path (object (field k x empty)))
    unfolding compile_not
    not-other k x h =
        bind-Fails _ _ (map_err-Fails (error_at path) _ (single_key-other t d "not" _ path k x h))

    not-text : (s : String) → Fails (compile_not t again path (text s))
    unfolding compile_not
    not-text s =
        bind-Fails _ _ (map_err-Fails (error_at path) _ (single_key-text t d "not" _ path s))

    abbrev EachMeans : Conditions → Type 0
    EachMeans cs =
        each (λ i x. map_err (fatal_at path) (again (child path (t.numeric_path_part i)) x)) 0
          (items (condition_values cs))
        ≡ ok (condition_list cs)

    and-means :
        (cs : Conditions)
        → EachMeans cs
        → compile_and t again path (condition_value (and cs)) ≡ ok (and cs)
    unfolding compile_and
    and-means cs h =
        rw (list_at-seq t d "and" path (condition_values cs) refl (conditions-ArePresent cs))
          (rw h (rw (conditions-condition_list cs) refl))

    or-means :
        (cs : Conditions)
        → EachMeans cs
        → compile_or t again path (condition_value (or cs)) ≡ ok (or cs)
    unfolding compile_or
    or-means cs h =
        rw (list_at-seq t d "or" path (condition_values cs) refl (conditions-ArePresent cs))
          (rw h (rw (conditions-condition_list cs) refl))

    not-means :
        (c : Condition)
        → again (child path "not") (condition_value c) ≡ ok c
        → compile_not t again path (condition_value (negated c)) ≡ ok (negated c)
    unfolding compile_not payload_must_succeed
    not-means c h =
        rw
          (single_key-same t d "not" (payload_must_succeed t (payload_any t)) path
            (condition_value c) refl)
          (rw (condition-present c (child path "not")) (rw h refl))

  expression-means :
      (p : String) (path : SourcePath)
      → t.compiles p ≡ true
      → compile_expression t path (text p) ≡ ok (expression p)
  unfolding compile_expression payload_union payload_must_succeed program payload_string
  expression-means p path h =
      let f = single_key-text t d "expression" (payload_must_succeed t (program t)) path p in
      rw (f.1) (rw h refl)

  mutual
    unfolding compile_condition each

    pub condition-means :
        (c : Condition) (f : ℕ) (path : SourcePath)
        → IsTyped t c
        → size (condition_value c) ≤ f
        → compile_condition t f path (condition_value c) ≡ ok c
    condition-means c zero path w l = absurd (no_fuel (condition_value c) l)
    condition-means (and cs) (suc n) path w l =
        Finds-here (λ c. ok c) _ _ (and cs) (and cs)
          (and-means (compile_condition t n) (child path "and") cs
            (conditions-mean cs n (child path "and") 0 w (omega (arith, l))))
          refl no_condition
    condition-means (negated c) (suc n) path w l =
        Finds-later (λ c. ok c) _ _ (negated c)
          (and-other (compile_condition t n) (child path "and") "not" _ refl)
          (Finds-here (λ c. ok c) _ _ (negated c) (negated c)
            (not-means (compile_condition t n) (child path "not") c
              (condition-means c n (child (child path "not") "not") w (omega (arith, l))))
            refl)
          no_condition
    condition-means (or cs) (suc n) path w l =
        Finds-later (λ c. ok c) _ _ (or cs)
          (and-other (compile_condition t n) (child path "and") "or" _ refl)
          (Finds-later (λ c. ok c) _ _ (or cs)
            (not-other (compile_condition t n) (child path "not") "or" _ refl)
            (Finds-here (λ c. ok c) _ _ (or cs) (or cs)
              (or-means (compile_condition t n) (child path "or") cs
                (conditions-mean cs n (child path "or") 0 w (omega (arith, l))))
              refl))
          no_condition
    condition-means (expression p) (suc n) path w l =
        Finds-later (λ c. ok c) _ _ (expression p)
          (and-text (compile_condition t n) (child path "and") p)
          (Finds-later (λ c. ok c) _ _ (expression p)
            (not-text (compile_condition t n) (child path "not") p)
            (Finds-later (λ c. ok c) _ _ (expression p)
              (or-text (compile_condition t n) (child path "or") p)
              (Finds-here (λ c. ok c) _ _ (expression p) (expression p)
                (expression-means p (child path "expression") w) refl)))
          no_condition

    conditions-mean :
        (cs : Conditions) (n : ℕ) (path : SourcePath) (i : ℕ)
        → AreTyped t cs
        → items_size (condition_values cs) ≤ n
        → each
            (λ i x.
              map_err
                (fatal_at path)
                (compile_condition t n (child path (t.numeric_path_part i)) x))
            i
            (items (condition_values cs))
          ≡ ok (condition_list cs)
    conditions-mean Conditions.end n path i w l = refl
    conditions-mean (Conditions.more c cs) n path i w l =
        rw (condition-means c n (child path (t.numeric_path_part i)) w.0 (omega (arith, l)))
          (rw (conditions-mean cs n path (suc i) w.1 (omega (arith, l))) refl)
