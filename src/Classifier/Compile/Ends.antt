-- ===== src/Classifier/Compile/Ends.antt =====
-- internal/classifier: that the compilation of a condition comes to an end.
use Prim.Native.String.{String}
use hexmagnet.Prelude.{ℕ, zero, suc, ◌≤◌, if◌then◌else◌, List, [], ◌∷◌, All, string_eq, arith}
use hexmagnet.Classifier.{Condition}
use hexmagnet.Classifier.Payload.{
  Value, null, boolean, integer, text, seq, object, SourcePath, plain, error_at, fatal_at, Compiled,
  ok, err, map_err, Tools, child, each, payload_any, payload_string, payload_list, raw_list,
  payload_must_succeed,
}
use hexmagnet.Classifier.Compile.{
  first_of, no_condition, payload_list_at, program, compile_and, compile_or, compile_not,
  compile_expression, compile_condition,
}
use hexmagnet.Classifier.Compile.Gives.{
  size, size-positive, AtMost, raw_list-AtMost, Gives, if-Gives, map_err-Gives, AtMost-size,
  union-Gives, bind-Gives, first_of-Gives, each-Gives, Decodes, single_key-Gives,
}

pub no_fuel : (v : Value) → size v ≤ 0 → ⊥
no_fuel v l = let p = size-positive v in omega (arith, p, l)

abbrev pub Anything {ℓ} : {A : Type ℓ} → A → Type 0
Anything a = Unit

module _ (t : Tools) (d : Decodes t) where
  pub list_at-Gives :
      {A : Type 0} (Q : A → Type 0) (n : ℕ) (key : String) (item : SourcePath → Value → Compiled A)
      (path : SourcePath) (v : Value)
      → ((path : SourcePath) (x : Value) → AtMost n x → Gives Q (item path x))
      → size v ≤ suc n
      → Gives (All Q) (payload_list_at t key item path v)
  unfolding payload_list_at payload_must_succeed payload_list
  list_at-Gives Q n key item path v h l =
      single_key-Gives (All Q) t d n key (payload_must_succeed t (payload_list t item)) path v
        (λ path' x a. map_err-Gives (All Q) (fatal_at path') (payload_list t item path' x) (
          each-Gives (AtMost n) Q (λ i y. item (child path' (t.numeric_path_part i)) y) 0
            (raw_list t x) (λ i y. h (child path' (t.numeric_path_part i)) y)
            (raw_list-AtMost t n x (AtMost-size n x a))))
        l

  pub any-AtMost :
      (n : ℕ) (path : SourcePath) (x : Value) → AtMost n x → Gives (AtMost n) (payload_any t path x)
  unfolding payload_any
  any-AtMost n path null a = tt
  any-AtMost n path (boolean b) a = a
  any-AtMost n path (integer i) a = a
  any-AtMost n path (text s) a = a
  any-AtMost n path (seq vs) a = a
  any-AtMost n path (object fs) a = a

  pub string-ends : (path : SourcePath) (x : Value) → Gives Anything (payload_string t path x)
  unfolding payload_string
  string-ends path null = tt
  string-ends path (boolean b) = tt
  string-ends path (integer i) = tt
  string-ends path (text s) = tt
  string-ends path (seq vs) = tt
  string-ends path (object fs) = tt

  program-ends : (path : SourcePath) (x : Value) → Gives Anything (program t path x)
  unfolding program
  program-ends path x =
      bind-Gives Anything Anything (payload_string t path x)
        (λ s. if t.compiles s then ok s else err (error_at path (plain "type-check error")))
        (string-ends path x) (λ s u. if-Gives Anything (t.compiles s) _ _ tt tt)

  module _ (n : ℕ) (again : SourcePath → Value → Compiled Condition)
      (ends : (path : SourcePath) (x : Value) → AtMost n x → Gives Anything (again path x)) where
    each-ends :
        (path : SourcePath) (vs : List Value)
        → All (AtMost n) vs
        → Gives (All Anything) (
            each
              (λ i x. map_err (fatal_at path) (again (child path (t.numeric_path_part i)) x))
              0
              vs)
    each-ends path vs a =
        each-Gives (AtMost n) Anything
          (λ i x. map_err (fatal_at path) (again (child path (t.numeric_path_part i)) x)) 0 vs
          (λ i x b.
            map_err-Gives Anything (fatal_at path) (again (child path (t.numeric_path_part i)) x)
              (ends (child path (t.numeric_path_part i)) x b))
          a

    and-ends :
        (path : SourcePath) (v : Value)
        → size v ≤ suc n
        → Gives Anything (compile_and t again path v)
    unfolding compile_and
    and-ends path v l =
        bind-Gives (All (AtMost n)) Anything
          (map_err (error_at path) (payload_list_at t "and" (payload_any t) path v)) _
          (map_err-Gives (All (AtMost n)) (error_at path)
            (payload_list_at t "and" (payload_any t) path v)
            (list_at-Gives (AtMost n) n "and" (payload_any t) path v (any-AtMost n) l))
          (λ vs a. bind-Gives (All Anything) Anything _ _ (each-ends path vs a) (λ cs u. tt))

    or-ends :
        (path : SourcePath) (v : Value)
        → size v ≤ suc n
        → Gives Anything (compile_or t again path v)
    unfolding compile_or
    or-ends path v l =
        bind-Gives (All (AtMost n)) Anything (payload_list_at t "or" (payload_any t) path v) _
          (list_at-Gives (AtMost n) n "or" (payload_any t) path v (any-AtMost n) l)
          (λ vs a. bind-Gives (All Anything) Anything _ _ (each-ends path vs a) (λ cs u. tt))

    not-ends :
        (path : SourcePath) (v : Value)
        → size v ≤ suc n
        → Gives Anything (compile_not t again path v)
    unfolding compile_not payload_must_succeed
    not-ends path v l =
        bind-Gives (AtMost n) Anything _ _
          (map_err-Gives (AtMost n) (error_at path) _ (
            single_key-Gives (AtMost n) t d n "not" (payload_must_succeed t (payload_any t)) path v
              (λ path' x a. map_err-Gives (AtMost n) (fatal_at path') _ (any-AtMost n path' x a))
              l))
          (λ x a.
            bind-Gives Anything Anything _ _
              (map_err-Gives Anything (error_at path) _ (ends (child path "not") x a)) (λ c u. tt))

  expression-ends :
      (n : ℕ) (path : SourcePath) (v : Value)
      → size v ≤ suc n
      → Gives Anything (compile_expression t path v)
  unfolding compile_expression payload_must_succeed
  expression-ends n path v l =
      bind-Gives Anything Anything _ _
        (map_err-Gives Anything (error_at path) _ (
          union-Gives Anything _ _
            (single_key-Gives Anything t d n "expression" (payload_must_succeed t (program t)) path
              v (λ path' x a. map_err-Gives Anything (fatal_at path') _ (program-ends path' x)) l)
            (map_err-Gives Anything (fatal_at path) _ (program-ends path v))))
        (λ p u. tt)

  condition-ends :
      (n : ℕ) (again : SourcePath → Value → Compiled Condition)
      → ((path : SourcePath) (x : Value) → AtMost n x → Gives Anything (again path x))
      → (path : SourcePath) (v : Value) → size v ≤ suc n
      → Gives Anything (
          first_of
            (λ c. ok c)
            no_condition
            (compile_and t again (child path "and") v
              ∷ compile_not t again (child path "not") v
              ∷ compile_or t again (child path "or") v
              ∷ compile_expression t (child path "expression") v
              ∷ []))
  condition-ends n again smaller path v l =
      first_of-Gives Anything Anything (λ c. ok c) no_condition
        (compile_and t again (child path "and") v
          ∷ compile_not t again (child path "not") v
          ∷ compile_or t again (child path "or") v
          ∷ compile_expression t (child path "expression") v
          ∷ [])
        (λ c u. tt) (λ es. tt)
        (
          and-ends n again smaller (child path "and") v l,
          (
            not-ends n again smaller (child path "not") v l,
            (
              or-ends n again smaller (child path "or") v l,
              (expression-ends n (child path "expression") v l, tt),
            ),
          ),
        )

  -- Compiling a condition ends with a condition or an error: no more fuel than the size of what is
  -- compiled is needed.
  pub compile_condition-ends :
      (f : ℕ) (path : SourcePath) (v : Value)
      → size v ≤ f
      → Gives Anything (compile_condition t f path v)
  unfolding compile_condition
  compile_condition-ends zero path v l = absurd (no_fuel v l)
  compile_condition-ends (suc n) path v l =
      condition-ends n (compile_condition t n)
        (λ path x a. compile_condition-ends n path x (AtMost-size n x a)) path v l
