-- ===== src/Classifier/Source/FlagValues.antt =====
-- internal/classifier: that the flags of a run have values of their types.
use Prim.Native.String.{String}
use hexmagnet.Prelude.{
  ◌⊎◌, ◌≡◌, refl, sym, subst, ◌∙◌, true, inl, inr, [], Option, none, some, lookup, Distinct,
  string_eq,
}
use hexmagnet.Classifier.{
  FlagValue, flag_bool, flag_string, flag_int, flag_strings, flag_content_types, Flags,
}
use hexmagnet.Classifier.Payload.{Value, null, boolean, integer, text, seq, object, Tools}
use hexmagnet.Classifier.Source.{
  FlagType, bool_flag, string_flag, int_flag, string_list_flag, content_type_list_flag, RawFlags,
  FlagDefinitions, map_option, and_then, set_each, validate_flag, default_value, default_flags,
  runtime_value, run_flags,
}
use hexmagnet.Classifier.Source.Loop.{has_type, IsFilled, Fails, set_each_lem}

module _ (t : Tools) where
  none-some : {A : Type 0} (v : A) → none ≡ some v → ⊥
  none-some v h = cc

  some-typed :
      (d : FlagType) (w v : FlagValue) → has_type d w ≡ true → some w ≡ some v → has_type d v ≡ true
  some-typed d w v h e = let p : w ≡ v = cc in subst (λ x. has_type d x ≡ true) p h

  mapped-typed :
      {A : Type 0} (d : FlagType) (f : A → FlagValue) (v : FlagValue) (o : Option A)
      → ((a : A) → has_type d (f a) ≡ true)
      → map_option f o ≡ some v
      → has_type d v ≡ true
  mapped-typed d f v none h e = absurd (none-some v e)
  mapped-typed d f v (some a) h e = some-typed d (f a) v (h a) e

  typed_lem :
      (d : FlagType) (raw : Value) (v : FlagValue)
      → validate_flag t d raw ≡ some v
      → has_type d v ≡ true
  unfolding validate_flag
  typed_lem bool_flag null v h = absurd (none-some v h)
  typed_lem bool_flag (boolean b) v h = some-typed bool_flag (flag_bool b) v refl h
  typed_lem bool_flag (integer i) v h = absurd (none-some v h)
  typed_lem bool_flag (text s) v h = absurd (none-some v h)
  typed_lem bool_flag (seq vs) v h = absurd (none-some v h)
  typed_lem bool_flag (object fs) v h = absurd (none-some v h)
  typed_lem string_flag null v h = absurd (none-some v h)
  typed_lem string_flag (boolean b) v h = absurd (none-some v h)
  typed_lem string_flag (integer i) v h = absurd (none-some v h)
  typed_lem string_flag (text s) v h = some-typed string_flag (flag_string s) v refl h
  typed_lem string_flag (seq vs) v h = absurd (none-some v h)
  typed_lem string_flag (object fs) v h = absurd (none-some v h)
  typed_lem int_flag null v h = absurd (none-some v h)
  typed_lem int_flag (boolean b) v h = absurd (none-some v h)
  typed_lem int_flag (integer i) v h = some-typed int_flag (flag_int i) v refl h
  typed_lem int_flag (text s) v h = absurd (none-some v h)
  typed_lem int_flag (seq vs) v h = absurd (none-some v h)
  typed_lem int_flag (object fs) v h = absurd (none-some v h)
  typed_lem string_list_flag null v h = absurd (none-some v h)
  typed_lem string_list_flag (boolean b) v h = absurd (none-some v h)
  typed_lem string_list_flag (integer i) v h = absurd (none-some v h)
  typed_lem string_list_flag (text s) v h = absurd (none-some v h)
  typed_lem string_list_flag (seq vs) v h =
      mapped-typed string_list_flag flag_strings v _ (λ ss. refl) h
  typed_lem string_list_flag (object fs) v h = absurd (none-some v h)
  typed_lem content_type_list_flag null v h = absurd (none-some v h)
  typed_lem content_type_list_flag (boolean b) v h = absurd (none-some v h)
  typed_lem content_type_list_flag (integer i) v h = absurd (none-some v h)
  typed_lem content_type_list_flag (text s) v h = absurd (none-some v h)
  typed_lem content_type_list_flag (seq vs) v h =
      mapped-typed content_type_list_flag flag_content_types v _ (λ ns. refl) h
  typed_lem content_type_list_flag (object fs) v h = absurd (none-some v h)

  default-typed :
      (d : FlagType) (o : Option Value) (v : FlagValue)
      → and_then o (validate_flag t d) ≡ some v
      → has_type d v ≡ true
  default-typed d none v h = absurd (none-some v h)
  default-typed d (some raw) v h = typed_lem d raw v h

  runtime-typed :
      (defaults : Flags) (o : Option Value) (k : String) (d : FlagType) (w v : FlagValue)
      → lookup k defaults ≡ some w
      → has_type d w ≡ true
      → runtime_value t defaults o k d ≡ some v
      → has_type d v ≡ true
  runtime-typed defaults (some raw) k d w v e h p = typed_lem d raw v p
  runtime-typed defaults none k d w v e h p = some-typed d w v h (rw e at p)

-- A flag that is given with a value that is not of its type.
pub record BadFlag (t : Tools) (definitions : FlagDefinitions) (flags : RawFlags) : Type 0 where
  pub flag : String
  pub definition : FlagType
  pub value : Value
  pub defined : lookup flag definitions ≡ some definition
  pub given : lookup flag flags ≡ some value
  pub invalid : validate_flag t definition value ≡ none

-- Each flag that is defined has a value of its type: the one that is given for it, if there is one, and
-- otherwise the one of the source; no other flag has one, and no bad flag is given.
pub record HasFlags (t : Tools) (definitions : FlagDefinitions) (source flags : RawFlags)
    (f : Flags) : Type 0 where
  pub typed :
      (k : String) (d : FlagType)
      → lookup k definitions ≡ some d
      → (v : FlagValue) × (lookup k f ≡ some v) × (has_type d v ≡ true)
  pub given :
      (k : String) (d : FlagType) (raw : Value)
      → lookup k definitions ≡ some d
      → lookup k flags ≡ some raw
      → (v : FlagValue) × (validate_flag t d raw ≡ some v) × (lookup k f ≡ some v)
  pub defaulted :
      (k : String) (d : FlagType)
      → lookup k definitions ≡ some d
      → lookup k flags ≡ none
      → (v : FlagValue) × (default_value t source k d ≡ some v) × (lookup k f ≡ some v)
  pub others : (k : String) → lookup k definitions ≡ none → lookup k f ≡ none
  pub sound : ¬ BadFlag t definitions flags

-- Once the flags of a source have compiled, a run with any flags either has a value of its type
-- for each flag that is defined, the checked value of the one that is given, if one is, and that
-- of the source otherwise, and has none for any other flag, while none is given with a value that
-- is not of its type; or one is, and the run is an error.
pub run_flags-HasFlags :
    (t : Tools) (definitions : FlagDefinitions) (source : RawFlags) (defaults : Flags)
    → Distinct definitions
    → default_flags t definitions source ≡ some defaults
    → (flags : RawFlags)
    → ((f : Flags) × (run_flags t definitions defaults flags ≡ some f)
        × HasFlags t definitions source flags f)
      ⊎ ((run_flags t definitions defaults flags ≡ none) × BadFlag t definitions flags)
unfolding default_flags run_flags lookup
run_flags-HasFlags t definitions source defaults u e flags =
    by_case (set_each_lem (λ k d. runtime_value t defaults (lookup k flags) k d) [] definitions u)
  where
    clash : {o : Option Flags} → o ≡ some defaults → o ≡ none → ⊥
    clash p q = cc

    default-eq :
        (k : String) (d : FlagType) (w v : FlagValue)
        → lookup k defaults ≡ some w
        → runtime_value t defaults none k d ≡ some v
        → some w ≡ some v
    default-eq k d w v p q = rw p at q

    invalid_clash : {o : Option FlagValue} (v : FlagValue) → o ≡ some v → o ≡ none → ⊥
    invalid_clash v p q = cc

    compiled :
        ((f : Flags) × (set_each (default_value t source) [] definitions ≡ some f)
            × IsFilled (default_value t source) definitions [] f)
          ⊎ ((set_each (default_value t source) [] definitions ≡ none)
              × Fails (default_value t source) definitions)
        → IsFilled (default_value t source) definitions [] defaults
    compiled (inl (f, p, s)) =
        let q : f ≡ defaults = some-eq f (sym p ∙ e) in
        subst (λ x. IsFilled (default_value t source) definitions [] x) q s
      where
        some-eq : (f : Flags) → some f ≡ some defaults → f ≡ defaults
        some-eq f p = cc
    compiled (inr (p, w)) = absurd (clash e p)

    by_case :
        ((f : Flags) × (run_flags t definitions defaults flags ≡ some f)
            × IsFilled (λ k d. runtime_value t defaults (lookup k flags) k d) definitions [] f)
          ⊎ ((run_flags t definitions defaults flags ≡ none)
              × Fails (λ k d. runtime_value t defaults (lookup k flags) k d) definitions)
        → ((f : Flags) × (run_flags t definitions defaults flags ≡ some f)
            × HasFlags t definitions source flags f)
          ⊎ ((run_flags t definitions defaults flags ≡ none) × BadFlag t definitions flags)
    by_case (inl (f, p, s)) = inl (
      f,
      p,
      record {
        typed = λ k d h.
            let c = compiled (set_each_lem (default_value t source) [] definitions u) in
            let w = c.set k d h in
            let v = s.set k d h in
            (
              v.0,
              v.2,
              runtime-typed t defaults (lookup k flags) k d w.0 v.0 w.2
                  (default-typed t d (lookup k source) w.0 w.1) v.1,
            );
        given = λ k d raw h g. let v = s.set k d h in (v.0, rw g at v.1, v.2);
        defaulted = λ k d h g.
            let c = compiled (set_each_lem (default_value t source) [] definitions u) in
            let w = c.set k d h in
            let v = s.set k d h in (w.0, w.1, v.2 ∙ sym (default-eq k d w.0 v.0 w.2 (rw g at v.1)));
        others = λ k h. s.unset k h;
        sound = λ b.
            let v = s.set b.flag b.definition b.defined in
            invalid_clash v.0 (rw (b.given) at v.1) b.invalid;
      },
    )
    by_case (inr (p, w)) = inr (p, bad (lookup w.flag flags) refl w.fails)
      where
        bad :
            (o : Option Value)
            → lookup w.flag flags ≡ o
            → runtime_value t defaults o w.flag w.definition ≡ none
            → BadFlag t definitions flags
        bad none g h = absurd (clash_none h)
          where
            clash_none : {v : FlagValue} → some v ≡ none → ⊥
            clash_none q = cc
        bad (some raw) g h = record {
          flag = w.flag;
          definition = w.definition;
          value = raw;
          defined = w.found;
          given = g;
          invalid = h;
        }
