-- ===== src/Classifier/Compile/Finds.antt =====
-- internal/classifier: which of the definitions of a condition or an action compiles a value.
use Prim.Native.String.{String}
use hexmagnet.Prelude.{
  none, ℕ, suc, ◌≡◌, refl, ◌∙◌, ap, true, false, List, [], ◌∷◌, lookup, string_eq, str_eq,
}
use hexmagnet.Classifier.Payload.{
  Value, Values, text, seq, object, empty, field, items, SourcePath, CompileError, CompileErrors,
  plain, compiler_error, fatal_compiler_error, joined, pointer_to_fatal, pointer_to_compiler,
  as_type, as_type_any, as_fatal_compiler_error, error_at, fatal_at, Compiled, ok, err, ◌>>=◌,
  map_err, Tools, child, each, payload_any, payload_literal, payload_list, payload_must_succeed,
  payload_single_key_value,
}
use hexmagnet.Classifier.Compile.{first_of, payload_list_at, compile_named}
use hexmagnet.Classifier.Compile.Gives.{Decodes}
use hexmagnet.Classifier.{Action}

mutual
  unfolding as_type as_type_any

  no_pointer :
      (e : CompileError)
      → (as_type pointer_to_compiler e ≡ none) × (as_type pointer_to_fatal e ≡ none)
  no_pointer (plain message) = (refl, refl)
  no_pointer (compiler_error path e) = no_pointer e
  no_pointer (fatal_compiler_error path e) = no_pointer e
  no_pointer (joined es) = no_pointer_any es

  no_pointer_any :
      (es : CompileErrors)
      → (as_type_any pointer_to_compiler es ≡ none) × (as_type_any pointer_to_fatal es ≡ none)
  no_pointer_any CompileErrors.end = (refl, refl)
  no_pointer_any (CompileErrors.more e es) =
      let h = no_pointer e in let k = no_pointer_any es in (rw (h.0) (k.0), rw (h.1) (k.1))

as_fatal_compiler_error-none : (e : CompileError) → as_fatal_compiler_error e ≡ none
unfolding as_fatal_compiler_error
as_fatal_compiler_error-none e = (no_pointer e).1

abbrev pub Fails {ℓ} : {A : Type ℓ} → Compiled A → Type ℓ
Fails m = (e : CompileError) × (m ≡ err e)

-- Definitions that fail with the errors of a list, and then others.
abbrev pub failing : {A : Type 0} → CompileErrors → List (Compiled A) → List (Compiled A)
failing CompileErrors.end ms = ms
failing (CompileErrors.more e es) ms = err e ∷ failing es ms

-- Whatever errors the definitions before it fail with, fatal ones included, the first definition
-- that compiles is the one that is found; and if all of them fail, what is made of it gets all of
-- their errors, in order.
pub first_of-failing :
    {A B : Type 0} (found : A → Compiled B) (nothing : CompileErrors → Compiled B)
    (es : CompileErrors) (a : A) (ms : List (Compiled A))
    → (first_of found nothing (failing es (ok a ∷ ms)) ≡ found a)
      × (first_of found nothing (failing es []) ≡ nothing es)
first_of-failing found nothing CompileErrors.end a ms = (refl, refl)
first_of-failing found nothing (CompileErrors.more e es) a ms =
    let h = first_of-failing found (λ es. nothing (CompileErrors.more e es)) es a ms in
    (rw (as_fatal_compiler_error-none e) (h.0), rw (as_fatal_compiler_error-none e) (h.1))

module _ {A B : Type 0} where
  pub bind-Fails : (m : Compiled A) (f : A → Compiled B) → Fails m → Fails (m >>= f)
  bind-Fails m f (e, h) = (e, ap (λ x. x >>= f) h)

  -- What is found whatever becomes of finding nothing.
  abbrev pub Finds : (A → Compiled B) → List (Compiled A) → B → Type 0
  Finds found ms b = (nothing : CompileErrors → Compiled B) → first_of found nothing ms ≡ ok b

  pub Finds-here :
      (found : A → Compiled B) (m : Compiled A) (ms : List (Compiled A)) (a : A) (b : B)
      → m ≡ ok a
      → found a ≡ ok b
      → Finds found (m ∷ ms) b
  Finds-here found m ms a b h k nothing = rw h k

  pub Finds-later :
      (found : A → Compiled B) (m : Compiled A) (ms : List (Compiled A)) (b : B)
      → Fails m
      → Finds found ms b
      → Finds found (m ∷ ms) b
  Finds-later found m ms b (e, h) k nothing =
      rw h (rw (as_fatal_compiler_error-none e) (k (λ es. nothing (CompileErrors.more e es))))

pub map_err-Fails :
    {A : Type 0} (f : CompileError → CompileError) (m : Compiled A) → Fails m → Fails (map_err f m)
map_err-Fails f m (e, h) = (f e, ap (map_err f) h)

module _ (t : Tools) (d : Decodes t) where
  module _ {A : Type 0} (key : String) (payload : SourcePath → Value → Compiled A)
      (path : SourcePath) where
    pub single_key-same :
        (x : Value)
        → str_eq key key ≡ true
        → payload_single_key_value t key payload path (object (field key x empty))
          ≡ payload (child path key) x
    unfolding payload_single_key_value lookup
    single_key-same x h = rw (d.maps (object (field key x empty))) (rw h refl)

    pub single_key-other :
        (k : String) (x : Value)
        → str_eq k key ≡ false
        → Fails (payload_single_key_value t key payload path (object (field k x empty)))
    unfolding payload_single_key_value lookup
    single_key-other k x h = (
      error_at path (plain "missing expected key"),
      rw (d.maps (object (field k x empty))) (rw h refl),
    )

    pub single_key-text :
        (s : String) → Fails (payload_single_key_value t key payload path (text s))
    unfolding payload_single_key_value
    single_key-text s = (plain "decode", rw (d.maps (text s)) refl)

  abbrev pub ArePresent : Values → Type 0
  ArePresent Values.end = Unit
  ArePresent (Values.more v vs) =
      ((path : SourcePath) → payload_any t path v ≡ ok v) × ArePresent vs

  each-items :
      (path : SourcePath) (i : ℕ) (vs : Values)
      → ArePresent vs
      → each (λ i x. payload_any t (child path (t.numeric_path_part i)) x) i (items vs)
        ≡ ok (items vs)
  unfolding each
  each-items path i Values.end p = refl
  each-items path i (Values.more v vs) p =
      rw (p.0 (child path (t.numeric_path_part i))) (rw (each-items path (suc i) vs p.1) refl)

  pub list_at-seq :
      (key : String) (path : SourcePath) (vs : Values)
      → str_eq key key ≡ true
      → ArePresent vs
      → payload_list_at t key (payload_any t) path (object (field key (seq vs) empty))
        ≡ ok (items vs)
  unfolding payload_list_at payload_must_succeed payload_list
  list_at-seq key path vs h p =
      single_key-same key _ path (seq vs) h
      ∙ ap (map_err (fatal_at (child path key))) (each-items (child path key) 0 vs p)

  pub list_at-other :
      {A : Type 0} (key : String) (item : SourcePath → Value → Compiled A) (path : SourcePath)
      (k : String) (x : Value)
      → str_eq k key ≡ false
      → Fails (payload_list_at t key item path (object (field k x empty)))
  unfolding payload_list_at
  list_at-other key item path k x h = single_key-other key _ path k x h

  pub list_at-text :
      {A : Type 0} (key : String) (item : SourcePath → Value → Compiled A) (path : SourcePath)
      (s : String)
      → Fails (payload_list_at t key item path (text s))
  unfolding payload_list_at
  list_at-text key item path s = single_key-text key _ path s

  pub named-same :
      (name : String) (a : Action) (path : SourcePath)
      → str_eq name name ≡ true
      → compile_named t name a path (text name) ≡ ok a
  unfolding compile_named payload_literal
  named-same name a path h = rw (d.strings (text name)) (rw h refl)

  pub named-other :
      (name : String) (a : Action) (path : SourcePath) (s : String)
      → str_eq s name ≡ false
      → Fails (compile_named t name a path (text s))
  unfolding compile_named payload_literal
  named-other name a path s h =
      (error_at path (plain "value mismatch"), rw (d.strings (text s)) (rw h refl))

  pub named-object :
      (name : String) (a : Action) (path : SourcePath) (k : String) (x : Value)
      → Fails (compile_named t name a path (object (field k x empty)))
  unfolding compile_named payload_literal
  named-object name a path k x =
      (error_at path (plain "decode"), rw (d.strings (object (field k x empty))) refl)
