-- ===== src/Classifier/Compile/Calls.antt =====
-- internal/classifier: the workflows that an action calls, and the actions that have no parts.
use Prim.Native.String.{String}
use hexmagnet.Prelude.{
  ℕ, suc, ◌≤◌, ◌≡◌, true, Bool-cases, inl, inr, List, [], ◌∷◌, All, Option, none, some, string_eq,
  str_eq,
}
use hexmagnet.Webhook.{mem}
use hexmagnet.Classifier.{
  Action, Actions, OptAction, block, find_match, if_else, run_workflow, unmatched, set_content_type,
  attach_local_content_by_search, attach_tmdb_content_by_search, parse_date, parse_video_content,
  llm_classify, absent, present,
}
use hexmagnet.Classifier.Payload.{
  Value, SourcePath, CompileErrors, plain, error_at, fatal_at, Compiled, ok, err, Tools,
  payload_string, payload_literal, payload_must_succeed, payload_content_type, parse_content_type,
  content_type_names, content_type_values,
}
use hexmagnet.Classifier.Compile.{
  Items, gathered, add_item, finish_items, gather, actions, compile_named, compile_set_content_type,
  check_names, compile_run_workflow,
}
use hexmagnet.Classifier.Compile.Gives.{
  size, AtMost, Gives, if-Gives, map_err-Gives, bind-Gives, from_option-Gives, Decodes,
  single_key-Gives,
}
use hexmagnet.Classifier.Compile.Ends.{Anything, list_at-Gives, string-ends}

-- The names that an action calls are among some names.
abbrev pub AreNames : List String → List String → Type 0
AreNames ns names = All (λ name. mem name ns ≡ true) names

abbrev mutual
  pub CallsKnown : List String → Action → Type 0
  CallsKnown ns (block rest) = AllKnown ns rest
  CallsKnown ns (find_match path rest) = AllKnown ns rest
  CallsKnown ns (if_else c a b) = OptKnown ns a × OptKnown ns b
  CallsKnown ns (run_workflow names) = AreNames ns names
  CallsKnown ns (unmatched path) = Unit
  CallsKnown ns (set_content_type ct) = Unit
  CallsKnown ns attach_local_content_by_search = Unit
  CallsKnown ns attach_tmdb_content_by_search = Unit
  CallsKnown ns parse_date = Unit
  CallsKnown ns parse_video_content = Unit
  CallsKnown ns llm_classify = Unit

  pub AllKnown : List String → Actions → Type 0
  AllKnown ns Actions.end = Unit
  AllKnown ns (Actions.more a rest) = CallsKnown ns a × AllKnown ns rest

  pub OptKnown : List String → OptAction → Type 0
  OptKnown ns absent = Unit
  OptKnown ns (present a) = CallsKnown ns a

abbrev pub FoundKnown : List String → Option Action → Type 0
FoundKnown ns none = Unit
FoundKnown ns (some a) = CallsKnown ns a

abbrev pub ItemsKnown : List String → Items → Type 0
ItemsKnown ns (gathered rest es) = AllKnown ns rest

module _ (ns : List String) where
  pub actions-AllKnown : (xs : List Action) → All (CallsKnown ns) xs → AllKnown ns (actions xs)
  actions-AllKnown [] h = tt
  actions-AllKnown (a ∷ xs) h = (h.0, actions-AllKnown xs h.1)

  pub add_item-ItemsKnown :
      (a : Option Action) (i : Items)
      → FoundKnown ns a
      → ItemsKnown ns i
      → ItemsKnown ns (add_item a i)
  add_item-ItemsKnown none (gathered xs es) h k = k
  add_item-ItemsKnown (some a) (gathered xs es) h k = (h, k)

  pub finish_items-CallsKnown :
      (i : Items) → ItemsKnown ns i → Gives (CallsKnown ns) (finish_items i)
  finish_items-CallsKnown (gathered xs CompileErrors.end) h = h
  finish_items-CallsKnown (gathered xs (CompileErrors.more e es)) h = tt

  pub gather-ItemsKnown :
      (n : ℕ) (f : ℕ → Value → Compiled (Option Action)) (i : ℕ) (vs : List Value)
      → ((i : ℕ) (x : Value) → AtMost n x → Gives (FoundKnown ns) (f i x))
      → All (AtMost n) vs
      → Gives (ItemsKnown ns) (gather f i vs)
  unfolding gather
  gather-ItemsKnown n f i [] h a = tt
  gather-ItemsKnown n f i (v ∷ vs) h a =
      bind-Gives (FoundKnown ns) (ItemsKnown ns) _ _ (h i v a.0) (λ b k.
        bind-Gives (ItemsKnown ns) (ItemsKnown ns) _ _ (gather-ItemsKnown n f (suc i) vs h a.1)
          (λ rest k'. add_item-ItemsKnown b rest k k'))

  module _ (t : Tools) (d : Decodes t) where
    check_names-AreNames :
        (path : SourcePath) (names : List String)
        → Gives (AreNames ns) (check_names t ns path names)
    unfolding check_names
    check_names-AreNames path [] = tt
    check_names-AreNames path (name ∷ names) = elim (Bool-cases (mem name ns)) [
      | inl e ↦ rw e (
          bind-Gives (AreNames ns) (AreNames ns) _ _ (check_names-AreNames path names)
            (λ r k. (e, k)))
      | inr e ↦ rw e tt
    ]

    pub run_workflow-CallsKnown :
        (n : ℕ) (path : SourcePath) (v : Value)
        → size v ≤ suc n
        → Gives (CallsKnown ns) (compile_run_workflow t ns path v)
    unfolding compile_run_workflow
    run_workflow-CallsKnown n path v l =
        bind-Gives (All Anything) (CallsKnown ns) _ _
          (map_err-Gives (All Anything) (error_at path) _ (
            list_at-Gives t d Anything n "run_workflow" (payload_string t) path v
              (λ path' x a. string-ends t d path' x) l))
          (λ names u.
            bind-Gives (AreNames ns) (CallsKnown ns) _ _ (check_names-AreNames path names)
              (λ names' k. k))

    pub named-CallsKnown :
        (name : String) (a : Action) (path : SourcePath) (v : Value)
        → CallsKnown ns a
        → Gives (CallsKnown ns) (compile_named t name a path v)
    unfolding compile_named payload_literal
    named-CallsKnown name a path v k =
        bind-Gives Anything (CallsKnown ns) _ _
          (map_err-Gives Anything (error_at path) _ (
            bind-Gives (λ s. t.decode_string v ≡ some s) Anything _ _
              (from_option-Gives "decode" (t.decode_string v))
              (λ s e.
                if-Gives Anything (str_eq s name) (ok s) (err (plain "value mismatch")) tt tt)))
          (λ s u. k)

    content_type-ends :
        (path : SourcePath) (v : Value) → Gives Anything (payload_content_type t path v)
    unfolding payload_content_type
    content_type-ends path v =
        bind-Gives (λ s. t.decode_string v ≡ some s) Anything _ _
          (map_err-Gives (λ s. t.decode_string v ≡ some s) (error_at path) _
            (from_option-Gives "decode" (t.decode_string v)))
          (λ s e.
            if-Gives Anything (mem s (content_type_names content_type_values)) _ _
              (if-Gives Anything (str_eq s "unknown") _ _ tt (
                bind-Gives (λ ct. parse_content_type t s ≡ some ct) Anything _ _
                  (from_option-Gives "content type" (parse_content_type t s)) (λ ct e. tt)))
              tt)

    pub set_content_type-CallsKnown :
        (n : ℕ) (path : SourcePath) (v : Value)
        → size v ≤ suc n
        → Gives (CallsKnown ns) (compile_set_content_type t path v)
    unfolding compile_set_content_type payload_must_succeed
    set_content_type-CallsKnown n path v l =
        bind-Gives Anything (CallsKnown ns) _ _
          (map_err-Gives Anything (error_at path) _ (
            single_key-Gives Anything t d n "set_content_type" _ path v
              (λ path' x a. map_err-Gives Anything (fatal_at path') _ (content_type-ends path' x))
              l))
          (λ ct u. tt)
