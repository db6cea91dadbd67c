-- ===== src/Classifier/Compile.antt =====
-- internal/classifier: the compilation of conditions, of actions and of workflows (condition.go,
-- action.go, their definitions, and `Compile` of classifier.go without the flags). The definitions
-- come in the order of `defaultFeatures`. What is compiled within another is compiled with less fuel;
-- `Compile.Known.compile_action-CallsKnown` says how much is enough.
pub mod Gives
pub mod Ends
pub mod Calls
pub mod Known
pub mod Safe
pub mod Finds
pub mod Rules
use Prim.Native.String.{String}
use hexmagnet.Prelude.{
  ℕ, zero, suc, Bool, if◌then◌else◌, List, [], ◌∷◌, Option, none, some, string_eq,
}
use hexmagnet.Webhook.{mem}
use hexmagnet.Torznab.{ContentType}
use hexmagnet.Classifier.{
  Condition, Conditions, Action, Actions, OptAction, block, find_match, if_else, run_workflow,
  unmatched, set_content_type, attach_local_content_by_search, attach_tmdb_content_by_search,
  parse_date, parse_video_content, llm_classify, absent, present, and, or, negated, expression,
  Workflows,
}
use hexmagnet.Classifier.Payload.{
  Value, null, seq, items, SourcePath, CompileError, CompileErrors, plain, joined, is_some,
  as_fatal_compiler_error, error_at, fatal_at, Compiled, ok, err, stuck, ◌>>=◌, map_err,
  IfElsePayload, Tools, child, each, payload_any, payload_string, payload_literal, payload_list,
  payload_must_succeed, payload_single_key_value, payload_union, payload_content_type, from_option,
}

abbrev add_error : CompileErrors → CompileError → CompileErrors
add_error CompileErrors.end e = CompileErrors.more e CompileErrors.end
add_error (CompileErrors.more e es) e' = CompileErrors.more e (add_error es e')

-- The first definition that compiles, of a list; a fatal error ends the search.
abbrev pub first_of {ℓ κ} :
    {A : Type ℓ} {B : Type κ}
    → (A → Compiled B)
    → (CompileErrors → Compiled B)
    → List (Compiled A)
    → Compiled B
first_of found nothing [] = nothing CompileErrors.end
first_of found nothing (ok a ∷ rest) = found a
first_of found nothing (stuck ∷ rest) = stuck
first_of found nothing (err e ∷ rest) =
    if is_some (as_fatal_compiler_error e)
    then err e
    else first_of found (λ es. nothing (CompileErrors.more e es)) rest

abbrev pub no_condition : CompileErrors → Compiled Condition
no_condition es = err (joined (add_error es (plain "no condition matched")))

-- What the items of a list of actions compile to: the actions, and an error for each that none of the
-- definitions compiles.
pub data Items : Type 0 where
  gathered : Actions → CompileErrors → Items

abbrev pub add_item : Option Action → Items → Items
add_item none (gathered xs es) = gathered xs (CompileErrors.more (plain "no action matched") es)
add_item (some a) (gathered xs es) = gathered (Actions.more a xs) es

abbrev pub finish_items : Items → Compiled Action
finish_items (gathered xs CompileErrors.end) = ok (block xs)
finish_items (gathered xs (CompileErrors.more e es)) = err (joined (CompileErrors.more e es))

unfoldable pub gather : (ℕ → Value → Compiled (Option Action)) → ℕ → List Value → Compiled Items
gather f i [] = ok (gathered Actions.end CompileErrors.end)
gather f i (v ∷ vs) = f i v >>= λ a. gather f (suc i) vs >>= λ rest. ok (add_item a rest)

abbrev pub conditions : List Condition → Conditions
conditions [] = Conditions.end
conditions (c ∷ cs) = Conditions.more c (conditions cs)

abbrev pub actions : List Action → Actions
actions [] = Actions.end
actions (a ∷ xs) = Actions.more a (actions xs)

abbrev pub workflow_names : List (String × Value) → List String
workflow_names [] = []
workflow_names (x ∷ xs) = x.0 ∷ workflow_names xs

module _ (t : Tools) where
  unfoldable pub payload_list_at {ℓ} :
      {A : Type ℓ}
      → String
      → (SourcePath → Value → Compiled A)
      → SourcePath
      → Value
      → Compiled (List A)
  payload_list_at key item =
      payload_single_key_value t key (payload_must_succeed t (payload_list t item))

  unfoldable pub program : SourcePath → Value → Compiled String
  program path v = payload_string t path v >>= λ s.
      if t.compiles s then ok s else err (error_at path (plain "type-check error"))

  module _ (again : SourcePath → Value → Compiled Condition) where
    unfoldable pub compile_and : SourcePath → Value → Compiled Condition
    compile_and path v =
        map_err (error_at path) (payload_list_at "and" (payload_any t) path v) >>= λ vs.
        each (λ i x. map_err (fatal_at path) (again (child path (t.numeric_path_part i)) x)) 0 vs
        >>= λ cs. ok (and (conditions cs))

    unfoldable pub compile_or : SourcePath → Value → Compiled Condition
    compile_or path v = payload_list_at "or" (payload_any t) path v >>= λ vs.
        each (λ i x. map_err (fatal_at path) (again (child path (t.numeric_path_part i)) x)) 0 vs
        >>= λ cs. ok (or (conditions cs))

    unfoldable pub compile_not : SourcePath → Value → Compiled Condition
    compile_not path v =
        map_err (error_at path)
          (payload_single_key_value t "not" (payload_must_succeed t (payload_any t)) path v)
        >>= λ x. map_err (error_at path) (again (child path "not") x) >>= λ c. ok (negated c)

  unfoldable pub compile_expression : SourcePath → Value → Compiled Condition
  compile_expression path v =
      map_err (error_at path) (
        payload_union
          (payload_single_key_value t "expression" (payload_must_succeed t program) path v)
          (payload_must_succeed t program path v))
      >>= λ p. ok (expression p)

  unfoldable pub compile_condition : ℕ → SourcePath → Value → Compiled Condition
  compile_condition zero path v = stuck
  compile_condition (suc f) path v =
      first_of (λ c. ok c) no_condition
        (compile_and (compile_condition f) (child path "and") v
          ∷ compile_not (compile_condition f) (child path "not") v
          ∷ compile_or (compile_condition f) (child path "or") v
          ∷ compile_expression (child path "expression") v
          ∷ [])

  -- The actions that are their name alone.
  unfoldable pub compile_named : String → Action → SourcePath → Value → Compiled Action
  compile_named name a path v = map_err (error_at path) (payload_literal t name v) >>= λ s. ok a

  unfoldable pub compile_set_content_type : SourcePath → Value → Compiled Action
  compile_set_content_type path v =
      map_err (error_at path) (
        payload_single_key_value t "set_content_type"
          (payload_must_succeed t (payload_content_type t)) path v)
      >>= λ ct. ok (set_content_type ct)

  unfoldable pub check_names : List String → SourcePath → List String → Compiled (List String)
  check_names workflow_names path [] = ok []
  check_names workflow_names path (name ∷ names) =
      if mem name workflow_names
      then (check_names workflow_names path names >>= λ rest. ok (name ∷ rest))
      else err (fatal_at path (plain "workflow not found"))

  unfoldable pub compile_run_workflow : List String → SourcePath → Value → Compiled Action
  compile_run_workflow workflow_names path v =
      map_err (error_at path) (payload_list_at "run_workflow" (payload_string t) path v)
      >>= λ names. check_names workflow_names path names >>= λ names'. ok (run_workflow names')

  unfoldable pub payload_struct : SourcePath → Value → Compiled IfElsePayload
  payload_struct path v = from_option "decode" (t.decode_if_else v)

  module _ (cond : SourcePath → Value → Compiled Condition)
      (act : SourcePath → Value → Compiled Action) where
    unfoldable pub compile_find_match : SourcePath → Value → Compiled Action
    compile_find_match path v =
        map_err (error_at path) (payload_list_at "find_match" (payload_any t) path v) >>= λ vs.
        each (λ i x. act (child path (t.numeric_path_part i)) x) 0 vs >>= λ xs.
        ok (find_match path (actions xs))

    unfoldable pub compile_present : SourcePath → Value → Compiled OptAction
    compile_present path v = act path v >>= λ a. ok (present a)

    -- An action of an `if_else`, if it is there.
    unfoldable pub compile_opt : SourcePath → Value → Compiled OptAction
    compile_opt path null = ok absent
    compile_opt path (Value.boolean b) = compile_present path (Value.boolean b)
    compile_opt path (Value.integer i) = compile_present path (Value.integer i)
    compile_opt path (Value.text s) = compile_present path (Value.text s)
    compile_opt path (seq vs) = compile_present path (seq vs)
    compile_opt path (Value.object fs) = compile_present path (Value.object fs)

    unfoldable pub compile_if_else : SourcePath → Value → Compiled Action
    compile_if_else path v =
        map_err (error_at path)
          (payload_single_key_value t "if_else" (payload_must_succeed t payload_struct) path v)
        >>= λ p. map_err (error_at path) (cond (child path "condition") p.condition) >>= λ c.
            map_err (error_at path) (compile_opt (child path "if_action") p.if_action) >>= λ a.
            map_err (error_at path) (compile_opt (child path "else_action") p.else_action) >>= λ b.
            ok (if_else c a b)

    -- One action: the definitions one after another.
    unfoldable pub compile_single : List String → SourcePath → Value → Compiled (Option Action)
    compile_single workflow_names path v =
        first_of (λ a. ok (some a)) (λ es. ok none)
          (compile_named "attach_local_content_by_search" attach_local_content_by_search
              (child path "attach_local_content_by_search") v
            ∷ compile_named "attach_tmdb_content_by_search" attach_tmdb_content_by_search
                (child path "attach_tmdb_content_by_search") v
            ∷ compile_find_match (child path "find_match") v
            ∷ compile_if_else (child path "if_else") v
            ∷ compile_named "llm_classify" llm_classify (child path "llm_classify") v
            ∷ compile_named "unmatched" (unmatched (child path "unmatched"))
                (child path "unmatched") v
            ∷ compile_named "parse_date" parse_date (child path "parse_date") v
            ∷ compile_named "parse_video_content" parse_video_content
                (child path "parse_video_content") v
            ∷ compile_run_workflow workflow_names (child path "run_workflow") v
            ∷ compile_set_content_type (child path "set_content_type") v
            ∷ [])

    unfoldable pub compile_single_at :
        List String → SourcePath → ℕ → Value → Compiled (Option Action)
    compile_single_at workflow_names path i =
        compile_single workflow_names (child path (t.numeric_path_part i))

    -- An action, or the actions of a list.
    unfoldable pub compile_actions : List String → SourcePath → Value → Compiled Items
    compile_actions ws path (seq vs) = gather (compile_single_at ws path) 0 (items vs)
    compile_actions ws path null = gather (λ i. compile_single ws path) 0 (null ∷ [])
    compile_actions ws path (Value.boolean b) =
        gather (λ i. compile_single ws path) 0 (Value.boolean b ∷ [])
    compile_actions ws path (Value.integer n) =
        gather (λ i. compile_single ws path) 0 (Value.integer n ∷ [])
    compile_actions ws path (Value.text s) =
        gather (λ i. compile_single ws path) 0 (Value.text s ∷ [])
    compile_actions ws path (Value.object fs) =
        gather (λ i. compile_single ws path) 0 (Value.object fs ∷ [])

  unfoldable pub compile_action : List String → ℕ → SourcePath → Value → Compiled Action
  compile_action workflow_names zero path v = stuck
  compile_action workflow_names (suc f) path v =
      compile_actions (compile_condition f) (compile_action workflow_names f) workflow_names path v
      >>= finish_items

  -- The workflows, in the order in which the map of the source is visited.
  unfoldable pub compile_each : List String → ℕ → List (String × Value) → Compiled Workflows
  compile_each workflow_names f [] = ok []
  compile_each workflow_names f (x ∷ xs) =
      map_err (fatal_at []) (compile_action workflow_names f (child ("workflows" ∷ []) x.0) x.1)
      >>= λ a. compile_each workflow_names f xs >>= λ rest. ok ((x.0, a) ∷ rest)

  unfoldable pub compile_workflows : ℕ → List (String × Value) → Compiled Workflows
  compile_workflows f source = compile_each (workflow_names source) f source
