-- ===== src/Classifier/Compile/Known.antt =====
-- internal/classifier: that the compilation of actions comes to an end, and which workflows call which.
use Prim.Native.String.{String}
use hexmagnet.Prelude.{
  ℕ, zero, suc, ◌≤◌, ◌≡◌, refl, List, [], ◌∷◌, All, Option, none, some, string_eq, arith,
}
use hexmagnet.Classifier.{
  Condition, Action, Actions, unmatched, attach_local_content_by_search,
  attach_tmdb_content_by_search, parse_date, parse_video_content, llm_classify,
}
use hexmagnet.Classifier.Payload.{
  Value, null, boolean, integer, text, seq, object, items, SourcePath, CompileErrors, error_at,
  fatal_at, Compiled, ok, from_option, Tools, child, payload_any, payload_must_succeed,
  IfElsePayload,
}
use hexmagnet.Classifier.Compile.{
  gathered, gather, compile_condition, compile_named, compile_set_content_type,
  compile_run_workflow, payload_struct, compile_find_match, compile_present, compile_opt,
  compile_if_else, compile_single, compile_single_at, compile_actions, compile_action,
}
use hexmagnet.Classifier.Compile.Gives.{
  items-AtMost, size, AtMost, Gives, map_err-Gives, AtMost-size, bind-Gives, first_of-Gives,
  each-Gives, Decodes, IsPart, IsPart-AtMost, single_key-Gives,
}
use hexmagnet.Classifier.Compile.Ends.{
  no_fuel, Anything, list_at-Gives, any-AtMost, compile_condition-ends,
}
use hexmagnet.Classifier.Compile.Calls.{
  CallsKnown, OptKnown, FoundKnown, ItemsKnown, actions-AllKnown, add_item-ItemsKnown,
  finish_items-CallsKnown, gather-ItemsKnown, run_workflow-CallsKnown, named-CallsKnown,
  set_content_type-CallsKnown,
}

module _ (ns : List String) where
  module _ (t : Tools) (d : Decodes t) where
    module _ (n : ℕ) (cond : SourcePath → Value → Compiled Condition)
        (cond_ends : (path : SourcePath) (x : Value) → AtMost n x → Gives Anything (cond path x))
        (act : SourcePath → Value → Compiled Action)
        (act_known : (path : SourcePath) (x : Value)
          → AtMost n x
          → Gives (CallsKnown ns) (act path x)) where
      find_match-CallsKnown :
          (path : SourcePath) (v : Value)
          → size v ≤ suc n
          → Gives (CallsKnown ns) (compile_find_match t cond act path v)
      unfolding compile_find_match
      find_match-CallsKnown path v l =
          bind-Gives (All (AtMost n)) (CallsKnown ns) _ _
            (map_err-Gives (All (AtMost n)) (error_at path) _ (
              list_at-Gives t d (AtMost n) n "find_match" (payload_any t) path v (any-AtMost t d n)
                l))
            (λ vs a.
              bind-Gives (All (CallsKnown ns)) (CallsKnown ns) _ _
                (each-Gives (AtMost n) (CallsKnown ns)
                  (λ i x. act (child path (t.numeric_path_part i)) x) 0 vs
                  (λ i x. act_known (child path (t.numeric_path_part i)) x) a)
                (λ xs. actions-AllKnown ns xs))

      present-OptKnown :
          (path : SourcePath) (x : Value)
          → AtMost n x
          → Gives (OptKnown ns) (compile_present t cond act path x)
      unfolding compile_present
      present-OptKnown path x a =
          bind-Gives (CallsKnown ns) (OptKnown ns) _ _ (act_known path x a) (λ b k. k)

      opt-OptKnown :
          (path : SourcePath) (x : Value)
          → AtMost n x
          → Gives (OptKnown ns) (compile_opt t cond act path x)
      unfolding compile_opt
      opt-OptKnown path null a = tt
      opt-OptKnown path (boolean b) a = present-OptKnown path (boolean b) a
      opt-OptKnown path (integer i) a = present-OptKnown path (integer i) a
      opt-OptKnown path (text s) a = present-OptKnown path (text s) a
      opt-OptKnown path (seq vs) a = present-OptKnown path (seq vs) a
      opt-OptKnown path (object fs) a = present-OptKnown path (object fs) a

      abbrev PartsAtMost : IfElsePayload → Type 0
      PartsAtMost p = AtMost n p.condition × AtMost n p.if_action × AtMost n p.else_action

      struct-PartsAtMost :
          (path : SourcePath) (x : Value) → AtMost n x → Gives PartsAtMost (payload_struct t path x)
      unfolding payload_struct
      struct-PartsAtMost path x a = parts (t.decode_if_else x) (d.structs x)
        where
          parts :
              (o : Option IfElsePayload)
              → ((p : IfElsePayload)
                  → o ≡ some p
                  → IsPart x p.condition × IsPart x p.if_action × IsPart x p.else_action)
              → Gives PartsAtMost (from_option "decode" o)
          parts none h = tt
          parts (some p) h =
              let q = h p refl in
              (
                IsPart-AtMost n x p.condition q.0 (AtMost-size n x a),
                IsPart-AtMost n x p.if_action q.1 (AtMost-size n x a),
                IsPart-AtMost n x p.else_action q.2 (AtMost-size n x a),
              )

      if_else-CallsKnown :
          (path : SourcePath) (v : Value)
          → size v ≤ suc n
          → Gives (CallsKnown ns) (compile_if_else t cond act path v)
      unfolding compile_if_else payload_must_succeed
      if_else-CallsKnown path v l =
          bind-Gives PartsAtMost (CallsKnown ns) _ _
            (map_err-Gives PartsAtMost (error_at path) _ (
              single_key-Gives PartsAtMost t d n "if_else" _ path v
                (λ path' x a.
                  map_err-Gives PartsAtMost (fatal_at path') _ (struct-PartsAtMost path' x a))
                l))
            (λ p k.
              bind-Gives Anything (CallsKnown ns) _ _
                (map_err-Gives Anything (error_at path) _
                  (cond_ends (child path "condition") p.condition k.0))
                (λ c u.
                  bind-Gives (OptKnown ns) (CallsKnown ns) _ _
                    (map_err-Gives (OptKnown ns) (error_at path) _
                      (opt-OptKnown (child path "if_action") p.if_action k.1))
                    (λ a ka.
                      bind-Gives (OptKnown ns) (CallsKnown ns) _ _
                        (map_err-Gives (OptKnown ns) (error_at path) _
                          (opt-OptKnown (child path "else_action") p.else_action k.2))
                        (λ b kb. (ka, kb)))))

      single-FoundKnown :
          (path : SourcePath) (v : Value)
          → size v ≤ suc n
          → Gives (FoundKnown ns) (compile_single t cond act ns path v)
      unfolding compile_single
      single-FoundKnown path v l =
          first_of-Gives (CallsKnown ns) (FoundKnown ns) (λ a. ok (some a)) (λ es. ok none)
            (compile_named t "attach_local_content_by_search" attach_local_content_by_search
                (child path "attach_local_content_by_search") v
              ∷ compile_named t "attach_tmdb_content_by_search" attach_tmdb_content_by_search
                  (child path "attach_tmdb_content_by_search") v
              ∷ compile_find_match t cond act (child path "find_match") v
              ∷ compile_if_else t cond act (child path "if_else") v
              ∷ compile_named t "llm_classify" llm_classify (child path "llm_classify") v
              ∷ compile_named t "unmatched" (unmatched (child path "unmatched"))
                  (child path "unmatched") v
              ∷ compile_named t "parse_date" parse_date (child path "parse_date") v
              ∷ compile_named t "parse_video_content" parse_video_content
                  (child path "parse_video_content") v
              ∷ compile_run_workflow t ns (child path "run_workflow") v
              ∷ compile_set_content_type t (child path "set_content_type") v
              ∷ [])
            (λ a k. k) (λ es. tt)
            (
              named-CallsKnown ns t d "attach_local_content_by_search" _ _ v tt,
              (
                named-CallsKnown ns t d "attach_tmdb_content_by_search" _ _ v tt,
                (
                  find_match-CallsKnown (child path "find_match") v l,
                  (
                    if_else-CallsKnown (child path "if_else") v l,
                    (
                      named-CallsKnown ns t d "llm_classify" _ _ v tt,
                      (
                        named-CallsKnown ns t d "unmatched" _ _ v tt,
                        (
                          named-CallsKnown ns t d "parse_date" _ _ v tt,
                          (
                            named-CallsKnown ns t d "parse_video_content" _ _ v tt,
                            (
                              run_workflow-CallsKnown ns t d n (child path "run_workflow") v l,
                              (
                                set_content_type-CallsKnown ns t d n (child path "set_content_type")
                                    v l,
                                tt,
                              ),
                            ),
                          ),
                        ),
                      ),
                    ),
                  ),
                ),
              ),
            )

      one :
          (path : SourcePath) (v : Value)
          → size v ≤ suc n
          → Gives (ItemsKnown ns) (gather (λ i. compile_single t cond act ns path) 0 (v ∷ []))
      unfolding gather
      one path v l =
          bind-Gives (FoundKnown ns) (ItemsKnown ns) _ _ (single-FoundKnown path v l)
            (λ b k. add_item-ItemsKnown ns b (gathered Actions.end CompileErrors.end) k tt)

      actions-ItemsKnown :
          (path : SourcePath) (v : Value)
          → size v ≤ suc n
          → Gives (ItemsKnown ns) (compile_actions t cond act ns path v)
      unfolding compile_actions compile_single_at
      actions-ItemsKnown path null l = one path null l
      actions-ItemsKnown path (boolean b) l = one path (boolean b) l
      actions-ItemsKnown path (integer i) l = one path (integer i) l
      actions-ItemsKnown path (text s) l = one path (text s) l
      actions-ItemsKnown path (object fs) l = one path (object fs) l
      actions-ItemsKnown path (seq vs) l =
          gather-ItemsKnown ns n (compile_single_at t cond act ns path) 0 (items vs)
            (λ i x a.
              single-FoundKnown (child path (t.numeric_path_part i)) x
                (let k = AtMost-size n x a in omega (arith, k)))
            (items-AtMost n vs (omega (arith, l)))

    -- Compiling an action, or a list of them, ends with an action or an error: no more fuel is needed
    -- than the size of what is compiled. The names of the workflows that a compiled action calls,
    -- itself or by one of its parts, are among those that compilation was given.
    pub compile_action-CallsKnown :
        (f : ℕ) (path : SourcePath) (v : Value)
        → size v ≤ f
        → Gives (CallsKnown ns) (compile_action t ns f path v)
    unfolding compile_action
    compile_action-CallsKnown zero path v l = absurd (no_fuel v l)
    compile_action-CallsKnown (suc n) path v l =
        bind-Gives (ItemsKnown ns) (CallsKnown ns) _ _
          (actions-ItemsKnown n (compile_condition t n)
            (λ path x a. compile_condition-ends t d n path x (AtMost-size n x a))
            (compile_action t ns n)
            (λ path x a. compile_action-CallsKnown n path x (AtMost-size n x a)) path v l)
          (λ i k. finish_items-CallsKnown ns i k)
