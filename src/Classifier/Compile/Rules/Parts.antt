-- ===== src/Classifier/Compile/Rules/Parts.antt =====
-- internal/classifier: that rules compile to what they mean.
use Prim.Native.String.{String}
use hexmagnet.Prelude.{
  ℕ, suc, ◌≡◌, refl, true, false, List, [], ◌∷◌, All, lookup, string_eq, str_eq,
}
use hexmagnet.Webhook.{mem}
use hexmagnet.Torznab.{
  ContentType, movie, tv_show, music, ebook, comic, audiobook, game, software, adult, other,
  unknown,
}
use hexmagnet.Classifier.{Condition, Action, find_match, if_else, run_workflow, set_content_type}
use hexmagnet.Classifier.Payload.{
  Value, text, seq, object, empty, field, items, SourcePath, Compiled, ok, error_at, Tools, child,
  each, payload_any, payload_string, payload_list, payload_must_succeed, payload_content_type,
  parse_content_type,
}
use hexmagnet.Classifier.Compile.{
  actions, payload_list_at, compile_set_content_type, check_names, compile_run_workflow,
  payload_struct, compile_find_match, compile_opt, compile_if_else,
}
use hexmagnet.Classifier.Compile.Gives.{Decodes, DecodesParts, optional, or_null}
use hexmagnet.Classifier.Compile.Finds.{
  Fails, bind-Fails, map_err-Fails, single_key-same, single_key-other, single_key-text, ArePresent,
  list_at-seq, list_at-other, list_at-text,
}
use hexmagnet.Classifier.Compile.Rules.{
  Rule, Rules, OptRules, simple, first, choice, workflow, content_type, condition_value, texts,
  content_type_name, rule_value, rule_values, opt_value, known_type, opt_action,
}

module _ (t : Tools) (d : Decodes t) where
  rule-present :
      (r : Rule) (path : SourcePath) → payload_any t path (rule_value r) ≡ ok (rule_value r)
  unfolding payload_any
  rule-present (simple s) path = refl
  rule-present (first rs) path = refl
  rule-present (choice c a b) path = refl
  rule-present (workflow names) path = refl
  rule-present (content_type ct) path = refl

  rules-ArePresent : (rs : Rules) → ArePresent t d (rule_values rs)
  rules-ArePresent Rules.end = tt
  rules-ArePresent (Rules.more r rs) = (rule-present r, rules-ArePresent rs)

  content_type-means :
      (path : SourcePath) (ct : ContentType)
      → payload_content_type t path (text (content_type_name ct)) ≡ ok (known_type ct)
  unfolding payload_content_type parse_content_type lookup
  content_type-means path movie = rw (d.strings (text "movie")) refl
  content_type-means path tv_show = rw (d.strings (text "tv_show")) refl
  content_type-means path music = rw (d.strings (text "music")) refl
  content_type-means path ebook = rw (d.strings (text "ebook")) refl
  content_type-means path comic = rw (d.strings (text "comic")) refl
  content_type-means path audiobook = rw (d.strings (text "audiobook")) refl
  content_type-means path game = rw (d.strings (text "game")) refl
  content_type-means path software = rw (d.strings (text "software")) refl
  content_type-means path adult = rw (d.strings (text "adult")) refl
  content_type-means path other = rw (d.strings (text "other")) refl
  content_type-means path unknown = rw (d.strings (text "unknown")) refl

  pub set_content_type-means :
      (path : SourcePath) (ct : ContentType)
      → compile_set_content_type t path (rule_value (content_type ct))
        ≡ ok (set_content_type (known_type ct))
  unfolding compile_set_content_type payload_must_succeed
  set_content_type-means path ct =
      rw
        (single_key-same t d "set_content_type" (payload_must_succeed t (payload_content_type t))
          path (text (content_type_name ct)) refl)
        (rw (content_type-means (child path "set_content_type") ct) refl)

  each-texts :
      (path : SourcePath) (i : ℕ) (names : List String)
      → each
          (λ i x. payload_string t (child path (t.numeric_path_part i)) x)
          i
          (items (texts names))
        ≡ ok names
  unfolding each payload_string
  each-texts path i [] = refl
  each-texts path i (s ∷ ss) = rw (each-texts path (suc i) ss) refl

  module _ (ns : List String) where
    check_names-ok :
        (path : SourcePath) (names : List String)
        → All (λ name. mem name ns ≡ true) names
        → check_names t ns path names ≡ ok names
    unfolding check_names
    check_names-ok path [] h = refl
    check_names-ok path (s ∷ ss) h = rw (h.0) (rw (check_names-ok path ss h.1) refl)

    pub run_workflow-means :
        (path : SourcePath) (names : List String)
        → All (λ name. mem name ns ≡ true) names
        → compile_run_workflow t ns path (rule_value (workflow names)) ≡ ok (run_workflow names)
    unfolding compile_run_workflow payload_list_at payload_must_succeed payload_list
    run_workflow-means path names h =
        rw
          (single_key-same t d "run_workflow"
            (payload_must_succeed t (payload_list t (payload_string t))) path (seq (texts names))
            refl)
          (rw (each-texts (child path "run_workflow") 0 names)
            (rw (check_names-ok path names h) refl))

    module _ (cond : SourcePath → Value → Compiled Condition)
        (act : SourcePath → Value → Compiled Action) where
      pub find_match-means :
          (path : SourcePath) (rs : Rules) (xs : List Action)
          → each (λ i x. act (child path (t.numeric_path_part i)) x) 0 (items (rule_values rs))
            ≡ ok xs
          → compile_find_match t cond act path (rule_value (first rs))
            ≡ ok (find_match path (actions xs))
      unfolding compile_find_match
      find_match-means path rs xs h =
          rw (list_at-seq t d "find_match" path (rule_values rs) refl (rules-ArePresent rs))
            (rw h refl)

      pub if_else-means :
          (path : SourcePath) (c : Condition) (a b : OptRules)
          → DecodesParts t
          → cond (child path "condition") (condition_value c) ≡ ok c
          → compile_opt t cond act (child path "if_action") (or_null (opt_value a))
            ≡ ok (opt_action t (child path "if_action") a)
          → compile_opt t cond act (child path "else_action") (or_null (opt_value b))
            ≡ ok (opt_action t (child path "else_action") b)
          → compile_if_else t cond act path (rule_value (choice c a b))
            ≡ ok (
                if_else c
                  (opt_action t (child path "if_action") a)
                  (opt_action t (child path "else_action") b))
      unfolding compile_if_else payload_must_succeed payload_struct
      if_else-means path c a b p h k l =
          rw
            (single_key-same t d "if_else" (payload_must_succeed t (payload_struct t)) path
              (object (
                field "condition" (condition_value c) (
                  optional "if_action" (opt_value a) (optional "else_action" (opt_value b) empty))))
              refl)
            (rw (p (condition_value c) (opt_value a) (opt_value b)) (rw h (rw k (rw l refl))))

      module _ (path : SourcePath) where
        pub find_match-other :
            (k : String) (x : Value)
            → str_eq k "find_match" ≡ false
            → Fails (compile_find_match t cond act path (object (field k x empty)))
        unfolding compile_find_match
        find_match-other k x h =
            bind-Fails _ _
              (map_err-Fails (error_at path) _ (list_at-other t d "find_match" _ path k x h))

        pub find_match-text : (s : String) → Fails (compile_find_match t cond act path (text s))
        unfolding compile_find_match
        find_match-text s =
            bind-Fails _ _
              (map_err-Fails (error_at path) _ (list_at-text t d "find_match" _ path s))

        pub if_else-other :
            (k : String) (x : Value)
            → str_eq k "if_else" ≡ false
            → Fails (compile_if_else t cond act path (object (field k x empty)))
        unfolding compile_if_else
        if_else-other k x h =
            bind-Fails _ _
              (map_err-Fails (error_at path) _ (single_key-other t d "if_else" _ path k x h))

        pub if_else-text : (s : String) → Fails (compile_if_else t cond act path (text s))
        unfolding compile_if_else
        if_else-text s =
            bind-Fails _ _
              (map_err-Fails (error_at path) _ (single_key-text t d "if_else" _ path s))

        pub run_workflow-other :
            (k : String) (x : Value)
            → str_eq k "run_workflow" ≡ false
            → Fails (compile_run_workflow t ns path (object (field k x empty)))
        unfolding compile_run_workflow
        run_workflow-other k x h =
            bind-Fails _ _
              (map_err-Fails (error_at path) _ (list_at-other t d "run_workflow" _ path k x h))

        pub run_workflow-text : (s : String) → Fails (compile_run_workflow t ns path (text s))
        unfolding compile_run_workflow
        run_workflow-text s =
            bind-Fails _ _
              (map_err-Fails (error_at path) _ (list_at-text t d "run_workflow" _ path s))

        pub set_content_type-other :
            (k : String) (x : Value)
            → str_eq k "set_content_type" ≡ false
            → Fails (compile_set_content_type t path (object (field k x empty)))
        unfolding compile_set_content_type
        set_content_type-other k x h =
            bind-Fails _ _ (
              map_err-Fails (error_at path) _
                (single_key-other t d "set_content_type" _ path k x h))

        pub set_content_type-text : (s : String) → Fails (compile_set_content_type t path (text s))
        unfolding compile_set_content_type
        set_content_type-text s =
            bind-Fails _ _
              (map_err-Fails (error_at path) _ (single_key-text t d "set_content_type" _ path s))
