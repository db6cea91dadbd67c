-- ===== src/Classifier/Compile/Rules/Singles.antt =====
-- internal/classifier: that the definition of a rule is the first that compiles its value.
use Prim.Native.String.{String}
use hexmagnet.Prelude.{◌≡◌, refl, true, List, All, none, some, string_eq}
use hexmagnet.Webhook.{mem}
use hexmagnet.Torznab.{ContentType}
use hexmagnet.Classifier.{
  Condition, Action, find_match, run_workflow, unmatched, set_content_type,
  attach_local_content_by_search, attach_tmdb_content_by_search, parse_date, parse_video_content,
  llm_classify,
}
use hexmagnet.Classifier.Payload.{Value, items, SourcePath, Compiled, ok, Tools, child, each}
use hexmagnet.Classifier.Compile.{actions, compile_opt, compile_single}
use hexmagnet.Classifier.Compile.Gives.{Decodes, DecodesParts, or_null}
use hexmagnet.Classifier.Compile.Finds.{
  Finds-here, Finds-later, named-same, named-other, named-object,
}
use hexmagnet.Classifier.Compile.Rules.{
  Simple, Rules, OptRules, attach_local, attach_tmdb, classify_llm, no_match, date, video, simple,
  first, choice, workflow, content_type, condition_value, rule_value, rule_values, opt_value,
  simple_action, known_type, rule_action, opt_action,
}
use hexmagnet.Classifier.Compile.Rules.Parts.{
  set_content_type-means, run_workflow-means, find_match-means, if_else-means, find_match-other,
  find_match-text, if_else-other, if_else-text, run_workflow-other,
}

module _ (t : Tools) (d : Decodes t) (ns : List String) where
  module _ (cond : SourcePath → Value → Compiled Condition)
      (act : SourcePath → Value → Compiled Action) (path : SourcePath) where
    abbrev pub Single : Value → Action → Type 0
    Single v a = compile_single t cond act ns path v ≡ ok (some a)

    pub simple-means : (s : Simple) → Single (rule_value (simple s)) (simple_action path s)
    unfolding compile_single
    simple-means attach_local =
        Finds-here (λ a. ok (some a)) _ _ attach_local_content_by_search
          (some attach_local_content_by_search)
          (named-same t d "attach_local_content_by_search" attach_local_content_by_search
            (child path "attach_local_content_by_search") refl)
          refl (λ es. ok none)
    simple-means attach_tmdb =
        Finds-later (λ a. ok (some a)) _ _ (some attach_tmdb_content_by_search)
          (named-other t d "attach_local_content_by_search" _
            (child path "attach_local_content_by_search") "attach_tmdb_content_by_search" refl)
          (Finds-here (λ a. ok (some a)) _ _ attach_tmdb_content_by_search
            (some attach_tmdb_content_by_search)
            (named-same t d "attach_tmdb_content_by_search" attach_tmdb_content_by_search
              (child path "attach_tmdb_content_by_search") refl)
            refl)
          (λ es. ok none)
    simple-means classify_llm =
        Finds-later (λ a. ok (some a)) _ _ (some llm_classify)
          (named-other t d "attach_local_content_by_search" _
            (child path "attach_local_content_by_search") "llm_classify" refl)
          (Finds-later (λ a. ok (some a)) _ _ (some llm_classify)
            (named-other t d "attach_tmdb_content_by_search" _
              (child path "attach_tmdb_content_by_search") "llm_classify" refl)
            (Finds-later (λ a. ok (some a)) _ _ (some llm_classify)
              (find_match-text t d ns cond act (child path "find_match") "llm_classify")
              (Finds-later (λ a. ok (some a)) _ _ (some llm_classify)
                (if_else-text t d ns cond act (child path "if_else") "llm_classify")
                (Finds-here (λ a. ok (some a)) _ _ llm_classify (some llm_classify)
                  (named-same t d "llm_classify" llm_classify (child path "llm_classify") refl)
                  refl))))
          (λ es. ok none)
    simple-means no_match =
        Finds-later (λ a. ok (some a)) _ _ (some (unmatched (child path "unmatched")))
          (named-other t d "attach_local_content_by_search" _
            (child path "attach_local_content_by_search") "unmatched" refl)
          (Finds-later (λ a. ok (some a)) _ _ (some (unmatched (child path "unmatched")))
            (named-other t d "attach_tmdb_content_by_search" _
              (child path "attach_tmdb_content_by_search") "unmatched" refl)
            (Finds-later (λ a. ok (some a)) _ _ (some (unmatched (child path "unmatched")))
              (find_match-text t d ns cond act (child path "find_match") "unmatched")
              (Finds-later (λ a. ok (some a)) _ _ (some (unmatched (child path "unmatched")))
                (if_else-text t d ns cond act (child path "if_else") "unmatched")
                (Finds-later (λ a. ok (some a)) _ _ (some (unmatched (child path "unmatched")))
                  (named-other t d "llm_classify" _ (child path "llm_classify") "unmatched" refl)
                  (Finds-here (λ a. ok (some a)) _ _ (unmatched (child path "unmatched"))
                    (some (unmatched (child path "unmatched")))
                    (named-same t d "unmatched" (unmatched (child path "unmatched"))
                      (child path "unmatched") refl)
                    refl)))))
          (λ es. ok none)
    simple-means date =
        Finds-later (λ a. ok (some a)) _ _ (some parse_date)
          (named-other t d "attach_local_content_by_search" _
            (child path "attach_local_content_by_search") "parse_date" refl)
          (Finds-later (λ a. ok (some a)) _ _ (some parse_date)
            (named-other t d "attach_tmdb_content_by_search" _
              (child path "attach_tmdb_content_by_search") "parse_date" refl)
            (Finds-later (λ a. ok (some a)) _ _ (some parse_date)
              (find_match-text t d ns cond act (child path "find_match") "parse_date")
              (Finds-later (λ a. ok (some a)) _ _ (some parse_date)
                (if_else-text t d ns cond act (child path "if_else") "parse_date")
                (Finds-later (λ a. ok (some a)) _ _ (some parse_date)
                  (named-other t d "llm_classify" _ (child path "llm_classify") "parse_date" refl)
                  (Finds-later (λ a. ok (some a)) _ _ (some parse_date)
                    (named-other t d "unmatched" _ (child path "unmatched") "parse_date" refl)
                    (Finds-here (λ a. ok (some a)) _ _ parse_date (some parse_date)
                      (named-same t d "parse_date" parse_date (child path "parse_date") refl)
                      refl))))))
          (λ es. ok none)
    simple-means video =
        Finds-later (λ a. ok (some a)) _ _ (some parse_video_content)
          (named-other t d "attach_local_content_by_search" _
            (child path "attach_local_content_by_search") "parse_video_content" refl)
          (Finds-later (λ a. ok (some a)) _ _ (some parse_video_content)
            (named-other t d "attach_tmdb_content_by_search" _
              (child path "attach_tmdb_content_by_search") "parse_video_content" refl)
            (Finds-later (λ a. ok (some a)) _ _ (some parse_video_content)
              (find_match-text t d ns cond act (child path "find_match") "parse_video_content")
              (Finds-later (λ a. ok (some a)) _ _ (some parse_video_content)
                (if_else-text t d ns cond act (child path "if_else") "parse_video_content")
                (Finds-later (λ a. ok (some a)) _ _ (some parse_video_content)
                  (named-other t d "llm_classify" _ (child path "llm_classify")
                    "parse_video_content" refl)
                  (Finds-later (λ a. ok (some a)) _ _ (some parse_video_content)
                    (named-other t d "unmatched" _ (child path "unmatched") "parse_video_content"
                      refl)
                    (Finds-later (λ a. ok (some a)) _ _ (some parse_video_content)
                      (named-other t d "parse_date" _ (child path "parse_date")
                        "parse_video_content" refl)
                      (Finds-here (λ a. ok (some a)) _ _ parse_video_content
                        (some parse_video_content)
                        (named-same t d "parse_video_content" parse_video_content
                          (child path "parse_video_content") refl)
                        refl)))))))
          (λ es. ok none)

    pub first-means :
        (rs : Rules) (xs : List Action)
        → each
            (λ i x. act (child (child path "find_match") (t.numeric_path_part i)) x)
            0
            (items (rule_values rs))
          ≡ ok xs
        → Single (rule_value (first rs)) (find_match (child path "find_match") (actions xs))
    unfolding compile_single
    first-means rs xs h =
        Finds-later (λ a. ok (some a)) _ _
          (some (find_match (child path "find_match") (actions xs)))
          (named-object t d "attach_local_content_by_search" _
            (child path "attach_local_content_by_search") "find_match" _)
          (Finds-later (λ a. ok (some a)) _ _
            (some (find_match (child path "find_match") (actions xs)))
            (named-object t d "attach_tmdb_content_by_search" _
              (child path "attach_tmdb_content_by_search") "find_match" _)
            (Finds-here (λ a. ok (some a)) _ _ (find_match (child path "find_match") (actions xs))
              (some (find_match (child path "find_match") (actions xs)))
              (find_match-means t d ns cond act (child path "find_match") rs xs h) refl))
          (λ es. ok none)

    pub choice-means :
        (c : Condition) (a b : OptRules)
        → DecodesParts t
        → cond (child (child path "if_else") "condition") (condition_value c) ≡ ok c
        → compile_opt t cond act (child (child path "if_else") "if_action") (or_null (opt_value a))
          ≡ ok (opt_action t (child (child path "if_else") "if_action") a)
        → compile_opt t cond act
            (child (child path "if_else") "else_action")
            (or_null (opt_value b))
          ≡ ok (opt_action t (child (child path "if_else") "else_action") b)
        → Single (rule_value (choice c a b)) (rule_action t path (choice c a b))
    unfolding compile_single
    choice-means c a b p h k l =
        Finds-later (λ a. ok (some a)) _ _ (some (rule_action t path (choice c a b)))
          (named-object t d "attach_local_content_by_search" _
            (child path "attach_local_content_by_search") "if_else" _)
          (Finds-later (λ a. ok (some a)) _ _ (some (rule_action t path (choice c a b)))
            (named-object t d "attach_tmdb_content_by_search" _
              (child path "attach_tmdb_content_by_search") "if_else" _)
            (Finds-later (λ a. ok (some a)) _ _ (some (rule_action t path (choice c a b)))
              (find_match-other t d ns cond act (child path "find_match") "if_else" _ refl)
              (Finds-here (λ a. ok (some a)) _ _ (rule_action t path (choice c a b))
                (some (rule_action t path (choice c a b)))
                (if_else-means t d ns cond act (child path "if_else") c a b p h k l) refl)))
          (λ es. ok none)

    pub workflow-means :
        (names : List String)
        → All (λ name. mem name ns ≡ true) names
        → Single (rule_value (workflow names)) (run_workflow names)
    unfolding compile_single
    workflow-means names h =
        Finds-later (λ a. ok (some a)) _ _ (some (run_workflow names))
          (named-object t d "attach_local_content_by_search" _
            (child path "attach_local_content_by_search") "run_workflow" _)
          (Finds-later (λ a. ok (some a)) _ _ (some (run_workflow names))
            (named-object t d "attach_tmdb_content_by_search" _
              (child path "attach_tmdb_content_by_search") "run_workflow" _)
            (Finds-later (λ a. ok (some a)) _ _ (some (run_workflow names))
              (find_match-other t d ns cond act (child path "find_match") "run_workflow" _ refl)
              (Finds-later (λ a. ok (some a)) _ _ (some (run_workflow names))
                (if_else-other t d ns cond act (child path "if_else") "run_workflow" _ refl)
                (Finds-later (λ a. ok (some a)) _ _ (some (run_workflow names))
                  (named-object t d "llm_classify" _ (child path "llm_classify") "run_workflow" _)
                  (Finds-later (λ a. ok (some a)) _ _ (some (run_workflow names))
                    (named-object t d "unmatched" _ (child path "unmatched") "run_workflow" _)
                    (Finds-later (λ a. ok (some a)) _ _ (some (run_workflow names))
                      (named-object t d "parse_date" _ (child path "parse_date") "run_workflow" _)
                      (Finds-later (λ a. ok (some a)) _ _ (some (run_workflow names))
                        (named-object t d "parse_video_content" _ (child path "parse_video_content")
                          "run_workflow" _)
                        (Finds-here (λ a. ok (some a)) _ _ (run_workflow names)
                          (some (run_workflow names))
                          (run_workflow-means t d ns (child path "run_workflow") names h)
                          refl))))))))
          (λ es. ok none)

    pub type-means :
        (ct : ContentType)
        → Single (rule_value (content_type ct)) (set_content_type (known_type ct))
    unfolding compile_single
    type-means ct =
        Finds-later (λ a. ok (some a)) _ _ (some (set_content_type (known_type ct)))
          (named-object t d "attach_local_content_by_search" _
            (child path "attach_local_content_by_search") "set_content_type" _)
          (Finds-later (λ a. ok (some a)) _ _ (some (set_content_type (known_type ct)))
            (named-object t d "attach_tmdb_content_by_search" _
              (child path "attach_tmdb_content_by_search") "set_content_type" _)
            (Finds-later (λ a. ok (some a)) _ _ (some (set_content_type (known_type ct)))
              (find_match-other t d ns cond act (child path "find_match") "set_content_type" _ refl)
              (Finds-later (λ a. ok (some a)) _ _ (some (set_content_type (known_type ct)))
                (if_else-other t d ns cond act (child path "if_else") "set_content_type" _ refl)
                (Finds-later (λ a. ok (some a)) _ _ (some (set_content_type (known_type ct)))
                  (named-object t d "llm_classify" _ (child path "llm_classify") "set_content_type"
                    _)
                  (Finds-later (λ a. ok (some a)) _ _ (some (set_content_type (known_type ct)))
                    (named-object t d "unmatched" _ (child path "unmatched") "set_content_type" _)
                    (Finds-later (λ a. ok (some a)) _ _ (some (set_content_type (known_type ct)))
                      (named-object t d "parse_date" _ (child path "parse_date") "set_content_type"
                        _)
                      (Finds-later (λ a. ok (some a)) _ _ (some (set_content_type (known_type ct)))
                        (named-object t d "parse_video_content" _ (child path "parse_video_content")
                          "set_content_type" _)
                        (Finds-later (λ a. ok (some a)) _ _
                          (some (set_content_type (known_type ct)))
                          (run_workflow-other t d ns cond act (child path "run_workflow")
                            "set_content_type" _ refl)
                          (Finds-here (λ a. ok (some a)) _ _ (set_content_type (known_type ct))
                            (some (set_content_type (known_type ct)))
                            (set_content_type-means t d (child path "set_content_type") ct)
                            refl)))))))))
          (λ es. ok none)
