-- ===== src/Classifier/Returns.antt =====
-- internal/classifier: when a workflow comes to an end.
use Prim.Native.String.{String}
use hexmagnet.Prelude.{
  ℕ, zero, suc, ◌<◌, ◌≤◌, ◌≡◌, refl, sym, ◌∙◌, true, false, List, [], ◌∷◌, Option-cases, inl, inr,
  Option, none, some, lookup, string_eq, arith,
}
use hexmagnet.Torznab.{ContentType}
use hexmagnet.Calendar.{is_nil}
use hexmagnet.Classifier.{
  ClassificationResult, Outcome, failed, Condition, Conditions, Action, Actions, OptAction, block,
  find_match, if_else, run_workflow, unmatched, set_content_type, attach_local_content_by_search,
  attach_tmdb_content_by_search, parse_date, parse_video_content, llm_classify, absent, present,
  and, or, negated, expression, is_tv_show, Flags, Env, attach_local, attach_tmdb, check, check_all,
  check_any, Run, run_names, run_action, run_all, run_first, run_opt, Workflows, call_found, call,
  run_found, run, empty_result, other_error,
}
use hexmagnet.Classifier.Settled.{
  CallsBelow, AllBelow, OptBelow, IsSettled, IsCalm, NamesBelow, Settles, Same, then_run-Same,
  or_run-Same, branch-Same, check_next-IsSettled, if-IsSettled, negate-IsSettled, attach-IsSettled,
  merge_video-IsSettled,
}

module _ (env : Env) (calm : IsCalm env) (flags : Flags) where
  mutual
    unfolding check check_all check_any

    pub check-IsSettled :
        (c : Condition) (cl : ClassificationResult) → IsSettled (check env flags c cl)
    check-IsSettled (and cs) cl = all-IsSettled cs cl
    check-IsSettled (or cs) cl = any-IsSettled cs cl
    check-IsSettled (negated c) cl = negate-IsSettled (check env flags c cl) (check-IsSettled c cl)
    check-IsSettled (expression p) cl = calm.evaluate p flags cl

    all-IsSettled :
        (cs : Conditions) (cl : ClassificationResult) → IsSettled (check_all env flags cs cl)
    all-IsSettled Conditions.end cl = tt
    all-IsSettled (Conditions.more c cs) cl =
        check_next-IsSettled true (check env flags c cl) (check_all env flags cs cl)
          (check-IsSettled c cl) (all-IsSettled cs cl)

    any-IsSettled :
        (cs : Conditions) (cl : ClassificationResult) → IsSettled (check_any env flags cs cl)
    any-IsSettled Conditions.end cl = tt
    any-IsSettled (Conditions.more c cs) cl =
        check_next-IsSettled false (check env flags c cl) (check_any env flags cs cl)
          (check-IsSettled c cl) (any-IsSettled cs cl)

  pub local-IsSettled :
      (ct : Option ContentType) (title : Option String) (cl : ClassificationResult)
      → IsSettled (attach_local env ct title cl)
  unfolding attach_local
  local-IsSettled none title cl = tt
  local-IsSettled (some ct) none cl = tt
  local-IsSettled (some ct) (some title) cl =
      attach-IsSettled (env.content_by_search ct title cl.attributes.date.year) cl
        (calm.search ct title cl.attributes.date.year)

  pub tmdb-IsSettled :
      (ct : Option ContentType) (title : Option String) (cl : ClassificationResult)
      → IsSettled (attach_tmdb env ct title cl)
  unfolding attach_tmdb
  tmdb-IsSettled ct none cl = tt
  tmdb-IsSettled ct (some title) cl =
      if-IsSettled (is_tv_show ct) _ _
        (attach-IsSettled (env.search_tv_show title cl.attributes.date.year) cl
          (calm.tv_show title cl.attributes.date.year))
        (attach-IsSettled (env.search_movie title cl.attributes.date.year) cl
          (calm.movie title cl.attributes.date.year))

  module _ (rank : String → ℕ) (ws : Workflows) (n : ℕ) (g h : String → ClassificationResult → Run)
      (calls : (name : String) (a : Action) (cl : ClassificationResult)
        → rank name < n
        → lookup name ws ≡ some a
        → Same (g name cl) (h name cl)) where
    names-Same :
        (names : List String) (cl : ClassificationResult)
        → NamesBelow rank ws n names
        → Same (run_names env flags g names cl) (run_names env flags h names cl)
    unfolding run_names
    names-Same [] cl b = (refl, tt)
    names-Same (name ∷ names) cl b =
        then_run-Same (g name cl) (h name cl) (run_names env flags g names)
          (run_names env flags h names) (calls name b.1.0.0 cl b.0 b.1.0.1)
          (λ cl'. names-Same names cl' b.1.1)

    mutual
      unfolding run_action run_all run_first run_opt

      action-Same :
          (a : Action) (cl : ClassificationResult)
          → CallsBelow rank ws n a
          → Same (run_action env flags g a cl) (run_action env flags h a cl)
      action-Same (block rest) cl b = all-Same rest cl b
      action-Same (find_match path rest) cl b = first-Same path rest cl b
      action-Same (if_else c a a') cl b =
          branch-Same (check env flags c cl) _ _ _ _ (check-IsSettled c cl) (opt-Same a cl b.0)
            (opt-Same a' cl b.1)
      action-Same (run_workflow names) cl b = names-Same names cl b
      action-Same (unmatched path) cl b = (refl, tt)
      action-Same (set_content_type ct) cl b = (refl, tt)
      action-Same attach_local_content_by_search cl b =
          (refl, local-IsSettled cl.attributes.content_type cl.attributes.base_title cl)
      action-Same attach_tmdb_content_by_search cl b =
          (refl, tmdb-IsSettled cl.attributes.content_type cl.attributes.base_title cl)
      action-Same parse_date cl b = (refl, if-IsSettled (is_nil env.parsed_date) _ _ tt tt)
      action-Same parse_video_content cl b =
          (refl, merge_video-IsSettled (env.parse_video cl) cl (calm.video cl))
      action-Same llm_classify cl b = (refl, calm.llm flags cl)

      all-Same :
          (rest : Actions) (cl : ClassificationResult)
          → AllBelow rank ws n rest
          → Same (run_all env flags g rest cl) (run_all env flags h rest cl)
      all-Same Actions.end cl b = (refl, tt)
      all-Same (Actions.more a rest) cl b =
          then_run-Same (run_action env flags g a cl) (run_action env flags h a cl)
            (run_all env flags g rest) (run_all env flags h rest) (action-Same a cl b.0)
            (λ cl'. all-Same rest cl' b.1)

      first-Same :
          (path : List String) (rest : Actions) (cl : ClassificationResult)
          → AllBelow rank ws n rest
          → Same (run_first env flags g path rest cl) (run_first env flags h path rest cl)
      first-Same path Actions.end cl b = (refl, tt)
      first-Same path (Actions.more a rest) cl b =
          or_run-Same path (run_action env flags g a cl) (run_action env flags h a cl) _ _
            (action-Same a cl b.0) (first-Same path rest cl b.1)

      opt-Same :
          (a : OptAction) (cl : ClassificationResult)
          → OptBelow rank ws n a
          → Same (run_opt env flags g a cl) (run_opt env flags h a cl)
      opt-Same absent cl b = (refl, tt)
      opt-Same (present a) cl b = action-Same a cl b

  module _ (rank : String → ℕ) (ws : Workflows)
      (ranked : (name : String) (a : Action)
        → lookup name ws ≡ some a
        → CallsBelow rank ws (rank name) a) where
    call-Same :
        (f f' : ℕ) (name : String) (a : Action) (cl : ClassificationResult)
        → rank name < f
        → rank name < f'
        → lookup name ws ≡ some a
        → Same (call env flags ws f name cl) (call env flags ws f' name cl)
    unfolding call call_found
    call-Same zero f' name a cl l k e = elim l [ ]
    call-Same (suc f) zero name a cl l k e = elim k [ ]
    call-Same (suc f) (suc f') name a cl l k e = rw e (
        action-Same rank ws (rank name) (call env flags ws f) (call env flags ws f')
          (λ name' a' cl' b e'.
            call-Same f f' name' a' cl' (omega (arith, b, l)) (omega (arith, b, k)) e')
          a cl (ranked name a e))

    -- Where the searches, the expressions and the other parameters do not panic, and every
    -- workflow has a number such that it calls only workflows that are there and have smaller
    -- numbers, running a workflow ends with a result or an error, without a panic, and it is the
    -- same for every fuel from the workflow's number on.
    pub run-IsSettled :
        (name : String)
        → (o : Outcome ClassificationResult) × IsSettled o
          × ((f : ℕ) → rank name ≤ f → run env flags ws f name ≡ some o)
    unfolding run run_found
    run-IsSettled name = elim (Option-cases (lookup name ws)) [
      | inl e ↦ (failed (other_error "workflow not found"), tt, λ f l. rw e refl)
      | inr (a, e) ↦
          let r =
            settled (run_action env flags (call env flags ws (rank name)) a empty_result)
              (same name a (rank name) e (omega arith)).1 in
          (r.0, r.1, λ f l. rw e (sym (same name a f e l).0 ∙ r.2))
    ]
      where
        same :
            (name : String) (a : Action) (f : ℕ)
            → lookup name ws ≡ some a
            → rank name ≤ f
            → Same
                (run_action env flags (call env flags ws (rank name)) a empty_result)
                (run_action env flags (call env flags ws f) a empty_result)
        same name a f e l =
            action-Same rank ws (rank name) (call env flags ws (rank name)) (call env flags ws f)
              (λ name' a' cl' b e'. call-Same (rank name) f name' a' cl' b (omega (arith, b, l)) e')
              a empty_result (ranked name a e)

        settled :
            (m : Run) → Settles m → (o : Outcome ClassificationResult) × IsSettled o × (m ≡ some o)
        settled none h = absurd h
        settled (some o) h = (o, h, refl)
