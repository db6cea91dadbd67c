-- ===== src/Classifier/Compile/Rules.antt =====
-- internal/classifier: rules, the values that they are written as in classifier.core.yml, and what is
-- meant by them.
pub mod Meaning
pub mod Parts
pub mod Singles
pub mod Sources
use Prim.Native.String.{String}
use hexmagnet.Prelude.{
  ℕ, zero, suc, ◌≡◌, Bool, true, List, [], ◌∷◌, All, Option, none, some, str_eq,
}
use hexmagnet.Webhook.{mem}
use hexmagnet.Torznab.{
  ContentType, movie, tv_show, music, ebook, comic, audiobook, game, software, adult, other,
  unknown,
}
use hexmagnet.Classifier.{
  Condition, Conditions, Action, Actions, OptAction, block, find_match, if_else, run_workflow,
  unmatched, set_content_type, attach_local_content_by_search, attach_tmdb_content_by_search,
  parse_date, parse_video_content, llm_classify, absent, present, and, or, negated, expression,
}
use hexmagnet.Classifier.Payload.{
  Value, Values, text, seq, object, empty, field, SourcePath, Tools, child,
}
use hexmagnet.Classifier.Compile.Gives.{optional}

-- The rules that are their name alone. A branch of an `if_else` may be left out, be a rule or a list of
-- rules.
pub data Simple : Type 0 where
  attach_local attach_tmdb classify_llm no_match date video : Simple

mutual
  pub data Rule : Type 0 where
    simple : Simple → Rule
    first : Rules → Rule
    choice : Condition → OptRules → OptRules → Rule
    workflow : List String → Rule
    content_type : ContentType → Rule

  pub data Rules : Type 0 where
    end : Rules
    more : Rule → Rules → Rules

  pub data OptRules : Type 0 where
    no_rules : OptRules
    one : Rule → OptRules
    rules : Rules → OptRules

abbrev mutual
  pub condition_value : Condition → Value
  condition_value (and cs) = object (field "and" (seq (condition_values cs)) empty)
  condition_value (or cs) = object (field "or" (seq (condition_values cs)) empty)
  condition_value (negated c) = object (field "not" (condition_value c) empty)
  condition_value (expression p) = text p

  pub condition_values : Conditions → Values
  condition_values Conditions.end = Values.end
  condition_values (Conditions.more c cs) = Values.more (condition_value c) (condition_values cs)

abbrev pub simple_name : Simple → String
simple_name attach_local = "attach_local_content_by_search"
simple_name attach_tmdb = "attach_tmdb_content_by_search"
simple_name classify_llm = "llm_classify"
simple_name no_match = "unmatched"
simple_name date = "parse_date"
simple_name video = "parse_video_content"

abbrev pub texts : List String → Values
texts [] = Values.end
texts (s ∷ ss) = Values.more (text s) (texts ss)

abbrev pub content_type_name : ContentType → String
content_type_name movie = "movie"
content_type_name tv_show = "tv_show"
content_type_name music = "music"
content_type_name ebook = "ebook"
content_type_name comic = "comic"
content_type_name audiobook = "audiobook"
content_type_name game = "game"
content_type_name software = "software"
content_type_name adult = "adult"
content_type_name other = "other"
content_type_name unknown = "unknown"

abbrev mutual
  pub rule_value : Rule → Value
  rule_value (simple s) = text (simple_name s)
  rule_value (first rs) = object (field "find_match" (seq (rule_values rs)) empty)
  rule_value (choice c a b) = object (
      field "if_else"
        (object (
          field "condition" (condition_value c)
            (optional "if_action" (opt_value a) (optional "else_action" (opt_value b) empty))))
        empty)
  rule_value (workflow names) = object (field "run_workflow" (seq (texts names)) empty)
  rule_value (content_type ct) =
      object (field "set_content_type" (text (content_type_name ct)) empty)

  pub rule_values : Rules → Values
  rule_values Rules.end = Values.end
  rule_values (Rules.more r rs) = Values.more (rule_value r) (rule_values rs)

  pub opt_value : OptRules → Option Value
  opt_value no_rules = none
  opt_value (one r) = some (rule_value r)
  opt_value (rules rs) = some (seq (rule_values rs))

abbrev pub simple_action : SourcePath → Simple → Action
simple_action path attach_local = attach_local_content_by_search
simple_action path attach_tmdb = attach_tmdb_content_by_search
simple_action path classify_llm = llm_classify
simple_action path no_match = unmatched (child path "unmatched")
simple_action path date = parse_date
simple_action path video = parse_video_content

-- A content type that is unknown is none.
abbrev pub known_type : ContentType → Option ContentType
known_type movie = some movie
known_type tv_show = some tv_show
known_type music = some music
known_type ebook = some ebook
known_type comic = some comic
known_type audiobook = some audiobook
known_type game = some game
known_type software = some software
known_type adult = some adult
known_type other = some other
known_type unknown = none

-- What a rule at a path means, and rules, of which each is an action of its own (`find_match`) or which
-- follow one another (the branches of `if_else`).
module _ (t : Tools) where
  abbrev mutual
    pub rule_action : SourcePath → Rule → Action
    rule_action path (simple s) = simple_action path s
    rule_action path (first rs) =
        find_match (child path "find_match") (rule_blocks (child path "find_match") 0 rs)
    rule_action path (choice c a b) =
        if_else c (opt_action (child (child path "if_else") "if_action") a)
          (opt_action (child (child path "if_else") "else_action") b)
    rule_action path (workflow names) = run_workflow names
    rule_action path (content_type ct) = set_content_type (known_type ct)

    pub rule_blocks : SourcePath → ℕ → Rules → Actions
    rule_blocks path i Rules.end = Actions.end
    rule_blocks path i (Rules.more r rs) =
        Actions.more
          (block (Actions.more (rule_action (child path (t.numeric_path_part i)) r) Actions.end))
          (rule_blocks path (suc i) rs)

    pub rule_actions : SourcePath → ℕ → Rules → Actions
    rule_actions path i Rules.end = Actions.end
    rule_actions path i (Rules.more r rs) =
        Actions.more (rule_action (child path (t.numeric_path_part i)) r)
          (rule_actions path (suc i) rs)

    pub opt_action : SourcePath → OptRules → OptAction
    opt_action path no_rules = absent
    opt_action path (one r) = present (block (Actions.more (rule_action path r) Actions.end))
    opt_action path (rules rs) = present (block (rule_actions path 0 rs))

  -- The expressions of a condition compile.
  abbrev mutual
    pub IsTyped : Condition → Type 0
    IsTyped (and cs) = AreTyped cs
    IsTyped (or cs) = AreTyped cs
    IsTyped (negated c) = IsTyped c
    IsTyped (expression p) = t.compiles p ≡ true

    pub AreTyped : Conditions → Type 0
    AreTyped Conditions.end = Unit
    AreTyped (Conditions.more c cs) = IsTyped c × AreTyped cs

  -- The expressions of rules compile, and the workflows that they run are among those of a list.
  abbrev mutual
    pub IsRule : List String → Rule → Type 0
    IsRule ns (simple s) = Unit
    IsRule ns (first rs) = AreRules ns rs
    IsRule ns (choice c a b) = IsTyped c × OptIsRules ns a × OptIsRules ns b
    IsRule ns (workflow names) = All (λ name. mem name ns ≡ true) names
    IsRule ns (content_type ct) = Unit

    pub AreRules : List String → Rules → Type 0
    AreRules ns Rules.end = Unit
    AreRules ns (Rules.more r rs) = IsRule ns r × AreRules ns rs

    pub OptIsRules : List String → OptRules → Type 0
    OptIsRules ns no_rules = Unit
    OptIsRules ns (one r) = IsRule ns r
    OptIsRules ns (rules rs) = AreRules ns rs
