-- ===== src/Classifier.antt =====
-- internal/classifier: what the compiled actions and conditions of a workflow do. A compiled action is a
-- value of `Action`: what `compileAction` makes of a list or of a single action is `block`. The result
-- that stands beside an error is read by no caller, and is left out. The expression language, the
-- searches, the parsers of names and the language model are parameters (`Env`), all for one torrent.
pub mod Settled
pub mod Returns
pub mod Flow
pub mod Payload
pub mod Compile
pub mod Source
mod Examples
use Prim.Native.String.{String}
use hexmagnet.Prelude.{
  ℤ, ℕ, zero, suc, Bool, true, false, not, ◌&&◌, ◌||◌, ◌==◌, if◌then◌else◌, str_eq, List, [], ◌∷◌,
  Option, none, some, lookup, insert, string_eq,
}
use hexmagnet.Calendar.{Date, is_nil}
use hexmagnet.Torznab.{ContentType, tv_show, same_type}

pub record ContentAttributes : Type 0 where
  pub content_type : Option ContentType
  pub base_title : Option String
  pub date : Date
  pub languages : List String
  pub language_multi : Bool

-- Of `model.Content` the fields that are read here.
pub record Content : Type 0 where
  pub content_type : ContentType
  pub id : String

pub record ClassificationResult : Type 0 where
  pub attributes : ContentAttributes
  pub content : Option Content

abbrev pub or_else {ℓ} : {A : Type ℓ} → Option A → Option A → Option A
or_else none b = b
or_else (some a) b = some a

abbrev or_languages : List String → List String → List String
or_languages [] b = b
or_languages (x ∷ xs) b = x ∷ xs

pub merge : ContentAttributes → ContentAttributes → ContentAttributes
merge a other = record {
  content_type = or_else a.content_type other.content_type;
  base_title = or_else a.base_title other.base_title;
  date = if is_nil a.date then other.date else a.date;
  languages = or_languages a.languages other.languages;
  language_multi = a.language_multi || other.language_multi;
}

pub attach_content : Content → ClassificationResult → ClassificationResult
attach_content c cl = record {
  attributes = record (cl.attributes) { content_type = some c.content_type };
  content = some c;
}

abbrev pub empty_result : ClassificationResult
empty_result = record {
  attributes = record {
    content_type = none;
    base_title = none;
    date = record { year = 0; month = 0; day = 0 };
    languages = [];
    language_multi = false;
  };
  content = none;
}

pub data RunError : Type 0 where
  err_unmatched : RunError
  runtime_error : List String → RunError → RunError
  other_error : String → RunError

-- `errors.Is(err, ErrUnmatched)`.
abbrev pub is_unmatched : RunError → Bool
is_unmatched err_unmatched = true
is_unmatched (runtime_error path cause) = is_unmatched cause
is_unmatched (other_error message) = false

-- A call of a workflow that is not there is a call of a nil function.
pub data Outcome {ℓ} (A : Type ℓ) : Type ℓ where
  returned : A → Outcome A
  failed : RunError → Outcome A
  panics : Outcome A

mutual
  pub data Condition : Type 0 where
    and or : Conditions → Condition
    negated : Condition → Condition
    expression : String → Condition

  pub data Conditions : Type 0 where
    end : Conditions
    more : Condition → Conditions → Conditions

mutual
  pub data Action : Type 0 where
    block : Actions → Action
    find_match : List String → Actions → Action
    if_else : Condition → OptAction → OptAction → Action
    run_workflow : List String → Action
    unmatched : List String → Action
    set_content_type : Option ContentType → Action
    attach_local_content_by_search : Action
    attach_tmdb_content_by_search : Action
    parse_date : Action
    parse_video_content : Action
    llm_classify : Action

  pub data Actions : Type 0 where
    end : Actions
    more : Action → Actions → Actions

  pub data OptAction : Type 0 where
    absent : OptAction
    present : Action → OptAction

-- The values of flags, checked against their types; content types are numbers. A flag
-- that is not there is nil.
pub data FlagValue : Type 0 where
  flag_bool : Bool → FlagValue
  flag_string : String → FlagValue
  flag_int : ℤ → FlagValue
  flag_strings : List String → FlagValue
  flag_content_types : List ℕ → FlagValue
  flag_nil : FlagValue

abbrev pub Flags : Type 0
Flags = List (String × FlagValue)

pub record Env : Type 0 where
  pub evaluate : String → Flags → ClassificationResult → Outcome Bool
  pub content_by_search : ContentType → String → ℕ → Outcome Content
  pub search_tv_show : String → ℕ → Outcome Content
  pub search_movie : String → ℕ → Outcome Content
  pub parsed_date : Date
  pub parse_video : ClassificationResult → Outcome ContentAttributes
  pub llm : Flags → ClassificationResult → Outcome ClassificationResult

abbrev pub attach : Outcome Content → ClassificationResult → Outcome ClassificationResult
attach (returned c) cl = returned (attach_content c cl)
attach (failed e) cl = failed e
attach panics cl = panics

abbrev pub merge_video :
    Outcome ContentAttributes → ClassificationResult → Outcome ClassificationResult
merge_video (returned a) cl = returned (record cl { attributes = merge cl.attributes a })
merge_video (failed e) cl = failed e
merge_video panics cl = panics

pub attach_local :
    Env → Option ContentType → Option String → ClassificationResult → Outcome ClassificationResult
attach_local env none title cl = failed err_unmatched
attach_local env (some ct) none cl = failed err_unmatched
attach_local env (some ct) (some title) cl =
    attach (env.content_by_search ct title cl.attributes.date.year) cl

-- The type that is not valid is none of the types.
abbrev is_tv_show : Option ContentType → Bool
is_tv_show none = false
is_tv_show (some ct) = same_type ct tv_show

pub attach_tmdb :
    Env → Option ContentType → Option String → ClassificationResult → Outcome ClassificationResult
attach_tmdb env ct none cl = failed err_unmatched
attach_tmdb env ct (some title) cl =
    if is_tv_show ct
    then attach (env.search_tv_show title cl.attributes.date.year) cl
    else attach (env.search_movie title cl.attributes.date.year) cl

-- Negation of a check, whose error is passed on.
abbrev pub negate : Outcome Bool → Outcome Bool
negate (returned b) = returned (not b)
negate (failed e) = failed e
negate panics = panics

-- One check after another, as long as they give `go_on`.
abbrev pub check_next : Bool → Outcome Bool → Outcome Bool → Outcome Bool
check_next go_on (failed e) rest = failed e
check_next go_on panics rest = panics
check_next true (returned true) rest = rest
check_next true (returned false) rest = returned false
check_next false (returned true) rest = returned true
check_next false (returned false) rest = rest

module _ (env : Env) (flags : Flags) where
  mutual
    pub check : Condition → ClassificationResult → Outcome Bool
    check (and cs) cl = check_all cs cl
    check (or cs) cl = check_any cs cl
    check (negated c) cl = negate (check c cl)
    check (expression program) cl = env.evaluate program flags cl

    pub check_all : Conditions → ClassificationResult → Outcome Bool
    check_all end cl = returned true
    check_all (more c cs) cl = check_next true (check c cl) (check_all cs cl)

    pub check_any : Conditions → ClassificationResult → Outcome Bool
    check_any end cl = returned false
    check_any (more c cs) cl = check_next false (check c cl) (check_any cs cl)

-- `none` is a run that is out of fuel.
abbrev pub Run : Type 0
Run = Option (Outcome ClassificationResult)

abbrev pub then_run : Run → (ClassificationResult → Run) → Run
then_run none k = none
then_run (some (returned cl)) k = k cl
then_run (some (failed e)) k = some (failed e)
then_run (some panics) k = some panics

-- An unmatched action gives way to the rest; another error is reported with the path.
abbrev pub or_run : List String → Run → Run → Run
or_run path none rest = none
or_run path (some (returned cl)) rest = some (returned cl)
or_run path (some (failed e)) rest =
    if is_unmatched e then rest else some (failed (runtime_error path e))
or_run path (some panics) rest = some panics

abbrev pub branch : Outcome Bool → Run → Run → Run
branch (returned true) a b = a
branch (returned false) a b = b
branch (failed e) a b = some (failed e)
branch panics a b = some panics

module _ (env : Env) (flags : Flags) (call : String → ClassificationResult → Run) where
  pub run_names : List String → ClassificationResult → Run
  run_names [] cl = some (returned cl)
  run_names (name ∷ names) cl = then_run (call name cl) (run_names names)

  mutual
    unfolding check is_nil attach_local attach_tmdb run_names

    pub run_action : Action → ClassificationResult → Run
    run_action (block rest) cl = run_all rest cl
    run_action (find_match path rest) cl = run_first path rest cl
    run_action (if_else c a b) cl = branch (check env flags c cl) (run_opt a cl) (run_opt b cl)
    run_action (run_workflow names) cl = run_names names cl
    run_action (unmatched path) cl = some (failed (runtime_error path err_unmatched))
    run_action (set_content_type ct) cl =
        some (returned (record cl { attributes = record (cl.attributes) { content_type = ct } }))
    run_action attach_local_content_by_search cl =
        some (attach_local env cl.attributes.content_type cl.attributes.base_title cl)
    run_action attach_tmdb_content_by_search cl =
        some (attach_tmdb env cl.attributes.content_type cl.attributes.base_title cl)
    run_action parse_date cl = some (
        if is_nil env.parsed_date
        then failed err_unmatched
        else returned
            (record cl { attributes = record (cl.attributes) { date = env.parsed_date } }))
    run_action parse_video_content cl = some (merge_video (env.parse_video cl) cl)
    run_action llm_classify cl = some (env.llm flags cl)

    pub run_all : Actions → ClassificationResult → Run
    run_all end cl = some (returned cl)
    run_all (more a rest) cl = then_run (run_action a cl) (run_all rest)

    pub run_first : List String → Actions → ClassificationResult → Run
    run_first path end cl = some (returned cl)
    run_first path (more a rest) cl = or_run path (run_action a cl) (run_first path rest cl)

    pub run_opt : OptAction → ClassificationResult → Run
    run_opt absent cl = some (returned cl)
    run_opt (present a) cl = run_action a cl

abbrev pub Workflows : Type 0
Workflows = List (String × Action)

module _ (env : Env) (flags : Flags) (workflows : Workflows) where
  call_found : (String → ClassificationResult → Run) → Option Action → ClassificationResult → Run
  call_found call none cl = some panics
  call_found call (some a) cl = run_action env flags call a cl

  -- Each workflow that is called by another takes fuel.
  pub call : ℕ → String → ClassificationResult → Run
  unfolding call_found
  call zero name cl = none
  call (suc f) name cl = call_found (call f) (lookup name workflows) cl

  run_found : ℕ → Option Action → Run
  run_found f none = some (failed (other_error "workflow not found"))
  run_found f (some a) = run_action env flags (call f) a empty_result

  -- `runner.Run` once the flags have been checked.
  pub run : ℕ → String → Run
  unfolding run_found
  run f workflow = run_found f (lookup workflow workflows)
