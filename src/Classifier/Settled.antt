-- ===== src/Classifier/Settled.antt =====
-- internal/classifier: what comes to an end without a panic, and what two runs have in common.
use Prim.Native.String.{String}
use hexmagnet.Prelude.{
  ℕ, ◌<◌, ◌≡◌, refl, ap, ◌∙◌, Bool, true, false, if◌then◌else◌, List, [], ◌∷◌, none, some, lookup,
  string_eq,
}
use hexmagnet.Torznab.{ContentType}
use hexmagnet.Classifier.{
  Content, ClassificationResult, ContentAttributes, Outcome, returned, failed, panics, Action,
  Actions, OptAction, block, find_match, if_else, run_workflow, unmatched, set_content_type,
  attach_local_content_by_search, attach_tmdb_content_by_search, parse_date, parse_video_content,
  llm_classify, absent, present, is_unmatched, runtime_error, Flags, Env, merge_video, attach,
  check_next, negate, Run, then_run, or_run, branch, Workflows,
}

-- A result or an error, and no panic.
abbrev pub IsSettled {ℓ} : {A : Type ℓ} → Outcome A → Type 0
IsSettled (returned a) = Unit
IsSettled (failed e) = Unit
IsSettled panics = ⊥

-- What lies outside does not panic.
pub record IsCalm (env : Env) : Type 0 where
  pub evaluate :
      (p : String) (fs : Flags) (cl : ClassificationResult) → IsSettled (env.evaluate p fs cl)
  pub search :
      (ct : ContentType) (s : String) (year : ℕ) → IsSettled (env.content_by_search ct s year)
  pub tv_show : (s : String) (year : ℕ) → IsSettled (env.search_tv_show s year)
  pub movie : (s : String) (year : ℕ) → IsSettled (env.search_movie s year)
  pub video : (cl : ClassificationResult) → IsSettled (env.parse_video cl)
  pub llm : (fs : Flags) (cl : ClassificationResult) → IsSettled (env.llm fs cl)

-- The names of a list are those of workflows of a rank below `n`.
abbrev pub NamesBelow : (String → ℕ) → Workflows → ℕ → List String → Type 0
NamesBelow rank ws n [] = Unit
NamesBelow rank ws n (name ∷ names) =
    (rank name < n) × (((a : Action) × (lookup name ws ≡ some a)) × NamesBelow rank ws n names)

-- So are those that an action calls.
abbrev mutual
  pub CallsBelow : (String → ℕ) → Workflows → ℕ → Action → Type 0
  CallsBelow rank ws n (block rest) = AllBelow rank ws n rest
  CallsBelow rank ws n (find_match path rest) = AllBelow rank ws n rest
  CallsBelow rank ws n (if_else c a b) = OptBelow rank ws n a × OptBelow rank ws n b
  CallsBelow rank ws n (run_workflow names) = NamesBelow rank ws n names
  CallsBelow rank ws n (unmatched path) = Unit
  CallsBelow rank ws n (set_content_type ct) = Unit
  CallsBelow rank ws n attach_local_content_by_search = Unit
  CallsBelow rank ws n attach_tmdb_content_by_search = Unit
  CallsBelow rank ws n parse_date = Unit
  CallsBelow rank ws n parse_video_content = Unit
  CallsBelow rank ws n llm_classify = Unit

  pub AllBelow : (String → ℕ) → Workflows → ℕ → Actions → Type 0
  AllBelow rank ws n Actions.end = Unit
  AllBelow rank ws n (Actions.more a rest) = CallsBelow rank ws n a × AllBelow rank ws n rest

  pub OptBelow : (String → ℕ) → Workflows → ℕ → OptAction → Type 0
  OptBelow rank ws n absent = Unit
  OptBelow rank ws n (present a) = CallsBelow rank ws n a

-- Two runs are the same, and they end without a panic.
abbrev pub Settles : Run → Type 0
Settles none = ⊥
Settles (some o) = IsSettled o

abbrev pub Same : Run → Run → Type 0
Same m m' = (m ≡ m') × Settles m

pub then_run-Same :
    (m m' : Run) (k k' : ClassificationResult → Run)
    → Same m m'
    → ((cl : ClassificationResult) → Same (k cl) (k' cl))
    → Same (then_run m k) (then_run m' k')
then_run-Same none m' k k' s h = absurd s.1
then_run-Same (some panics) m' k k' s h = absurd s.1
then_run-Same (some (failed e)) m' k k' s h = (ap (λ x. then_run x k') s.0, tt)
then_run-Same (some (returned cl)) m' k k' s h = ((h cl).0 ∙ ap (λ x. then_run x k') s.0, (h cl).1)

pub or_run-Same :
    (path : List String) (m m' r r' : Run)
    → Same m m'
    → Same r r'
    → Same (or_run path m r) (or_run path m' r')
or_run-Same path none m' r r' s h = absurd s.1
or_run-Same path (some panics) m' r r' s h = absurd s.1
or_run-Same path (some (returned cl)) m' r r' s h = (ap (λ x. or_run path x r') s.0, tt)
or_run-Same path (some (failed e)) m' r r' s h =
    let t = if-Same (is_unmatched e) in (t.0 ∙ ap (λ x. or_run path x r') s.0, t.1)
  where
    if-Same :
        (b : Bool)
        → Same
            (if b then r else some (failed (runtime_error path e)))
            (if b then r' else some (failed (runtime_error path e)))
    if-Same true = h
    if-Same false = (refl, tt)

pub branch-Same :
    (o : Outcome Bool) (a a' b b' : Run)
    → IsSettled o
    → Same a a'
    → Same b b'
    → Same (branch o a b) (branch o a' b')
branch-Same (returned true) a a' b b' s h k = h
branch-Same (returned false) a a' b b' s h k = k
branch-Same (failed e) a a' b b' s h k = (refl, tt)
branch-Same panics a a' b b' s h k = absurd s

pub check_next-IsSettled :
    (go_on : Bool) (o r : Outcome Bool)
    → IsSettled o
    → IsSettled r
    → IsSettled (check_next go_on o r)
check_next-IsSettled b (failed e) r h k = tt
check_next-IsSettled b panics r h k = absurd h
check_next-IsSettled true (returned true) r h k = k
check_next-IsSettled true (returned false) r h k = tt
check_next-IsSettled false (returned true) r h k = tt
check_next-IsSettled false (returned false) r h k = k

pub if-IsSettled :
    (b : Bool) (o r : Outcome ClassificationResult)
    → IsSettled o
    → IsSettled r
    → IsSettled (if b then o else r)
if-IsSettled true o r h k = h
if-IsSettled false o r h k = k

pub negate-IsSettled : (o : Outcome Bool) → IsSettled o → IsSettled (negate o)
negate-IsSettled (returned b) h = tt
negate-IsSettled (failed e) h = tt
negate-IsSettled panics h = absurd h

pub attach-IsSettled :
    (o : Outcome Content) (cl : ClassificationResult) → IsSettled o → IsSettled (attach o cl)
attach-IsSettled (returned c) cl h = tt
attach-IsSettled (failed e) cl h = tt
attach-IsSettled panics cl h = absurd h

pub merge_video-IsSettled :
    (o : Outcome ContentAttributes) (cl : ClassificationResult)
    → IsSettled o
    → IsSettled (merge_video o cl)
merge_video-IsSettled (returned a) cl h = tt
merge_video-IsSettled (failed e) cl h = tt
merge_video-IsSettled panics cl h = absurd h
