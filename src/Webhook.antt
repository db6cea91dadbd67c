-- ===== src/Webhook.antt =====
-- internal/webhook/config.go and the filters of publisher.go, with internal/filter: which
-- configurations are valid, the compiled filter, and the envelope that an event is published in.
-- Compiling a regular expression, parsing a URL, folding case and Go's `strings.TrimSpace` are
-- parameters, and so is `model.ParseContentType`; a duration is its nanoseconds.
pub mod Valid
pub mod Publisher
pub mod Delivery
mod Examples
use Prim.Native.String.{String, len, slice, ◌++◌ as append}
use hexmagnet.Prelude.{
  ℤ, pos, negsuc, ℕ, zero, suc, ◌-◌, Bool, true, false, not, ◌&&◌, ◌||◌, ltb, ◌==◌, if◌then◌else◌,
  str_eq, List, [], ◌∷◌, ◌++◌, Option, none, some, ◌>>=◌,
}

pub record Event : Type 0 where
  pub event : String
  pub info_hash : String
  pub name : String
  pub size : ℤ
  pub content_type : Option String
  pub content_source : Option String
  pub content_id : Option String
  pub languages : List String
  pub seeders : Option ℤ
  pub leechers : Option ℤ
  pub files_count : Option ℤ
  pub files : List String
  pub magnet : String
  pub torrent_url : String
  pub created_at : ℕ

pub record Config : Type 0 where
  pub enabled : Bool
  pub urls : List String
  pub events : List String
  pub categories : List String
  pub title_patterns : List String
  pub filename_patterns : List String
  pub timeout : ℤ
  pub max_retries : ℤ
  pub base_url : String
  pub headers : List (String × String)
  pub queue_size : ℤ

abbrev pub default_timeout : ℤ
default_timeout = pos 10000000000

abbrev pub default_queue_size : ℕ
default_queue_size = 1000

abbrev pub event_classified : String
event_classified = "classified"

pub record ParsedUrl : Type 0 where
  pub scheme : String
  pub host : String

-- A compiled pattern is the texts that it matches.
abbrev pub Pattern : Type 0
Pattern = String → Bool

pub record Outside : Type 0 where
  pub compile_regexp : String → Option Pattern
  pub parse_url : String → Option ParsedUrl
  pub equal_fold : String → String → Bool
  pub trim_space : String → String
  pub parse_content_type : String → Bool

pub data ConfigError : Type 0 where
  bad_timeout bad_max_retries bad_queue_size bad_base_url : ConfigError
  bad_url bad_event bad_category bad_title_pattern bad_filename_pattern bad_header :
      String → ConfigError

abbrev pub is_nonempty {ℓ} : {A : Type ℓ} → List A → Bool
is_nonempty [] = false
is_nonempty (x ∷ xs) = true

abbrev pub mem : String → List String → Bool
mem a [] = false
mem a (x ∷ xs) = str_eq x a || mem a xs

pub any_match : List Pattern → String → Bool
any_match [] s = false
any_match (p ∷ ps) s = p s || any_match ps s

pub any_file : List Pattern → List String → Bool
any_file ps [] = false
any_file ps (path ∷ paths) = any_match ps path || any_file ps paths

pub record CompiledFilter : Type 0 where
  pub categories : List String
  pub title_patterns : List Pattern
  pub filename_patterns : List Pattern

pub content_type_of : Option String → String
content_type_of none = "unknown"
content_type_of (some ct) = ct

unfoldable pub matches : CompiledFilter → Event → Bool
matches f e =
    if is_nonempty f.categories && not (mem (content_type_of e.content_type) f.categories)
    then false
    else if is_nonempty f.title_patterns && not (any_match f.title_patterns e.name)
    then false
    else if is_nonempty f.filename_patterns && not (any_file f.filename_patterns e.files)
    then false
    else true

pub record Envelope : Type 0 where
  pub event : Event
  pub urls : List String
  pub timeout : ℤ
  pub retries : ℤ
  pub headers : List (String × String)

-- `strings.TrimRight(s, "/")`; a round takes a byte off, so there are at most `len s` rounds.
trim_rounds : ℕ → String → String
trim_rounds zero s = s
trim_rounds (suc f) s =
    let rest = trim_rounds f (slice s 0 (len s - 1)) in
    if str_eq (slice s (len s - 1) (len s)) "/" then rest else s

pub trim_right : String → String
unfolding trim_rounds
trim_right s = trim_rounds (len s) s

pub torrent_link : Config → Event → String
torrent_link cfg e =
    if str_eq e.torrent_url "" && not (str_eq cfg.base_url "")
    then append (trim_right cfg.base_url) (append "/api/torrents/" (append e.info_hash "/download"))
    else e.torrent_url

pub envelope : Config → Event → Envelope
envelope cfg e = record {
  event = record e { torrent_url = torrent_link cfg e };
  urls = cfg.urls;
  timeout = cfg.timeout;
  retries = cfg.max_retries;
  headers = cfg.headers;
}

pub queue_capacity : ℤ → ℕ
queue_capacity (pos zero) = default_queue_size
queue_capacity (pos (suc n)) = suc n
queue_capacity (negsuc n) = default_queue_size

abbrev pub is_positive : ℤ → Bool
is_positive (pos n) = ltb 0 n
is_positive (negsuc n) = false

abbrev pub is_retries : ℤ → Bool
is_retries (pos n) = not (ltb 10 n)
is_retries (negsuc n) = false

abbrev pub is_http : Option ParsedUrl → Bool
is_http none = false
is_http (some u) = (str_eq u.scheme "http" || str_eq u.scheme "https") && not (str_eq u.host "")

abbrev pub is_pattern : Option Pattern → Bool
is_pattern none = false
is_pattern (some p) = true

-- An error for each element that fails a test.
abbrev pub check_each : (String → Bool) → (String → ConfigError) → List String → List ConfigError
check_each ok err [] = []
check_each ok err (x ∷ xs) = let rest = check_each ok err xs in if ok x then rest else err x ∷ rest

abbrev pub check : Bool → ConfigError → List ConfigError
check ok err = if ok then [] else err ∷ []

module _ (o : Outside) where
  unfoldable pub compile : List String → Option (List Pattern)
  compile [] = some []
  compile (p ∷ ps) =
      o.compile_regexp (append "(?i)" p) >>= λ re. compile ps >>= λ res. some (re ∷ res)

  unfoldable pub compile_filter : Config → Option CompiledFilter
  compile_filter cfg = compile cfg.title_patterns >>= λ titles.
      compile cfg.filename_patterns >>= λ filenames. some (record {
        categories = cfg.categories;
        title_patterns = titles;
        filename_patterns = filenames;
      })

  unfoldable pub event_enabled : List String → String → Bool
  event_enabled [] event = false
  event_enabled (e ∷ es) event = o.equal_fold e event || event_enabled es event

  -- What Publish puts into the queue under a configuration and a filter that it has loaded.
  unfoldable pub publishable : Config → CompiledFilter → Event → Option Envelope
  publishable cfg f e =
      if not cfg.enabled || not (event_enabled cfg.events e.event) || not (is_nonempty cfg.urls)
      then none
      else if not (matches f e)
      then none
      else some (envelope cfg e)

  abbrev pub check_headers : List (String × String) → List ConfigError
  check_headers [] = []
  check_headers ((k, v) ∷ r) =
      let rest = check_headers r in
      if str_eq (o.trim_space k) "" || str_eq (o.trim_space v) "" then bad_header k ∷ rest else rest

  -- The errors that are joined, in order; there are none for a valid configuration.
  unfoldable pub validate : Config → List ConfigError
  validate c =
      check (is_positive c.timeout) bad_timeout
      ++ (check (is_retries c.max_retries) bad_max_retries
          ++ (check (is_positive c.queue_size) bad_queue_size
              ++ (check_each (λ u. is_http (o.parse_url u)) bad_url c.urls
                  ++ (check_each (λ e. o.equal_fold e event_classified) bad_event c.events
                      ++ (check_each o.parse_content_type bad_category c.categories
                          ++ (check_each (λ p. is_pattern (o.compile_regexp (append "(?i)" p)))
                                bad_title_pattern c.title_patterns
                              ++ (check_each (λ p. is_pattern (o.compile_regexp (append "(?i)" p)))
                                    bad_filename_pattern c.filename_patterns
                                  ++ (check
                                        (str_eq c.base_url "" || is_http (o.parse_url c.base_url))
                                        bad_base_url
                                      ++ check_headers c.headers))))))))
