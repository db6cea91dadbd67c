-- ===== src/Webhook/Valid.antt =====
-- internal/webhook/config.go and publisher.go: what a valid configuration gives the publisher.
use Prim.Native.String.{String, ◌++◌ as append}
use hexmagnet.Prelude.{
  ℤ, pos, negsuc, ℕ, zero, suc, ◌+◌, ◌≤◌, ◌≡◌, refl, Bool, true, false, if◌then◌else◌, str_eq, ◌||◌,
  List, [], ◌∷◌, ◌++◌, Option, none, some, arith,
}
use hexmagnet.Webhook.{
  Outside, Config, ConfigError, bad_timeout, bad_max_retries, bad_queue_size, bad_url, bad_event,
  bad_category, bad_title_pattern, bad_filename_pattern, bad_base_url, check_headers, Pattern,
  CompiledFilter, validate, check, check_each, is_pattern, is_positive, is_retries, is_http,
  event_classified, queue_capacity, compile, compile_filter,
}
use hexmagnet.Webhook.Delivery.{attempts}

append-nil_parts : (xs ys : List ConfigError) → xs ++ ys ≡ [] → (xs ≡ []) × (ys ≡ [])
append-nil_parts [] ys h = (refl, h)
append-nil_parts (x ∷ xs) ys h = cc

check-nil : (ok : Bool) (err : ConfigError) → check ok err ≡ [] → ok ≡ true
check-nil true err h = refl
check-nil false err h = cc

retries-attempts :
    (retries : ℤ)
    → is_retries retries ≡ true
    → (n : ℕ) × (retries ≡ pos n) × (n ≤ 10) × (attempts retries ≡ n + 1)
unfolding attempts
retries-attempts (pos n) h = (n, refl, ground arith, ground arith)
retries-attempts (negsuc n) h = cc

positive-capacity : (size : ℤ) → is_positive size ≡ true → pos (queue_capacity size) ≡ size
unfolding queue_capacity
positive-capacity (pos zero) h = ground arith
positive-capacity (pos (suc n)) h = refl
positive-capacity (negsuc n) h = cc

step-nil :
    (ok : Bool) (err : ConfigError) (rest : List ConfigError)
    → (if ok then rest else err ∷ rest) ≡ []
    → (ok ≡ true) × (rest ≡ [])
step-nil true err rest h = (refl, h)
step-nil false err rest h = cc

is_pattern-some : (m : Option Pattern) → is_pattern m ≡ true → (p : Pattern) × (m ≡ some p)
is_pattern-some none h = cc
is_pattern-some (some p) h = (p, refl)

-- A delay, a number of attempts, a capacity and a filter, as configured.
pub record IsUsable (o : Outside) (c : Config) : Type 0 where
  pub timeout : is_positive c.timeout ≡ true
  pub retries : ℕ
  pub max_retries : c.max_retries ≡ pos retries
  pub at_most : retries ≤ 10
  pub attempts_lem : attempts c.max_retries ≡ retries + 1
  pub capacity : pos (queue_capacity c.queue_size) ≡ c.queue_size
  pub filter : CompiledFilter
  pub compiles : compile_filter o c ≡ some filter

module _ (o : Outside) where
  compile-some :
      (err : String → ConfigError) (patterns : List String)
      → check_each (λ p. is_pattern (o.compile_regexp (append "(?i)" p))) err patterns ≡ []
      → (ps : List Pattern) × (compile o patterns ≡ some ps)
  unfolding compile
  compile-some err [] h = ([], refl)
  compile-some err (p ∷ patterns) h =
      let both = step-nil _ _ _ h in
      let re = is_pattern-some (o.compile_regexp (append "(?i)" p)) both.0 in
      let res = compile-some err patterns both.1 in (re.0 ∷ res.0, rw (re.1, res.1) refl)

  -- A configuration in which Validate finds no error has a filter that compiles, one attempt more
  -- than its retries, of which there are at most ten, the queue capacity that it names, and a
  -- timeout above zero.
  pub validate-IsUsable : (c : Config) → validate o c ≡ [] → IsUsable o c
  unfolding validate compile_filter
  validate-IsUsable c h =
      let t = append-nil_parts (check (is_positive c.timeout) bad_timeout) _ h in
      let r = append-nil_parts (check (is_retries c.max_retries) bad_max_retries) _ t.1 in
      let q = append-nil_parts (check (is_positive c.queue_size) bad_queue_size) _ r.1 in
      let u = append-nil_parts (check_each (λ u. is_http (o.parse_url u)) bad_url c.urls) _ q.1 in
      let e =
        append-nil_parts (check_each (λ e. o.equal_fold e event_classified) bad_event c.events) _
          u.1 in
      let k = append-nil_parts (check_each o.parse_content_type bad_category c.categories) _ e.1 in
      let titles =
        append-nil_parts
          (check_each (λ p. is_pattern (o.compile_regexp (append "(?i)" p))) bad_title_pattern
            c.title_patterns)
          _ k.1 in
      let files =
        append-nil_parts
          (check_each (λ p. is_pattern (o.compile_regexp (append "(?i)" p))) bad_filename_pattern
            c.filename_patterns)
          (check (str_eq c.base_url "" || is_http (o.parse_url c.base_url)) bad_base_url
            ++ check_headers o c.headers)
          titles.1 in
      let a = compile-some bad_title_pattern c.title_patterns titles.0 in
      let b = compile-some bad_filename_pattern c.filename_patterns files.0 in
      let n = retries-attempts c.max_retries (check-nil _ _ r.0) in
      record {
        timeout = check-nil _ _ t.0;
        retries = n.0;
        max_retries = n.1;
        at_most = n.2;
        attempts_lem = n.3;
        capacity = positive-capacity c.queue_size (check-nil _ _ q.0);
        filter = record {
          categories = c.categories;
          title_patterns = a.0;
          filename_patterns = b.0;
        };
        compiles = rw (a.1, b.1) refl;
      }
