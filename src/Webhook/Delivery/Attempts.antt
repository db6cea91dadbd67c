-- ===== src/Webhook/Delivery/Attempts.antt =====
-- internal/webhook/publisher.go: how often an envelope is sent, and what becomes of it.
use Prim.Native.String.{String}
use mathlib.Core.List.{append_assoc, append-nil}
use hexmagnet.Prelude.{
  ℤ, pos, negsuc, ℕ, zero, suc, ◌<◌, ◌≡◌, ◌⊎◌, inl, inr, refl, sym, ap, ◌∙◌, Bool, true, false, ltb,
  if◌then◌else◌, Bool-cases, List, [], ◌∷◌, ◌++◌, Option, none, some, arith,
}
use hexmagnet.Webhook.{Envelope, is_positive, default_timeout}
use hexmagnet.Webhook.Delivery.{
  Request, Log, Net, is_success, request, post, attempt_loop, deliver_to, attempts, deliver_urls,
  deliver_body, deliver, drain,
}

-- Failures, and then the last answer.
abbrev pub answers : ℕ → Request → Bool → Log
answers zero r ok = (r, ok) ∷ []
answers (suc k) r ok = (r, false) ∷ answers k r ok

pub record Delivery (net : Net) (n : ℕ) (r : Request) (log : Log) (result : Bool × Log)
    : Type 0 where
  pub failures : ℕ
  pub within : failures < n
  pub logged : result.1 ≡ log ++ answers failures r result.0
  pub exhausted :
      result.0 ≡ false → (suc failures ≡ n) ⊎ (net.waits (net.is_done result.1) result.1 ≡ false)

-- One delivery for each URL, in order.
abbrev pub Delivers : Net → ℕ → (String → Request) → List String → Log → Log → Type 0
Delivers net n req [] log log' = log' ≡ log
Delivers net n req (url ∷ urls) log log' =
    (result : Bool × Log) × (Delivery net n (req url) log result
      × Delivers net n req urls result.1 log')

-- The request for a URL, with the envelope's timeout or the default.
abbrev pub request_to : Net → String → Envelope → String → Request
request_to net body e url =
    request net url body (if is_positive e.timeout then e.timeout else default_timeout) e.headers

pub record Delivered (net : Net) (e : Envelope) (log log' : Log) : Type 0 where
  pub unmarshalled : net.marshal e.event ≡ none → log' ≡ log
  pub marshalled :
      (body : String)
      → net.marshal e.event ≡ some body
      → Delivers net (attempts e.retries) (request_to net body e) e.urls log log'

attempts-pos : (retries : ℤ) → 0 < attempts retries
unfolding attempts
attempts-pos (pos n) = ground arith
attempts-pos (negsuc n) = omega arith

module _ (net : Net) where
  loop-Delivery :
      (n : ℕ) (r : Request) (log : Log) → 0 < n → Delivery net n r log (attempt_loop net n r log)
  unfolding attempt_loop post
  loop-Delivery zero r log h = absurd (omega arith)
  loop-Delivery (suc n) r log h = elim (Bool-cases ok) [
    | inl good ↦
        rw good (record { failures = 0; within = omega arith; logged = refl; exhausted = λ x. cc })
    | inr bad ↦ rw bad (elim (Bool-cases (ltb 0 n)) [
      | inr last ↦ rw last (record {
        failures = 0;
        within = omega arith;
        logged = refl;
        exhausted = λ x. inl (ground (arith, last));
      })
      | inl more ↦ rw more (elim (Bool-cases (net.waits (net.is_done after) after)) [
        | inr cut ↦
            rw cut (record {
              failures = 0;
              within = omega arith;
              logged = refl;
              exhausted = λ x. inr cut;
            })
        | inl waited ↦ rw waited (go (loop-Delivery n r after (ground (arith, more))))
      ])
    ])
  ]
    where
      ok : Bool
      ok = is_success (net.respond (net.is_done log) log r)

      after : Log
      after = log ++ (r, false) ∷ []

      go : {result : Bool × Log} → Delivery net n r after result → Delivery net (suc n) r log result
      go {result} d = record {
        failures = suc d.failures;
        within = omega (arith, d.within);
        logged = d.logged ∙ append_assoc log ((r, false) ∷ []) (answers d.failures r result.0);
        exhausted = λ x. elim (d.exhausted x) [ inl y ↦ inl (ap suc y) | inr y ↦ inr y ];
      }

  urls-Delivers :
      (urls : List String) (body : String) (e : Envelope) (log : Log)
      → Delivers net
          (attempts e.retries)
          (request_to net body e)
          urls
          log
          (deliver_urls net urls body e log)
  unfolding deliver_urls deliver_to
  urls-Delivers [] body e log = refl
  urls-Delivers (url ∷ urls) body e log = (
    attempt_loop net (attempts e.retries) (request_to net body e url) log,
    (
      loop-Delivery (attempts e.retries) (request_to net body e url) log (attempts-pos e.retries),
      urls-Delivers urls body e
          (attempt_loop net (attempts e.retries) (request_to net body e url) log).1,
    ),
  )

  -- An envelope whose event cannot be marshalled is not sent. Any other is sent to each of its
  -- URLs in order, whatever fails before: at least once and at most as often as its retries and
  -- one, every attempt but the last one failed, and if the last failed too, the attempts were used
  -- up or the wait for the next was cut short.
  pub deliver-Delivered : (e : Envelope) (log : Log) → Delivered net e log (deliver net e log)
  unfolding deliver deliver_body
  deliver-Delivered e log = record {
    unmarshalled = λ h. ap (λ m. deliver_body net m e log) h;
    marshalled = λ body h. rw (h, deliver_body) (urls-Delivers e.urls body e log);
  }

-- The requests for what is left, each failed.
abbrev pub failed_urls : Net → List String → String → Envelope → Log
failed_urls net [] body e = []
failed_urls net (url ∷ urls) body e =
    (request_to net body e url, false) ∷ failed_urls net urls body e

abbrev pub failed_body : Net → Option String → Envelope → Log
failed_body net none e = []
failed_body net (some body) e = failed_urls net e.urls body e

abbrev pub failed_all : Net → List Envelope → Log
failed_all net [] = []
failed_all net (e ∷ es) = failed_body net (net.marshal e.event) e ++ failed_all net es

module _ (net : Net) (done : (l : Log) → net.is_done l ≡ true)
    (refused : (l : Log) (r : Request) → net.respond true l r ≡ none)
    (unwaited : (l : Log) → net.waits true l ≡ false) where
  loop_fails :
      (n : ℕ) (r : Request) (log : Log)
      → 0 < n
      → attempt_loop net n r log ≡ (false, log ++ (r, false) ∷ [])
  unfolding attempt_loop post
  loop_fails zero r log h = absurd (omega arith)
  loop_fails (suc n) r log h =
      rw (done log, refused log r)
        (rw (done (log ++ (r, false) ∷ []), unwaited (log ++ (r, false) ∷ []))
          (elim (Bool-cases (ltb 0 n)) [ inl x ↦ rw x refl | inr x ↦ rw x refl ]))

  urls_fail :
      (urls : List String) (body : String) (e : Envelope) (log : Log)
      → deliver_urls net urls body e log ≡ log ++ failed_urls net urls body e
  unfolding deliver_urls deliver_to
  urls_fail [] body e log = sym (append-nil log)
  urls_fail (url ∷ urls) body e log =
      ap (λ (x : Bool × Log). deliver_urls net urls body e x.1)
        (loop_fails (attempts e.retries) (request_to net body e url) log (attempts-pos e.retries))
      ∙ (urls_fail urls body e (log ++ (request_to net body e url, false) ∷ [])
          ∙ append_assoc log ((request_to net body e url, false) ∷ [])
              (failed_urls net urls body e))

  body_fails :
      (m : Option String) (e : Envelope) (log : Log)
      → deliver_body net m e log ≡ log ++ failed_body net m e
  unfolding deliver_body
  body_fails none e log = sym (append-nil log)
  body_fails (some body) e log = urls_fail e.urls body e log

  -- Where the publisher's context stays done, a request under a done context is not sent, and a
  -- wait under it is cut short: each envelope that is left in the queue and whose event can be
  -- marshalled is tried once for each of its URLs, and every one of these attempts fails.
  pub drain_lem : (es : List Envelope) (log : Log) → drain net es log ≡ log ++ failed_all net es
  unfolding drain deliver
  drain_lem [] log = sym (append-nil log)
  drain_lem (e ∷ es) log =
      ap (drain net es) (body_fails (net.marshal e.event) e log)
      ∙ (drain_lem es (log ++ failed_body net (net.marshal e.event) e)
          ∙ append_assoc log (failed_body net (net.marshal e.event) e) (failed_all net es))
