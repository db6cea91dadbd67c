-- ===== src/Webhook/Delivery.antt =====
-- internal/webhook/publisher.go: the delivery of an envelope, and what is delivered at the end. The
-- log holds each request with whether it succeeded. What an endpoint answers, whether a wait between
-- two attempts passes, and when the publisher's context is done depend on the log so far; they are
-- parameters, as are `json.Marshal` and the program's name in `User-Agent`. Header names are kept as
-- they are spelled, where `Header.Set` gives them a canonical spelling.
pub mod Attempts
use Prim.Native.String.{String}
use hexmagnet.Prelude.{
  ℤ, pos, negsuc, ℕ, zero, suc, ◌+◌, ◌^◌, Bool, true, false, not, ◌&&◌, ltb, leb, if◌then◌else◌,
  List, [], ◌∷◌, ◌++◌, Option, none, some, insert, string_eq,
}
use hexmagnet.Webhook.{Event, Envelope, default_timeout, is_positive}

pub record Request : Type 0 where
  pub url : String
  pub body : String
  pub timeout : ℤ
  pub headers : List (String × String)

abbrev pub Log : Type 0
Log = List (Request × Bool)

-- `respond` is the status, or `none` for a request that cannot be built or sent; its first argument,
-- and that of `waits`, is whether the context is done.
pub record Net : Type 0 where
  pub marshal : Event → Option String
  pub user_agent : String
  pub is_done : Log → Bool
  pub respond : Bool → Log → Request → Option ℕ
  pub waits : Bool → Log → Bool

abbrev pub is_success : Option ℕ → Bool
is_success none = false
is_success (some status) = leb 200 status && ltb status 300

-- `Header.Set` of the configured headers over the two that are always set.
set_headers : List (String × String) → List (String × String) → List (String × String)
set_headers [] sent = sent
set_headers ((k, v) ∷ headers) sent = set_headers headers (insert k v sent)

-- `e.retries + 1` on 64 bits, and 1 at least.
unfoldable pub attempts : ℤ → ℕ
attempts (pos n) = if ltb (n + 1) (2 ^ 63) then n + 1 else 1
attempts (negsuc n) = 1

module _ (net : Net) where
  pub request : String → String → ℤ → List (String × String) → Request
  unfolding set_headers
  request url body timeout headers = record {
    url = url;
    body = body;
    timeout = timeout;
    headers =
        set_headers headers
          (("Content-Type", "application/json") ∷ ("User-Agent", net.user_agent) ∷ []);
  }

  pub post : Log → Request → Bool × Log
  post log r =
      let ok = is_success (net.respond (net.is_done log) log r) in (ok, log ++ (r, ok) ∷ [])

  -- The attempts that are left, this one included; without any, no error was met.
  pub attempt_loop : ℕ → Request → Log → Bool × Log
  attempt_loop zero r log = (true, log)
  attempt_loop (suc n) r log =
      let (ok, log') = post log r in
      let rest = attempt_loop n r log' in
      if ok
      then (true, log')
      else if ltb 0 n && net.waits (net.is_done log') log'
      then rest
      else (false, log')

  pub deliver_to : String → String → ℕ → ℤ → List (String × String) → Log → Bool × Log
  deliver_to url body attempts timeout headers log =
      attempt_loop attempts
        (request url body (if is_positive timeout then timeout else default_timeout) headers) log

  pub deliver_urls : List String → String → Envelope → Log → Log
  deliver_urls [] body e log = log
  deliver_urls (url ∷ urls) body e log =
      deliver_urls urls body e (deliver_to url body (attempts e.retries) e.timeout e.headers log).1

  pub deliver_body : Option String → Envelope → Log → Log
  deliver_body none e log = log
  deliver_body (some body) e log = deliver_urls e.urls body e log

  pub deliver : Envelope → Log → Log
  unfolding deliver_body
  deliver e log = deliver_body (net.marshal e.event) e log

  pub drain : List Envelope → Log → Log
  drain [] log = log
  drain (e ∷ es) log = drain es (deliver e log)
