-- ===== src/Webhook/Examples.antt =====
-- The theorems of the webhooks at concrete inputs.
use hexmagnet.Prelude.{
  ℕ, Option, pos, ◌≡◌, refl, true, false, if◌then◌else◌, str_eq, [], ◌∷◌, ◌++◌, none, some,
}
use hexmagnet.Webhook.{Outside, Event, Config, envelope, publishable, queue_capacity}
use hexmagnet.Webhook.Publisher.{
  System, publish, swap, initial, new_publisher, Reach, begin, next, publishes, swaps,
}
use hexmagnet.Webhook.Publisher.Conserved.{Reach-IsSafe}
use hexmagnet.Webhook.Publisher.Sends.{IsSafe, writer-publish}
use hexmagnet.Webhook.Delivery.{Net, Log, deliver, drain}
use hexmagnet.Webhook.Delivery.Attempts.{Delivered, deliver-Delivered, failed_all, drain_lem}

-- A pattern matches the text that it is; no URL but one is absolute.
abbrev outside : Outside
outside = record {
  compile_regexp = λ p. if str_eq p "(?i)(" then none else some (λ s. str_eq p s);
  parse_url =
      λ u. if str_eq u "http://a" then some (record { scheme = "http"; host = "a" }) else none;
  equal_fold = str_eq;
  trim_space = λ s. s;
  parse_content_type = λ s. str_eq s "movie";
}

abbrev config : Config
config = record {
  enabled = true;
  urls = "http://a" ∷ [];
  events = "classified" ∷ [];
  categories = "movie" ∷ [];
  title_patterns = "x" ∷ [];
  filename_patterns = [];
  timeout = pos 1000;
  max_retries = pos 2;
  base_url = "http://a";
  headers = ("Authorization", "Bearer t") ∷ [];
  queue_size = pos 1;
}

abbrev movie_event : Event
movie_event = record {
  event = "classified";
  info_hash = "ff";
  name = "(?i)x";
  size = pos 1;
  content_type = some "movie";
  content_source = none;
  content_id = none;
  languages = [];
  seeders = none;
  leechers = none;
  files_count = none;
  files = [];
  magnet = "magnet:";
  torrent_url = "";
  created_at = 0;
}

-- An event is published, and then the queue is made longer.
abbrev filled : System
filled =
    publish (publishable outside config (new_publisher outside config).filters movie_event)
      (initial outside config)

abbrev swapped : System
swapped = swap (queue_capacity (pos 2)) filled

filled-Reach : Reach outside config filled
unfolding initial
filled-Reach = next begin (
    publishes (initial outside config) config (new_publisher outside config).filters movie_event
      refl)

writer_filled : filled.writer ≡ none
unfolding initial
writer_filled =
    writer-publish (initial outside config)
      (publishable outside config (new_publisher outside config).filters movie_event)

swapped-Reach : Reach outside config swapped
swapped-Reach = next filled-Reach (swaps filled (pos 2) writer_filled)

Reach-IsSafe_example : IsSafe swapped
Reach-IsSafe_example = Reach-IsSafe outside config swapped swapped-Reach

-- The endpoint does not answer the first request, and then it does, unless the context is done.
abbrev net : Net
net = record {
  marshal = λ e. some e.info_hash;
  user_agent = "hexmagnet";
  is_done = λ log. false;
  respond = λ done log r. if done then none else first log;
  waits = λ done log. if done then false else true;
}
  where
    first : Log → Option ℕ
    first [] = none
    first (x ∷ log) = some 200

abbrev done_net : Net
done_net = record net { is_done = λ log. true }

deliver-Delivered_example :
    Delivered net (envelope config movie_event) [] (deliver net (envelope config movie_event) [])
deliver-Delivered_example = deliver-Delivered net (envelope config movie_event) []

drain_lem_example :
    drain done_net (envelope config movie_event ∷ []) []
    ≡ [] ++ failed_all done_net (envelope config movie_event ∷ [])
drain_lem_example =
    drain_lem done_net (λ l. refl) (λ l r. refl) (λ l. refl) (envelope config movie_event ∷ []) []
