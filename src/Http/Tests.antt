-- ===== src/Http/Tests.antt =====
-- The theorems about src/http at a concrete environment: the RocksDB engine over lists, tags that
-- are their text, and an upstream with one image.
use scalpel.Common.{
  ℕ, ◌+◌, ◌==◌, Str, true, false, List, [], ◌∷◌, ◌++◌, map, codes, Result, ok, err, none, some, ◌≡◌,
  refl, arith, bytes_eq, if◌then◌else◌,
}
use scalpel.Cache.Key.{ImageKey, as_bkey}
use scalpel.Cache.Entry.{ImageEntry, MimeApi, get_mime}
use scalpel.Cache.Entry
use scalpel.Cache.Api.{ImageCache, IsStore}
use scalpel.Cache.Rocks.Toy.{toy_sha, toy_bincode, toy_rocks}
use scalpel.Cache.Rocks.Store.{
  RocksCache, save_entry, load_entry, try_join, put_cf_async, get_cf_async, run_both, after_first,
  db_op_async, spawn_blocking, integrate,
}
use scalpel.Cache.Rocks.Engine.{rocks_engine, rocks_engine-IsStore, load, save}
use scalpel.Common.Assoc.{lookup, without}
use scalpel.Tokens.Tests.{toy}
use scalpel.Backend.Tests.{urls, config}
use scalpel.State.{Env, GlobalState}
use scalpel.Http.Api.{HttpApi, items, HttpRequest}
use scalpel.Http.Chunked
use scalpel.Http.Chunked.{
  BytesAgg, Poll, ready, pending, Answer, UpstreamError, upstream_error, poll_all, drop, run_task,
  ChunkedUpstreamPoll,
}
use scalpel.Http.Chunked.Body.{
  pass_on, has_error, received, completed, failed, poll_all-eq-map, drop-poll_all,
}
use scalpel.Http.Handler.{
  HttpResponse, World, start_poll_upstream_retry, retry_loop, response_from_cache, content_type,
  etag, other, empty, bytes,
}
use scalpel.Http.Handler.Retry.{IsFirstSuccess, start_poll_upstream_retry-IsFirstSuccess}
use scalpel.Http.Handler.Hit.{
  HasTag, tag_of, IsHit, response_from_cache-IsHit, response_from_cache_revalidated,
}
use scalpel.Http.Handler.Miss.{IsMiss, response_from_cache-IsMiss}
use scalpel.Http.Handler.Count.{settle, settled, response_from_cache-settled}
use scalpel.Http.Handler.Cycle.{ended, task_of, hit_after_miss}

abbrev pub mime : MimeApi
mime = record {
  Mime = Str;
  from_str = λ s. ok s;
  to_string = λ m. m;
  image_png = codes "image/png";
  round_trip = λ m. refl;
}

abbrev pub http : HttpApi
http = record {
  EntityTag = Str;
  strong = λ s. s;
  strong_eq = bytes_eq;
  HttpDate = Unit {0};
  date_from_str = λ _. ok tt;
  date_from_time = λ _. tt;
  show_status = λ n. n ∷ [];
  strong_eq-strong = λ a b. refl;
}

abbrev pub env : Env
env = record {
  sha = toy_sha;
  mime = mime;
  crypto = toy;
  url = urls;
  engine = rocks_engine toy_rocks toy_bincode toy_sha true true;
  http = http;
  hex_encode = λ b. b;
}

store : IsStore env.sha env.engine
store = rocks_engine-IsStore toy_rocks toy_bincode toy_sha true true

abbrev pub no_rows : RocksCache toy_rocks toy_bincode
no_rows = record { db = (([], tt), ([], tt)); db_size = 0; last_fetch = 0; in_flight = [] }

abbrev pub gs : GlobalState env
gs = record {
  config = config;
  cache = no_rows;
  verifier = none;
  ping_info = none;
  request_counter = 0;
  metrics = record {
    cache_size = 0;
    cache_max_size = 0;
    hit_requests_total = 0;
    miss_requests_total = 0;
    dropped_requests_total = 0;
    failed_requests_total = 0;
    bytes_down = 0;
    bytes_up = 0;
    cache_load_seconds = 0;
    cache_save_histo = 0;
    hit_request_process_seconds = 0;
    miss_request_process_seconds = 0;
    upstream_ttfb_seconds = 0;
  };
  tasks = [];
}

abbrev pub key : ImageKey
key = record { chapter = codes "ab"; image = codes "1.png"; data_saver = false }

-- Two chunks, a poll without an answer between them, and the end.
abbrev pub whole : List (Answer (Unit {0}))
whole = ready (some (ok (1 ∷ 2 ∷ []))) ∷ pending ∷ ready (some (ok (3 ∷ []))) ∷ ready none ∷ []

abbrev broken : List (Answer (Unit {0}))
broken = ready (some (ok (1 ∷ 2 ∷ []))) ∷ ready (some (err tt)) ∷ []

abbrev jpeg : Str
jpeg = codes "image/jpeg"

poll_all-eq-map_test : (poll_all env broken (Chunked.new env key jpeg 0)).0 ≡ map pass_on broken
poll_all-eq-map_test = poll_all-eq-map env broken (Chunked.new env key jpeg 0)

drop-poll_all_example :
    drop env (poll_all env broken (Chunked.new env key jpeg 3)).1 gs
    ≡ (if has_error broken then failed env gs else completed env key jpeg (received broken) gs)
drop-poll_all_example = drop-poll_all env broken key jpeg 3 gs

-- Two failures, then a success.
abbrev attempt : ℕ → Result ℕ (Unit {0})
attempt n = if n == 2 then ok 7 else err tt

start_poll_upstream_retry-IsFirstSuccess_example :
    (res : Result ℕ (Unit {0})) × (n : ℕ) × (start_poll_upstream_retry attempt 3 ≡ some (res, n))
    × IsFirstSuccess attempt 3 res n
start_poll_upstream_retry-IsFirstSuccess_example =
    start_poll_upstream_retry-IsFirstSuccess attempt 3

third_time : start_poll_upstream_retry attempt 3 ≡ some (ok 7, 3)
unfolding start_poll_upstream_retry retry_loop
third_time = refl

abbrev pub offline : ℕ → World env
offline _ = record { ping_info = none; get = λ _. err tt; now = ok 5 }

abbrev pub plain : HttpRequest env.http
plain = record { if_none_match = none }

nothing_cached : ImageCache.load env.engine key no_rows ≡ (none, no_rows)
unfolding load load_entry try_join run_both after_first get_cf_async db_op_async spawn_blocking
    integrate as_bkey lookup
nothing_cached = refl

response_from_cache-IsMiss_example :
    (res : HttpResponse env) × (gs' : GlobalState env) × (response_from_cache env plain key offline
        gs
      ≡ some (res, gs'))
    × IsMiss env key offline gs no_rows res gs'
response_from_cache-IsMiss_example =
    response_from_cache-IsMiss env plain key offline gs nothing_cached

response_from_cache-settled_test :
    (res : HttpResponse env) × (gs' : GlobalState env) × (response_from_cache env plain key offline
        gs
      ≡ some (res, gs'))
    × (settled env (settle env res.body whole gs')
        ≡ settled env gs + (if res.status == 404 then 0 else 1))
response_from_cache-settled_test = response_from_cache-settled env whole plain key offline gs

-- The cache after the image was saved.
abbrev saved_rows : RocksCache toy_rocks toy_bincode
saved_rows =
    (save toy_rocks toy_bincode toy_sha true true (ok 5) key jpeg (received whole) no_rows).1

abbrev image : ImageEntry
image = Entry.new toy_sha (1 ∷ 2 ∷ 3 ∷ []) jpeg (ok 5)

saving : ImageCache.save env.engine (ok 5) key jpeg (received whole) no_rows ≡ (true, saved_rows)
unfolding save save_entry try_join run_both after_first put_cf_async db_op_async spawn_blocking
saving = refl

finding : ImageCache.load env.engine key saved_rows ≡ (some image, saved_rows)
unfolding load save load_entry save_entry try_join run_both after_first put_cf_async get_cf_async
    db_op_async spawn_blocking integrate without lookup bytes_eq as_bkey Entry.new received
finding = refl

abbrev cached : GlobalState env
cached = record gs { cache = saved_rows }

response_from_cache-IsHit_example :
    (res : HttpResponse env) × (gs' : GlobalState env) × (response_from_cache env plain key offline
        cached
      ≡ some (res, gs'))
    × IsHit env plain image cached saved_rows res gs'
response_from_cache-IsHit_example = response_from_cache-IsHit env plain key offline cached finding

response_from_cache_revalidated_test :
    (res : HttpResponse env) × (gs' : GlobalState env) × (response_from_cache env
        (record { if_none_match = some (items (codes "x" ∷ tag_of env image ∷ [])) })
        key
        offline
        cached
      ≡ some (res, gs'))
    × (res.status ≡ 304)
    × (res.body ≡ empty)
    × (gs'.metrics.bytes_up ≡ cached.metrics.bytes_up)
response_from_cache_revalidated_test =
    response_from_cache_revalidated env key offline cached (codes "x" ∷ []) [] finding

no_tag : ¬ HasTag env plain image
no_tag (xs, listed, _) = ground (arith, listed)

whole-good : has_error whole ≡ false
unfolding has_error
whole-good = refl

hit_after_miss_example :
    ((ended env store whole key jpeg 3 gs).tasks
      ≡ gs.tasks ++ task_of env store whole key jpeg ∷ [])
    × (res : HttpResponse env) × (gs' : GlobalState env) × (response_from_cache env plain key
          offline
          (run_task env
            (ok 5)
            (task_of env store whole key jpeg)
            (ended env store whole key jpeg 3 gs))
        ≡ some (res, gs'))
    × (res.status ≡ 200)
    × (res.body ≡ bytes (received whole))
    × (res.headers
        ≡ content_type jpeg
          ∷ etag (tag_of env image)
          ∷ other (codes "Vary") (codes "Accept-Encoding")
          ∷ [])
hit_after_miss_example =
    hit_after_miss env store whole key jpeg 3 gs (ok 5) plain offline whole-good saving finding
      no_tag
