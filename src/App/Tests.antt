-- ===== src/App/Tests.antt =====
-- The theorems about src/main.rs at an API with a good and with a malformed token key.
use scalpel.Common.{ℕ, ◌+◌, ◌*◌, ◌≤◌, [], ◌∷◌, ok, err, returns, Option, some, ◌≡◌, refl, bytes_eq}
use scalpel.Common.Int.{pos}
use scalpel.Tokens.{key_malformed, push_key_b64, push_key, key_from_bytes, decode_b64}
use scalpel.Backend.{
  TlsPayload, PingResponse, Reply, ping, handle_reply, handle_body, updated, update_from_response,
  store_of, is_new_token_key,
}
use scalpel.Backend.Tests.{config, tls, response, stored}
use scalpel.State.{GlobalState}
use scalpel.Http.Tests.{env, gs, no_rows}
use scalpel.App.{key_error, ping_backend, pinged, adopt_key, adopt_verifier}
use scalpel.App.Verifier.{InStep, Kept, ping_backend-Kept}
use scalpel.Common.{Result, List, Str, codes, true, false, none, []}
use scalpel.Tokens
use scalpel.Config.{AppConfig, FsConfig, RocksConfig}
use scalpel.Metrics
use scalpel.Cache.Rocks.Store.{RocksCache}
use scalpel.Cache.Rocks.Toy.{toy_rocks, toy_bincode}
use scalpel.App.Start
use scalpel.App.Start.{create_dyn_cache, open_engine}
use scalpel.App.Start.Counted.{init-IsCounted}
use scalpel.Cache.Rocks.Db.{RocksDb}
use scalpel.Cache.Rocks.Options
use scalpel.Cache.Rocks.Options.{DbOptions, CfOptions}
use scalpel.Cache.Rocks.Size.{open_cache, fetch_real_size, fetch_loop}
use scalpel.Cache.Rocks.Size.Exact.{IsCounted}
use scalpel.Utils.{now_as_millis}
use scalpel.App.Reachable.{Reachable, Reachable-InStep}
use scalpel.App.Refused.{ping_backend-refused_key}
use scalpel.App.Shutdown.{
  is_over, shutdown_loop, wait_for_requests, IsWait, wait_for_requests-IsWait,
  wait_for_requests_quiet,
}

-- A key of one byte is well formed in the toy crypto, one of four is not.
abbrev good : Reply PingResponse
good = record { status = 200; json = ok (record response { token_key = 7 ∷ [] }); text = err tt }

abbrev bad : Reply PingResponse
bad = record { status = 200; json = ok response; text = err tt }

abbrev after_good : GlobalState env
after_good = record gs {
  ping_info = some (record stored { token_key = 7 ∷ [] });
  verifier = some 7;
}

good_ping : ping_backend env (λ _ _. ok good) gs ≡ returns (ok (some tls), after_good)
unfolding ping_backend pinged adopt_key adopt_verifier push_key_b64 push_key key_from_bytes
    decode_b64 ping handle_reply handle_body updated update_from_response store_of is_new_token_key
    bytes_eq
good_ping = refl

gs-InStep : InStep env gs
gs-InStep = refl

ping_backend-Kept_test : Kept env (ok (some tls), after_good)
ping_backend-Kept_test = ping_backend-Kept env (λ _ _. ok good) gs gs-InStep good_ping

abbrev after_bad : GlobalState env
after_bad = record after_good { ping_info = some stored }

bad_ping :
    ping_backend env (λ _ _. ok bad) after_good ≡ returns (err (key_error key_malformed), after_bad)
unfolding ping_backend pinged adopt_key adopt_verifier push_key_b64 push_key key_from_bytes
    decode_b64 ping handle_reply handle_body updated update_from_response store_of is_new_token_key
    bytes_eq
bad_ping = refl

ping_backend-refused_key_example :
    (crt : Option TlsPayload) × (ping_backend env (λ _ _. ok bad) after_bad
      ≡ returns (ok crt, after_bad))
    × (after_bad.verifier ≡ after_good.verifier)
ping_backend-refused_key_example =
    ping_backend-refused_key env (ok bad) after_good after_bad key_malformed bad_ping

abbrev busy : ℕ → ℕ
busy n = n

abbrev seconds : ℕ → ℕ
seconds n = 5 * n

two_intervals : wait_for_requests (pos 10) busy seconds 10 ≡ some 2
unfolding wait_for_requests shutdown_loop is_over
two_intervals = refl

busy-IsWait : IsWait (pos 10) busy seconds 2
busy-IsWait = wait_for_requests-IsWait (pos 10) busy seconds 10 two_intervals

wait_for_requests_quiet_test :
    (m : ℕ) × (wait_for_requests (pos 0) (λ _. 3) seconds (0 + 1) ≡ some m) × (m ≤ 0 + 1)
wait_for_requests_quiet_test = wait_for_requests_quiet (pos 0) (λ _. 3) seconds 0 refl refl

-- A clock on which an interval takes ten seconds.
abbrev slow : ℕ → ℕ
slow n = 10 * n

-- From the start through a first ping.
abbrev pub opens_empty : RocksConfig → Result (RocksCache toy_rocks toy_bincode) (Unit {0})
opens_empty _ = ok no_rows

abbrev pub no_fs : FsConfig → Result (RocksCache toy_rocks toy_bincode) (Unit {0})
no_fs _ = err tt

abbrev pub rocks_config : AppConfig
rocks_config = record config {
  rocks_opt = some (record {
    path = codes "db";
    disable_bloom_filter = false;
    lru_size = none;
    parallelism = none;
    write_buffer_size = none;
    write_rate_limit = none;
  });
}

abbrev pub fresh : GlobalState env
fresh = record gs { config = rocks_config }

pub starts : Start.init env no_fs opens_empty (some rocks_config) ≡ returns fresh
unfolding Start.init Start.new create_dyn_cache open_engine bytes_eq Metrics.new Tokens.new
starts = refl

abbrev after_first : GlobalState env
after_first = record after_good { config = rocks_config }

first_ping : ping_backend env (λ _ _. ok good) fresh ≡ returns (ok (some tls), after_first)
unfolding ping_backend pinged adopt_key adopt_verifier push_key_b64 push_key key_from_bytes
    decode_b64 ping handle_reply handle_body updated update_from_response store_of is_new_token_key
    bytes_eq
first_ping = refl

after_first-Reachable : Reachable env after_first
after_first-Reachable =
    Reachable.pinged fresh (λ _ _. ok good) (ok (some tls)) after_first
      (Reachable.started no_fs opens_empty (some rocks_config) fresh starts) first_ping (λ e h. cc)

Reachable-InStep_example : InStep env after_first
Reachable-InStep_example = Reachable-InStep env after_first after_first-Reachable

-- The same start with the engine as it is opened.
abbrev no_lru : ℕ → Result (Unit {0}) (Unit {0})
no_lru size = err tt

abbrev opens_tables :
    DbOptions → Str → List (Str × CfOptions) → Result (RocksDb.Db toy_rocks) (Unit {0})
opens_tables options path cfs = ok no_rows.db

starts_rocks :
    Start.init env no_fs
      (λ conf. Options.new toy_rocks toy_bincode no_lru opens_tables (ok 0) conf)
      (some rocks_config)
    ≡ returns fresh
unfolding Start.init Start.new create_dyn_cache open_engine bytes_eq Metrics.new Tokens.new
    Options.new open_cache fetch_real_size fetch_loop now_as_millis
starts_rocks = refl

init-IsCounted_example : IsCounted toy_rocks toy_bincode no_rows
unfolding bytes_eq
init-IsCounted_example =
    init-IsCounted toy_rocks toy_bincode env true true no_fs no_lru opens_tables (ok 0) rocks_config
      fresh refl starts_rocks
