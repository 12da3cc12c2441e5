-- ===== src/App/Main/Tests.antt =====
-- The number of threads from the environment, and a whole program at toy crates.
use scalpel.Common.{[], codes, ok, err, returns, panics, some, none, ◌≡◌, refl, bytes_eq}
use scalpel.Utils.{now_as_millis}
use scalpel.Metrics
use scalpel.Backend.{
  BackendError, ping, handle_reply, handle_body, updated, update_from_response, store_of,
  is_new_token_key, stop,
}
use scalpel.Tokens.{push_key_b64, key_from_bytes, decode_b64}
use scalpel.Tokens
use scalpel.Cache.Rocks.Engine.{report}
use scalpel.Cache.Rocks.Size.{get_db_size}
use scalpel.Http.Tests.{env}
use scalpel.Http.Acceptor.{
  create_openssl_acceptor, push_chain, add_chain, push_key, revert_tls, finish_builder,
}
use scalpel.Http.Lifecycle.{spawn_with, respawn_with_new_cert, spawn_http_server}
use scalpel.Http.Lifecycle
use scalpel.Http.Lifecycle.Tests.{toy_ssl, toy_actix, pkg}
use scalpel.App.{ping_backend, pinged, adopt_key, adopt_verifier}
use scalpel.App.Shutdown.{wait_for_requests, shutdown_loop, is_over}
use scalpel.App.Start
use scalpel.App.Start.{create_dyn_cache, open_engine}
use scalpel.App.Tests.{opens_empty, no_fs, rocks_config}
use scalpel.App.Run.{
  respawned, after_ping, ping_if_due, shrink_done, shrink_if_due, turn, try_shrink_db,
}
use scalpel.App.Run.Loop.{
  main_loop, and_loop, start_running, with_crt, with_server, stop_server, shutdown,
}
use scalpel.App.Run.Program.{finished, after_loop, after_start, run}
use scalpel.App.Run.Tests.{float, reply, start, late, events, no_requests}
use scalpel.App.Run.Program.Tests.{once, seconds}
use scalpel.App.Main.{
  parse_digits, parse_number, parse_usize, max_blocking_threads, Boot, expect, after_code, booted,
  main,
}

threads : max_blocking_threads (some (codes "+16")) ≡ returns 16
unfolding max_blocking_threads parse_usize parse_number parse_digits
threads = refl

default_threads : max_blocking_threads none ≡ returns 512
unfolding max_blocking_threads parse_usize parse_number parse_digits
default_threads = refl

not_a_number : max_blocking_threads (some (codes "many")) ≡ panics
unfolding max_blocking_threads parse_usize parse_number parse_digits
not_a_number = refl

empty_number : max_blocking_threads (some []) ≡ panics
unfolding max_blocking_threads parse_usize parse_number parse_digits
empty_number = refl

too_many : max_blocking_threads (some (codes "18446744073709551616")) ≡ panics
unfolding max_blocking_threads parse_usize parse_number parse_digits
too_many = refl

abbrev boot : Boot env float pkg toy_ssl toy_actix
boot = record {
  set_handler = ok tt;
  max_bt_var = none;
  build_runtime = λ max_bt. ok tt;
  sodium_init = ok tt;
}

whole :
    main env float pkg toy_ssl toy_actix once
      (λ n. late)
      (λ _ _. err tt)
      no_requests
      seconds
      no_fs
      opens_empty
      boot
      (some rocks_config)
      2
      1
      (start, start)
      (λ _ _. ok reply)
      (0, [])
    ≡ some (finished events (err BackendError.send_error, 1, (2, [])))
unfolding main booted expect after_code max_blocking_threads parse_usize parse_number parse_digits
    Start.init Start.new create_dyn_cache open_engine Metrics.new Tokens.new run after_start
    after_loop main_loop and_loop shutdown stop_server Lifecycle.shutdown stop wait_for_requests
    shutdown_loop is_over start_running with_crt with_server turn ping_if_due after_ping respawned
    shrink_if_due shrink_done try_shrink_db report get_db_size now_as_millis respawn_with_new_cert
    Lifecycle.new ping_backend pinged adopt_key adopt_verifier push_key_b64 Tokens.push_key
    key_from_bytes decode_b64 ping handle_reply handle_body updated update_from_response store_of
    is_new_token_key bytes_eq spawn_with spawn_http_server create_openssl_acceptor push_chain
    add_chain push_key revert_tls finish_builder
whole = refl
