-- ===== src/App/Run/Program/Tests.antt =====
-- Whole runs of the program's main thread at toy crates.
use scalpel.Common.{ℕ, ◌*◌, Bool, leb, [], ◌∷◌, ok, err, some, ◌≡◌, refl, bytes_eq}
use scalpel.Utils.{now_as_millis}
use scalpel.Backend.{
  BackendError, ping, handle_reply, handle_body, updated, update_from_response, store_of,
  is_new_token_key, stop,
}
use scalpel.Tokens.{push_key_b64, key_from_bytes, decode_b64}
use scalpel.Tokens
use scalpel.Cache.Rocks.Engine.{report}
use scalpel.Cache.Rocks.Size.{get_db_size}
use scalpel.Http.Tests.{env, gs}
use scalpel.Http.Acceptor.{
  create_openssl_acceptor, push_chain, add_chain, push_key, revert_tls, finish_builder,
}
use scalpel.Http.Lifecycle.{spawn_with, respawn_with_new_cert, spawn_http_server}
use scalpel.Http.Lifecycle
use scalpel.Http.Lifecycle.Tests.{toy_ssl, toy_actix, pkg}
use scalpel.App.{ping_backend, pinged, adopt_key, adopt_verifier}
use scalpel.App.Shutdown.{wait_for_requests, shutdown_loop, is_over}
use scalpel.App.Run.{
  respawned, after_ping, ping_if_due, shrink_done, shrink_if_due, turn, try_shrink_db,
}
use scalpel.App.Run.Loop.{
  main_loop, and_loop, start_running, with_crt, with_server, stop_server, shutdown,
}
use scalpel.App.Run.Program.{finished, stopped_panicking, after_loop, after_start, run}
use scalpel.App.Run.Tests.{float, reply, start, late, events, no_requests}

-- The flag is set after one turn.
abbrev pub once : ℕ → Bool
once n = leb 1 n

abbrev pub seconds : ℕ → ℕ
seconds n = 5 * n

runs :
    run env float pkg toy_ssl toy_actix once
      (λ n. late)
      (λ _ _. err tt)
      no_requests
      seconds
      2
      2
      (start, start)
      (λ _ _. ok reply)
      (0, [])
      gs
    ≡ some (finished events (err BackendError.send_error, 1, (2, [])))
unfolding run after_start after_loop main_loop and_loop shutdown stop_server Lifecycle.shutdown stop
    wait_for_requests shutdown_loop is_over start_running with_crt with_server turn ping_if_due
    after_ping respawned shrink_if_due shrink_done try_shrink_db report get_db_size now_as_millis
    respawn_with_new_cert Lifecycle.new ping_backend pinged adopt_key adopt_verifier push_key_b64
    Tokens.push_key key_from_bytes decode_b64 ping handle_reply handle_body updated
    update_from_response store_of is_new_token_key bytes_eq spawn_with spawn_http_server
    create_openssl_acceptor push_chain add_chain push_key revert_tls finish_builder
runs = refl

-- The port is taken: the API is told to stop, then the program panics.
port_taken :
    run env float pkg toy_ssl toy_actix once
      (λ n. late)
      (λ _ _. err tt)
      no_requests
      seconds
      2
      2
      (start, start)
      (λ _ _. ok reply)
      (1, 0 ∷ [])
      gs
    ≡ some (stopped_panicking (err BackendError.send_error, 1, (1, 0 ∷ [])))
unfolding run after_start shutdown stop_server stop wait_for_requests shutdown_loop is_over
    start_running with_crt with_server Lifecycle.new ping_backend pinged adopt_key adopt_verifier
    push_key_b64 Tokens.push_key key_from_bytes decode_b64 ping handle_reply handle_body updated
    update_from_response store_of is_new_token_key bytes_eq spawn_with spawn_http_server
    create_openssl_acceptor push_chain add_chain push_key revert_tls finish_builder
port_taken = refl
