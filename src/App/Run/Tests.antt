-- ===== src/App/Run/Tests.antt =====
-- The main loop at toy crates: a restart by a ping, and a look at an empty cache.
use scalpel.Common.{
  ℕ, ◌+◌, ◌*◌, ◌/◌, ◌≤◌, ◌<◌, Bool, List, [], ◌∷◌, codes, ok, err, some, ltb, leb, if◌then◌else◌,
  bytes_eq, ◌≡◌, ◌↔◌, refl, arith, Any,
}
use scalpel.Utils.{now_as_millis}
use scalpel.Backend.{
  PingResponse, Reply, BackendError, ping, handle_reply, handle_body, updated, update_from_response,
  store_of, is_new_token_key, stop,
}
use scalpel.Backend.Tests.{tls, response, stored}
use scalpel.Tokens.{push_key_b64, key_from_bytes, decode_b64}
use scalpel.Tokens
use scalpel.State.{GlobalState}
use scalpel.Cache.Rocks.Engine.{report}
use scalpel.Cache.Rocks.Size.{get_db_size}
use scalpel.Http.Tests.{env, gs}
use scalpel.Http.Acceptor.{
  create_openssl_acceptor, push_chain, add_chain, push_key, revert_tls, finish_builder,
}
use scalpel.Http.Lifecycle.{
  HttpServerLifecycle, spawn_with, respawn_with_new_cert, spawn_http_server,
}
use scalpel.Http.Lifecycle
use scalpel.Http.Lifecycle.Tests.{toy_ssl, toy_actix, pkg}
use scalpel.App.{ping_backend, pinged, adopt_key, adopt_verifier}
use scalpel.App.Shutdown.{wait_for_requests, shutdown_loop, is_over}
use scalpel.App.Run.{
  F64, Event, shrunk, Ran, done, secs, Running, Turn, respawned, after_ping, ping_if_due,
  shrink_done, shrink_if_due, turn, try_shrink_db,
}
use scalpel.App.Run.Loop.{
  served, run_turns, and_then_run, main_loop, start_running, with_crt, with_server, stop_server,
  shutdown,
}
use scalpel.App.Run.Turns.{Spaced, run_turns-pings, run_turns-Spaced}
use scalpel.App.Run.Serves.{Serves, shutdown-Serves}
use scalpel.App.Run.Panics.{PingFails, turn-panicked_iff}
use scalpel.App.Run.Kill.{IsFirst, turns_from, main_loop-stops}

-- Hundredths.
abbrev pub float : F64
float = record {
  Float = ℕ;
  of_u64 = λ n. n * 100;
  literal = λ s.
      if bytes_eq s (codes "0.9") then 90 else if bytes_eq s (codes "0.95") then 95 else 102400;
  mul = λ a b. a * b / 100;
  gt = λ a b. ltb b a;
  as_u64 = λ a. a / 100;
  as_i64 = λ a. a / 100;
}

abbrev pub reply : Reply PingResponse
reply = record { status = 200; json = ok (record response { token_key = 7 ∷ [] }); text = err tt }

abbrev pub start : ℕ
start = 1000000000000

abbrev State : Type 0
State = Running env float pkg toy_ssl toy_actix

abbrev known : GlobalState env
known = record gs { ping_info = some (record stored { token_key = 7 ∷ [] }); verifier = some 7 }

abbrev pub running : State
running = record {
  gs = known;
  server = record { actix_server = 0 };
  net = (1, 0 ∷ []);
  crt = tls;
  last_ping = start;
  last_shrink = 400000000000;
}

starts :
    start_running env float pkg toy_ssl toy_actix (start, start) (λ _ _. ok reply) (0, []) gs
    ≡ served running
unfolding start_running with_crt with_server ping_backend pinged adopt_key adopt_verifier
    push_key_b64 Tokens.push_key key_from_bytes decode_b64 ping handle_reply handle_body updated
    update_from_response store_of is_new_token_key bytes_eq Lifecycle.new spawn_with
    spawn_http_server create_openssl_acceptor push_chain add_chain push_key revert_tls
    finish_builder
starts = refl

-- A turn one minute and a second after the start.
abbrev pub late : Turn env float pkg toy_ssl toy_actix
late = record {
  meanwhile = λ gs. gs;
  at_ping = start + 61000000000;
  pinged_at = start + 61000000001;
  send = λ _ _. ok reply;
  at_shrink = start + 62000000000;
  shrunk_at = start + 62000000001;
  report_clock = λ n. ok n;
  shrink_clock = λ n. ok n;
}

abbrev pub after : State
after = record running {
  gs = record known { metrics = record gs.metrics { cache_max_size = 42949672960 } };
  server = record { actix_server = 1 };
  net = (2, 1 ∷ []);
  last_ping = start + 61000000001;
  last_shrink = start + 62000000001;
}

abbrev pub events : List Event
events = Event.pinged (start + 61000000001) ∷ shrunk (start + 62000000001) ∷ []

turns_once : run_turns env float pkg toy_ssl toy_actix (late ∷ []) running ≡ done (after, events)
unfolding run_turns and_then_run turn ping_if_due after_ping respawned shrink_if_due shrink_done
    try_shrink_db report get_db_size now_as_millis respawn_with_new_cert Lifecycle.shutdown
    ping_backend pinged adopt_key adopt_verifier push_key_b64 Tokens.push_key key_from_bytes
    decode_b64 ping handle_reply handle_body updated update_from_response store_of is_new_token_key
    bytes_eq spawn_with spawn_http_server create_openssl_acceptor push_chain add_chain push_key
    revert_tls finish_builder
turns_once = refl

run_turns-pings_example :
    Any (λ e. (t : ℕ) × (e ≡ Event.pinged t) × (secs late.at_ping t < 60)) events
run_turns-pings_example =
    run_turns-pings env float pkg toy_ssl toy_actix [] late running after events (omega arith)
      turns_once (omega arith)

run_turns-Spaced_example : Spaced start events
run_turns-Spaced_example =
    run_turns-Spaced env float pkg toy_ssl toy_actix (late ∷ []) running after events
      (omega arith, tt) turns_once

abbrev pub no_requests : ℕ → ℕ
no_requests n = 3

stops :
    shutdown env float pkg toy_ssl toy_actix 20
      (λ _ _. err tt)
      no_requests
      (λ n. 5 * n)
      (some after.server)
      after.net
      after.gs.config
    ≡ some (err BackendError.send_error, 1, (2, []))
unfolding shutdown stop_server Lifecycle.shutdown stop wait_for_requests shutdown_loop is_over
stops = refl

shutdown-Serves_example : Serves env float pkg toy_ssl toy_actix [] after × (◌≡◌ {A = List ℕ} [] [])
shutdown-Serves_example =
    shutdown-Serves env float pkg toy_ssl toy_actix (start, start) 20 (λ _ _. ok reply) (0, []) gs
      running after (late ∷ []) events (λ _ _. err tt) no_requests (λ n. 5 * n)
      (err BackendError.send_error) 1 (2, []) starts turns_once stops

-- The flag is set while the second turn runs.
abbrev pub killed : ℕ → Bool
killed n = leb 2 n

main_loop-stops_example :
    (j : ℕ) × (j ≤ 5)
    × IsFirst killed 0 j
    × (main_loop env float pkg toy_ssl toy_actix killed (λ n. late) 6 0 running
        ≡ some (
            run_turns env float pkg toy_ssl toy_actix
              (turns_from env float pkg toy_ssl toy_actix (λ n. late) 0 j)
              running))
main_loop-stops_example =
    main_loop-stops env float pkg toy_ssl toy_actix killed (λ n. late) 5 running refl

-- The same turn with a certificate that cannot be read: the server does not start again.
abbrev torn : Turn env float pkg toy_ssl toy_actix
torn = record late {
  send = λ _ _. ok (record reply {
    json =
        ok (record response { token_key = 7 ∷ []; tls = some (record tls { certificate = [] }) });
  });
}

turn-panicked_iff_example : (turn env float pkg toy_ssl toy_actix torn running ≡ Ran.panicked) ↔ (
    (60 ≤ secs torn.at_ping start)
    × PingFails env float pkg toy_ssl toy_actix running.server running.net
        (ping_backend env torn.send known))
turn-panicked_iff_example = turn-panicked_iff env float pkg toy_ssl toy_actix torn running

torn_panics : turn env float pkg toy_ssl toy_actix torn running ≡ Ran.panicked
unfolding turn ping_if_due after_ping respawned shrink_if_due shrink_done try_shrink_db report
    get_db_size now_as_millis respawn_with_new_cert Lifecycle.shutdown ping_backend pinged adopt_key
    adopt_verifier push_key_b64 Tokens.push_key key_from_bytes decode_b64 ping handle_reply
    handle_body updated update_from_response store_of is_new_token_key bytes_eq spawn_with
    spawn_http_server create_openssl_acceptor push_chain add_chain push_key revert_tls
    finish_builder
torn_panics = refl
