-- ===== src/App/Run/Reaches/Tests.antt =====
-- From the start of the program through one turn of its main loop, at toy crates.
use scalpel.Common.{[], ◌∷◌, ok, some, bytes_eq, ◌≡◌, refl, subst, Result}
use scalpel.Utils.{now_as_millis}
use scalpel.Tokens.{push_key_b64, key_from_bytes, decode_b64, TokenError, TokenVerifier}
use scalpel.Tokens
use scalpel.Backend.{
  Reply, ping, handle_reply, handle_body, updated, update_from_response, store_of, is_new_token_key,
}
use scalpel.Cache.Rocks.Engine.{report}
use scalpel.Cache.Rocks.Size.{get_db_size}
use scalpel.Http.Tests.{env}
use scalpel.Http.Acceptor.{
  create_openssl_acceptor, push_chain, add_chain, push_key, revert_tls, finish_builder,
}
use scalpel.Http.Lifecycle.{spawn_with, respawn_with_new_cert, spawn_http_server}
use scalpel.Http.Lifecycle
use scalpel.Http.Lifecycle.Tests.{toy_ssl, toy_actix, pkg}
use scalpel.App.{ping_backend, pinged, adopt_key, adopt_verifier}
use scalpel.App.Verifier.{InStep}
use scalpel.App.Reachable.{Reachable}
use scalpel.App.Tests.{opens_empty, no_fs, rocks_config, fresh, starts}
use scalpel.App.Run.{
  Running, done, respawned, after_ping, ping_if_due, shrink_done, shrink_if_due, turn,
  try_shrink_db,
}
use scalpel.App.Run.Loop.{served, run_turns, and_then_run, start_running, with_crt, with_server}
use scalpel.App.Run.Keys.{HasGoodKeys}
use scalpel.App.Run.Reaches.{run-InStep}
use scalpel.App.Run.Tests.{float, reply, start, late, events, running, after}

abbrev State : Type 0
State = Running env float pkg toy_ssl toy_actix

abbrev from_start : State
from_start = record running { gs = record running.gs { config = rocks_config } }

abbrev from_late : State
from_late = record after { gs = record after.gs { config = rocks_config } }

starts_running :
    start_running env float pkg toy_ssl toy_actix (start, start) (λ _ _. ok reply) (0, []) fresh
    ≡ served from_start
unfolding start_running with_crt with_server ping_backend pinged adopt_key adopt_verifier
    push_key_b64 Tokens.push_key key_from_bytes decode_b64 ping handle_reply handle_body updated
    update_from_response store_of is_new_token_key bytes_eq Lifecycle.new spawn_with
    spawn_http_server create_openssl_acceptor push_chain add_chain push_key revert_tls
    finish_builder
starts_running = refl

turns_late :
    run_turns env float pkg toy_ssl toy_actix (late ∷ []) from_start ≡ done (from_late, events)
unfolding run_turns and_then_run turn ping_if_due after_ping respawned shrink_if_due shrink_done
    try_shrink_db report get_db_size now_as_millis respawn_with_new_cert Lifecycle.shutdown
    ping_backend pinged adopt_key adopt_verifier push_key_b64 Tokens.push_key key_from_bytes
    decode_b64 ping handle_reply handle_body updated update_from_response store_of is_new_token_key
    bytes_eq spawn_with spawn_http_server create_openssl_acceptor push_chain add_chain push_key
    revert_tls finish_builder
turns_late = refl

takes_key :
    ◌≡◌ {A = Result (Unit {0}) TokenError × TokenVerifier env.crypto}
      (push_key_b64 env.crypto (7 ∷ []) (Tokens.new env.crypto))
      (ok tt, some 7)
unfolding push_key_b64 Tokens.push_key key_from_bytes decode_b64 Tokens.new
takes_key = refl

reply-HasGoodKeys : HasGoodKeys env (λ _ _. ok reply)
reply-HasGoodKeys address payload r res sent body =
    let same : Reply.json reply ≡ ok res = cc (sent, body) in
    let key : 7 ∷ [] ≡ res.token_key = cc same in
    (
      some 7,
      subst (λ k. push_key_b64 env.crypto k (Tokens.new env.crypto) ≡ (ok tt, some 7)) key
          takes_key,
    )

run-InStep_example : Reachable env from_late.gs × InStep env from_late.gs
run-InStep_example =
    run-InStep env float pkg toy_ssl toy_actix no_fs opens_empty (some rocks_config) fresh
      (start, start) (λ _ _. ok reply) (0, []) (late ∷ []) from_start from_late events starts
      reply-HasGoodKeys starts_running ((reply-HasGoodKeys, λ gs h. h), tt) turns_late
