-- ===== src/App.antt =====
-- src/main.rs: the pings of the main thread, and the graceful shutdown.
pub mod Verifier
pub mod Refused
pub mod Shutdown
pub mod Start
pub mod Run
pub mod Keeps
pub mod Reachable
pub mod Main
mod Tests
use scalpel.Common.{
  ℕ, zero, suc, ◌+◌, ◌-◌, ◌%◌, ◌||◌, ◌&&◌, not, Str, Bool, true, false, Result, ok, err, Outcome,
  returns, panics, Option, none, some, leb, ltb, ◌==◌, if◌then◌else◌,
}
use scalpel.Config.{AppConfig}
use scalpel.Tokens.{TokenError, TokenVerifier, push_key_b64}
use scalpel.Tokens
use scalpel.Backend.{
  BackendError, TlsPayload, PingRequest, PingResponse, UrlApi, Reply, PingStore, PingResult, ping,
}
use scalpel.State.{Env, GlobalState}

-- The errors that `ping_backend` boxes.
pub data AppError : Type 0 where
  backend_error : BackendError → AppError
  key_error : TokenError → AppError

module _ (env : Env) where
  -- The verifier takes the key; a key that is refused leaves the old verifier.
  unfoldable pub adopt_verifier :
      Option TlsPayload
      → Result (Unit {0}) TokenError × TokenVerifier env.crypto
      → GlobalState env
      → Result (Option TlsPayload) AppError × GlobalState env
  adopt_verifier crt (ok _, verifier) gs = (ok crt, record gs { verifier = verifier })
  adopt_verifier crt (err e, verifier) gs = (err (key_error e), gs)

  unfoldable pub adopt_key :
      Option TlsPayload
      → Option Str
      → GlobalState env
      → Result (Option TlsPayload) AppError × GlobalState env
  unfolding adopt_verifier
  adopt_key crt none gs = (ok crt, gs)
  adopt_key crt (some token_key) gs =
      adopt_verifier crt (push_key_b64 env.crypto token_key (Tokens.new env.crypto)) gs

  -- What follows the ping.
  unfoldable pub pinged :
      GlobalState env
      → Outcome (PingResult env.url)
      → Outcome (Result (Option TlsPayload) AppError × GlobalState env)
  unfolding adopt_key
  pinged gs panics = panics
  pinged gs (returns (err e, info)) =
      returns (err (backend_error e), record gs { ping_info = info })
  pinged gs (returns (ok (crt, token_key), info)) =
      returns (adopt_key crt token_key (record gs { ping_info = info }))

  unfoldable pub ping_backend :
      (UrlApi.Url env.url → PingRequest → Result (Reply PingResponse) (Unit {0}))
      → GlobalState env
      → Outcome (Result (Option TlsPayload) AppError × GlobalState env)
  unfolding pinged
  ping_backend send gs = pinged gs (ping env.url gs.config send gs.ping_info)
