-- ===== src/App/Refused.antt =====
-- src/main.rs, `ping_backend`: what a token key that is refused leads to.
use scalpel.Common.{
  Str, Result, ok, err, Outcome, returns, panics, Option, none, some, ◌≡◌, refl, sym, ap, arith,
  Result-cases, codes, inl, inr,
}
use scalpel.Config.{AppConfig}
use scalpel.Tokens.{TokenError, TokenVerifier}
use scalpel.Backend.{
  TlsPayload, PingRequest, PingResponse, UrlApi, Reply, PingStore, PingResult, ping, handle_reply,
  handle_body, updated,
}
use scalpel.Backend.Laws.{ping-returns-ok}
use scalpel.State.{Env, GlobalState}
use scalpel.App.{AppError, key_error, adopt_verifier, adopt_key, pinged, ping_backend}
use scalpel.App.Verifier.{update_again}

module _ (env : Env) where
  abbrev Run : Type 0
  Run = Result (Option TlsPayload) AppError × GlobalState env

  adopt_verifier-returns-err :
      (crt : Option TlsPayload) (p : Result (Unit {0}) TokenError × TokenVerifier env.crypto)
      (gs gs' : GlobalState env) (e : AppError)
      → adopt_verifier env crt p gs ≡ (err e, gs')
      → gs' ≡ gs
  unfolding adopt_verifier
  adopt_verifier-returns-err crt (ok _, verifier) gs gs' e h = absurd (cc (ap (λ r. r.0) h))
  adopt_verifier-returns-err crt (err f, verifier) gs gs' e h = sym (ap (λ r. r.1) h)

  adopt_key-returns-err :
      (crt : Option TlsPayload) (key : Option Str) (gs gs' : GlobalState env) (e : AppError)
      → adopt_key env crt key gs ≡ (err e, gs')
      → gs' ≡ gs
  unfolding adopt_key
  adopt_key-returns-err crt none gs gs' e h = absurd (cc (ap (λ r. r.0) h))
  adopt_key-returns-err crt (some key) gs gs' e h = adopt_verifier-returns-err crt _ gs gs' e h

  returns_value : {A : Type 0} {a b : A} → ◌≡◌ {A = Outcome A} (returns a) (returns b) → a ≡ b
  returns_value h = cc

  pinged-key_error :
      (gs gs' : GlobalState env) (e : TokenError) (o : Outcome (PingResult env.url))
      → pinged env gs o ≡ returns (err (key_error e), gs')
      → (crt : Option TlsPayload) × (key : Option Str) × (info : Option (PingStore env.url)) × (o
          ≡ returns (ok (crt, key), info))
        × (gs' ≡ record gs { ping_info = info })
  unfolding pinged
  pinged-key_error gs gs' e panics h = cc
  pinged-key_error gs gs' e (returns (err b, info)) h =
      absurd (cc (ap (λ r. r.0) (returns_value h)))
  pinged-key_error gs gs' e (returns (ok (crt, key), info)) h = (
    crt,
    key,
    info,
    refl,
    adopt_key-returns-err crt key (record gs { ping_info = info }) gs' (key_error e)
        (returns_value h),
  )

  module _ (reply : Result (Reply PingResponse) (Unit {0})) where
    abbrev send : UrlApi.Url env.url → PingRequest → Result (Reply PingResponse) (Unit {0})
    send _ _ = reply

    -- A successful ping that is answered once more as before.
    ping_again :
        (config : AppConfig) (last : Option (PingStore env.url)) (crt : Option TlsPayload)
        (key : Option Str) (next : Option (PingStore env.url))
        → ping env.url config send last ≡ returns (ok (crt, key), next)
        → ping env.url config send next ≡ returns (ok (crt, none), next)
    unfolding ping handle_reply handle_body updated
    ping_again config last crt key next run =
        let a = ping-returns-ok env.url config send last next crt key run in
        let again = update_again env last a.res key a.info a.update in
        elim (Result-cases (env.url.parse_with_base env.url.base (codes "/ping"))) [
          | inl (address, found) ↦ ground (arith, a.sent, a.status, a.body, a.stored, a.certificate)
          | inr (e, bad) ↦ absurd (cc (rw (bad, ping) at run))
        ]

    -- When a ping fails because the token key of the response is refused, the same response is
    -- accepted from then on: the next ping succeeds, and the verifier is still the one from before.
    pub ping_backend-refused_key :
        (gs gs' : GlobalState env) (e : TokenError)
        → ping_backend env send gs ≡ returns (err (key_error e), gs')
        → (crt : Option TlsPayload) × (ping_backend env send gs' ≡ returns (ok crt, gs'))
          × (gs'.verifier ≡ gs.verifier)
    unfolding ping_backend pinged adopt_key
    ping_backend-refused_key gs gs' e h =
        let (crt, key, info, run, same) = pinged-key_error gs gs' e _ h in
        let again = ping_again gs.config gs.ping_info crt key info run in
        (crt, rw same (rw again refl), ap (λ g. GlobalState.verifier g) same)
