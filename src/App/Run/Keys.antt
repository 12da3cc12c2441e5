-- ===== src/App/Run/Keys.antt =====
-- src/main.rs, `ping_backend`: pings that the API answers with token keys of the right form.
use scalpel.Common.{
  Str, Result, ok, err, Outcome, returns, panics, Option, none, some, ◌≡◌, ◌≢◌, refl, ap, ◌∙◌,
  subst, inl, inr,
}
use scalpel.Tokens.{TokenError, TokenVerifier, push_key_b64}
use scalpel.Tokens
use scalpel.Backend.{TlsPayload, PingRequest, PingResponse, UrlApi, Reply, PingResult, ping}
use scalpel.Backend.Laws.{ping-returns-ok}
use scalpel.State.{Env, GlobalState}
use scalpel.App.{AppError, key_error, adopt_verifier, adopt_key, pinged, ping_backend}
use scalpel.App.Verifier.{returns_value}
use scalpel.App.Reachable.{Reachable}

module _ (env : Env) where
  -- The verifier would take this token key.
  abbrev pub IsGoodKey : Str → Type 0
  IsGoodKey key =
      (v : TokenVerifier env.crypto) × (push_key_b64 env.crypto key (Tokens.new env.crypto)
        ≡ (ok tt, v))

  -- Every response of the API that can be read has a token key that the verifier takes.
  abbrev pub HasGoodKeys :
      (UrlApi.Url env.url → PingRequest → Result (Reply PingResponse) (Unit {0})) → Type 0
  HasGoodKeys send =
      (address : UrlApi.Url env.url) (payload : PingRequest) (reply : Reply PingResponse)
      (res : PingResponse)
      → send address payload ≡ ok reply
      → reply.json ≡ ok res
      → IsGoodKey res.token_key

  module _ (send : UrlApi.Url env.url → PingRequest → Result (Reply PingResponse) (Unit {0}))
      (good : HasGoodKeys send) where
    adopt_key-no_error :
        (crt : Option TlsPayload) (key : Option Str) (gs : GlobalState env)
        → ((k : Str) → key ≡ some k → IsGoodKey k)
        → (e : TokenError) → (adopt_key env crt key gs).0 ≢ err (key_error e)
    unfolding adopt_key adopt_verifier
    adopt_key-no_error crt none gs fine e h = cc h
    adopt_key-no_error crt (some key) gs fine e h =
        let (v, pushed) = fine key refl in cc (rw (pushed, adopt_verifier) at h)

    pinged-no_key_error :
        (gs : GlobalState env) (o : Outcome (PingResult env.url))
        {r : Result (Option TlsPayload) AppError × GlobalState env}
        → ping env.url gs.config send gs.ping_info ≡ o
        → pinged env gs o ≡ returns r
        → (e : TokenError) → r.0 ≢ err (key_error e)
    unfolding pinged
    pinged-no_key_error gs panics run h e bad = cc h
    pinged-no_key_error gs (returns (err b, info)) run h e bad =
        absurd (cc (ap (λ r. r.0) (returns_value env h) ∙ bad))
    pinged-no_key_error gs (returns (ok (crt, key), info)) run h e bad =
        let a = ping-returns-ok env.url gs.config send gs.ping_info info crt key run in
        let fine : (k : Str) → key ≡ some k → IsGoodKey k = λ k is. elim a.update.reported [
          | inl new ↦
              let same : PingResponse.token_key a.res ≡ k = cc (new, is) in
              subst IsGoodKey same (good a.address _ a.reply a.res a.sent a.body)
          | inr old ↦ absurd (cc (old, is))
        ] in
        adopt_key-no_error crt key (record gs { ping_info = info }) fine e
          (ap (λ r. r.0) (returns_value env h) ∙ bad)

  -- A ping that is answered with good keys is a step of the program.
  pub ping_backend-Reachable :
      (send : UrlApi.Url env.url → PingRequest → Result (Reply PingResponse) (Unit {0}))
      (gs : GlobalState env) (r : Result (Option TlsPayload) AppError) (gs' : GlobalState env)
      → HasGoodKeys send
      → Reachable env gs
      → ping_backend env send gs ≡ returns (r, gs')
      → Reachable env gs'
  unfolding ping_backend
  ping_backend-Reachable send gs r gs' good before h =
      Reachable.pinged gs send r gs' before h (pinged-no_key_error send good gs _ refl h)
