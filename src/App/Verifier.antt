-- ===== src/App/Verifier.antt =====
-- src/main.rs, `ping_backend`: the verifier and the stored token key.
use scalpel.Common.{
  Str, Result, ok, err, Outcome, returns, panics, Option, none, some, ◌≡◌, refl, sym, ap, ◌∙◌,
  subst, ◌⊎◌, inl, inr, arith, bytes_eq_refl, Option-cases,
}
use mathlib.Core.Option
use scalpel.Tokens.{TokenError, TokenVerifier, push_key_b64}
use scalpel.Tokens
use scalpel.Backend.{
  TlsPayload, PingRequest, PingResponse, UrlApi, Reply, PingStore, PingResult, ping,
  update_from_response, store_of, is_new_token_key,
}
use scalpel.Backend.Laws.{IsUpdate, ping-returns-ok, ping-returns-err}
use scalpel.State.{Env, GlobalState}
use scalpel.App.{AppError, key_error, adopt_verifier, adopt_key, pinged, ping_backend}

module _ (env : Env) where
  abbrev push : Str → Result (Unit {0}) TokenError × TokenVerifier env.crypto
  push key = push_key_b64 env.crypto key (Tokens.new env.crypto)

  -- The verifier has the key of the last ping that was stored.
  abbrev pub Matches : Option (PingStore env.url) → TokenVerifier env.crypto → Type 0
  Matches none verifier = verifier ≡ none
  Matches (some info) verifier =
      push_key_b64 env.crypto (PingStore.token_key info) (Tokens.new env.crypto) ≡ (ok tt, verifier)

  abbrev pub InStep : GlobalState env → Type 0
  InStep gs = Matches gs.ping_info gs.verifier

  -- The new state is in step, or a key was refused.
  abbrev pub Kept : Result (Option TlsPayload) AppError × GlobalState env → Type 0
  Kept r = InStep r.1 ⊎ ((e : TokenError) × (r.0 ≡ err (key_error e)))

  adopt_verifier-Kept :
      (crt : Option TlsPayload) (p : Result (Unit {0}) TokenError × TokenVerifier env.crypto)
      (gs : GlobalState env) (info : PingStore env.url)
      → gs.ping_info ≡ some info
      → push info.token_key ≡ p
      → Kept (adopt_verifier env crt p gs)
  unfolding adopt_verifier
  adopt_verifier-Kept crt (ok _, verifier) gs info stored pushed =
      inl (subst (λ o. Matches o verifier) (sym stored) pushed)
  adopt_verifier-Kept crt (err e, verifier) gs info stored pushed = inr (e, refl)

  reported_key :
      (key k : Str)
      → (◌≡◌ {A = Option Str} (some key) (some k)) ⊎ (◌≡◌ {A = Option Str} (some key) none)
      → key ≡ k
  reported_key key k (inl e) = cc
  reported_key key k (inr e) = cc

  same_key :
      (last : Option (PingStore env.url)) (info : PingStore env.url)
      (verifier : TokenVerifier env.crypto)
      → Option.map (λ x. PingStore.token_key x) last ≡ some info.token_key
      → Matches last verifier
      → Matches (some info) verifier
  same_key none info verifier h m = absurd (cc h)
  same_key (some x) info verifier h m =
      let k : x.token_key ≡ info.token_key = cc h in subst (λ s. push s ≡ (ok tt, verifier)) k m

  adopt_key-Kept :
      (crt : Option TlsPayload) (key : Option Str) (gs : GlobalState env)
      (last : Option (PingStore env.url)) (res : PingResponse) (info : PingStore env.url)
      → gs.ping_info ≡ some info
      → IsUpdate env.url last res key info
      → Matches last gs.verifier
      → Kept (adopt_key env crt key gs)
  unfolding adopt_key
  adopt_key-Kept crt none gs last res info stored update m = inl (
      subst (λ o. Matches o gs.verifier) (sym stored)
        (same_key last info gs.verifier (update.old_key.0 refl ∙ ap some (sym update.token_key)) m))
  adopt_key-Kept crt (some key) gs last res info stored update m =
      adopt_verifier-Kept crt (push key) gs info stored
        (ap push (sym (reported_key key res.token_key update.reported ∙ sym update.token_key)))

  pub returns_value : {A : Type 0} {a b : A} → ◌≡◌ {A = Outcome A} (returns a) (returns b) → a ≡ b
  returns_value h = cc

  module _ (send : UrlApi.Url env.url → PingRequest → Result (Reply PingResponse) (Unit {0}))
      (gs : GlobalState env) where
    pinged-Kept :
        (o : Outcome (PingResult env.url))
        {r : Result (Option TlsPayload) AppError × GlobalState env}
        → ping env.url gs.config send gs.ping_info ≡ o
        → InStep gs
        → pinged env gs o ≡ returns r
        → Kept r
    unfolding pinged
    pinged-Kept panics run m h = cc
    pinged-Kept (returns (err e, info)) run m h =
        let same = ping-returns-err env.url gs.config send gs.ping_info info e run in
        subst Kept (returns_value h) (inl (subst (λ o. Matches o gs.verifier) (sym same) m))
    pinged-Kept (returns (ok (crt, key), info)) run m h =
        let a = ping-returns-ok env.url gs.config send gs.ping_info info crt key run in
        subst Kept (returns_value h) (
          adopt_key-Kept crt key (record gs { ping_info = info }) gs.ping_info a.res a.info a.stored
            a.update m)

    -- If the verifier has the key of the ping that is stored (or none, before the first ping), a
    -- ping that returns keeps it so, or reports that the new key was refused.
    pub ping_backend-Kept :
        {r : Result (Option TlsPayload) AppError × GlobalState env}
        → InStep gs
        → ping_backend env send gs ≡ returns r
        → Kept r
    unfolding ping_backend
    ping_backend-Kept m h = pinged-Kept (ping env.url gs.config send gs.ping_info) refl m h

  -- The same response again: nothing is new.
  pub update_again :
      (last : Option (PingStore env.url)) (res : PingResponse) (key : Option Str)
      (info : PingStore env.url)
      → IsUpdate env.url last res key info
      → update_from_response env.url (some info) res ≡ returns (none, info)
  unfolding update_from_response store_of is_new_token_key
  update_again last res key info u = elim (Option-cases res.tls) [
    | inl absent ↦
        ground (arith, u.token_key, u.upstream_url, u.client_url, bytes_eq_refl res.token_key)
    | inr (tls, given) ↦
        ground
          (arith, u.tls, u.token_key, u.upstream_url, u.client_url, bytes_eq_refl res.token_key)
  ]
