-- ===== src/Http/Chunked/Body.antt =====
-- src/http/chunked.rs: what the client receives and what is saved, for every sequence of polls.
use scalpel.Common.{
  ℕ, ◌+◌, Bytes, Bool, true, false, List, [], ◌∷◌, ◌++◌, map, length, ok, err, none, some, ◌||◌,
  if◌then◌else◌, ◌≡◌, refl,
}
use mathlib.Core.List.{append-nil, append_assoc}
use scalpel.Cache.Key.{ImageKey}
use scalpel.Cache.Entry.{MimeApi}
use scalpel.State.{Env, GlobalState}
use scalpel.Http.Chunked.{
  BytesAgg, stable, poisoned, ready, pending, Answer, UpstreamError, upstream_error,
  ChunkedUpstreamPoll, new, poll_all, drop,
}

-- The bytes of the chunks among the answers, in order.
abbrev chunk : {E : Type 0} → Answer E → Bytes
chunk (ready (some (ok bytes))) = bytes
chunk _ = []

abbrev is_error : {E : Type 0} → Answer E → Bool
is_error (ready (some (err e))) = true
is_error _ = false

module _ {E : Type 0} where
  unfoldable pub received : List (Answer E) → Bytes
  received [] = []
  received (a ∷ answers) = chunk a ++ received answers

  unfoldable pub has_error : List (Answer E) → Bool
  has_error [] = false
  has_error (a ∷ answers) = is_error a || has_error answers

-- An answer as the client's side sees it.
abbrev pub pass_on : {E : Type 0} → Answer E → Answer (UpstreamError E)
pass_on (ready (some (ok bytes))) = ready (some (ok bytes))
pass_on (ready (some (err e))) = ready (some (err (upstream_error e)))
pass_on (ready none) = ready none
pass_on pending = pending

module _ (env : Env) where
  -- The two ends of a body: an image is counted and its save spawned, or a failure is counted.
  abbrev pub completed :
      ImageKey → MimeApi.Mime env.mime → Bytes → GlobalState env → GlobalState env
  completed key mime_type bytes gs = record gs {
    tasks = gs.tasks ++ record { key = key; mime_type = mime_type; bytes = bytes } ∷ [];
    metrics = record gs.metrics {
      miss_request_process_seconds = gs.metrics.miss_request_process_seconds + 1;
      miss_requests_total = gs.metrics.miss_requests_total + 1;
      bytes_up = gs.metrics.bytes_up + length bytes;
      bytes_down = gs.metrics.bytes_down + length bytes;
    };
  }

  abbrev pub failed : GlobalState env → GlobalState env
  failed gs = record gs {
    metrics = record gs.metrics { failed_requests_total = gs.metrics.failed_requests_total + 1 };
  }

  -- The body with its aggregator replaced.
  abbrev at : BytesAgg → ImageKey → MimeApi.Mime env.mime → ChunkedUpstreamPoll env
  at agg key mime_type = record { agg = agg; key = key; mime_type = mime_type }

  drop-collected :
      (failing : Bool) (bytes : Bytes) (key : ImageKey) (m : MimeApi.Mime env.mime)
      (gs : GlobalState env)
      → drop env (at (if failing then poisoned else stable bytes) key m) gs
        ≡ (if failing then failed gs else completed key m bytes gs)
  unfolding drop
  drop-collected true bytes key m gs = refl
  drop-collected false bytes key m gs = refl

  module _ {E : Type 0} where
    poll_all-poisoned :
        (answers : List (Answer E)) (key : ImageKey) (m : MimeApi.Mime env.mime)
        → (poll_all env answers (at poisoned key m)).1 ≡ at poisoned key m
    unfolding poll_all
    poll_all-poisoned [] key m = refl
    poll_all-poisoned (ready (some (ok bytes)) ∷ answers) key m = poll_all-poisoned answers key m
    poll_all-poisoned (ready (some (err e)) ∷ answers) key m = poll_all-poisoned answers key m
    poll_all-poisoned (ready none ∷ answers) key m = poll_all-poisoned answers key m
    poll_all-poisoned (pending ∷ answers) key m = poll_all-poisoned answers key m

    abbrev collected : List (Answer E) → Bytes → BytesAgg
    collected answers agg = if has_error answers then poisoned else stable (agg ++ received answers)

    poll_all-stable :
        (answers : List (Answer E)) (agg : Bytes) (key : ImageKey) (m : MimeApi.Mime env.mime)
        → (poll_all env answers (at (stable agg) key m)).1 ≡ at (collected answers agg) key m
    unfolding poll_all has_error received
    poll_all-stable [] agg key m = simp append-nil
    poll_all-stable (ready (some (ok bytes)) ∷ answers) agg key m =
        rw (poll_all-stable answers (agg ++ bytes) key m) (simp append_assoc)
    poll_all-stable (ready (some (err e)) ∷ answers) agg key m = poll_all-poisoned answers key m
    poll_all-stable (ready none ∷ answers) agg key m = poll_all-stable answers agg key m
    poll_all-stable (pending ∷ answers) agg key m = poll_all-stable answers agg key m

    -- The client receives the upstream's answers one by one and unchanged, errors included.
    pub poll_all-eq-map :
        (answers : List (Answer E)) (self : ChunkedUpstreamPoll env)
        → (poll_all env answers self).0 ≡ map pass_on answers
    unfolding poll_all
    poll_all-eq-map [] self = refl
    poll_all-eq-map (ready (some (ok bytes)) ∷ answers) self = rw (poll_all-eq-map answers)
    poll_all-eq-map (ready (some (err e)) ∷ answers) self = rw (poll_all-eq-map answers)
    poll_all-eq-map (ready none ∷ answers) self = rw (poll_all-eq-map answers)
    poll_all-eq-map (pending ∷ answers) self = rw (poll_all-eq-map answers)

    -- However often a new body is polled before it is dropped: if the upstream answered with an
    -- error, a failure is counted and nothing is saved; otherwise a save of exactly the chunks
    -- received so far is spawned under the request's key, and they are counted as one MISS. The
    -- end of the stream need not have been reached.
    pub drop-poll_all :
        (answers : List (Answer E)) (key : ImageKey) (m : MimeApi.Mime env.mime) (size_hint : ℕ)
        (gs : GlobalState env)
        → drop env (poll_all env answers (new env key m size_hint)).1 gs
          ≡ (if has_error answers then failed gs else completed key m (received answers) gs)
    unfolding new
    drop-poll_all answers key m size_hint gs =
        rw (poll_all-stable answers [] key m)
          (drop-collected (has_error answers) (received answers) key m gs)
