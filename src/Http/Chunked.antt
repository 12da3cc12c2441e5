-- ===== src/Http/Chunked.antt =====
-- src/http/chunked.rs: the body of a MISS, which passes the upstream's bytes on and collects them
-- for the cache. The upstream stream is the list of the answers that its polls give.
pub mod Body
use scalpel.Common.{
  ℕ, ◌+◌, Bytes, Bool, true, false, List, [], ◌∷◌, ◌++◌, length, Result, ok, err, Option, none,
  some, if◌then◌else◌,
}
use scalpel.Utils.{SystemTime}
use scalpel.Metrics.{Metrics}
use scalpel.Cache.Key.{ImageKey}
use scalpel.Cache.Entry.{MimeApi}
use scalpel.Cache.Api.{ImageCache}
use scalpel.State.{Env, SaveTask, GlobalState}

pub data BytesAgg : Type 0 where
  stable : Bytes → BytesAgg
  taken poisoned : BytesAgg

-- The capacity that is reserved at once only decides where the bytes lie. Memory is taken to suffice:
-- the panic of `with_capacity` for a length that no memory holds is left out.
unfoldable new_agg : ℕ → BytesAgg
new_agg cap = stable []

unfoldable pub put : Bytes → BytesAgg → Bool × BytesAgg
put bytes (stable agg) = (true, stable (agg ++ bytes))
put bytes agg = (false, agg)

unfoldable pub len : BytesAgg → ℕ
len (stable agg) = length agg
len _ = 0

unfoldable pub take : BytesAgg → Option Bytes × BytesAgg
take (stable agg) = (some agg, taken)
take agg = (none, agg)

unfoldable poison : BytesAgg → BytesAgg
poison agg = poisoned

unfoldable pub is_poisoned : BytesAgg → Bool
is_poisoned poisoned = true
is_poisoned _ = false

pub data Poll {ℓ} (A : Type ℓ) : Type ℓ where
  ready : A → Poll A
  pending : Poll A

-- An answer of a stream of byte chunks with errors `E`: `ready none` is its end.
abbrev pub Answer : Type 0 → Type 0
Answer E = Poll (Option (Result Bytes E))

pub data UpstreamError (E : Type 0) : Type 0 where
  upstream_error : E → UpstreamError E

-- `ResponseError::status_code`: 502 BAD_GATEWAY
unfoldable pub status_code : {E : Type 0} → UpstreamError E → ℕ
status_code (upstream_error e) = 502

module _ (env : Env) where
  abbrev Mime : Type 0
  Mime = MimeApi.Mime env.mime

  pub record ChunkedUpstreamPoll : Type 0 where
    pub agg : BytesAgg
    pub key : ImageKey
    pub mime_type : MimeApi.Mime env.mime

  unfoldable pub new : ImageKey → Mime → ℕ → ChunkedUpstreamPoll
  unfolding new_agg
  new key mime_type size_hint = record { agg = new_agg size_hint; key = key; mime_type = mime_type }

  -- `poll_next`, given what the upstream's own poll answers.
  unfoldable pub poll_next :
      {E : Type 0} → Answer E → ChunkedUpstreamPoll → Answer (UpstreamError E) × ChunkedUpstreamPoll
  unfolding put poison
  poll_next (ready (some (ok bytes))) self =
      (ready (some (ok bytes)), record self { agg = (put bytes self.agg).1 })
  poll_next (ready (some (err e))) self =
      (ready (some (err (upstream_error e))), record self { agg = poison self.agg })
  poll_next (ready none) self = (ready none, self)
  poll_next pending self = (pending, self)

  -- The server polls the body again and again.
  unfoldable pub poll_all :
      {E : Type 0}
      → List (Answer E)
      → ChunkedUpstreamPoll
      → List (Answer (UpstreamError E)) × ChunkedUpstreamPoll
  unfolding poll_next
  poll_all [] self = ([], self)
  poll_all (a ∷ answers) self =
      let (out, self') = poll_next a self in
      let (outs, self'') = poll_all answers self' in (out ∷ outs, self'')

  -- `drop`, with what `agg.take()` gave and what it left.
  unfoldable pub finish :
      Option Bytes × BytesAgg → ChunkedUpstreamPoll → GlobalState env → GlobalState env
  unfolding is_poisoned
  finish (none, agg) self gs =
      if is_poisoned agg
      then record gs {
        metrics = record gs.metrics {
          failed_requests_total = gs.metrics.failed_requests_total + 1;
        };
      }
      else gs
  finish (some bytes, agg) self gs = record gs {
    tasks = gs.tasks ++ record { key = self.key; mime_type = self.mime_type; bytes = bytes } ∷ [];
    metrics = record gs.metrics {
      miss_request_process_seconds = gs.metrics.miss_request_process_seconds + 1;
      miss_requests_total = gs.metrics.miss_requests_total + 1;
      bytes_up = gs.metrics.bytes_up + length bytes;
      bytes_down = gs.metrics.bytes_down + length bytes;
    };
  }

  unfoldable pub drop : ChunkedUpstreamPoll → GlobalState env → GlobalState env
  unfolding take finish
  drop self gs = finish (take self.agg) self gs

  -- The spawned task; `now` is the time at which it saves.
  unfoldable pub run_task : SystemTime → SaveTask env → GlobalState env → GlobalState env
  run_task now task gs =
      let (saved, cache') =
        ImageCache.save env.engine now task.key (MimeApi.to_string env.mime task.mime_type)
          task.bytes gs.cache in
      record gs {
        cache = cache';
        metrics = record gs.metrics { cache_save_histo = gs.metrics.cache_save_histo + 1 };
      }
