-- ===== src/Metrics.antt =====
-- src/metrics.rs: the metrics that the program writes. A counter is its value, a histogram the
-- number of its observations (the observed durations are floats of the Prometheus library).
use scalpel.Common.{ℕ}

pub record Metrics : Type 0 where
  pub cache_size : ℕ
  pub cache_max_size : ℕ
  pub hit_requests_total : ℕ
  pub miss_requests_total : ℕ
  pub dropped_requests_total : ℕ
  pub failed_requests_total : ℕ
  pub bytes_down : ℕ
  pub bytes_up : ℕ
  pub cache_load_seconds : ℕ
  pub cache_save_histo : ℕ
  pub hit_request_process_seconds : ℕ
  pub miss_request_process_seconds : ℕ
  pub upstream_ttfb_seconds : ℕ

-- `MetricsInner::new`: every counter starts at 0.
unfoldable pub new : Metrics
new = record {
  cache_size = 0;
  cache_max_size = 0;
  hit_requests_total = 0;
  miss_requests_total = 0;
  dropped_requests_total = 0;
  failed_requests_total = 0;
  bytes_down = 0;
  bytes_up = 0;
  cache_load_seconds = 0;
  cache_save_histo = 0;
  hit_request_process_seconds = 0;
  miss_request_process_seconds = 0;
  upstream_ttfb_seconds = 0;
}
