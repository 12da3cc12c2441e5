-- ===== src/Backend/Tests.antt =====
-- The theorems about src/backend.rs at an API that answers every ping.
use scalpel.Common.{
  ◌*◌, Str, true, false, [], ◌∷◌, Result, ok, err, returns, panics, Option, none, some, ◌≡◌, ◌↔◌,
  ◌⊎◌, refl, arith, codes, bytes_eq,
}
use scalpel.Common.Int.{pos}
use scalpel.Config.{AppConfig}
use scalpel.Backend.{
  TlsPayload, PingResponse, UrlApi, Reply, ping_request, PingStore, updated, handle_body,
  handle_reply, is_new_token_key, store_of, update_from_response, ping, invalid_secret, stop,
}
use scalpel.Backend.Laws.{
  IsUpdate, IsAnswered, ping_request_exact, update_from_response-IsUpdate,
  update_from_response-panics_iff, ping-returns-err, ping-returns-ok,
}

abbrev pub parse : Str → Result Str (Unit {0})
parse [] = err tt
parse (c ∷ s) = ok (c ∷ s)

abbrev pub urls : UrlApi
urls = record {
  Url = Str;
  base = codes "https://api.mangadex.network";
  parse = parse;
  parse_with_base = λ _ path. parse path;
  host_str = λ u. some u;
}

abbrev pub config : AppConfig
config = record {
  client_secret = codes "secret";
  max_grace_period = pos 60;
  skip_tokens = false;
  disable_ssl = false;
  cache_size_mebibytes = 40960;
  cache_engine = codes "rocksdb";
  rocks_opt = none;
  fs_opt = none;
  port = 443;
  bind_address = codes "0.0.0.0";
  worker_threads = none;
  keep_alive = 30;
  disable_ad_headers = false;
  reject_invalid_sni = true;
  enforce_secure_tls = false;
  external_ip = none;
  external_port = none;
  external_max_speed = some 50000;
}

abbrev pub tls : TlsPayload
tls = record { created_at = codes "today"; private_key = codes "key"; certificate = codes "crt" }

abbrev pub response : PingResponse
response = record {
  image_server = codes "https://uploads";
  latest_build = 31;
  url = codes "https://me";
  token_key = codes "a2V5";
  compromised = false;
  paused = false;
  client_id = codes "1";
  tls = some tls;
}

abbrev reply : Reply PingResponse
reply = record { status = 200; json = ok response; text = err tt }

abbrev pub stored : PingStore urls
stored = record {
  tls = tls;
  token_key = codes "a2V5";
  upstream_url = codes "https://uploads";
  client_url = codes "https://me";
}

first_ping :
    ping urls config (λ _ _. ok reply) none
    ≡ returns (ok (some tls, some (codes "a2V5")), some stored)
unfolding ping handle_reply handle_body updated update_from_response store_of is_new_token_key
first_ping = refl

second_ping :
    ping urls config (λ _ _. ok reply) (some stored) ≡ returns (ok (some tls, none), some stored)
unfolding ping handle_reply handle_body updated update_from_response store_of is_new_token_key
    bytes_eq
second_ping = refl

refused :
    ping urls config (λ _ _. ok (record reply { status = 401 })) (some stored)
    ≡ returns (err invalid_secret, some stored)
unfolding ping handle_reply
refused = refl

stopped :
    stop urls config (λ _ _. ok (record { status = 200; json = ok tt; text = err tt })) ≡ ok tt
unfolding stop
stopped = refl

ping_request_exact_test :
    ((ping_request config none).disk_space ≡ 40960 * 1048576)
    × ((ping_request config none).network_speed ≡ 50000 * 125)
ping_request_exact_test = ping_request_exact config none (omega arith) 50000 refl (omega arith)

same_response-IsUpdate : IsUpdate urls (some stored) response none stored
unfolding update_from_response store_of is_new_token_key bytes_eq
same_response-IsUpdate = update_from_response-IsUpdate urls (some stored) response refl

update_from_response-panics_iff_example :
    (update_from_response urls none (record response { tls = none }) ≡ panics) ↔ (
      ((◌≡◌ {A = Option TlsPayload} none none) × (◌≡◌ {A = Option (PingStore urls)} none none))
      ⊎ (parse response.image_server ≡ err tt)
      ⊎ (parse response.url ≡ err tt))
update_from_response-panics_iff_example =
    update_from_response-panics_iff urls none (record response { tls = none })

ping-returns-err_test : some stored ≡ some stored
ping-returns-err_test =
    ping-returns-err urls config (λ _ _. ok (record reply { status = 401 })) (some stored)
      (some stored) invalid_secret refused

ping-returns-ok_test :
    IsAnswered urls config (λ _ _. ok reply) none (some stored) (some tls) (some (codes "a2V5"))
ping-returns-ok_test =
    ping-returns-ok urls config (λ _ _. ok reply) none (some stored) (some tls)
      (some (codes "a2V5")) first_ping
