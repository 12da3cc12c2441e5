-- ===== src/Http/Service/Tests.antt =====
-- The theorems about src/http/mod.rs at the environment of the tests of src/http.
use scalpel.Common.{[], ◌+◌, Result, ok, err, some, ◌≡◌, refl, ◌↔◌, codes, bytes_eq}
use scalpel.Backend.Tests.{stored}
use scalpel.State.{GlobalState}
use scalpel.Tokens.{token_expired}
use scalpel.Tokens
use scalpel.Http.Handler.{HttpResponse, text}
use scalpel.Http.Handler.Count.{settled}
use scalpel.Http.Tests.{env, gs, whole, offline, plain}
use scalpel.Http.Service.{
  MdPathArgs, ServiceError, invalid_archive, invalid_token, answer, status_code, error_body,
  is_archive, check_sni, check_names, dropped, md_service,
}
use scalpel.Http.Service.Guard.{IsAllowed, Responds, md_service-allows_iff, IsServed, check_sni_iff}
use scalpel.Http.Service.Counts.{settle_result, counts, md_service-counts, md_service-returns-err}

abbrev path : MdPathArgs
path = record {
  token = some (codes "t");
  archive_type = codes "data";
  chap_hash = codes "ab";
  image = codes "1.png";
}

md_service-allows_iff_example :
    Responds env (md_service env 8 plain path offline gs) ↔ IsAllowed env 8 path gs
md_service-allows_iff_example = md_service-allows_iff env 8 plain path offline gs

md_service-counts_example :
    (r : Result (HttpResponse env) ServiceError) × (gs' : GlobalState env) × (md_service env 8 plain
        path offline gs
      ≡ some (r, gs'))
    × (settled env (settle_result env r whole gs') ≡ settled env gs + counts env r)
md_service-counts_example = md_service-counts env whole 8 plain path offline gs

abbrev raw : MdPathArgs
raw = record path { archive_type = codes "raw" }

refused : md_service env 8 plain raw offline gs ≡ some (err invalid_archive, dropped env gs)
unfolding md_service is_archive bytes_eq
refused = refl

md_service-returns-err_test : dropped env gs ≡ dropped env gs
md_service-returns-err_test = md_service-returns-err env 8 plain raw offline gs refused

abbrev known : GlobalState env
known = record gs { ping_info = some stored }

check_sni_iff_example :
    (check_sni env (some (codes "https://me")) known ≡ ok tt)
    ↔ IsServed env (codes "https://me") (some (codes "https://me"))
check_sni_iff_example = check_sni_iff env (codes "https://me") known

passes : check_sni env (some (codes "https://me")) known ≡ ok tt
unfolding check_sni check_names bytes_eq
passes = refl

expired : answer env (err (invalid_token token_expired)) ≡ record {
  status = 403;
  headers = [];
  body = text (codes "error validating provided token (TokenError::TokenExpired)");
}
unfolding answer status_code error_body Tokens.error_body Tokens.debug Tokens.status_code
expired = refl

bad_archive : answer env (err invalid_archive) ≡ record {
  status = 404;
  headers = [];
  body = text (codes "invalid archive type. must be one of [\"data\", \"data-saver\"]");
}
unfolding answer status_code error_body
bad_archive = refl
