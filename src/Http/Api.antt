-- ===== src/Http/Api.antt =====
-- What src/http uses of `actix_web` and `reqwest`: entity tags, dates, requests and responses.
use scalpel.Common.{ℕ, Str, Bool, List, Option, Result, ◌≡◌, bytes_eq}
use scalpel.Utils.{SystemTime}

pub record HttpApi : Type 1 where
  pub EntityTag : Type 0
  pub strong : Str → EntityTag
  pub strong_eq : EntityTag → EntityTag → Bool
  pub HttpDate : Type 0
  pub date_from_str : Str → Result HttpDate (Unit {0})
  pub date_from_time : SystemTime → HttpDate
  -- `Display` of a status code
  pub show_status : ℕ → Str
  -- two strong tags compare by their text
  pub strong_eq-strong : (a b : Str) → strong_eq (strong a) (strong b) ≡ bytes_eq a b

module _ (http : HttpApi) where
  -- The `If-None-Match` header: `*`, or a list of tags.
  pub data IfNoneMatch : Type 0 where
    any : IfNoneMatch
    items : List (HttpApi.EntityTag http) → IfNoneMatch

  pub record HttpRequest : Type 0 where
    pub if_none_match : Option IfNoneMatch

-- A response of the upstream before its body: a header is its value as text, if it is text.
pub record RawResponse : Type 0 where
  pub status : ℕ
  pub content_type : Option (Result Str (Unit {0}))
  pub last_modified : Option (Result Str (Unit {0}))
  pub content_length : Option ℕ
