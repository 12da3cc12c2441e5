-- ===== src/Config/Files.antt =====
-- src/config.rs: the settings are read from the first file that parses.
mod Tests
use scalpel.Common.{
  Str, Bool, true, false, List, [], ◌∷◌, ◌++◌, Result, ok, err, map_err, Option, none, some,
  bytes_eq, if◌then◌else◌, codes, ◌≡◌, refl, sym, ap, ◌∙◌, ◌↔◌, All, Result-cases, inl, inr,
}
use scalpel.Config.{AppConfig}

-- The file system, `Path::extension` as text, and the parsers `serde_yaml` and `serde_json`.
pub record FileApi : Type 1 where
  pub IoError : Type 0
  pub YamlError : Type 0
  pub JsonError : Type 0
  pub read_to_string : Str → Result Str IoError
  pub extension : Str → Option Str
  pub from_yaml : Str → Result AppConfig YamlError
  pub from_json : Str → Result AppConfig JsonError

module _ (files : FileApi) where
  pub data ConfigError : Type 0 where
    yaml_parse_error : FileApi.YamlError files → ConfigError
    json_parse_error : FileApi.JsonError files → ConfigError
    io_error : FileApi.IoError files → ConfigError
    unexpected_problem : ConfigError

  -- The content of a file by its extension.
  unfoldable pub parse_file :
      Result Str (FileApi.IoError files) → Option Str → Result AppConfig ConfigError
  parse_file (err e) ext = err (io_error e)
  parse_file (ok content) none = err unexpected_problem
  parse_file (ok content) (some ext) =
      if bytes_eq ext (codes "yaml")
      then map_err yaml_parse_error (files.from_yaml content)
      else if bytes_eq ext (codes "json")
      then map_err json_parse_error (files.from_json content)
      else err unexpected_problem

  unfoldable pub read_and_parse_file : Str → Result AppConfig ConfigError
  unfolding parse_file
  read_and_parse_file path = parse_file (files.read_to_string path) (files.extension path)

  unfoldable pub try_files : List Str → Option AppConfig
  try_files [] = none
  try_files (path ∷ paths) =
      let rest = try_files paths in
      elim (read_and_parse_file path) [ ok res ↦ some res | err e ↦ rest ]

  unfoldable pub init : Option AppConfig
  unfolding try_files
  init = try_files (codes "./settings.yaml" ∷ codes "./settings.json" ∷ [])

  -- The first of the paths that parses holds `conf`.
  pub record IsFirst (paths : List Str) (conf : AppConfig) : Type 0 where
    pub before : List Str
    pub path : Str
    pub after : List Str
    pub split : paths ≡ before ++ path ∷ after
    pub failing : All (λ p. (e : ConfigError) × (read_and_parse_file p ≡ err e)) before
    pub parsed : read_and_parse_file path ≡ ok conf

  sound : (paths : List Str) {conf : AppConfig} → try_files paths ≡ some conf → IsFirst paths conf
  unfolding try_files
  sound [] h = absurd (cc h)
  sound (path ∷ paths) {conf} h = elim (Result-cases (read_and_parse_file path)) [
    | inl (res, good) ↦ record {
      before = [];
      path = path;
      after = paths;
      split = refl;
      failing = tt;
      parsed = cc (good, rw (good, try_files) at h);
    }
    | inr (e, bad) ↦
        let rest = sound paths {conf = conf} (rw (bad, try_files) at h) in
        record {
          before = path ∷ rest.before;
          path = rest.path;
          after = rest.after;
          split = ap (◌∷◌ path) rest.split;
          failing = ((e, bad), rest.failing);
          parsed = rest.parsed;
        }
  ]

  skip_failing :
      (before rest : List Str)
      → All (λ p. (e : ConfigError) × (read_and_parse_file p ≡ err e)) before
      → try_files (before ++ rest) ≡ try_files rest
  unfolding try_files
  skip_failing [] rest h = refl
  skip_failing (path ∷ before) rest ((e, bad), h) = rw (bad, try_files) (skip_failing before rest h)

  found_first :
      (path : Str) (after : List Str) {conf : AppConfig}
      → read_and_parse_file path ≡ ok conf
      → try_files (path ∷ after) ≡ some conf
  unfolding try_files
  found_first path after h = rw (h, try_files) refl

  -- The settings are those of the first of the files that can be read and parsed, and every file
  -- before it failed.
  pub try_files-eq-some_iff :
      (paths : List Str) (conf : AppConfig) → (try_files paths ≡ some conf) ↔ IsFirst paths conf
  try_files-eq-some_iff paths conf = (
    sound paths {conf = conf},
    λ f.
        ap try_files f.split
        ∙ (skip_failing f.before (f.path ∷ f.after) f.failing
            ∙ found_first f.path f.after f.parsed),
  )
