-- ===== src/Config/Files/Tests.antt =====
-- The theorem about src/config.rs at a file system with one JSON file.
use scalpel.Common.{[], ◌∷◌, ok, err, some, bytes_eq, if◌then◌else◌, codes, ◌≡◌, refl, ◌↔◌}
use scalpel.Backend.Tests.{config}
use scalpel.Config.Files.{
  FileApi, parse_file, read_and_parse_file, try_files, init, IsFirst, try_files-eq-some_iff,
}

abbrev files : FileApi
files = record {
  IoError = Unit {0};
  YamlError = Unit {0};
  JsonError = Unit {0};
  read_to_string = λ path. if bytes_eq path (codes "./settings.json") then ok [] else err tt;
  extension = λ path. some (codes "json");
  from_yaml = λ _. err tt;
  from_json = λ _. ok config;
}

reads_json : init files ≡ some config
unfolding init try_files read_and_parse_file parse_file bytes_eq
reads_json = refl

try_files-eq-some_iff_example :
    (try_files files (codes "a.yaml" ∷ codes "./settings.json" ∷ []) ≡ some config)
    ↔ IsFirst files (codes "a.yaml" ∷ codes "./settings.json" ∷ []) config
try_files-eq-some_iff_example =
    try_files-eq-some_iff files (codes "a.yaml" ∷ codes "./settings.json" ∷ []) config
