-- ===== src/Utils.antt =====
-- src/utils.rs: the client's constants and the wall clock in milliseconds.
use scalpel.Common.{ℕ, ◌%◌, Str, codes, Result, ok, err}

abbrev pub u64_mod : ℕ
u64_mod = 18446744073709551616

-- `SystemTime::duration_since(UNIX_EPOCH)` in milliseconds, or an error for a clock set before it.
abbrev pub SystemTime : Type 0
SystemTime = Result ℕ (Unit {0})

unfoldable pub now_as_millis : SystemTime → ℕ
now_as_millis (ok millis) = millis % u64_mod
now_as_millis (err _) = 0

abbrev pub prog_name : Str
prog_name = codes "Scalpel MD@Home"

-- The constants that the build reads from the package: `VERSION` and `REPO_URL`.
pub record Package : Type 0 where
  pub version : Str
  pub repo_url : Str
