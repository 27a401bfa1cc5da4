-- ===== src/Build.antt =====
-- The builds of the engine (apps/engine/src/build.ts): the logs of the builds, by the id of the
-- deployment. Logs are lists of code units.
pub mod Logs
pub mod Detecting
pub mod Services
pub mod Building
pub mod Built
mod Tests
use hostingservices.Common.{
  ℕ, zero, suc, ◌-◌, String, Bool, Option, none, some, List, [], ◌∷◌, ◌++◌, length, get_or, str_eq,
  lookup, insert, remove, if◌then◌else◌,
}
use hostingservices.Common.Texts.{Text}

abbrev pub BuildLogs : Type 0
BuildLogs = List (String × Text)

abbrev pub max_log_size : ℕ
max_log_size = 2_000_000

-- `text.slice(n)`
abbrev pub without : ℕ → Text → Text
without zero t = t
without (suc n) [] = []
without (suc n) (c ∷ t) = without n t

-- `text.slice(-max)`, for a positive `max`.
abbrev pub keep_last : ℕ → Text → Text
keep_last max t = without (length t - max) t

unfoldable pub get_build_logs : String → BuildLogs → Text
unfolding lookup
get_build_logs id logs = get_or (lookup id logs) []

abbrev append_to : String → Text → BuildLogs → BuildLogs
append_to id t logs = insert id (keep_last max_log_size (get_or (lookup id logs) [] ++ t)) logs

-- `appendLog`; nothing is kept without an id.
unfoldable pub append_log : Option String → Text → BuildLogs → BuildLogs
unfolding lookup insert
append_log none t logs = logs
append_log (some id) t logs = if str_eq id "" then logs else append_to id t logs

unfoldable pub clear_build_logs : String → BuildLogs → BuildLogs
unfolding remove
clear_build_logs id logs = remove id logs
