-- ===== src/Health.antt =====
-- Waiting for a container to become healthy (`waitForHealthyContainer` of
-- apps/engine/src/health.ts). What Docker and the HTTP probe answer at each attempt, and how long
-- the attempt takes until its pause begins, are given by the environment; the clock does not go
-- back.
pub mod Termination
pub mod Evidence
mod Tests
use text.Mathlib.Text.{find?}
use hostingservices.Common.{
  ℕ, zero, suc, ◌+◌, ◌≤◌, String, Bool, true, false, Option, none, some, not, ◌&&◌, ◌||◌, leb, ltb,
  str_eq, is_some, if◌then◌else◌,
}

pub data HealthMode : Type 0 where
  auto http docker process : HealthMode

pub record HealthOptions : Type 0 where
  pub timeout_ms : ℕ
  pub interval_ms : ℕ
  pub http_url : Option String
  pub mode : HealthMode

-- The fields of the options that the caller gives; the others have defaults.
unfoldable pub with_defaults :
    Option ℕ → Option ℕ → Option String → Option HealthMode → HealthOptions
with_defaults timeout interval url mode = record {
  timeout_ms = elim timeout [ none ↦ 120_000 | some t ↦ t ];
  interval_ms = elim interval [ none ↦ 1_500 | some t ↦ t ];
  http_url = url;
  mode = elim mode [ none ↦ auto | some m ↦ m ];
}

-- The states that Docker reports for a health check.
pub data Status : Type 0 where
  healthy unhealthy : Status
  other : String → Status

-- `inspect` throws with a message, or tells whether the container runs and its health, if it has a
-- health check.
pub data Inspection : Type 0 where
  inspect_error : String → Inspection
  inspected : (running : Bool) (health : Option Status) → Inspection

-- One attempt: the inspection, the status code that the probe gets, if any, and the time taken.
pub record Attempt : Type 0 where
  pub inspection : Inspection
  pub status_code : Option ℕ
  pub took_ms : ℕ

pub data Check : Type 0 where
  by_process passed by_http not_configured : Check

pub data Failure : Type 0 where
  stopped_before check_failed no_signal : Failure
  thrown : String → Failure

pub data LastError : Type 0 where
  not_ready probe_failed : LastError
  docker_status : String → LastError
  caught : Failure → LastError

pub data Poll : Type 0 where
  found : Check → Poll
  fatal : Failure → Poll
  again : LastError → Poll

pub data Result : Type 0 where
  is_healthy : Check → Result
  failed_with : Failure → Result
  timed_out : LastError → Result

abbrev pub includes : String → String → Bool
includes text part = is_some (find? text part)

-- The messages that the `catch` throws on; those of the function itself are among them.
unfoldable pub is_fatal : Failure → Bool
is_fatal (thrown message) =
    includes message "stopped before"
    || includes message "health check failed"
    || includes message "no usable health signal"
is_fatal _ = true

-- The `catch`.
unfoldable pub catch : Failure → Poll
unfolding is_fatal
catch f = if is_fatal f then fatal f else again (caught f)

-- `httpProbe`: a status code from 200 to 399.
unfoldable pub http_probe : Option ℕ → Bool
http_probe none = false
http_probe (some code) = leb 200 code && ltb code 400

abbrev pub is_url : Option String → Bool
is_url none = false
is_url (some url) = not (str_eq url "")

abbrev pub is_http : HealthMode → Bool
is_http http = true
is_http _ = false

abbrev pub is_docker : HealthMode → Bool
is_docker docker = true
is_docker _ = false

-- From `else if (options.httpUrl && mode !== 'docker')` on.
unfoldable pub poll_probe : Bool → HealthOptions → Option ℕ → Poll
unfolding http_probe catch
poll_probe required o code =
    if is_url o.http_url && not (is_docker o.mode)
    then (if http_probe code then found by_http else again probe_failed)
    else if not required
    then found not_configured
    else catch no_signal

unfoldable pub poll_health : Bool → HealthOptions → Option Status → Option ℕ → Poll
unfolding poll_probe catch
poll_health required o none code = poll_probe required o code
poll_health required o (some s) code =
    if not (is_http o.mode)
    then elim s [
      | healthy ↦ found passed
      | unhealthy ↦ catch check_failed
      | other text ↦ again (docker_status text)
    ]
    else poll_probe required o code

unfoldable pub poll_running : Bool → HealthOptions → HealthMode → Option Status → Option ℕ → Poll
unfolding poll_health
poll_running required o process health code = found by_process
poll_running required o mode health code = poll_health required o health code

-- The body of the `try`, with its `catch`. `required` is false where REQUIRE_HEALTHCHECK is
-- 'false'.
unfoldable pub poll : Bool → HealthOptions → Attempt → Poll
unfolding poll_running catch
poll required o a = elim a.inspection [
  | inspect_error message ↦ catch (thrown message)
  | inspected running health ↦
      if not running
      then catch stopped_before
      else poll_running required o o.mode health a.status_code
]

-- After the `try` and its `catch`: return, throw, or pause and go on.
abbrev pub after_poll : Poll → (LastError → Option Result) → Option Result
after_poll (found c) go = some (is_healthy c)
after_poll (fatal f) go = some (failed_with f)
after_poll (again e) go = go e

-- The loop, from attempt `i` and the time `elapsed` on; `none` means that the fuel ran out.
unfoldable pub wait_from :
    ℕ → Bool → HealthOptions → (ℕ → Attempt) → ℕ → ℕ → LastError → Option Result
wait_from zero required o attempts i elapsed last = none
wait_from (suc fuel) required o attempts i elapsed last = elim (ltb elapsed o.timeout_ms) [
  | false ↦ some (timed_out last)
  | true ↦
      after_poll (poll required o (attempts i)) (
        wait_from fuel required o attempts (suc i) (elapsed + (attempts i).took_ms + o.interval_ms))
]

-- The fuel of one round for each millisecond suffices.
unfoldable pub wait_for_healthy_container : Bool → HealthOptions → (ℕ → Attempt) → Option Result
unfolding wait_from
wait_for_healthy_container required o attempts =
    wait_from (suc o.timeout_ms) required o attempts 0 0 not_ready
