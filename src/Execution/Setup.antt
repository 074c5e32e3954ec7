-- ===== src/Execution/Setup.antt =====
-- The constructors of execution: NewExecuteAction, NewRecoverAttempt, NewGetAttempt,
-- NewScanIncompleteAttempts and NewVerifyAttempt. An interface or a function that may be nil is an
-- Option; the journal is all the interfaces of journal.go that its state serves.
use atoha.Prelude.{ℕ, zero, suc, ◌*◌, ◌^◌, ◌<◌, String, Option, none, some, List, [], arith}
use atoha.Instant.{Time, Duration, nanoseconds, negative}
use atoha.Errors.{Result, ok, err, Error, message, described, sentinel, invalid_input}
use atoha.Context.{Context}
use atoha.Core.Action.{Action, ExecutionAttempt}
use atoha.Core.Outcome.{AdmissionStatus}
use atoha.Core.Provider.{ResolvedTarget, DispatchResult}
use atoha.Core.Observation.{Observation}
use atoha.Core.Verification.{VerificationResult}
use atoha.Execution.Payload.{Codec}
use atoha.Execution.Ports.{Journal, Ports}
use atoha.Execution.Assessing.{VerifyPorts}

-- 5 * time.Second
abbrev pub default_record_timeout : ℕ
default_record_timeout = 5 * 10 ^ 9

-- `if recordTimeout <= 0`
unfoldable pub timeout_or : Duration → ℕ
timeout_or (negative n) = default_record_timeout
timeout_or (nanoseconds zero) = default_record_timeout
timeout_or (nanoseconds (suc n)) = suc n

-- `if now == nil`
unfoldable pub clock_or : (ℕ → Time) → Option (ℕ → Time) → ℕ → Time
clock_or system none = system
clock_or system (some now) = now

abbrev pub missing_input : String → Error
missing_input parts = described (sentinel invalid_input) (message parts [])

pub record ExecuteConfig : Type 1 where
  pub admitter : Option (Context → Action → AdmissionStatus × Option Error)
  pub resolver : Option (Context → Action → ResolvedTarget × Option Error)
  pub provider :
      Option (Context → ExecutionAttempt → Action → ResolvedTarget → DispatchResult × Option Error)
  pub journal : Option Journal
  pub now : Option (ℕ → Time)
  pub record_timeout : Duration

-- What `execute` is given.
pub record ExecuteAction : Type 1 where
  pub ports : Ports
  pub journal : Journal
  pub record_timeout : ℕ

pub record VerifyConfig : Type 1 where
  pub resolver : Option (Context → Action → ResolvedTarget × Option Error)
  pub observer : Option (Context → Action → ResolvedTarget → List Observation × Option Error)
  pub verifier :
      Option (Context → Action → List Observation → Time → VerificationResult × Option Error)
  pub journal : Option Journal
  pub now : Option (ℕ → Time)
  pub record_timeout : Duration

pub record VerifyAttempt : Type 1 where
  pub ports : VerifyPorts
  pub journal : Journal
  pub record_timeout : ℕ

module _ (system : ℕ → Time) (codec : Codec) where
  unfoldable pub execute_action :
      (ℕ → Time)
      → ℕ
      → Option (Context → Action → AdmissionStatus × Option Error)
      → Option (Context → Action → ResolvedTarget × Option Error)
      → Option
          (Context → ExecutionAttempt → Action → ResolvedTarget → DispatchResult × Option Error)
      → Option Journal
      → Result ExecuteAction
  execute_action now timeout (some admit) (some resolve) (some dispatch) (some journal) =
      ok (record {
        ports = record {
          admit = admit;
          resolve = resolve;
          dispatch = dispatch;
          now = now;
          codec = codec;
        };
        journal = journal;
        record_timeout = timeout;
      })
  execute_action now timeout _ _ _ _ =
      err (missing_input "admitter, resolver, provider, and journal are required")

  -- NewExecuteAction, with time.Now as `system`.
  unfoldable pub new_execute_action : ExecuteConfig → Result ExecuteAction
  unfolding execute_action timeout_or clock_or
  new_execute_action c =
      execute_action (clock_or system c.now) (timeout_or c.record_timeout) c.admitter c.resolver
        c.provider c.journal

  unfoldable pub verify_action :
      (ℕ → Time)
      → ℕ
      → Option (Context → Action → ResolvedTarget × Option Error)
      → Option (Context → Action → ResolvedTarget → List Observation × Option Error)
      → Option (Context → Action → List Observation → Time → VerificationResult × Option Error)
      → Option Journal
      → Result VerifyAttempt
  verify_action now timeout (some resolve) (some observe) (some verify) (some journal) =
      ok (record {
        ports = record {
          resolve = resolve;
          observe = observe;
          verify = verify;
          now = now;
          codec = codec;
        };
        journal = journal;
        record_timeout = timeout;
      })
  verify_action now timeout _ _ _ _ = err (
      missing_input
        "resolver, observer, verifier, journal, event reader, and action reader are required")

  -- NewVerifyAttempt
  unfoldable pub new_verify_attempt : VerifyConfig → Result VerifyAttempt
  unfolding verify_action timeout_or clock_or
  new_verify_attempt c =
      verify_action (clock_or system c.now) (timeout_or c.record_timeout) c.resolver c.observer
        c.verifier c.journal

-- NewRecoverAttempt
unfoldable pub new_recover_attempt :
    Option ExecuteAction → Option Journal → Result (ExecuteAction × Journal)
new_recover_attempt (some executor) (some reader) = ok (executor, reader)
new_recover_attempt _ _ = err (missing_input "executor and attempt reader are required")

-- NewGetAttempt
unfoldable pub new_get_attempt : Option Journal → Result Journal
new_get_attempt (some reader) = ok reader
new_get_attempt none = err (missing_input "attempt reader is required")

-- NewScanIncompleteAttempts
unfoldable pub new_scan_incomplete_attempts :
    Option Journal → Option Journal → Result (Journal × Journal)
new_scan_incomplete_attempts (some lister) (some reader) = ok (lister, reader)
new_scan_incomplete_attempts _ _ = err (missing_input "attempt lister and reader are required")

timeout_or-positive : (d : Duration) → 0 < timeout_or d
unfolding timeout_or
timeout_or-positive (negative n) = omega arith
timeout_or-positive (nanoseconds zero) = omega arith
timeout_or-positive (nanoseconds (suc n)) = omega arith
