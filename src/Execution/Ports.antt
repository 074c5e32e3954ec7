-- ===== src/Execution/Ports.antt =====
-- The ports of the use cases: the interfaces of provider.go and verification.go, and the journal
-- of execution/journal.go. Each is a parameter.
use atoha.Prelude.{ℕ, String, Bool, Option, List}
use atoha.Instant.{Time}
use atoha.Errors.{Error}
use atoha.Context.{Context}
use atoha.Core.Action.{Action, ExecutionAttempt}
use atoha.Core.Outcome.{AdmissionStatus}
use atoha.Core.Event.{ExecutionEvent}
use atoha.Core.Provider.{ResolvedTarget, DispatchResult}
use atoha.Execution.Payload.{Codec}

-- Journal with AttemptEventReader, ActionReader and AttemptLister, over a state of its own.
pub record Journal : Type 1 where
  pub State : Type 0
  -- claimed and err
  pub begin_attempt :
      Context
      → Action
      → ExecutionAttempt
      → List ExecutionEvent
      → State
      → Bool × Option Error × State
  pub append_all : Context → List ExecutionEvent → State → Option Error × State
  pub events_by_attempt : Context → String → State → List ExecutionEvent × Option Error
  pub action_by_id : Context → String → State → Option Action × Option Error
  pub attempt_ids : Context → State → List String × Option Error

-- Admitter, Resolver and Provider: whatever they return, beside an error or none.
pub record Ports : Type 0 where
  pub admit : Context → Action → AdmissionStatus × Option Error
  pub resolve : Context → Action → ResolvedTarget × Option Error
  pub dispatch :
      Context → ExecutionAttempt → Action → ResolvedTarget → DispatchResult × Option Error
  -- The reading of the clock, by how often it has been read.
  pub now : ℕ → Time
  pub codec : Codec
