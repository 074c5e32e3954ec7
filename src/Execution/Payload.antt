-- ===== src/Execution/Payload.antt =====
-- execution/payload.go: what the events carry, before encoding/json writes it. The field `error`
-- holds the error itself, or none for the empty text.
use atoha.Prelude.{ℕ, String, Option, List}
use atoha.Instant.{Time}
use atoha.Errors.{Result, Error}

-- EventDataSchemaV1
abbrev pub event_data_schema_v1 : String
event_data_schema_v1 = "atoha.execution.event/v1"

pub record ActionRequestedPayload : Type 0 where
  pub schema : String
  pub target : String
  pub name : String
  pub input : List ℕ
  pub requested_at : Time

pub record AttemptStartedPayload : Type 0 where
  pub schema : String
  pub started_at : Time
  pub recovery_of : String

pub record RecoveryAuthorizedPayload : Type 0 where
  pub schema : String
  pub previous_attempt_id : String
  pub authorized_by : String
  pub authorized_at : Time
  pub reason : String

pub record AdmissionPayload : Type 0 where
  pub schema : String
  pub status : String
  pub error : Option Error

pub record ReceiptPayload : Type 0 where
  pub provider : String
  pub received_at : Time
  pub evidence : List ℕ

pub record DispatchPayload : Type 0 where
  pub schema : String
  pub provider : String
  pub status : String
  pub target_provider : String
  pub target_endpoint : List ℕ
  pub receipt : Option ReceiptPayload
  pub error : Option Error

pub record ObservationPayload : Type 0 where
  pub schema : String
  pub id : String
  pub source : String
  pub target : String
  pub value : List ℕ
  pub evidence : List ℕ
  pub observed_at : Time
  pub recorded_at : Time

pub record VerificationPayload : Type 0 where
  pub schema : String
  pub status : String
  pub verifier : String
  pub checked_at : Time
  pub observation_ids : List String
  pub reason : String
  pub error : Option Error

-- The `any` of marshalPayload.
pub data Payload : Type 0 where
  action_requested : ActionRequestedPayload → Payload
  attempt_started : AttemptStartedPayload → Payload
  recovery_authorized : RecoveryAuthorizedPayload → Payload
  admission : AdmissionPayload → Payload
  dispatch : DispatchPayload → Payload
  observation : ObservationPayload → Payload
  verification : VerificationPayload → Payload

-- What the events take from crypto/sha256, encoding/hex, encoding/json and package time: the hex
-- text of the first 16 bytes of the hash of a text, the JSON form of a payload, which fails for a
-- year out of range, and RFC3339Nano.
pub record Codec : Type 0 where
  pub digest : List ℕ → String
  pub marshal : Payload → Result (List ℕ)
  pub format_time : Time → List ℕ
