-- ===== src/Http.antt =====
-- adapter/httpapi/handler.go: what each handler answers. A request is what decoding its JSON body
-- gave, and a response its status and what is encoded into its body.
pub mod Duplicate
pub mod Missing
pub mod Serving
pub mod Bodies
pub mod Access
use atoha.Prelude.{
  ℕ, String, Bool, true, false, ◌&&◌, ◌||◌, not, Option, none, some, List, [], ◌∷◌, str_eq, ◌==◌,
  if◌then◌else◌,
}
use Prim.Native.String.{◌++◌ as ◌+++◌}
use atoha.Instant.{Time}
use atoha.Context.{Context}
use atoha.Errors.{
  Result, ok, err, Error, error_is, invalid_input, recovery_not_authorized, invalid_action,
  attempt_not_found, attempt_already_started, action_mismatch, action_identity_conflict,
}
use atoha.Core.Action.{Action, ActionSpec, new_action, recovery_of}
use atoha.Core.Outcome.{Outcome}
use atoha.Core.Verification.{VerificationStatus}
use atoha.Execution.Authorization.{RecoveryAuthorization, new_recovery_authorization}
use atoha.Execution.Ports.{Journal, Ports}
use atoha.Execution.Execute.{World, execute}
use atoha.Execution.Attempt.{ExecuteInput, ExecuteResult}
use atoha.Execution.Recovery.{recover_attempt}
use atoha.Execution.Verify.{VerifyWorld, verify_attempt}
use atoha.Execution.Assessing.{VerifyPorts, VerifyResult}
use atoha.Execution.Query.{AttemptView, IncompleteAttempt, get, scan}

pub record ActionRequest : Type 0 where
  pub id : String
  pub target : String
  pub name : String
  pub input : List ℕ
  pub requested_at : Time

-- actionRequest.action
unfoldable pub action_of : ActionRequest → Result Action
action_of r = new_action (record {
  id = r.id;
  target = r.target;
  name = r.name;
  input = r.input;
  requested_at = r.requested_at;
})

pub record ExecuteRequest : Type 0 where
  pub action : ActionRequest
  pub attempt_id : String

pub record RecoverRequest : Type 0 where
  pub action : ActionRequest
  pub attempt_id : String
  pub previous : String
  pub authorized_by : String
  pub authorized_at : Time
  pub reason : String

-- The fields that are texts of the outcome's three statuses are the outcome here.
pub record ExecuteResponse : Type 0 where
  pub action_id : String
  pub attempt_id : String
  pub recovery_of : String
  pub outcome : Outcome
  pub provider : String
  pub operation_error : Option Error

pub record VerifyResponse : Type 0 where
  pub action_id : String
  pub attempt_id : String
  pub status : VerificationStatus
  pub verifier : String
  pub observation_ids : List String
  pub reason : String
  pub operation_error : Option Error

-- The body of an error is its text, or the text "internal error"; `health` is that of /healthz, and
-- `not_routed` the text that net/http answers for a request that no pattern matches.
pub data Body : Type 0 where
  unauthorized : Body
  internal_error : Body
  health : Body
  not_routed : String → Body
  error_text : Error → Body
  executed : ExecuteResponse → Body
  verified : VerifyResponse → Body
  attempt : AttemptView → Body
  attempts : List IncompleteAttempt → Body

pub record Response : Type 0 where
  pub status : ℕ
  pub body : Body

abbrev pub bad_request : Error → Response
bad_request e = record { status = 400; body = error_text e }

-- The `switch` of writeUseCaseError.
unfoldable pub use_case_status : Option Error → ℕ
use_case_status e =
    if error_is invalid_input e || error_is recovery_not_authorized e || error_is invalid_action e
    then 400
    else if error_is attempt_not_found e
    then 404
    else if error_is attempt_already_started e
        || error_is action_mismatch e
        || error_is action_identity_conflict e
    then 409
    else 500

-- What is said of the error: nothing of one that is not classified.
unfoldable pub use_case_body : Option Error → Body
use_case_body none = internal_error
use_case_body (some e) = if use_case_status (some e) == 500 then internal_error else error_text e

unfoldable pub use_case_error : Option Error → Response
use_case_error e = record { status = use_case_status e; body = use_case_body e }

unfoldable pub execute_response : ExecuteResult → Option Error → ExecuteResponse
unfolding recovery_of
execute_response result e = record {
  action_id = result.action.id;
  attempt_id = result.attempt.id;
  recovery_of = (recovery_of result.attempt).0;
  outcome = result.outcome;
  provider = result.dispatch.provider;
  operation_error = e;
}

-- writeExecution
unfoldable pub write_execution : ExecuteResult → Option Error → Response
write_execution result e =
    if str_eq result.attempt.id ""
      || error_is attempt_already_started e
      || error_is recovery_not_authorized e
      || error_is action_mismatch e
      || error_is action_identity_conflict e
    then use_case_error e
    else record { status = 200; body = executed (execute_response result e) }

unfoldable pub write_verification : VerifyResult → Option Error → Response
write_verification result e =
    if str_eq result.attempt_id "" || error_is action_identity_conflict e
    then use_case_error e
    else record {
      status = 200;
      body = verified (record {
        action_id = result.action_id;
        attempt_id = result.attempt_id;
        status = result.verification.status;
        verifier = result.verification.verifier;
        observation_ids = result.verification.observation_ids;
        reason = result.verification.reason;
        operation_error = e;
      });
    }

-- ServeHTTP, before it routes: the token is asked for except at /healthz.
unfoldable pub is_authorized : String → String → String → Bool
is_authorized api_token path header = not (
    not (str_eq api_token "")
    && not (str_eq path "/healthz")
    && not (str_eq header ("Bearer " +++ api_token)))

unfoldable pub on_got : Result AttemptView → Response
on_got (err e) = use_case_error (some e)
on_got (ok view) = record { status = 200; body = attempt view }

unfoldable pub on_scanned : Result (List IncompleteAttempt) → Response
on_scanned (err e) = use_case_error (some e)
on_scanned (ok items) = record { status = 200; body = attempts items }

module _ (J : Journal) where
  unfoldable pub on_execute :
      Ports → Context → String → Result Action → World J → Response × World J
  on_execute u ctx attempt_id (err e) w = (bad_request e, w)
  on_execute u ctx attempt_id (ok action) w =
      let (result, e, w') =
        execute J u ctx (record { action = action; attempt_id = attempt_id }) none w in
      (write_execution result e, w')

  -- Handler.execute
  unfoldable pub execute_handler :
      Ports → Context → Result ExecuteRequest → World J → Response × World J
  execute_handler u ctx (err e) w = (bad_request e, w)
  execute_handler u ctx (ok r) w = on_execute u ctx r.attempt_id (action_of r.action) w

  unfoldable pub on_authorized :
      Ports
      → Context
      → String
      → Action
      → Result RecoveryAuthorization
      → World J
      → Response × World J
  on_authorized u ctx attempt_id action (err e) w = (bad_request e, w)
  on_authorized u ctx attempt_id action (ok authorization) w =
      let (result, e, w') =
        recover_attempt J u ctx
          (record { action = action; attempt_id = attempt_id; authorization = authorization }) w in
      (write_execution result e, w')

  unfoldable pub on_recover :
      Ports → Context → RecoverRequest → Result Action → World J → Response × World J
  on_recover u ctx r (err e) w = (bad_request e, w)
  on_recover u ctx r (ok action) w =
      on_authorized u ctx r.attempt_id action
        (new_recovery_authorization (record {
          action_id = action.id;
          previous_attempt_id = r.previous;
          authorized_by = r.authorized_by;
          authorized_at = r.authorized_at;
          reason = r.reason;
        }))
        w

  -- Handler.recover
  unfoldable pub recover_handler :
      Ports → Context → Result RecoverRequest → World J → Response × World J
  recover_handler u ctx (err e) w = (bad_request e, w)
  recover_handler u ctx (ok r) w = on_recover u ctx r (action_of r.action) w

  unfoldable pub on_verify :
      VerifyPorts → Context → String → Result Action → VerifyWorld J → Response × VerifyWorld J
  on_verify u ctx attempt_id (err e) w = (bad_request e, w)
  on_verify u ctx attempt_id (ok action) w =
      let (result, e, w') =
        verify_attempt J u ctx (record { action = action; attempt_id = attempt_id }) w in
      (write_verification result e, w')

  -- Handler.verify
  unfoldable pub verify_handler :
      VerifyPorts → Context → Result ExecuteRequest → VerifyWorld J → Response × VerifyWorld J
  verify_handler u ctx (err e) w = (bad_request e, w)
  verify_handler u ctx (ok r) w = on_verify u ctx r.attempt_id (action_of r.action) w

  -- Handler.get
  unfoldable pub get_handler : Context → String → J.State → Response
  unfolding on_got
  get_handler ctx attempt_id s = on_got (get J ctx attempt_id s)

  -- Handler.scan
  unfoldable pub scan_handler : Context → J.State → Response
  unfolding on_scanned
  scan_handler ctx s = on_scanned (scan J ctx s)
