-- ===== src/Http/Missing.antt =====
-- A request about an attempt of which the journal has no fact.
use atoha.Prelude.{String, ◌≡◌, refl, false, none, some, [], str_eq}
use atoha.Context.{Context}
use atoha.Errors.{ok, err, error_is, stage_error, staged, sentinel, validate, attempt_not_found}
use atoha.Core.Action.{Action}
use atoha.Execution.Ports.{Journal}
use atoha.Execution.Verify.{VerifyWorld, verify_attempt, verify_error, on_verifiable}
use atoha.Execution.Assessing.{VerifyInput, begun_verify, VerifyPorts, facts_error}
use atoha.Execution.Recovery.{first_error}
use atoha.Execution.Query.{get, on_events}
use atoha.Http.{
  ExecuteRequest, action_of, use_case_error, use_case_status, write_verification, on_verify,
  verify_handler, get_handler,
}

get_missing :
    (J : Journal) (ctx : Context) (id : String) (s : J.State)
    → str_eq id "" ≡ false
    → J.events_by_attempt ctx id s ≡ ([], none)
    → get J ctx id s ≡ err (staged validate (sentinel attempt_not_found))
unfolding get on_events
get_missing J ctx id s n h = rw (n, h) refl

verify_missing :
    (J : Journal) (u : VerifyPorts) (ctx : Context) (input : VerifyInput) (w : VerifyWorld J)
    → str_eq input.attempt_id "" ≡ false
    → str_eq input.action.id "" ≡ false
    → J.events_by_attempt ctx input.attempt_id w.state ≡ ([], none)
    → verify_attempt J u ctx input w
      ≡ (begun_verify input, some (staged validate (sentinel attempt_not_found)), w)
unfolding verify_attempt verify_error first_error stage_error facts_error on_verifiable
verify_missing J u ctx input w n m h = rw (n, m, h) refl

missing_ok :
    (input : VerifyInput)
    → str_eq input.attempt_id "" ≡ false
    → (write_verification
        (begun_verify input)
        (some (staged validate (sentinel attempt_not_found)))).status
      ≡ 200
unfolding write_verification error_is
missing_ok input n = rw n refl

-- Of an attempt without facts, in whatever journal, Get answers 404; Verify, asked with a valid
-- action, answers 200, and calls no port.
pub missing_attempt :
    (J : Journal) (u : VerifyPorts) (ctx : Context) (r : ExecuteRequest) (w : VerifyWorld J)
    (action : Action)
    → action_of r.action ≡ ok action
    → str_eq r.attempt_id "" ≡ false
    → str_eq action.id "" ≡ false
    → J.events_by_attempt ctx r.attempt_id w.state ≡ ([], none)
    → ((get_handler J ctx r.attempt_id w.state).status ≡ 404)
      × ((verify_handler J u ctx (ok r) w).0.status ≡ 200)
      × ((verify_handler J u ctx (ok r) w).1 ≡ w)
unfolding get_handler use_case_error use_case_status error_is verify_handler on_verify
missing_attempt J u ctx r w action valid n m h =
    let input : VerifyInput = record { action = action; attempt_id = r.attempt_id } in
    let v = verify_missing J u ctx input w n m h in
    (
      rw (get_missing J ctx r.attempt_id w.state n h) refl,
      rw (valid, v) (missing_ok input n),
      rw (valid, v) refl,
    )
