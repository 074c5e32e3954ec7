-- ===== src/Execution/Once.antt =====
-- Sequences of requests to one memory log, and the calls of the provider (execution/execute.go,
-- execution/recovery.go).
use atoha.Prelude.{◌≤◌, String, ◌≡◌, refl, Option, none, some, List, [], ◌∷◌, arith}
use atoha.Context.{Context}
use atoha.Execution.Authorization.{RecoveryAuthorization}
use atoha.Execution.Ports.{Ports}
use atoha.Execution.MemoryJournal.{memory_journal}
use atoha.Execution.Execute.{World, execute}
use atoha.Execution.Attempt.{ExecuteInput}
use atoha.Execution.Recovery.{RecoverInput, recover_attempt}
use atoha.Execution.Spending.{
  dispatches, flag_of, Spends, Use, Spends-execute, Spends-recover_attempt,
}

-- A use of the log: an attempt executed, or recovered, each with ports and a context of its own.
pub data Request : Type 0 where
  execute_request : Ports → Context → ExecuteInput → Option RecoveryAuthorization → Request
  recover_request : Ports → Context → RecoverInput → Request

unfoldable pub serve : Request → World memory_journal → World memory_journal
serve (execute_request u ctx input x) w = (execute memory_journal u ctx input x w).2
serve (recover_request u ctx input) w = (recover_attempt memory_journal u ctx input w).2

unfoldable pub serve_all : List Request → World memory_journal → World memory_journal
unfolding serve
serve_all [] w = w
serve_all (r ∷ rs) w = serve_all rs (serve r w)

Spends-serve : (a : String) (r : Request) (w : Use) → Spends a 0 w (serve r w)
unfolding serve
Spends-serve a (execute_request u ctx input x) w = Spends-execute u a ctx input x w
Spends-serve a (recover_request u ctx input) w = Spends-recover_attempt u a ctx input w

Spends-serve_all : (a : String) (rs : List Request) (w : Use) → Spends a 0 w (serve_all rs w)
unfolding serve_all
Spends-serve_all a [] w = omega arith
Spends-serve_all a (r ∷ rs) w = omega (arith, Spends-serve a r w, Spends-serve_all a rs (serve r w))

flag_one : (o : Option (Unit {0})) → flag_of o ≤ 1
unfolding flag_of
flag_one none = omega arith
flag_one (some x) = omega arith

-- Over any requests, to execute or to recover, with whatever ports and contexts, that one memory
-- log serves one after the other from no call on, a provider is called at most once with a given
-- attempt identity.
pub dispatched_at_most_once :
    (a : String) (rs : List Request) (w : World memory_journal)
    → w.calls ≡ []
    → dispatches a (serve_all rs w).calls ≤ 1
unfolding dispatches
dispatched_at_most_once a rs w h =
    let n : dispatches a w.calls ≡ 0 = rw h refl in
    omega (arith, n, Spends-serve_all a rs w, flag_one ((serve_all rs w).state.attempts a))
