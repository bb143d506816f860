-- ===== src/Execution/Examples.antt =====
-- Executions with a number as input: one that waits, resumes and completes, and one that a failed
-- start ends.
use runcor.Common.{ℕ, ◌≡◌, refl, none, some, List, [], ◌∷◌, true, codes, ◌↔◌, false}
use runcor.Execution.{
  State, Execution, queued, running, waiting, complete, is_terminal, create_execution,
  transition_execution,
}
use runcor.Execution.Log.{is_unstarted, or_else}
use runcor.Execution.Lifecycle.{
  IsWellFormed, request, request-create-IsWellFormed, terminal_absorbs, timestamps_of_state,
}

abbrev fresh : Execution ℕ
fresh = create_execution (codes "id-1") (codes "brief") (codes "key-1") 7 none 100

abbrev lives : List (State × ℕ)
lives = (running, 110) ∷ (complete, 5) ∷ (running, 6) ∷ []

abbrev waits : List (State × ℕ)
waits =
    (running, 110)
    ∷ (queued, 115)
    ∷ (waiting, 120)
    ∷ (complete, 125)
    ∷ (running, 130)
    ∷ (complete, 140)
    ∷ []

completes_once :
    ((request fresh waits).timestamps.started ≡ some 110)
    × ((request fresh waits).timestamps.completed ≡ some 140)
unfolding request create_execution transition_execution
completes_once = (refl, refl)

request-create-IsWellFormed_example : IsWellFormed (request fresh waits)
request-create-IsWellFormed_example =
    request-create-IsWellFormed (codes "id-1") (codes "brief") (codes "key-1") 7 none 100 waits

terminal_absorbs_example : request (request fresh waits) lives ≡ request fresh waits
unfolding request create_execution transition_execution
terminal_absorbs_example = terminal_absorbs (request fresh waits) lives refl

request-fresh-IsWellFormed : IsWellFormed (request fresh waits)
request-fresh-IsWellFormed =
    request-create-IsWellFormed (codes "id-1") (codes "brief") (codes "key-1") 7 none 100 waits

timestamps_of_state_example :
    let e = request fresh waits in
    let e' = request e ((queued, 200) ∷ []) in
    (e.timestamps.started ≡ none → is_unstarted e.state ≡ true)
    × ((e.timestamps.completed ≡ none) ↔ (is_terminal e.state ≡ false))
    × (e'.timestamps.started ≡ or_else e.timestamps.started e'.timestamps.started)
    × (e'.timestamps.completed ≡ or_else e.timestamps.completed e'.timestamps.completed)
timestamps_of_state_example =
    timestamps_of_state (codes "id-1") (codes "brief") (codes "key-1") 7 none 100 waits
      ((queued, 200) ∷ [])
