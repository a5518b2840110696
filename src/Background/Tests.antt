-- ===== src/Background/Tests.antt =====
-- Runs of the background tasks, and the theorem at concrete ones.
use eudi_dev.Base.{ℕ, ◌+◌, true, false, some, List, [], ◌∷◌, ◌≡◌, refl, ltb}
use eudi_dev.Background.{Task, TaskState, new_task_state, is_due, after_run, turn, tick, ticks}
use eudi_dev.Background.History.{
  Runs, failed_in_a_row, is_over, may_run, recorded, beside, among, started,
}
use eudi_dev.Background.Turns.{IsRun, tick-IsRun}

-- A task that counts its runs, and works from the third on.
abbrev counts : Task ℕ
counts = record { every = 3; run = λ now n. (n + 1, ltb 1 n) }

-- A task that always fails.
abbrev fails : Task ℕ
fails = record { every = 1; run = λ now n. (n, false) }

everything : Unit {0}
unfolding is_due after_run turn tick ticks failed_in_a_row is_over may_run recorded beside
everything = tt

abbrev is_there : List (Task (ℕ × Runs) × TaskState)
is_there =
    (beside fails, record { last_run = some 5; failures = 5; abandoned = true })
    ∷ (recorded counts, record { last_run = some 6; failures = 0; abandoned = false })
    ∷ []

-- It works at the third tick and then every third one, and the other task is given up.
runs_counts :
    ticks
      (1 ∷ 2 ∷ 3 ∷ 4 ∷ 5 ∷ 6 ∷ 7 ∷ [])
      (among (started (fails ∷ [])) (counts, new_task_state) (started []))
      (0, [])
    ≡ (is_there, (4, (6, true) ∷ (3, true) ∷ (2, false) ∷ (1, false) ∷ []))
unfolding everything
runs_counts = refl

tick-IsRun_example :
    IsRun 3 9
      ((6, true) ∷ (3, true) ∷ (2, false) ∷ (1, false) ∷ [])
      (tick 9 is_there (4, (6, true) ∷ (3, true) ∷ (2, false) ∷ (1, false) ∷ [])).1.1
tick-IsRun_example =
    tick-IsRun (1 ∷ 2 ∷ 3 ∷ 4 ∷ 5 ∷ 6 ∷ 7 ∷ []) 9 (fails ∷ []) counts [] 0 is_there 4
      ((6, true) ∷ (3, true) ∷ (2, false) ∷ (1, false) ∷ []) runs_counts
