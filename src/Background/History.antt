-- ===== src/Background/History.antt =====
-- A background task among others, with a record of its own runs.
use eudi_dev.Base.{
  ℕ, suc, ◌+◌, Bool, true, false, not, ◌&&◌, ◌||◌, List, [], ◌∷◌, ◌++◌, map, ltb, leb,
}
use eudi_dev.Background.{Task, TaskState, new_task_state, max_task_failures}

-- The runs of a task, the newest first: when each was, and whether it got its work done.
abbrev pub Runs : Type 0
Runs = List (ℕ × Bool)

-- How many of the last runs failed in a row.
unfoldable pub failed_in_a_row : Runs → ℕ
failed_in_a_row [] = 0
failed_in_a_row ((at, true) ∷ runs) = 0
failed_in_a_row ((at, false) ∷ runs) = suc (failed_in_a_row runs)

-- Whether the time since the last run matters no more: it never ran, it failed, or the interval is over.
unfoldable pub is_over : ℕ → Runs → ℕ → Bool
is_over every [] now = true
is_over every ((at, done) ∷ runs) now = not done || not (ltb now (at + every))

-- Whether a task with these runs is to run at this time.
unfoldable pub may_run : ℕ → Runs → ℕ → Bool
may_run every runs now =
    not (leb max_task_failures (failed_in_a_row runs)) && is_over every runs now

module _ {W : Type 0} where
  -- The task, beside a record of its runs.
  unfoldable pub recorded : Task W → Task (W × Runs)
  recorded task = record {
    every = task.every;
    run =
        λ now (w, runs). let (after, done) = task.run now w in ((after, (now, done) ∷ runs), done);
  }

  -- Any other task, which does not touch the record.
  unfoldable pub beside : Task W → Task (W × Runs)
  beside task = record {
    every = task.every;
    run = λ now (w, runs). let (after, done) = task.run now w in ((after, runs), done);
  }

  abbrev pub others : List (Task W × TaskState) → List (Task (W × Runs) × TaskState)
  others tasks = map (λ (task, st). (beside task, st)) tasks

  -- The task between the others.
  abbrev pub among :
      List (Task W × TaskState)
      → Task W × TaskState
      → List (Task W × TaskState)
      → List (Task (W × Runs) × TaskState)
  among before (task, st) after = others before ++ (recorded task, st) ∷ others after

  -- Tasks that have not run yet.
  abbrev pub started : List (Task W) → List (Task W × TaskState)
  started tasks = map (λ task. (task, new_task_state)) tasks
