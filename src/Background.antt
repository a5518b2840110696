-- ===== src/Background.antt =====
-- internal/wallet/deferred_poller.go: the loop that runs the background tasks of the server.
pub mod History
pub mod Turns
pub mod Tests
use eudi_dev.Base.{
  ℕ, ◌+◌, Bool, true, false, not, ◌&&◌, ◌||◌, Option, none, some, List, [], ◌∷◌, if◌then◌else◌, ltb,
  leb, ◌==◌,
}

-- `backgroundTask`. A run at a time reports whether it got its work done: an error and a panic, which
-- `runBackgroundTask` recovers, are both `false`.
pub record Task (W : Type 0) : Type 0 where
  pub every : ℕ
  pub run : ℕ → W → W × Bool

-- `taskState`, with `none` for the zero time.
pub record TaskState : Type 0 where
  pub last_run : Option ℕ
  pub failures : ℕ
  pub abandoned : Bool

-- The state that `StartBackgroundTasks` makes for a task.
abbrev pub new_task_state : TaskState
new_task_state = record { last_run = none; failures = 0; abandoned = false }

-- `maxTaskFailures`.
abbrev pub max_task_failures : ℕ
max_task_failures = 5

-- The negation of the condition on the interval, `now.Sub(lastRun) < every`.
unfoldable pub is_due : ℕ → TaskState → ℕ → Bool
is_due every st now =
    not (st.failures == 0)
    || elim st.last_run [ none ↦ true | some last ↦ not (ltb now (last + every)) ]

-- The state after a run.
unfoldable pub after_run : ℕ → Bool → TaskState → TaskState
after_run now true st = record { last_run = some now; failures = 0; abandoned = st.abandoned }
after_run now false st = record {
  last_run = some now;
  failures = st.failures + 1;
  abandoned = st.abandoned || leb max_task_failures (st.failures + 1);
}

module _ {W : Type 0} where
  -- One round of the loop over the tasks.
  unfoldable pub turn : ℕ → Task W → TaskState → W → TaskState × W
  turn now task st w =
      let (after, done) = task.run now w in
      if st.abandoned || not (is_due task.every st now)
      then (st, w)
      else (after_run now done st, after)

  -- A tick.
  unfoldable pub tick : ℕ → List (Task W × TaskState) → W → List (Task W × TaskState) × W
  tick now [] w = ([], w)
  tick now ((task, st) ∷ tasks) w =
      let (after, v) = turn now task st w in
      let (rest, u) = tick now tasks v in ((task, after) ∷ rest, u)

  -- The ticks until the server stops.
  unfoldable pub ticks : List ℕ → List (Task W × TaskState) → W → List (Task W × TaskState) × W
  ticks [] tasks w = (tasks, w)
  ticks (now ∷ nows) tasks w = let (after, v) = tick now tasks w in ticks nows after v
