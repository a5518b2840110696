-- ===== src/Background/Turns.antt =====
-- When a background task runs, told by its own runs alone.
use eudi_dev.Base.{
  ℕ, Bool, true, false, not, ◌||◌, Option, none, some, Bool-cases, List, [], ◌∷◌, ◌++◌, leb, ◌≡◌,
  ◌⊎◌, refl, sym, ◌∙◌, subst, arith, inl, inr,
}
use eudi_dev.Background.{
  Task, TaskState, new_task_state, max_task_failures, is_due, after_run, turn, tick, ticks,
}
use eudi_dev.Background.History.{
  Runs, failed_in_a_row, is_over, may_run, recorded, beside, others, among, started,
}

-- The time of the last run.
abbrev last_time : Runs → Option ℕ
last_time [] = none
last_time ((at, done) ∷ runs) = some at

-- The state of the task agrees with its runs.
record IsRecorded (st : TaskState) (runs : Runs) : Type 0 where
  failures : st.failures ≡ failed_in_a_row runs
  abandoned : st.abandoned ≡ leb max_task_failures (failed_in_a_row runs)
  last_run : st.last_run ≡ last_time runs

-- The task ran at this time where it was to run, and else it did not.
abbrev pub IsRun : ℕ → ℕ → Runs → Runs → Type 0
IsRun every now runs later =
    ((may_run every runs now ≡ true) × (done : Bool) × (later ≡ (now, done) ∷ runs))
    ⊎ ((may_run every runs now ≡ false) × (later ≡ runs))

is_due-is_over :
    (every now : ℕ) (st : TaskState) (runs : Runs)
    → IsRecorded st runs
    → is_due every st now ≡ is_over every runs now
unfolding is_due is_over failed_in_a_row
is_due-is_over every now st [] h = rw (h.last_run, is_due) (ground arith)
is_due-is_over every now st ((at, true) ∷ runs) h = rw (h.last_run, h.failures, is_due) refl
is_due-is_over every now st ((at, false) ∷ runs) h =
    rw (h.last_run, h.failures, is_due) (ground arith)

after_run-IsRecorded :
    (now : ℕ) (done : Bool) (st : TaskState) (runs : Runs)
    → IsRecorded st runs
    → st.abandoned ≡ false
    → IsRecorded (after_run now done st) ((now, done) ∷ runs)
unfolding after_run failed_in_a_row
after_run-IsRecorded now true st runs h e = record {
  failures = refl;
  abandoned = e;
  last_run = refl;
}
after_run-IsRecorded now false st runs h e = record {
  failures = ground (arith, h.failures);
  abandoned = rw (e, h.failures) (ground arith);
  last_run = refl;
}

module _ {W : Type 0} where
  tick-append :
      (now : ℕ) (xs ys : List (Task W × TaskState)) (w : W)
      → tick now (xs ++ ys) w ≡ (
        (tick now xs w).0 ++ (tick now ys (tick now xs w).1).0,
        (tick now ys (tick now xs w).1).1,
      )
  unfolding tick
  tick-append now [] ys w = refl
  tick-append now ((task, st) ∷ xs) ys w =
      let (after, v) = turn now task st w in rw (tick-append now xs ys v) refl

module _ {W : Type 0} where
  turn-IsRun :
      (now : ℕ) (task : Task W) (st : TaskState) (w : W) (runs : Runs)
      → IsRecorded st runs
      → (after : TaskState) × (v : W) × (later : Runs) × (turn now (recorded task) st (w, runs)
          ≡ (after, (v, later)))
        × IsRecorded after later
        × IsRun task.every now runs later
  unfolding turn recorded may_run is_due after_run
  turn-IsRun now task st w runs h =
      let due = is_due-is_over task.every now st runs h in
      let (v, done) = task.run now w in
      elim (Bool-cases (st.abandoned)) [
        | inl a ↦
            (st, w, runs, rw (a, turn) refl, h, inr (rw (sym h.abandoned ∙ a, may_run) refl, refl))
        | inr a ↦ elim (Bool-cases (is_due task.every st now)) [
          | inl d ↦ (
            after_run now done st,
            v,
            (now, done) ∷ runs,
            rw (a, d, turn) refl,
            after_run-IsRecorded now done st runs h a,
            inl (rw (sym h.abandoned ∙ a, sym due ∙ d, may_run) refl, done, refl),
          )
          | inr d ↦ (
            st,
            w,
            runs,
            rw (a, d, turn) refl,
            h,
            inr (rw (sym h.abandoned ∙ a, sym due ∙ d, may_run) refl, refl),
          )
        ]
      ]

  turn-beside :
      (now : ℕ) (task : Task W) (st : TaskState) (w : W) (runs : Runs)
      → (after : TaskState) × (v : W) × (turn now (beside task) st (w, runs) ≡ (after, (v, runs)))
  unfolding turn beside is_due after_run
  turn-beside now task st w runs =
      elim (Bool-cases (st.abandoned || not (is_due task.every st now))) [
        | inl e ↦ (st, w, rw (e, turn) refl)
        | inr e ↦ (after_run now (task.run now w).1 st, (task.run now w).0, rw (e, turn) refl)
      ]

  tick-others :
      (now : ℕ) (tasks : List (Task W × TaskState)) (w : W) (runs : Runs)
      → (after : List (Task W × TaskState)) × (v : W) × (tick now (others tasks) (w, runs)
          ≡ (others after, (v, runs)))
  unfolding tick
  tick-others now [] w runs = ([], w, refl)
  tick-others now ((task, st) ∷ tasks) w runs =
      let (after, v, e) = turn-beside now task st w runs in
      let (rest, u, ih) = tick-others now tasks v runs in ((task, after) ∷ rest, u, rw (e, ih) refl)

  -- What the tasks are after some ticks.
  record IsAmong (task : Task W) (tasks : List (Task (W × Runs) × TaskState)) (runs : Runs)
      : Type 0 where
    before : List (Task W × TaskState)
    st : TaskState
    after : List (Task W × TaskState)
    placed : tasks ≡ among before (task, st) after
    is_recorded : IsRecorded st runs

  tick-IsAmong :
      (now : ℕ) (task : Task W) (tasks : List (Task (W × Runs) × TaskState)) (w : W) (runs : Runs)
      → IsAmong task tasks runs
      → IsAmong task (tick now tasks (w, runs)).0 (tick now tasks (w, runs)).1.1
        × IsRun task.every now runs (tick now tasks (w, runs)).1.1
  unfolding tick
  tick-IsAmong now task tasks w runs h =
      let (before, v, e) = tick-others now h.before w runs in
      let (st, u, later, f, is_recorded, is_run) = turn-IsRun now task h.st v runs h.is_recorded in
      let (after, t, g) = tick-others now h.after u later in
      let is : tick now tasks (w, runs) ≡ (among before (task, st) after, (t, later)) =
        rw h.placed (
          tick-append now (others h.before) ((recorded task, h.st) ∷ others h.after) (w, runs)
          ∙ rw (e, f, g, tick) refl) in
      subst (λ x. IsAmong task x.0 x.1.1 × IsRun task.every now runs x.1.1) (sym is)
        (
          record {
            before = before;
            st = st;
            after = after;
            placed = refl;
            is_recorded = is_recorded;
          },
          is_run,
        )

  ticks-IsAmong :
      (nows : List ℕ) (task : Task W) (tasks : List (Task (W × Runs) × TaskState)) (w : W)
      (runs : Runs)
      → IsAmong task tasks runs
      → IsAmong task (ticks nows tasks (w, runs)).0 (ticks nows tasks (w, runs)).1.1
  unfolding ticks
  ticks-IsAmong [] task tasks w runs h = h
  ticks-IsAmong (now ∷ nows) task tasks w runs h =
      let (rest, (v, later)) = tick now tasks (w, runs) in
      ticks-IsAmong nows task rest v later (tick-IsAmong now task tasks w runs h).0

  started-IsAmong :
      (before : List (Task W)) (task : Task W) (after : List (Task W))
      → IsAmong task (among (started before) (task, new_task_state) (started after)) []
  unfolding failed_in_a_row
  started-IsAmong before task after = record {
    before = started before;
    st = new_task_state;
    after = started after;
    placed = refl;
    is_recorded = record { failures = refl; abandoned = ground arith; last_run = refl };
  }

  -- A background task, whatever the others do to the wallet and however often they fail: after any
  -- ticks, the next tick runs it where its last five runs did not all fail, and it has never run, or its
  -- last run failed, or its interval is over since that run. Else the tick does not run it.
  pub tick-IsRun :
      (nows : List ℕ) (now : ℕ) (before : List (Task W)) (task : Task W) (after : List (Task W))
      (w : W)
      → (tasks : List (Task (W × Runs) × TaskState)) (v : W) (runs : Runs)
      → ticks nows (among (started before) (task, new_task_state) (started after)) (w, [])
        ≡ (tasks, (v, runs))
      → IsRun task.every now runs (tick now tasks (v, runs)).1.1
  tick-IsRun nows now before task after w tasks v runs e =
      let h =
        ticks-IsAmong nows task (among (started before) (task, new_task_state) (started after)) w []
          (started-IsAmong before task after) in
      let placed : IsAmong task tasks runs = subst (λ x. IsAmong task x.0 x.1.1) e h in
      (tick-IsAmong now task tasks v runs placed).1
