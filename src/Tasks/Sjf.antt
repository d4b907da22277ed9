-- ===== src/Tasks/Sjf.antt =====
-- What a call of `sjf` of multitasking.cpp returns and leaves, by the tasks before the call.
use mathlib.Core.Path.{subst, sym}
use blue_os.Base.{
  ℕ, ◌<◌, ◌≡◌, ◌≢◌, ◌⊎◌, inl, inr, refl, ap, ◌∙◌, false, Option, some, arith, Option-cases,
  update_self, update_ne,
}
use blue_os.Tasks.{Task, TaskManager, task_at, save, save_current, running, sjf}
use blue_os.Tasks.Choice.{IsFirstShortest}
use blue_os.Tasks.Policies.{
  save_current-SameTasks, SjfOutcome, goes_on, starts, all_done, sjf-SjfOutcome,
}

-- The tasks of `m'` are those of `m`, but that the current task of `m`, if there is one, has `cpu`
-- as its context.
pub record Saved (cpu : ℕ) (m m' : TaskManager) : Type 0 where
  pub tasks : m'.tasks ≡ m.tasks
  pub num_tasks : m'.num_tasks ≡ m.num_tasks
  pub context :
      (c : ℕ)
      → m.current_task ≡ some c
      → m'.task (m.tasks c) ≡ record (m.task (m.tasks c)) { cpustate = cpu }
  pub others : (p : ℕ) → ((c : ℕ) → m.current_task ≡ some c → p ≢ m.tasks c) → m'.task p ≡ m.task p

-- There is no current task, or it has no time left.
abbrev pub IsIdle : TaskManager → Type 0
IsIdle m = (c : ℕ) → m.current_task ≡ some c → (task_at m c).remaining_time ≡ 0

-- The current task goes on; the first of the shortest unfinished tasks is chosen; none is left.
abbrev pub Goes : (cpu : ℕ) (m : TaskManager) (out : ℕ × TaskManager) → Type 0
Goes cpu m out =
    (c : ℕ) × (m.current_task ≡ some c)
    × (0 < (task_at m c).remaining_time)
    × (out.0 ≡ cpu)
    × (out.1.current_task ≡ some c)

abbrev pub Starts : (m : TaskManager) (out : ℕ × TaskManager) → Type 0
Starts m out =
    (b : ℕ) × IsFirstShortest m m.num_tasks b
    × (out.0 ≡ (task_at out.1 b).cpustate)
    × (out.1.current_task ≡ some b)

abbrev pub Rests : (cpu : ℕ) (m : TaskManager) (out : ℕ × TaskManager) → Type 0
Rests cpu m out =
    ((j : ℕ) → j < m.num_tasks → (task_at m j).remaining_time ≡ 0)
    × (out.0 ≡ cpu)
    × (out.1.current_task ≡ m.current_task)

save_current-Saved : (cpu : ℕ) (m : TaskManager) → Saved cpu m (save_current cpu m)
unfolding save_current save
save_current-Saved cpu m = record {
  tasks = (save_current-SameTasks cpu m).tasks;
  num_tasks = (save_current-SameTasks cpu m).num_tasks;
  context =
      λ c e. rw e (update_self m.task (m.tasks c) (record (m.task (m.tasks c)) { cpustate = cpu }));
  others = λ p apart. elim (Option-cases m.current_task) [
    | inl e ↦ rw e refl
    | inr (c, e) ↦ rw e (
        update_ne m.task (m.tasks c) p (record (m.task (m.tasks c)) { cpustate = cpu }) (apart c e))
  ];
}

-- Saving a context changes no remaining time and no burst.
save_current-times :
    (cpu : ℕ) (m : TaskManager) (j : ℕ)
    → let t = task_at (save_current cpu m) j in
      (t.remaining_time ≡ (task_at m j).remaining_time) × (t.burst_time ≡ (task_at m j).burst_time)
unfolding save_current save
save_current-times cpu m j = ground arith

Saved-state :
    (cpu : ℕ) (m : TaskManager) (current : Option ℕ) (t : TaskManager)
    → t ≡ record (save_current cpu m) { current_task = current }
    → Saved cpu m t
Saved-state cpu m current t e =
    let saved = save_current-Saved cpu m in
    subst (Saved cpu m) (sym e) (record {
      tasks = saved.tasks;
      num_tasks = saved.num_tasks;
      context = saved.context;
      others = saved.others;
    })

running-false :
    (t : TaskManager) (c : ℕ)
    → running t ≡ false
    → t.current_task ≡ some c
    → (task_at t c).remaining_time ≡ 0
unfolding running
running-false t c idle now = ground (arith, idle, now)

save_current-IsIdle : (cpu : ℕ) (m : TaskManager) → running (save_current cpu m) ≡ false → IsIdle m
save_current-IsIdle cpu m idle c now =
    let same = (save_current-SameTasks cpu m).current_task in
    omega (
      arith,
      running-false (save_current cpu m) c idle (same ∙ now),
      (save_current-times cpu m c).0,
    )

save_current-IsFirstShortest :
    (cpu : ℕ) (m : TaskManager) (b : ℕ)
    → IsFirstShortest (save_current cpu m) m.num_tasks b
    → IsFirstShortest m m.num_tasks b
save_current-IsFirstShortest cpu m b s =
    let same = save_current-times cpu m in
    record {
      in_range = s.in_range;
      unfinished = omega (arith, s.unfinished, (same b).0);
      is_shortest = λ j l left.
          omega
            (arith, s.is_shortest j l (omega (arith, left, (same j).0)), (same b).1, (same j).1);
      is_first = λ j l left.
          omega (arith, s.is_first j l (omega (arith, left, (same j).0)), (same b).1, (same j).1);
    }

outcome-Goes :
    (cpu : ℕ) (m : TaskManager) (out : ℕ × TaskManager)
    → SjfOutcome cpu m.num_tasks (save_current cpu m) out
    → Saved cpu m out.1 × (Goes cpu m out ⊎ (IsIdle m × (Starts m out ⊎ Rests cpu m out)))
outcome-Goes cpu m out (goes_on c now left chose) =
    let m' = save_current cpu m in
    let saved = save_current-Saved cpu m in
    let current = sym (save_current-SameTasks cpu m).current_task ∙ now in
    (
      Saved-state cpu m (some c) out.1 chose.state,
      inl (
        c,
        current,
        omega (arith, left, (save_current-times cpu m c).0),
        chose.context
            ∙ ap (λ (at : ℕ → ℕ). (m'.task (at c)).cpustate) saved.tasks
            ∙ ap (λ (t : Task). t.cpustate) (saved.context c current),
        ap (λ (t : TaskManager). t.current_task) chose.state,
      ),
    )
outcome-Goes cpu m out (starts b idle s chose) = (
  Saved-state cpu m (some b) out.1 chose.state,
  inr (
    save_current-IsIdle cpu m idle,
    inl (
      b,
      save_current-IsFirstShortest cpu m b s,
      chose.context ∙ ap (λ (t : TaskManager). (task_at t b).cpustate) (sym chose.state),
      ap (λ (t : TaskManager). t.current_task) chose.state,
    ),
  ),
)
outcome-Goes cpu m out (all_done idle s e) = (
  subst (λ (o : ℕ × TaskManager). Saved cpu m o.1) (sym e) (save_current-Saved cpu m),
  inr (
    save_current-IsIdle cpu m idle,
    inr (
      λ j l. omega (arith, s j l, (save_current-times cpu m j).0),
      ap (λ (o : ℕ × TaskManager). o.0) e,
      ap (λ (o : ℕ × TaskManager). o.1.current_task) e
          ∙ (save_current-SameTasks cpu m).current_task,
    ),
  ),
)

-- If there are tasks, `sjf` writes the context that it is given to the current task, if there is
-- one, and changes no other task. If the current task has time left, it stays the current one and
-- the given context is returned. If there is none or it has no time left: the first task with the
-- shortest burst among those with time left becomes the current one and its context is returned;
-- or no task has time left, the given context is returned, and the current task stays.
pub sjf_lem :
    (cpu : ℕ) (m : TaskManager)
    → 0 < m.num_tasks
    → let out = sjf cpu m in
      Saved cpu m out.1 × (Goes cpu m out ⊎ (IsIdle m × (Starts m out ⊎ Rests cpu m out)))
sjf_lem cpu m h = outcome-Goes cpu m (sjf cpu m) (sjf-SjfOutcome cpu m h)
