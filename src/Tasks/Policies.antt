-- ===== src/Tasks/Policies.antt =====
-- What the schedulers of multitasking.cpp choose: `sjf`, `srtf` and `prioritySchedule`.
use mathlib.Core.Path.{subst, sym}
use blue_os.Base.{
  ℕ, ◌-◌, ◌<◌, ◌≡◌, inl, inr, refl, true, false, none, some, arith, ==_ne, if◌then◌else◌,
  Bool-cases, Option-cases,
}
use blue_os.Tasks.{
  TaskManager, task_at, save_current, charge, running, stay, sjf_best, sjf_choose, least, sjf, srtf,
  priority_schedule,
}
use blue_os.Tasks.Choice.{IsFirstLeast, least_lem, Shortest, sjf_best-Shortest}

-- What saving a context leaves alone: the array, the count, the current task, and in the tasks all
-- but the context.
pub record SameTasks (m m' : TaskManager) : Type 0 where
  pub tasks : m'.tasks ≡ m.tasks
  pub num_tasks : m'.num_tasks ≡ m.num_tasks
  pub current_task : m'.current_task ≡ m.current_task

pub save_current-SameTasks : (cpu : ℕ) (m : TaskManager) → SameTasks m (save_current cpu m)
unfolding save_current
save_current-SameTasks cpu m = ground arith

pub charge-SameTasks : (cpu : ℕ) (m : TaskManager) → SameTasks m (charge cpu m)
unfolding charge
charge-SameTasks cpu m = ground arith

-- A choice of task `b` after the update of the tasks to `m'`: its context is returned, and it is
-- the current task from then on.
pub record Chose (m' : TaskManager) (b : ℕ) (out : ℕ × TaskManager) : Type 0 where
  pub context : out.0 ≡ (task_at m' b).cpustate
  pub state : out.1 ≡ record m' { current_task = some b }

-- If there are tasks, srtf charges the current task a unit of time, and then chooses the first
-- task with the least remaining time.
pub srtf_lem :
    (cpu : ℕ) (m : TaskManager)
    → 0 < m.num_tasks
    → (b : ℕ) × Chose (charge cpu m) b (srtf cpu m)
      × IsFirstLeast (λ i. (task_at (charge cpu m) i).remaining_time) m.num_tasks b
unfolding srtf
srtf_lem cpu m h =
    let key : ℕ → ℕ = λ i. (task_at (charge cpu m) i).remaining_time in
    let n = (charge cpu m).num_tasks in
    let count : n ≡ m.num_tasks = (charge-SameTasks cpu m).num_tasks in
    (
      least key (n - 1) 1 0,
      rw (==_ne m.num_tasks 0 (omega arith)) (record { context = refl; state = refl }),
      subst (λ (k : ℕ). IsFirstLeast key k (least key (n - 1) 1 0)) count
          (least_lem key n (subst (λ (k : ℕ). 0 < k) (sym count) h)),
    )

-- If there are tasks, prioritySchedule saves the current context, and then chooses the first
-- task with the least priority number.
pub priority_schedule_lem :
    (cpu : ℕ) (m : TaskManager)
    → 0 < m.num_tasks
    → (b : ℕ) × Chose (save_current cpu m) b (priority_schedule cpu m)
      × IsFirstLeast (λ i. (task_at (save_current cpu m) i).priority) m.num_tasks b
unfolding priority_schedule
priority_schedule_lem cpu m h =
    let key : ℕ → ℕ = λ i. (task_at (save_current cpu m) i).priority in
    let n = (save_current cpu m).num_tasks in
    let count : n ≡ m.num_tasks = (save_current-SameTasks cpu m).num_tasks in
    (
      least key (n - 1) 1 0,
      rw (==_ne m.num_tasks 0 (omega arith)) (record { context = refl; state = refl }),
      subst (λ (k : ℕ). IsFirstLeast key k (least key (n - 1) 1 0)) count
          (least_lem key n (subst (λ (k : ℕ). 0 < k) (sym count) h)),
    )

-- What `sjf` does after the update of the tasks to `m'`: the current task has time left and goes
-- on; or it has not, and the first task with the shortest burst among those that have is chosen; or
-- none has, and the context is returned as it was given, with no change of task.
pub data SjfOutcome (cpu n : ℕ) (m' : TaskManager) (out : ℕ × TaskManager) : Type 0 where
  goes_on :
      (c : ℕ)
      → m'.current_task ≡ some c
      → 0 < (task_at m' c).remaining_time
      → Chose m' c out
      → SjfOutcome cpu n m' out
  starts :
      (b : ℕ)
      → running m' ≡ false
      → Shortest m' n (some b)
      → Chose m' b out
      → SjfOutcome cpu n m' out
  all_done : running m' ≡ false → Shortest m' n none → out ≡ (cpu, m') → SjfOutcome cpu n m' out

running-true :
    (t : TaskManager)
    → running t ≡ true
    → (c : ℕ) × (t.current_task ≡ some c) × (0 < (task_at t c).remaining_time)
unfolding running
running-true t h = elim (Option-cases t.current_task) [
  | inl e ↦ absurd (ground (arith, h, e))
  | inr (c, e) ↦ (c, e, ground (arith, h, e))
]

stay-Chose : (cpu c : ℕ) (t : TaskManager) → t.current_task ≡ some c → Chose t c (stay cpu t)
unfolding stay
stay-Chose cpu c t e = record { context = ground (arith, e); state = ground (arith, e) }

sjf_choose-SjfOutcome :
    (cpu n : ℕ) (t : TaskManager)
    → running t ≡ false
    → t.num_tasks ≡ n
    → SjfOutcome cpu n t (sjf_choose cpu t)
unfolding sjf_choose
sjf_choose-SjfOutcome cpu n t idle e =
    let found : Shortest t n (sjf_best t t.num_tasks 0 none) =
      subst (λ (k : ℕ). Shortest t n (sjf_best t k 0 none)) (sym e) (sjf_best-Shortest t n) in
    elim (Option-cases (sjf_best t t.num_tasks 0 none)) [
      | inl o ↦ rw (o, sjf_choose) (all_done idle (rw o at found) refl)
      | inr (b, o) ↦
          rw (o, sjf_choose)
            (starts b idle (rw o at found) (record { context = refl; state = refl }))
    ]

pub sjf-SjfOutcome :
    (cpu : ℕ) (m : TaskManager)
    → 0 < m.num_tasks
    → SjfOutcome cpu m.num_tasks (save_current cpu m) (sjf cpu m)
unfolding sjf
sjf-SjfOutcome cpu m h =
    rw (==_ne m.num_tasks 0 (omega arith))
      (outcome (save_current cpu m) (save_current-SameTasks cpu m).num_tasks)
  where
    outcome :
        (t : TaskManager)
        → t.num_tasks ≡ m.num_tasks
        → SjfOutcome cpu m.num_tasks t (if running t then stay cpu t else sjf_choose cpu t)
    outcome t e = elim (Bool-cases (running t)) [
      | inl r ↦
          (let (c, e', left) = running-true t r in rw r (goes_on c e' left (stay-Chose cpu c t e')))
      | inr r ↦ rw r (sjf_choose-SjfOutcome cpu m.num_tasks t r e)
    ]
