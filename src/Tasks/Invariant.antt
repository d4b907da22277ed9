-- ===== src/Tasks/Invariant.antt =====
-- The invariant of the task manager of multitasking.cpp, and that every operation keeps it.
use mathlib.Core.Path.{subst, sym}
use native.Mathlib.Decide.{dec_lt}
use blue_os.Base.{ℕ, ◌≤◌, ◌<◌, ◌≡◌, refl, Option, none, some, arith, ap, ◌∙◌}
use blue_os.Tasks.{
  TaskManager, init, add_task, save_current, schedule, fcfs, sjf, srtf, priority_schedule, charge,
}
use blue_os.Tasks.Policies.{
  SameTasks, save_current-SameTasks, charge-SameTasks, Chose, srtf_lem, priority_schedule_lem,
  SjfOutcome, goes_on, starts, all_done, sjf-SjfOutcome,
}

-- the index of the current task, if there is one, is that of a task
abbrev pub InRange : Option ℕ → ℕ → Type 0
InRange none n = Unit {0}
InRange (some i) n = i < n

pub record IsValid (m : TaskManager) : Type 0 where
  pub few : m.num_tasks ≤ 256
  pub current : InRange m.current_task m.num_tasks

pub init-IsValid : (m : TaskManager) → IsValid (init m)
unfolding init
init-IsValid m = ground arith

pub add_task-IsValid : (task : ℕ) (m : TaskManager) → IsValid m → IsValid (add_task task m).1
unfolding add_task
add_task-IsValid task m v = ground arith

pub schedule-IsValid : (cpu : ℕ) (m : TaskManager) → IsValid m → IsValid (schedule cpu m).1
unfolding schedule
schedule-IsValid cpu m v = ground arith

pub fcfs-IsValid : (cpu : ℕ) (m : TaskManager) → IsValid m → IsValid (fcfs cpu m).1
unfolding fcfs
fcfs-IsValid cpu m v = ground arith

Chose-IsValid :
    (m m' : TaskManager) (b : ℕ) (out : ℕ × TaskManager)
    → IsValid m
    → SameTasks m m'
    → b < m.num_tasks
    → Chose m' b out
    → IsValid out.1
Chose-IsValid m m' b out v same h c =
    let e : m'.num_tasks ≡ m.num_tasks = same.num_tasks in
    let w : IsValid (record m' { current_task = some b }) = record {
      few = omega (arith, v.few);
      current = omega arith;
    } in
    subst IsValid (sym c.state) w

pub srtf-IsValid : (cpu : ℕ) (m : TaskManager) → IsValid m → IsValid (srtf cpu m).1
srtf-IsValid cpu m v = elim (dec_lt 0 m.num_tasks) [
  | yes h ↦
      (let (b, c, least) = srtf_lem cpu m h in
        Chose-IsValid m (charge cpu m) b _ v (charge-SameTasks cpu m) least.in_range c)
  | no h ↦ unfold srtf in ground arith
]

pub priority_schedule-IsValid :
    (cpu : ℕ) (m : TaskManager) → IsValid m → IsValid (priority_schedule cpu m).1
priority_schedule-IsValid cpu m v = elim (dec_lt 0 m.num_tasks) [
  | yes h ↦
      (let (b, c, least) = priority_schedule_lem cpu m h in
        Chose-IsValid m (save_current cpu m) b _ v (save_current-SameTasks cpu m) least.in_range c)
  | no h ↦ unfold priority_schedule in ground arith
]

SjfOutcome-IsValid :
    (cpu n : ℕ) (m m' : TaskManager) (out : ℕ × TaskManager)
    → IsValid m
    → SameTasks m m'
    → n ≡ m.num_tasks
    → SjfOutcome cpu n m' out
    → IsValid out.1
SjfOutcome-IsValid cpu n m m' out v same e (goes_on c now left chose) =
    Chose-IsValid m m' c out v same
      (subst (λ (o : Option ℕ). InRange o m.num_tasks) (sym same.current_task ∙ now) v.current)
      chose
SjfOutcome-IsValid cpu n m m' out v same e (starts b idle s chose) =
    Chose-IsValid m m' b out v same (omega (arith, s.in_range)) chose
SjfOutcome-IsValid cpu n m m' out v same e (all_done idle s eq) =
    let w : IsValid m' = record {
      few = omega (arith, v.few, same.num_tasks);
      current =
          subst (λ (o : Option ℕ). InRange o m'.num_tasks) (sym same.current_task)
            (subst (λ (k : ℕ). InRange m.current_task k) (sym same.num_tasks) v.current);
    } in
    subst IsValid (sym (ap (λ (p : ℕ × TaskManager). p.1) eq)) w

pub sjf-IsValid : (cpu : ℕ) (m : TaskManager) → IsValid m → IsValid (sjf cpu m).1
sjf-IsValid cpu m v = elim (dec_lt 0 m.num_tasks) [
  | yes h ↦
      SjfOutcome-IsValid cpu m.num_tasks m _ _ v (save_current-SameTasks cpu m) refl
        (sjf-SjfOutcome cpu m h)
  | no h ↦ unfold sjf in ground arith
]
