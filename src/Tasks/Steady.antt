-- ===== src/Tasks/Steady.antt =====
-- The schedulers of multitasking.cpp under which a task, once it is the current one, goes on for
-- ever: `fcfs`, `sjf` and `prioritySchedule`.
use mathlib.Core.Path.{subst}
use native.Mathlib.Decide.{dec_lt}
use blue_os.Base.{
  ℕ, ◌-◌, ◌<◌, ◌≡◌, refl, sym, ap, some, true, List, [], ◌∷◌, arith, ==_ne, ==_refl, fun_ext, ltb,
}
use blue_os.Tasks.{TaskManager, task_at, save, save_current, least, fcfs, sjf, priority_schedule}
use blue_os.Tasks.Choice.{IsFirstLeast, least_lem}

abbrev pub Policy : Type 0
Policy = ℕ → TaskManager → ℕ × TaskManager

-- A series of timer interrupts with the contexts that they save: the contexts that are resumed.
abbrev pub run : Policy → List ℕ → TaskManager → List ℕ × TaskManager
run policy [] m = ([], m)
run policy (cpu ∷ cpus) m =
    let (out, m1) = policy cpu m in let (outs, m2) = run policy cpus m1 in (out ∷ outs, m2)

-- What makes a policy keep to task `c`: `fcfs` needs nothing for it, `sjf` that the task has time
-- left, `prioritySchedule` that its number is the first of the least ones.
pub data KeepsTo (c : ℕ) (m : TaskManager) : Policy → Type 0 where
  by_fcfs : KeepsTo c m fcfs
  by_sjf : 0 < (task_at m c).remaining_time → KeepsTo c m sjf
  by_priority :
      IsFirstLeast (λ i. (task_at m i).priority) m.num_tasks c → KeepsTo c m priority_schedule

-- An interrupt after which task `c` goes on.
abbrev kept : (c cpu : ℕ) → TaskManager → TaskManager
kept c cpu m = record (save c cpu m) { current_task = some c }

save_current-kept :
    (c cpu : ℕ) (m : TaskManager) → m.current_task ≡ some c → save_current cpu m ≡ kept c cpu m
unfolding save_current save
save_current-kept c cpu m e = rw e refl

save-context : (c cpu : ℕ) (m : TaskManager) → (task_at (save c cpu m) c).cpustate ≡ cpu
unfolding save
save-context c cpu m = ground arith

save-remaining_time :
    (c cpu i : ℕ) (m : TaskManager)
    → (task_at (save c cpu m) i).remaining_time ≡ (task_at m i).remaining_time
unfolding save
save-remaining_time c cpu i m = ground arith

save-priority :
    (c cpu i : ℕ) (m : TaskManager) → (task_at (save c cpu m) i).priority ≡ (task_at m i).priority
unfolding save
save-priority c cpu i m = ground arith

save-num_tasks : (c cpu : ℕ) (m : TaskManager) → (save c cpu m).num_tasks ≡ m.num_tasks
unfolding save
save-num_tasks c cpu m = refl

fcfs-kept :
    (c cpu : ℕ) (m : TaskManager)
    → m.current_task ≡ some c
    → 0 < m.num_tasks
    → fcfs cpu m ≡ (cpu, kept c cpu m)
unfolding fcfs
fcfs-kept c cpu m e h = rw (==_ne m.num_tasks 0 (omega arith), e, ==_refl (m.tasks c)) refl

sjf-kept :
    (c cpu : ℕ) (m : TaskManager)
    → m.current_task ≡ some c
    → 0 < m.num_tasks
    → 0 < (task_at m c).remaining_time
    → sjf cpu m ≡ (cpu, kept c cpu m)
unfolding sjf
sjf-kept c cpu m e h left =
    let has_time : ltb 0 (task_at m c).remaining_time ≡ true = ground arith in
    rw
      (
        ==_ne m.num_tasks 0 (omega arith),
        save_current-kept c cpu m e,
        ==_refl (m.tasks c),
        has_time,
      )
      refl

IsFirstLeast-unique :
    (key other : ℕ → ℕ) (n b c : ℕ)
    → ((i : ℕ) → other i ≡ key i)
    → IsFirstLeast other n b
    → IsFirstLeast key n c
    → b ≡ c
IsFirstLeast-unique key other n b c same p q = elim (dec_lt b c) [
  | yes l ↦ absurd (omega (arith, q.is_first b l, p.is_least c q.in_range, same b, same c))
  | no g ↦ elim (dec_lt c b) [
    | yes l ↦ absurd (omega (arith, p.is_first c l, q.is_least b p.in_range, same b, same c))
    | no f ↦ omega (arith, g, f)
  ]
]

priority_schedule-kept :
    (c cpu : ℕ) (m : TaskManager)
    → m.current_task ≡ some c
    → 0 < m.num_tasks
    → IsFirstLeast (λ i. (task_at m i).priority) m.num_tasks c
    → priority_schedule cpu m ≡ (cpu, kept c cpu m)
unfolding priority_schedule
priority_schedule-kept c cpu m e h first =
    let key : ℕ → ℕ = λ i. (task_at (kept c cpu m) i).priority in
    let chosen : least key (m.num_tasks - 1) 1 0 ≡ c =
      IsFirstLeast-unique (λ i. (task_at m i).priority) key m.num_tasks _ c
        (λ i. save-priority c cpu i m) (least_lem key m.num_tasks h) first in
    rw (==_ne m.num_tasks 0 (omega arith), save_current-kept c cpu m e, chosen, ==_refl (m.tasks c))
      refl

IsFirstLeast-kept :
    (c cpu : ℕ) (m : TaskManager)
    → IsFirstLeast (λ i. (task_at m i).priority) m.num_tasks c
    → IsFirstLeast (λ i. (task_at (kept c cpu m) i).priority) (kept c cpu m).num_tasks c
unfolding save
IsFirstLeast-kept c cpu m first =
    subst (λ (key : ℕ → ℕ). IsFirstLeast key m.num_tasks c)
      (sym (fun_ext (λ i. save-priority c cpu i m))) first

policy-kept :
    (policy : Policy) (c cpu : ℕ) (m : TaskManager)
    → KeepsTo c m policy
    → m.current_task ≡ some c
    → 0 < m.num_tasks
    → (policy cpu m ≡ (cpu, kept c cpu m)) × KeepsTo c (kept c cpu m) policy
policy-kept fcfs c cpu m by_fcfs e h = (fcfs-kept c cpu m e h, by_fcfs)
policy-kept sjf c cpu m (by_sjf left) e h =
    (sjf-kept c cpu m e h left, by_sjf (omega (arith, left, save-remaining_time c cpu c m)))
policy-kept priority_schedule c cpu m (by_priority first) e h =
    (priority_schedule-kept c cpu m e h first, by_priority (IsFirstLeast-kept c cpu m first))

-- Under `fcfs`, under `sjf` while the current task has time left, and under `prioritySchedule` once
-- the current task is the first with the least number, no timer interrupt changes the task: each
-- resumes the very context that it saved.
pub run-KeepsTo :
    (policy : Policy) (c : ℕ) (cpus : List ℕ) (m : TaskManager)
    → KeepsTo c m policy
    → m.current_task ≡ some c
    → 0 < m.num_tasks
    → let (outs, m') = run policy cpus m in
      (outs ≡ cpus) × (m'.current_task ≡ some c) × KeepsTo c m' policy
run-KeepsTo policy c [] m keeps e h = (refl, e, keeps)
run-KeepsTo policy c (cpu ∷ cpus) m keeps e h =
    let (step, again) = policy-kept policy c cpu m keeps e h in
    let (same, current, still) =
      run-KeepsTo policy c cpus (kept c cpu m) again refl
        (omega (arith, save-num_tasks c cpu m, h)) in
    rw step (ap (λ l. cpu ∷ l) same, current, still)
