-- ===== src/Tasks.antt =====
-- blue_Os/src/multitasking.cpp and blue_Os/include/multitasking.h: tasks, and the schedulers that
-- choose the context to resume. A context is the address of a saved `CPUState`; task objects live
-- at addresses, and the manager holds an array of such addresses. `current_task` is `none` for the
-- -1 of the constructor: the code stores nothing else below 0.
pub mod Choice
pub mod Invariant
pub mod RoundRobin
pub mod Policies
pub mod Sjf
pub mod Steady
pub mod Reached
mod Tests
use blue_os.Base.{
  ℕ, zero, suc, ◌+◌, ◌-◌, ◌%◌, Bool, true, false, ◌&&◌, Option, none, some, ltb, ◌==◌,
  if◌then◌else◌, update,
}
use blue_os.Base.Words.{u32, sub32}

pub record CpuState : Type 0 where
  pub eax : ℕ
  pub ebx : ℕ
  pub ecx : ℕ
  pub edx : ℕ
  pub esi : ℕ
  pub edi : ℕ
  pub ebp : ℕ
  pub error : ℕ
  pub eip : ℕ
  pub cs : ℕ
  pub eflags : ℕ
  pub esp : ℕ
  pub ss : ℕ

-- sizeof(CPUState): 13 packed words
abbrev pub cpu_state_size : ℕ
cpu_state_size = 52

-- A task object without the 4096 bytes of its stack, which stand at the object's address.
pub record Task : Type 0 where
  pub cpustate : ℕ
  pub burst_time : ℕ
  pub remaining_time : ℕ
  pub priority : ℕ

-- The constructor, for an object at `self`: the task, and the context at the top of its stack, of
-- which it leaves `error`, `esp` and `ss` as they were in `frame`.
unfoldable pub init_task : (self entrypoint burst prio : ℕ) → CpuState → Task × CpuState
init_task self entrypoint burst prio frame = (
  record {
    cpustate = sub32 (u32 (self + 4096)) cpu_state_size;
    burst_time = burst;
    remaining_time = burst;
    priority = prio;
  },
  record frame {
    eax = 0;
    ebx = 0;
    ecx = 0;
    edx = 0;
    esi = 0;
    edi = 0;
    ebp = 0;
    eip = entrypoint;
    cs = 0x08;
    eflags = 0x202;
  },
)

-- A task manager beside the task objects in memory.
pub record TaskManager : Type 0 where
  pub tasks : ℕ → ℕ
  pub num_tasks : ℕ
  pub current_task : Option ℕ
  pub task : ℕ → Task

-- The constructor leaves the array as it was.
unfoldable pub init : TaskManager → TaskManager
init m = record m { num_tasks = 0; current_task = none }

unfoldable pub add_task : ℕ → TaskManager → Bool × TaskManager
add_task task m =
    if ltb m.num_tasks 256
    then (true, record m { tasks = update m.tasks m.num_tasks task; num_tasks = m.num_tasks + 1 })
    else (false, m)

-- `*tasks[i]`
abbrev pub task_at : TaskManager → ℕ → Task
task_at m i = m.task (m.tasks i)

-- `tasks[i]->cpustate = cpustate`
unfoldable pub save : ℕ → ℕ → TaskManager → TaskManager
save i cpustate m = record m {
  task = update m.task (m.tasks i) (record (task_at m i) { cpustate = cpustate });
}

-- `if (currentTask >= 0) tasks[currentTask]->cpustate = cpustate;`
unfoldable pub save_current : ℕ → TaskManager → TaskManager
unfolding save
save_current cpustate m = elim m.current_task [ none ↦ m | some i ↦ save i cpustate m ]

-- `(currentTask + 1) % numTasks`
unfoldable pub next_index : Option ℕ → ℕ → ℕ
next_index none n = 0 % n
next_index (some i) n = (i + 1) % n

-- `currentTask = i; return tasks[currentTask]->cpustate;`
unfoldable pub switch_to : ℕ → TaskManager → ℕ × TaskManager
switch_to i m = ((task_at m i).cpustate, record m { current_task = some i })

unfoldable pub schedule : ℕ → TaskManager → ℕ × TaskManager
unfolding save_current next_index switch_to
schedule cpustate m =
    if m.num_tasks == 0
    then (cpustate, m)
    else (let m' = save_current cpustate m in
        switch_to (next_index m'.current_task m'.num_tasks) m')

unfoldable pub fcfs : ℕ → TaskManager → ℕ × TaskManager
unfolding save
fcfs cpustate m =
    if m.num_tasks == 0
    then (cpustate, m)
    else (let i : ℕ = elim m.current_task [ none ↦ 0 | some i ↦ i ] in
        let m' = save i cpustate (record m { current_task = some i }) in
        ((task_at m' i).cpustate, m'))

-- whether task `i` replaces the best one of `sjf`
unfoldable pub sjf_better : TaskManager → Option ℕ → ℕ → Bool
sjf_better m none i = true
sjf_better m (some best) i = ltb (task_at m i).burst_time (task_at m best).burst_time

-- The loop of `sjf` from `i` on, with `k` rounds left; `none` is the -1 of `best`.
unfoldable pub sjf_best : TaskManager → (k i : ℕ) → Option ℕ → Option ℕ
unfolding sjf_better
sjf_best m zero i best = best
sjf_best m (suc k) i best =
    sjf_best m k (i + 1)
      (if ltb 0 (task_at m i).remaining_time && sjf_better m best i then some i else best)

-- whether the current task has time left
unfoldable pub running : TaskManager → Bool
running m = elim m.current_task [ none ↦ false | some i ↦ ltb 0 (task_at m i).remaining_time ]

unfoldable pub sjf_choose : ℕ → TaskManager → ℕ × TaskManager
unfolding sjf_best switch_to
sjf_choose cpustate m = elim (sjf_best m m.num_tasks 0 none) [
  | none ↦ (cpustate, m)
  | some best ↦ switch_to best m
]

-- `return tasks[currentTask]->cpustate;`
unfoldable pub stay : ℕ → TaskManager → ℕ × TaskManager
stay cpustate m = elim m.current_task [
  | none ↦ (cpustate, m)
  | some i ↦ ((task_at m i).cpustate, m)
]

unfoldable pub sjf : ℕ → TaskManager → ℕ × TaskManager
unfolding save_current running sjf_choose stay
sjf cpustate m =
    if m.num_tasks == 0
    then (cpustate, m)
    else (let m' = save_current cpustate m in
        if running m' then stay cpustate m' else sjf_choose cpustate m')

-- The loops of `srtf` and `prioritySchedule` from `i` on, with `k` rounds left: the first task
-- with the least key.
unfoldable pub least : (key : ℕ → ℕ) (k i best : ℕ) → ℕ
least key zero i best = best
least key (suc k) i best = least key k (i + 1) (if ltb (key i) (key best) then i else best)

-- `tasks[currentTask]->remainingTime--`, on `uint32_t`
unfoldable pub tick : ℕ → TaskManager → TaskManager
tick i m = record m {
  task =
      update m.task (m.tasks i)
        (record (task_at m i) { remaining_time = sub32 (task_at m i).remaining_time 1 });
}

-- The context of the current task is saved, and its time charged.
unfoldable pub charge : ℕ → TaskManager → TaskManager
unfolding save tick
charge cpustate m = elim m.current_task [ none ↦ m | some i ↦ tick i (save i cpustate m) ]

unfoldable pub srtf : ℕ → TaskManager → ℕ × TaskManager
unfolding charge least switch_to
srtf cpustate m =
    if m.num_tasks == 0
    then (cpustate, m)
    else (let m' = charge cpustate m in
        switch_to (least (λ i. (task_at m' i).remaining_time) (m'.num_tasks - 1) 1 0) m')

unfoldable pub priority_schedule : ℕ → TaskManager → ℕ × TaskManager
unfolding save_current least switch_to
priority_schedule cpustate m =
    if m.num_tasks == 0
    then (cpustate, m)
    else (let m' = save_current cpustate m in
        switch_to (least (λ i. (task_at m' i).priority) (m'.num_tasks - 1) 1 0) m')
