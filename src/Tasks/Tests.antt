-- ===== src/Tasks/Tests.antt =====
-- Runs of the schedulers of multitasking.cpp, and the theorems at concrete managers.
use blue_os.Base.{◌⊎◌, ◌<◌, true, get_or, ℕ, ◌+◌, ◌*◌, ◌≡◌, refl, some, [], ◌∷◌, arith, update}
use blue_os.Tasks.Reached.{Reached, new, adds, ticks, round_robin, Reached-Holds}
use blue_os.Tasks.{
  init, add_task, Task, TaskManager, task_at, schedule, sjf, srtf, priority_schedule,
}
use blue_os.Tasks.Steady.{KeepsTo, by_sjf, run-KeepsTo}
use blue_os.Tasks.Steady as Steady
use blue_os.Tasks.Invariant.{IsValid, schedule-IsValid}
use blue_os.Tasks.Sjf.{Saved, IsIdle, Goes, Starts, Rests, sjf_lem}
use blue_os.Tasks.RoundRobin.{Distinct}

abbrev task : (cpustate burst left prio : ℕ) → Task
task c b l p = record { cpustate = c; burst_time = b; remaining_time = l; priority = p }

-- three tasks at 1000, 2000 and 3000, the second running
abbrev three : TaskManager
three = record {
  tasks = λ i. 1000 * (i + 1);
  num_tasks = 3;
  current_task = some 1;
  task =
      update (update (update (λ _. task 0 0 0 0) 1000 (task 11 3 3 2)) 2000 (task 12 6 0 1)) 3000
        (task 13 2 2 5);
}

three-IsValid : IsValid three
three-IsValid = omega arith

three-Distinct : Distinct three
three-Distinct i j hi hj e = omega arith

-- the third running, which has time left
abbrev unfinished : TaskManager
unfinished = record three { current_task = some 2 }

schedule_goes_on : ((schedule 77 three).0 ≡ 13) × ((schedule 77 three).1.current_task ≡ some 2)
unfolding schedule
schedule_goes_on = (refl, refl)

sjf_takes_shortest : (sjf 77 three).1.current_task ≡ some 2
unfolding sjf
sjf_takes_shortest = refl

-- The finished task 1 wraps to the longest remaining time there is, and loses its turn.
srtf_wraps : (task_at (srtf 77 three).1 1).remaining_time ≡ 0xffff_ffff
unfolding srtf
srtf_wraps = refl

priority_takes_first :
    ((priority_schedule 77 three).0 ≡ 77) × ((priority_schedule 77 three).1.current_task ≡ some 1)
unfolding priority_schedule
priority_takes_first = (refl, refl)

schedule-IsValid_example : IsValid (schedule 77 three).1
schedule-IsValid_example = schedule-IsValid 77 three three-IsValid

sjf_lem_example :
    let out = sjf 77 three in
    Saved 77 three out.1
    × (Goes 77 three out ⊎ (IsIdle three × (Starts three out ⊎ Rests 77 three out)))
sjf_lem_example = sjf_lem 77 three (omega arith)

run-KeepsTo_example :
    let (outs, m') = Steady.run sjf (77 ∷ 78 ∷ 79 ∷ []) unfinished in
    (outs ≡ 77 ∷ 78 ∷ 79 ∷ []) × (m'.current_task ≡ some 2) × KeepsTo 2 m' sjf
run-KeepsTo_example =
    run-KeepsTo sjf 2 (77 ∷ 78 ∷ 79 ∷ []) unfinished (by_sjf (omega arith)) refl (omega arith)

-- a new manager that is given two tasks, with a timer interrupt between them
abbrev one_task : TaskManager
one_task = (schedule 7 (add_task 1000 (init three)).1).1

abbrev two_tasks : TaskManager
two_tasks = (add_task 2000 one_task).1

two_tasks-Reached : Reached (1000 ∷ 2000 ∷ []) two_tasks
unfolding add_task init schedule
two_tasks-Reached = adds (1000 ∷ []) one_task 2000 (
    ticks (1000 ∷ []) (add_task 1000 (init three)).1 schedule 7 round_robin
      (adds [] (init three) 1000 (new three)))

Reached-Holds_example :
    IsValid two_tasks
    × (two_tasks.num_tasks ≡ 2)
    × ((i : ℕ) → i < 2 → two_tasks.tasks i ≡ get_or (1000 ∷ 2000 ∷ []) i 0)
    × ((add_task 3000 two_tasks).0 ≡ true)
Reached-Holds_example = Reached-Holds (1000 ∷ 2000 ∷ []) two_tasks 3000 two_tasks-Reached
