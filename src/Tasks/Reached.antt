-- ===== src/Tasks/Reached.antt =====
-- The task manager of multitasking.cpp after any series of calls, against the list of the tasks that
-- it has accepted.
use native.Mathlib.Decide.{dec_lt}
use blue_os.Base.{
  ℕ, zero, suc, ◌+◌, ◌<◌, ◌≡◌, refl, ap, ◌∙◌, Bool, true, false, List, [], ◌∷◌, ◌++◌, arith, length,
  get_or, length-append, ltb, ◌==◌, if◌then◌else◌, Bool-cases, inl, inr,
}
use blue_os.Tasks.{
  TaskManager, init, add_task, save_current, charge, schedule, fcfs, sjf, srtf, priority_schedule,
}
use blue_os.Tasks.Policies.{
  SameTasks, save_current-SameTasks, charge-SameTasks, Chose, srtf_lem, priority_schedule_lem,
  SjfOutcome, goes_on, starts, all_done, sjf-SjfOutcome,
}
use blue_os.Tasks.Steady.{Policy}
use blue_os.Tasks.Invariant.{
  IsValid, init-IsValid, add_task-IsValid, schedule-IsValid, fcfs-IsValid, srtf-IsValid,
  priority_schedule-IsValid, sjf-IsValid,
}

-- the five schedulers
pub data IsScheduler : Policy → Type 0 where
  round_robin : IsScheduler schedule
  first_come : IsScheduler fcfs
  shortest_job : IsScheduler sjf
  shortest_remaining : IsScheduler srtf
  by_priority : IsScheduler priority_schedule

-- the tasks, and one more if `addTask` has accepted it
abbrev pub accepted : Bool → List ℕ → ℕ → List ℕ
accepted true xs task = xs ++ task ∷ []
accepted false xs task = xs

-- A manager after a series of calls, with the tasks that it has accepted in their order.
pub data Reached : List ℕ → TaskManager → Type 0 where
  new : (m : TaskManager) → Reached [] (init m)
  adds :
      (xs : List ℕ) (m : TaskManager) (task : ℕ)
      → Reached xs m
      → Reached (accepted (add_task task m).0 xs task) (add_task task m).1
  ticks :
      (xs : List ℕ) (m : TaskManager) (policy : Policy) (cpu : ℕ)
      → IsScheduler policy
      → Reached xs m
      → Reached xs (policy cpu m).1

-- What a scheduler leaves alone.
abbrev SameArray : TaskManager → TaskManager → Type 0
SameArray m m' = (m'.num_tasks ≡ m.num_tasks) × (m'.tasks ≡ m.tasks)

Chose-SameArray :
    (m m' : TaskManager) (b : ℕ) (out : ℕ × TaskManager)
    → SameTasks m m'
    → Chose m' b out
    → SameArray m out.1
Chose-SameArray m m' b out same c = (
  ap (λ (t : TaskManager). t.num_tasks) c.state ∙ same.num_tasks,
  ap (λ (t : TaskManager). t.tasks) c.state ∙ same.tasks,
)

SjfOutcome-SameArray :
    (cpu n : ℕ) (m m' : TaskManager) (out : ℕ × TaskManager)
    → SameTasks m m'
    → SjfOutcome cpu n m' out
    → SameArray m out.1
SjfOutcome-SameArray cpu n m m' out same (goes_on c now left chose) =
    Chose-SameArray m m' c out same chose
SjfOutcome-SameArray cpu n m m' out same (starts b idle s chose) =
    Chose-SameArray m m' b out same chose
SjfOutcome-SameArray cpu n m m' out same (all_done idle s eq) = (
  ap (λ (p : ℕ × TaskManager). p.1.num_tasks) eq ∙ same.num_tasks,
  ap (λ (p : ℕ × TaskManager). p.1.tasks) eq ∙ same.tasks,
)

policy-SameArray :
    (policy : Policy) (cpu : ℕ) (m : TaskManager)
    → IsScheduler policy
    → SameArray m (policy cpu m).1
policy-SameArray policy cpu m round_robin = unfold schedule in ground arith
policy-SameArray policy cpu m first_come = unfold fcfs in ground arith
policy-SameArray policy cpu m shortest_job = elim (dec_lt 0 m.num_tasks) [
  | yes h ↦
      SjfOutcome-SameArray cpu m.num_tasks m _ _ (save_current-SameTasks cpu m)
        (sjf-SjfOutcome cpu m h)
  | no h ↦ unfold sjf in ground arith
]
policy-SameArray policy cpu m shortest_remaining = elim (dec_lt 0 m.num_tasks) [
  | yes h ↦
      (let (b, c, least) = srtf_lem cpu m h in
        Chose-SameArray m (charge cpu m) b _ (charge-SameTasks cpu m) c)
  | no h ↦ unfold srtf in ground arith
]
policy-SameArray policy cpu m by_priority = elim (dec_lt 0 m.num_tasks) [
  | yes h ↦
      (let (b, c, least) = priority_schedule_lem cpu m h in
        Chose-SameArray m (save_current cpu m) b _ (save_current-SameTasks cpu m) c)
  | no h ↦ unfold priority_schedule in ground arith
]

policy-IsValid :
    (policy : Policy) (cpu : ℕ) (m : TaskManager)
    → IsScheduler policy
    → IsValid m
    → IsValid (policy cpu m).1
policy-IsValid policy cpu m round_robin v = schedule-IsValid cpu m v
policy-IsValid policy cpu m first_come v = fcfs-IsValid cpu m v
policy-IsValid policy cpu m shortest_job v = sjf-IsValid cpu m v
policy-IsValid policy cpu m shortest_remaining v = srtf-IsValid cpu m v
policy-IsValid policy cpu m by_priority v = priority_schedule-IsValid cpu m v

-- The array holds these tasks.
abbrev pub Holds : List ℕ → TaskManager → Type 0
Holds xs m = (m.num_tasks ≡ length xs) × ((i : ℕ) → i < length xs → m.tasks i ≡ get_or xs i 0)

get_or-snoc :
    (xs : List ℕ) (x i : ℕ)
    → i < length xs + 1
    → get_or (xs ++ x ∷ []) i 0 ≡ (if i == length xs then x else get_or xs i 0)
get_or-snoc [] x zero l = refl
get_or-snoc [] x (suc i) l = absurd (omega arith)
get_or-snoc (y ∷ xs) x zero l = ground arith
get_or-snoc (y ∷ xs) x (suc i) l =
    let e : (suc i == suc (length xs)) ≡ (i == length xs) = ground arith in
    rw e (get_or-snoc xs x i (omega arith))

add_task-Holds :
    (xs : List ℕ) (m : TaskManager) (task : ℕ)
    → Holds xs m
    → Holds (accepted (add_task task m).0 xs task) (add_task task m).1
unfolding add_task
add_task-Holds xs m task (count, same) = elim (Bool-cases (ltb m.num_tasks 256)) [
  | inr full ↦ rw full (count, same)
  | inl fits ↦ rw fits (
    omega (arith, count, length-append xs (task ∷ [])),
    λ i l.
        let below : i < length xs + 1 = omega (arith, l, length-append xs (task ∷ [])) in
        rw (get_or-snoc xs task i below, count)
          (elim (Bool-cases (i == length xs)) [
            | inl last ↦ rw last refl
            | inr other ↦ rw other (same i (ground arith))
          ]),
  )
]

policy-Holds : (xs : List ℕ) (m m' : TaskManager) → SameArray m m' → Holds xs m → Holds xs m'
policy-Holds xs m m' (count, array) (held, same) =
    (count ∙ held, λ i l. ap (λ (f : ℕ → ℕ). f i) array ∙ same i l)

Reached-both : (xs : List ℕ) (m : TaskManager) → Reached xs m → IsValid m × Holds xs m
Reached-both xs m (new before) =
    (init-IsValid before, (unfold init in refl, λ i l. absurd (omega (arith, l))))
Reached-both xs m (adds ys before task runs) =
    let (valid, holds) = Reached-both ys before runs in
    (add_task-IsValid task before valid, add_task-Holds ys before task holds)
Reached-both xs m (ticks ys before policy cpu scheduler runs) =
    let (valid, holds) = Reached-both xs before runs in
    (
      policy-IsValid policy cpu before scheduler valid,
      policy-Holds xs before (policy cpu before).1 (policy-SameArray policy cpu before scheduler)
          holds,
    )

-- After any series of calls of a new task manager, of `addTask` and of the five schedulers in any
-- order and with any contexts, the array holds the tasks that were accepted in the order in which
-- they came, at most 256; the current task, if there is one, is one of them; and a further task is
-- accepted if there are fewer than 256.
pub Reached-Holds :
    (xs : List ℕ) (m : TaskManager) (task : ℕ)
    → Reached xs m
    → IsValid m
      × (m.num_tasks ≡ length xs)
      × ((i : ℕ) → i < length xs → m.tasks i ≡ get_or xs i 0)
      × ((add_task task m).0 ≡ ltb (length xs) 256)
unfolding add_task
Reached-Holds xs m task reached =
    let (valid, (count, same)) = Reached-both xs m reached in
    (
      valid,
      count,
      same,
      rw (← count) (elim (Bool-cases (ltb m.num_tasks 256)) [
        | inl fits ↦ rw fits refl
        | inr full ↦ rw full refl
      ]),
    )
