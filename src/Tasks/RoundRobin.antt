-- ===== src/Tasks/RoundRobin.antt =====
-- `schedule` of multitasking.cpp, the round robin: the order of the tasks, and that the context of a
-- task comes back when its turn does.
use native.Mathlib.Nat.{mod-add-mod, mod-lt, mod-eq_of_lt, mod-eq-sub-mod}
use mathlib.Core.Path.{subst}
use native.Mathlib.Decide.{dec_lt}
use blue_os.Base.{
  ℕ, suc, ◌+◌, ◌-◌, ◌%◌, ◌<◌, ◌≡◌, ◌≢◌, refl, Option, some, List, [], ◌∷◌, arith, ==_ne, length, ap,
  ◌∙◌, sym,
}
use blue_os.Tasks.{Task, TaskManager, task_at, save, save_current, next_index, switch_to, schedule}

-- A series of timer interrupts, each with the context that it saves: the last context resumed, and
-- the manager after it.
abbrev pub run : ℕ → List ℕ → TaskManager → ℕ × TaskManager
run cpu [] m = schedule cpu m
run cpu (next ∷ rest) m = run next rest (schedule cpu m).1

-- The tasks in the array are different objects.
abbrev pub Distinct : TaskManager → Type 0
Distinct m = (i j : ℕ) → i < m.num_tasks → j < m.num_tasks → m.tasks i ≡ m.tasks j → i ≡ j

save_current-some :
    (cpu c : ℕ) (m : TaskManager) → m.current_task ≡ some c → save_current cpu m ≡ save c cpu m
unfolding save_current
save_current-some cpu c m e = ground (arith, e)

schedule-eq :
    (cpu c : ℕ) (m : TaskManager)
    → m.current_task ≡ some c
    → 0 < m.num_tasks
    → schedule cpu m ≡ switch_to ((c + 1) % m.num_tasks) (save c cpu m)
unfolding schedule save
schedule-eq cpu c m e h =
    rw (==_ne m.num_tasks 0 (omega arith), save_current-some cpu c m e)
      (ap (λ (o : Option ℕ). switch_to (next_index o m.num_tasks) (save c cpu m)) e)

-- From task `c`, `schedule` makes the next task in the array, round from the last to the first, the
-- current one, and resumes its context; the context it is given becomes that of task `c`, and the
-- contexts of the other tasks stay.
pub schedule_lem :
    (cpu c : ℕ) (m : TaskManager)
    → m.current_task ≡ some c
    → c < m.num_tasks
    → Distinct m
    → let (out, m') = schedule cpu m in
      (m'.current_task ≡ some ((c + 1) % m.num_tasks))
      × (out ≡ (task_at m' ((c + 1) % m.num_tasks)).cpustate)
      × ((task_at m' c).cpustate ≡ cpu)
      × ((i : ℕ) → i < m.num_tasks → i ≢ c → task_at m' i ≡ task_at m i)
      × (m'.num_tasks ≡ m.num_tasks)
      × (m'.tasks ≡ m.tasks)
unfolding switch_to save
schedule_lem cpu c m e h apart = rw (schedule-eq cpu c m e (omega arith)) (
  refl,
  refl,
  ground arith,
  λ i l ne. rw (==_ne (m.tasks i) (m.tasks c) (λ p. ne (apart i c l h p))),
  refl,
  refl,
)

-- One step of the walk round the array, in arithmetic.
next-mod : (d k n : ℕ) → ((d + 1) % n + k) % n ≡ (d + suc k) % n
next-mod d k n = mod-add-mod (d + 1) n k ∙ ap (λ (t : ℕ). t % n) (omega arith)

away : (d k n c : ℕ) → d < n → 0 < k → k < n → (d + k) % n ≡ c → c ≢ d
away d k n c hd hk hn e = elim (dec_lt (d + k) n) [
  | yes l ↦ omega (arith, mod-eq_of_lt l)
  | no g ↦ omega (
    arith,
    mod-eq-sub-mod {n = d + k} {m = n} (omega arith),
    mod-eq_of_lt {n = d + k - n} {m = n} (omega arith),
  )
]

once_round : (c n : ℕ) → c < n → (c + n) % n ≡ c
once_round c n h = grind arith

Distinct-same :
    (m m' : TaskManager)
    → m'.num_tasks ≡ m.num_tasks
    → m'.tasks ≡ m.tasks
    → Distinct m
    → Distinct m'
Distinct-same m m' count array apart i j hi hj p =
    apart i j (omega (arith, count)) (omega (arith, count))
      (subst (λ (f : ℕ → ℕ). f i ≡ f j) array p)

-- While the walk from `d` has not come back to `c`, the context of `c` is kept; when it has, that
-- context is resumed.
kept :
    (xs : List ℕ) (cpu d c : ℕ) (m : TaskManager)
    → m.current_task ≡ some d
    → d < m.num_tasks
    → Distinct m
    → suc (length xs) < m.num_tasks
    → (d + suc (length xs)) % m.num_tasks ≡ c
    → (run cpu xs m).0 ≡ (task_at m c).cpustate
kept [] cpu d c m e h apart short back =
    let (now, out, saved, same, count, array) = schedule_lem cpu d m e h apart in
    let c_in : c < m.num_tasks =
      subst (λ (i : ℕ). i < m.num_tasks) back (mod-lt (d + 1) (omega arith)) in
    out
    ∙ ap (λ (i : ℕ). (task_at (schedule cpu m).1 i).cpustate) back
    ∙ ap (λ (t : Task). t.cpustate)
        (same c c_in (away d 1 m.num_tasks c h (omega arith) short back))
kept (x ∷ xs) cpu d c m e h apart short back =
    let (now, out, saved, same, count, array) = schedule_lem cpu d m e h apart in
    let n = m.num_tasks in
    let m1 = (schedule cpu m).1 in
    let c_in : c < n =
      subst (λ (i : ℕ). i < n) back (mod-lt (d + suc (suc (length xs))) (omega arith)) in
    let d' : ℕ = (d + 1) % n in
    let d'_in : d' < n = mod-lt (d + 1) (omega arith) in
    kept xs x d' c m1 now (omega arith) (Distinct-same m m1 count array apart) (omega arith)
      (ap (λ (k : ℕ). (d' + suc (length xs)) % k) count ∙ next-mod d (suc (length xs)) n ∙ back)
    ∙ ap (λ (t : Task). t.cpustate)
        (same c c_in (away d (suc (suc (length xs))) n c h (omega arith) short back))

-- In a round robin over different tasks, the context that a timer interrupt saves for the current
-- task is the one that is resumed when, after as many interrupts as there are tasks, its turn comes
-- again, whatever contexts the interrupts between save for the other tasks.
pub run-resumes :
    (cpu c : ℕ) (xs : List ℕ) (m : TaskManager)
    → m.current_task ≡ some c
    → c < m.num_tasks
    → Distinct m
    → suc (length xs) ≡ m.num_tasks
    → (run cpu xs m).0 ≡ cpu
run-resumes cpu c [] m e h apart all =
    let (now, out, saved, same, count, array) = schedule_lem cpu c m e h apart in
    let back : (c + 1) % m.num_tasks ≡ c =
      subst (λ (k : ℕ). (c + k) % m.num_tasks ≡ c) (sym all) (once_round c m.num_tasks h) in
    out ∙ ap (λ (i : ℕ). (task_at (schedule cpu m).1 i).cpustate) back ∙ saved
run-resumes cpu c (x ∷ xs) m e h apart all =
    let (now, out, saved, same, count, array) = schedule_lem cpu c m e h apart in
    let n = m.num_tasks in
    let m1 = (schedule cpu m).1 in
    let d : ℕ = (c + 1) % n in
    let d_in : d < n = mod-lt (c + 1) (omega arith) in
    let back : (d + suc (length xs)) % m1.num_tasks ≡ c =
      ap (λ (k : ℕ). (d + suc (length xs)) % k) count
      ∙ next-mod c (suc (length xs)) n
      ∙ subst (λ (k : ℕ). (c + k) % n ≡ c) (sym all) (once_round c n h) in
    kept xs x d c m1 now (omega (arith, count)) (Distinct-same m m1 count array apart)
      (omega (arith, count)) back
    ∙ saved

-- Over different tasks, after a series of k + 1 timer interrupts from task c, task (c + k + 1)
-- % num_tasks is the current one.
run-order :
    (cpu c : ℕ) (xs : List ℕ) (m : TaskManager)
    → m.current_task ≡ some c
    → c < m.num_tasks
    → Distinct m
    → (run cpu xs m).1.current_task ≡ some ((c + suc (length xs)) % m.num_tasks)
run-order cpu c [] m e h apart = (schedule_lem cpu c m e h apart).0
run-order cpu c (x ∷ xs) m e h apart =
    let (now, out, saved, same, count, array) = schedule_lem cpu c m e h apart in
    let n = m.num_tasks in
    let d : ℕ = (c + 1) % n in
    let d_in : d < n = mod-lt (c + 1) (omega arith) in
    run-order x d xs (schedule cpu m).1 now (omega (arith, count))
      (Distinct-same m (schedule cpu m).1 count array apart)
    ∙ ap (λ (k : ℕ). some ((d + suc (length xs)) % k)) count
    ∙ ap some (next-mod c (suc (length xs)) n)
