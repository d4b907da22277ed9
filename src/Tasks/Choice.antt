-- ===== src/Tasks/Choice.antt =====
-- The loops of multitasking.cpp that choose a task: which one they find.
use blue_os.Base.{
  ℕ, zero, suc, ◌+◌, ◌-◌, ◌≤◌, ◌<◌, ◌≡◌, inl, inr, ◌&&◌, Option, none, some, arith, ltb,
  if◌then◌else◌, Bool-cases, ltb→lt, ltb→le, below_step,
}
use blue_os.Tasks.{TaskManager, task_at, sjf_better, sjf_best, least}

-- `b` is the first index below `n` with the least key.
pub record IsFirstLeast (key : ℕ → ℕ) (n b : ℕ) : Type 0 where
  pub in_range : b < n
  pub is_least : (j : ℕ) → j < n → key b ≤ key j
  pub is_first : (j : ℕ) → j < b → key b < key j

least_step :
    (key : ℕ → ℕ) (i best : ℕ)
    → IsFirstLeast key i best
    → IsFirstLeast key (i + 1) (if ltb (key i) (key best) then i else best)
least_step key i best v = elim (Bool-cases (ltb (key i) (key best))) [
  | inl t ↦
      (let less : key i < key best = ltb→lt _ _ t in
        rw t (record {
          in_range = omega arith;
          is_least =
              below_step (λ j. key i ≤ key j) i (λ j h. omega (arith, v.is_least j h))
                (omega arith);
          is_first = λ j h. omega (arith, v.is_least j h);
        }))
  | inr t ↦
      (let more : key best ≤ key i = ltb→le _ _ t in
        rw t (record {
          in_range = omega (arith, v.in_range);
          is_least = below_step (λ j. key best ≤ key j) i v.is_least more;
          is_first = v.is_first;
        }))
]

pub least-IsFirstLeast :
    (key : ℕ → ℕ) (k i n best : ℕ)
    → i + k ≡ n
    → IsFirstLeast key i best
    → IsFirstLeast key n (least key k i best)
unfolding least
least-IsFirstLeast key zero i n best e v = let e' : i ≡ n = omega arith in rw (← e') v
least-IsFirstLeast key (suc k) i n best e v =
    least-IsFirstLeast key k (i + 1) n _ (omega arith) (least_step key i best v)

-- The code starts at task 0 and looks at the others.
pub least_lem : (key : ℕ → ℕ) (n : ℕ) → 0 < n → IsFirstLeast key n (least key (n - 1) 1 0)
least_lem key n h = least-IsFirstLeast key (n - 1) 1 n 0 (omega arith) (record {
  in_range = omega arith;
  is_least = below_step (λ j. key 0 ≤ key j) 0 (λ j l. elim l [ ]) (omega arith);
  is_first = λ j l. elim l [ ];
})

-- Task `b`, below `n`, has time left, and the shortest burst of those that do; it is the first such.
pub record IsFirstShortest (m : TaskManager) (n b : ℕ) : Type 0 where
  pub in_range : b < n
  pub unfinished : 0 < (task_at m b).remaining_time
  pub is_shortest :
      (j : ℕ)
      → j < n
      → 0 < (task_at m j).remaining_time
      → (task_at m b).burst_time ≤ (task_at m j).burst_time
  pub is_first :
      (j : ℕ)
      → j < b
      → 0 < (task_at m j).remaining_time
      → (task_at m b).burst_time < (task_at m j).burst_time

-- What `sjf` looks for among the tasks below `n`; there may be none with time left.
abbrev pub Shortest : TaskManager → ℕ → Option ℕ → Type 0
Shortest m n none = (j : ℕ) → j < n → (task_at m j).remaining_time ≡ 0
Shortest m n (some b) = IsFirstShortest m n b

min_step :
    (m : TaskManager) (i : ℕ) (best : Option ℕ)
    → Shortest m i best
    → Shortest m
        (i + 1)
        (if ltb 0 (task_at m i).remaining_time && sjf_better m best i then some i else best)
unfolding sjf_better
min_step m i none v = elim (Bool-cases (ltb 0 (task_at m i).remaining_time)) [
  | inl t ↦ rw t (first_found (ltb→lt _ _ t))
  | inr t ↦
      rw t (below_step (λ j. (task_at m j).remaining_time ≡ 0) i v (omega (arith, ltb→le _ _ t)))
]
  where
    first_found : 0 < (task_at m i).remaining_time → IsFirstShortest m (i + 1) i
    first_found left = record {
      in_range = omega arith;
      unfinished = left;
      is_shortest =
          below_step
            (λ j.
              0 < (task_at m j).remaining_time
              → (task_at m i).burst_time ≤ (task_at m j).burst_time)
            i (λ j h l. absurd (omega (arith, v j h))) (λ _. omega arith);
      is_first = λ j h l. absurd (omega (arith, v j h));
    }
min_step m i (some b) v = elim (Bool-cases (ltb 0 (task_at m i).remaining_time)) [
  | inl t ↦ rw t (elim (Bool-cases (ltb (task_at m i).burst_time (task_at m b).burst_time)) [
    | inl u ↦ rw u (replaced (ltb→lt _ _ t) (ltb→lt _ _ u))
    | inr u ↦ rw u (kept (λ _. ltb→le _ _ u))
  ])
  | inr t ↦ rw t (kept (λ l. absurd (omega (arith, ltb→le _ _ t))))
]
  where
    replaced :
        0 < (task_at m i).remaining_time
        → (task_at m i).burst_time < (task_at m b).burst_time
        → IsFirstShortest m (i + 1) i
    replaced left less = record {
      in_range = omega arith;
      unfinished = left;
      is_shortest =
          below_step
            (λ j.
              0 < (task_at m j).remaining_time
              → (task_at m i).burst_time ≤ (task_at m j).burst_time)
            i (λ j h l. omega (arith, v.is_shortest j h l)) (λ _. omega arith);
      is_first = λ j h l. omega (arith, v.is_shortest j h l);
    }

    kept :
        (0 < (task_at m i).remaining_time → (task_at m b).burst_time ≤ (task_at m i).burst_time)
        → IsFirstShortest m (i + 1) b
    kept more = record {
      in_range = omega (arith, v.in_range);
      unfinished = v.unfinished;
      is_shortest =
          below_step
            (λ j.
              0 < (task_at m j).remaining_time
              → (task_at m b).burst_time ≤ (task_at m j).burst_time)
            i v.is_shortest more;
      is_first = v.is_first;
    }

sjf_best-Shortest_from :
    (m : TaskManager) (k i n : ℕ) (best : Option ℕ)
    → i + k ≡ n
    → Shortest m i best
    → Shortest m n (sjf_best m k i best)
unfolding sjf_best
sjf_best-Shortest_from m zero i n best e v = let e' : i ≡ n = omega arith in rw (← e') v
sjf_best-Shortest_from m (suc k) i n best e v =
    sjf_best-Shortest_from m k (i + 1) n _ (omega arith) (min_step m i best v)

pub sjf_best-Shortest : (m : TaskManager) (n : ℕ) → Shortest m n (sjf_best m n 0 none)
sjf_best-Shortest m n = sjf_best-Shortest_from m n 0 n none (omega arith) (λ j l. elim l [ ])
