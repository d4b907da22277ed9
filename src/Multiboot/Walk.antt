-- ===== src/Multiboot/Walk.antt =====
-- The walk of `meminfo` over a memory map that is laid out in memory, and its two sums.
use blue_os.Base.{
  ℕ, zero, suc, ◌+◌, ◌%◌, ◌^◌, ◌<◌, ◌≤◌, ◌≡◌, refl, ap, ◌∙◌, Bool, ◌&&◌, some, List, [], ◌∷◌, arith,
  leb, lt→ltb, le→ltb, ◌==◌, if◌then◌else◌, length,
}
use blue_os.Base.Words.{u32, u64}
use blue_os.Screen.{Screen}
use blue_os.Multiboot.{MmapEntry, MultibootInfo, Entries, Totals, count, print_entry, walk}

-- A list of entries stands in memory from `p` to `limit`, each behind the one before it by its size
-- and the four bytes of the size itself.
abbrev pub Laid : Entries → (p limit : ℕ) → List MmapEntry → Type 0
Laid entries p limit [] = p ≡ limit
Laid entries p limit (e ∷ es) =
    (entries p ≡ e) × (p < limit) × Laid entries (p + e.size + 4) limit es

-- the lengths of the regions of a kind, added up
abbrev pub sum_of : (ℕ → Bool) → List MmapEntry → ℕ
sum_of kind [] = 0
sum_of kind (e ∷ es) = (if kind e.type_ then e.length else 0) + sum_of kind es

abbrev pub is_free : ℕ → Bool
is_free t = t == 1

abbrev pub is_used : ℕ → Bool
is_used t = leb 2 t && leb t 4

-- the screen behind the lines of the entries
unfoldable pub print_entries : List MmapEntry → Screen → Screen
print_entries [] s = s
print_entries (e ∷ es) s = print_entries es (print_entry e s)

count_each : List MmapEntry → Totals → Totals
count_each [] t = t
count_each (e ∷ es) t = count_each es (count e t)

Laid-end :
    (entries : Entries) (p limit : ℕ) (es : List MmapEntry) → Laid entries p limit es → p ≤ limit
Laid-end entries p limit [] l = omega arith
Laid-end entries p limit (e ∷ es) l = omega (arith, l.1)

walk-count_each :
    (entries : Entries) (info : MultibootInfo) (fuel p : ℕ) (es : List MmapEntry) (t : Totals)
    (s : Screen)
    → info.mmap_addr + info.mmap_length < 2 ^ 32
    → length es < fuel
    → Laid entries p (info.mmap_addr + info.mmap_length) es
    → walk fuel entries info p t s ≡ some (count_each es t, print_entries es s)
unfolding walk count_each print_entries
walk-count_each entries info zero p es t s small l laid = absurd (omega arith)
walk-count_each entries info (suc fuel) p [] t s small l laid =
    let whole : u32 (info.mmap_addr + info.mmap_length) ≡ info.mmap_addr + info.mmap_length =
      omega arith in
    let done = le→ltb p (info.mmap_addr + info.mmap_length) (omega arith) in rw (whole, done) refl
walk-count_each entries info (suc fuel) p (e ∷ es) t s small l (here, below, laid) =
    let whole : u32 (info.mmap_addr + info.mmap_length) ≡ info.mmap_addr + info.mmap_length =
      omega arith in
    let more = lt→ltb p (info.mmap_addr + info.mmap_length) below in
    let end = Laid-end entries (p + e.size + 4) (info.mmap_addr + info.mmap_length) es laid in
    let next : u32 (p + e.size + 4) ≡ p + e.size + 4 = omega arith in
    rw (whole, more, here, next)
      (walk-count_each entries info fuel (p + e.size + 4) es (count e t) (print_entry e s) small
        (omega arith) laid)

count_free :
    (e : MmapEntry) (t : Totals)
    → (count e t).free % 2 ^ 64 ≡ (t.free + (if is_free e.type_ then e.length else 0)) % 2 ^ 64
unfolding count
count_free e t = ground arith

count_used :
    (e : MmapEntry) (t : Totals)
    → (count e t).used % 2 ^ 64 ≡ (t.used + (if is_used e.type_ then e.length else 0)) % 2 ^ 64
unfolding count
count_used e t = ground arith

count-small :
    (e : MmapEntry) (t : Totals)
    → t.free < 2 ^ 64
    → t.used < 2 ^ 64
    → ((count e t).free < 2 ^ 64) × ((count e t).used < 2 ^ 64)
unfolding count
count-small e t a b = ground arith

count_each-sum_of :
    (es : List MmapEntry) (t : Totals)
    → t.free < 2 ^ 64
    → t.used < 2 ^ 64
    → ((count_each es t).free ≡ u64 (t.free + sum_of is_free es))
      × ((count_each es t).used ≡ u64 (t.used + sum_of is_used es))
unfolding count_each
count_each-sum_of [] t a b = omega arith
count_each-sum_of (e ∷ es) t a b =
    let (a', b') = count-small e t a b in
    let (free, used) = count_each-sum_of es (count e t) a' b' in
    (omega (arith, free, count_free e t), omega (arith, used, count_used e t))

-- Over a map that is laid out below 2^32, the walk returns, with as much fuel as there are entries
-- and one more: it prints every entry once, in order, and its sums are, as 64-bit numbers, those of
-- the lengths of the free regions, and of the regions of types 2 to 4.
pub walk-sum_of :
    (entries : Entries) (info : MultibootInfo) (fuel : ℕ) (es : List MmapEntry) (s : Screen)
    → info.mmap_addr + info.mmap_length < 2 ^ 32
    → length es < fuel
    → Laid entries info.mmap_addr (info.mmap_addr + info.mmap_length) es
    → walk fuel entries info info.mmap_addr (record { free = 0; used = 0 }) s
      ≡ some (
        record { free = u64 (sum_of is_free es); used = u64 (sum_of is_used es) },
        print_entries es s,
      )
walk-sum_of entries info fuel es s small l laid =
    let zeros : Totals = record { free = 0; used = 0 } in
    let (free, used) = count_each-sum_of es zeros (omega arith) (omega arith) in
    let f : (count_each es zeros).free ≡ u64 (sum_of is_free es) = omega (arith, free) in
    let u : (count_each es zeros).used ≡ u64 (sum_of is_used es) = omega (arith, used) in
    walk-count_each entries info fuel info.mmap_addr es zeros s small l laid
    ∙ ap
        (λ (v : ℕ).
          some (record { free = v; used = (count_each es zeros).used }, print_entries es s))
        f
    ∙ ap (λ (v : ℕ). some (record { free = u64 (sum_of is_free es); used = v }, print_entries es s))
        u
