-- ===== src/Multiboot/Report.antt =====
-- The table that `meminfo` prints, with the numbers of its summary as decimal texts.
use blue_os.Base.{
  ℕ, ◌+◌, ◌-◌, ◌/◌, ◌^◌, ◌<◌, ◌≡◌, ◌≢◌, refl, ap, ◌∙◌, some, List, [], ◌∷◌, arith, Bool-cases, inl,
  inr, ◌==◌, ==_iff, length,
}
use blue_os.Base.Options.{>>=-some}
use blue_os.Base.Texts.{codes}
use blue_os.Base.Words.{u32, u64}
use blue_os.Screen.{Screen, print, print_dec}
use blue_os.Screen.Numbers.{read_dec, AllDigits, print_dec-digits, print_each-print}
use blue_os.Multiboot.{
  MmapEntry, MultibootInfo, Entries, Totals, walk, kernel_size, print_known, print_summary, meminfo,
}
use blue_os.Multiboot.Walk.{Laid, sum_of, is_free, is_used, print_entries, walk-sum_of}

-- A text of decimal digits that stands for a number.
pub record IsDecimal (n : ℕ) (ds : List ℕ) : Type 0 where
  pub digits : AllDigits ds
  pub value : read_dec 0 ds ≡ n

print_dec-IsDecimal :
    (n : ℕ) (s : Screen)
    → n < 2 ^ 32
    → (ds : List ℕ) × (print_dec n s ≡ some (print ds s)) × IsDecimal n ds
print_dec-IsDecimal n s h = elim (Bool-cases (n == 0)) [
  | inl e ↦
      (let z : n ≡ 0 = (==_iff n 0).0 e in
        (
          b'0' ∷ [],
          unfold print_dec in rw e refl,
          record { digits = omega arith; value = omega arith },
        ))
  | inr e ↦
      (let ne : n ≢ 0 = ground arith in
        let (ds, out, value, few, digits) = print_dec-digits n s h ne in
        (
          ds,
          out ∙ ap some (print_each-print ds s digits),
          record { digits = digits; value = value },
        ))
]

-- a line of the summary: a label, a number, its unit
abbrev line : (label number : List ℕ) → Screen → Screen
line label number s = print (codes " KB\n") (print number (print label s))

-- the summary, with its three numbers as texts
abbrev pub summary : (kernel free used : List ℕ) → Screen → Screen
summary kernel free used s =
    print (codes "========================================================\n") (
      line (codes "Used/Reserved: ") used (
        line (codes "Free Memory: ") free (
          line (codes "Kernel Size: ") kernel
            (print (codes "--------------------------------------------------------\n") s))))

print_summary-summary :
    (kernel_start kernel_end : ℕ) (t : Totals) (s : Screen)
    → (kernel : List ℕ) × ((free : List ℕ) × ((used : List ℕ) × (print_summary kernel_start
              kernel_end t s
            ≡ some (summary kernel free used s))
          × IsDecimal (u32 (kernel_size kernel_start kernel_end)) kernel
          × IsDecimal (u32 (t.free / 1024)) free
          × IsDecimal (u32 (t.used / 1024)) used))
unfolding print_summary
print_summary-summary kernel_start kernel_end t s =
    let s1 : Screen =
      print (codes "--------------------------------------------------------\n") s in
    let (kernel, out1, k) =
      print_dec-IsDecimal (u32 (kernel_size kernel_start kernel_end))
        (print (codes "Kernel Size: ") s1) (omega arith) in
    let s2 : Screen = line (codes "Kernel Size: ") kernel s1 in
    let (free, out2, f) =
      print_dec-IsDecimal (u32 (t.free / 1024)) (print (codes "Free Memory: ") s2) (omega arith) in
    let s3 : Screen = line (codes "Free Memory: ") free s2 in
    let (used, out3, u) =
      print_dec-IsDecimal (u32 (t.used / 1024)) (print (codes "Used/Reserved: ") s3)
        (omega arith) in
    (
      kernel,
      (
        free,
        (
          used,
          >>=-some
              (print_dec (u32 (kernel_size kernel_start kernel_end))
                (print (codes "Kernel Size: ") s1))
              _ out1
              (>>=-some (print_dec (u32 (t.free / 1024)) (print (codes "Free Memory: ") s2)) _ out2
                (>>=-some (print_dec (u32 (t.used / 1024)) (print (codes "Used/Reserved: ") s3)) _
                  out3 refl)),
          k,
          f,
          u,
        ),
      ),
    )

-- Over a map that is laid out below 2^32, `meminfo` returns, with as much fuel as there are entries
-- and one more. It prints the known regions, then each entry once, in order, and then a summary
-- whose numbers are decimal texts: a 4096th of the kernel's bytes, and the free and the used KB, as
-- 32-bit numbers, of the 64-bit sums over the free regions and over those of types 2 to 4.
pub meminfo-summary :
    (fuel : ℕ) (entries : Entries) (kernel_start kernel_end : ℕ) (info : MultibootInfo)
    (es : List MmapEntry) (s : Screen)
    → info.mmap_addr + info.mmap_length < 2 ^ 32
    → length es < fuel
    → Laid entries info.mmap_addr (info.mmap_addr + info.mmap_length) es
    → kernel_end < 2 ^ 32
    → (kernel : List ℕ) × ((free : List ℕ) × ((used : List ℕ) × (meminfo fuel entries kernel_start
              kernel_end info s
            ≡ some (
                summary kernel free used
                  (print_entries es (print_known kernel_start kernel_end s))))
          × IsDecimal ((kernel_end - kernel_start) / 4096) kernel
          × IsDecimal (u32 (u64 (sum_of is_free es) / 1024)) free
          × IsDecimal (u32 (u64 (sum_of is_used es) / 1024)) used))
unfolding meminfo
meminfo-summary fuel entries kernel_start kernel_end info es s small l laid end =
    let first : Screen = print_known kernel_start kernel_end s in
    let t : Totals = record { free = u64 (sum_of is_free es); used = u64 (sum_of is_used es) } in
    let (kernel, (free, (used, out, k, f, u))) =
      print_summary-summary kernel_start kernel_end t (print_entries es first) in
    let words : u32 (kernel_size kernel_start kernel_end) ≡ (kernel_end - kernel_start) / 4096 =
      unfold kernel_size in omega arith in
    (
      kernel,
      (
        free,
        (
          used,
          >>=-some (walk fuel entries info info.mmap_addr (record { free = 0; used = 0 }) first) _
              (walk-sum_of entries info fuel es first small l laid) out,
          record { digits = k.digits; value = k.value ∙ words },
          f,
          u,
        ),
      ),
    )
