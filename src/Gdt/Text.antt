-- ===== src/Gdt/Text.antt =====
-- What `printd` of gdt.cpp writes.
use blue_os.Base.{
  ℕ, zero, suc, ◌+◌, ◌*◌, ◌<◌, ◌≤◌, ◌≡◌, refl, ◌∙◌, List, [], ◌∷◌, arith, ==_ne, lt→ltb, update,
  update_self, update_ne, length, get_or, bit_or,
}
use blue_os.Base.Bits.{bit_or-fields}
use blue_os.Base.Words.{u16}
use blue_os.Screen.{widen}
use blue_os.Screen.Line.{IsPlain, AllPlain}
use blue_os.Gdt.{Printd, printd_char, printd}

cell-ascii : (c : ℕ) → c < 128 → u16 (bit_or 0x0700 (widen c)) ≡ 0x0700 + c
cell-ascii c h = rw (lt→ltb c 128 h, bit_or-fields 8 7 c (omega arith)) (omega arith)

printd_char-plain :
    (c : ℕ) (s : Printd)
    → IsPlain c
    → printd_char c s
      ≡ record s { video = update s.video (s.row * 80 + s.col) (0x0700 + c); col = s.col + 1 }
unfolding printd_char
printd_char-plain c s p = rw (==_ne c 10 p.not_newline, cell-ascii c p.ascii) refl

-- A text stands in one run of cells from the cursor on, in grey on black, and nothing else differs.
pub record Appears (cs : List ℕ) (s t : Printd) : Type 0 where
  pub row : t.row ≡ s.row
  pub column : t.col ≡ s.col + length cs
  pub text : (j : ℕ) → j < length cs → t.video (s.row * 80 + s.col + j) ≡ 0x0700 + get_or cs j 0
  pub before : (i : ℕ) → i < s.row * 80 + s.col → t.video i ≡ s.video i
  pub behind : (i : ℕ) → s.row * 80 + s.col + length cs ≤ i → t.video i ≡ s.video i

abbrev typed : ℕ → Printd → Printd
typed c s = record s { video = update s.video (s.row * 80 + s.col) (0x0700 + c); col = s.col + 1 }

Appears-cons :
    (c : ℕ) (cs : List ℕ) (s t : Printd) → Appears cs (typed c s) t → Appears (c ∷ cs) s t
Appears-cons c cs s t w = record {
  row = w.row;
  column = omega (arith, w.column);
  text = text_at;
  before = λ i h. w.before i (omega arith) ∙ update_ne s.video _ i _ (omega arith);
  behind = λ i h. w.behind i (omega arith) ∙ update_ne s.video _ i _ (omega arith);
}
  where
    text_at :
        (j : ℕ)
        → j < length (c ∷ cs)
        → t.video (s.row * 80 + s.col + j) ≡ 0x0700 + get_or (c ∷ cs) j 0
    text_at zero l =
        let here : s.row * 80 + s.col + 0 ≡ s.row * 80 + s.col = omega arith in
        rw here (w.before (s.row * 80 + s.col) (omega arith) ∙ update_self s.video _ _)
    text_at (suc j) l =
        let next : s.row * 80 + s.col + suc j ≡ s.row * 80 + (s.col + 1) + j = omega arith in
        rw next (w.text j (omega arith))

-- A text of ASCII characters, with no zero and no newline, appears in grey on black in one run of
-- cells from the cursor on; no other cell changes, and the cursor stays in its row, even where the
-- run goes beyond its 80 cells.
pub printd-Appears : (cs : List ℕ) (s : Printd) → AllPlain cs → Appears cs s (printd cs s)
unfolding printd
printd-Appears [] s p = record {
  row = refl;
  column = omega arith;
  text = λ j l. elim l [ ];
  before = λ i l. refl;
  behind = λ i l. refl;
}
printd-Appears (c ∷ cs) s p =
    rw (==_ne c 0 p.0.not_zero, printd_char-plain c s p.0)
      (Appears-cons c cs s (printd cs (typed c s)) (printd-Appears cs (typed c s) p.1))
