-- ===== src/Screen/Strings.antt =====
-- Texts that print.cpp prints whole, one after the other.
use mathlib.Core.Bool.{true≢false}
use blue_os.Base.{
  joined, ℕ, zero, suc, ◌+◌, ◌%◌, ◌≡◌, ◌≢◌, refl, sym, ap, ◌∙◌, Bool, true, not, ◌&&◌, List, [],
  ◌∷◌, ◌++◌, arith, bit_and, ◌==◌, ==_iff, ==_ne, Bool-cases, inl, inr, all_below, all_below-at,
}
use blue_os.Base.Words.{and_0x0f, ◌>>>◌}
use blue_os.Screen.{Screen, print, print_char, hex_digit, hex8}

-- no character ends the text
abbrev pub AllNonzero : List ℕ → Type 0
AllNonzero [] = Unit {0}
AllNonzero (c ∷ cs) = (c ≢ 0) × AllNonzero cs

pub print-append :
    (xs ys : List ℕ) (s : Screen) → AllNonzero xs → print (xs ++ ys) s ≡ print ys (print xs s)
unfolding print
print-append [] ys s h = refl
print-append (x ∷ xs) ys s (h, hs) = rw (==_ne x 0 h) (print-append xs ys (print_char x s) hs)

hex_digit-nonzero_table : all_below 16 (λ d. not (hex_digit d == 0)) ≡ true
unfolding all_below hex_digit
hex_digit-nonzero_table = refl

pub hex_digit-nonzero : (k : ℕ) → hex_digit (bit_and k 0x0f) ≢ 0
hex_digit-nonzero k e =
    let row =
      all_below-at 16 (λ d. not (hex_digit d == 0)) (k % 16) hex_digit-nonzero_table
        (omega arith) in
    let zero_test : (hex_digit (k % 16) == 0) ≡ true =
      (==_iff (hex_digit (k % 16)) 0).1 (ap hex_digit (sym (and_0x0f k)) ∙ e) in
    cc

pub hex8-AllNonzero : (key : ℕ) → AllNonzero (hex8 key)
unfolding hex8
hex8-AllNonzero key = (hex_digit-nonzero (key >>> 4), (hex_digit-nonzero key, tt))

pub AllNonzero-append : (xs ys : List ℕ) → AllNonzero xs → AllNonzero ys → AllNonzero (xs ++ ys)
AllNonzero-append [] ys h g = g
AllNonzero-append (x ∷ xs) ys (h, hs) g = (h, AllNonzero-append xs ys hs g)

-- the test of the same, for texts that are written out
abbrev pub all_nonzero : List ℕ → Bool
all_nonzero [] = true
all_nonzero (c ∷ cs) = not (c == 0) && all_nonzero cs

pub all_nonzero-AllNonzero : (cs : List ℕ) → all_nonzero cs ≡ true → AllNonzero cs
all_nonzero-AllNonzero [] h = tt
all_nonzero-AllNonzero (c ∷ cs) h = elim (Bool-cases (c == 0)) [
  | inl z ↦ absurd (true≢false (sym h ∙ rw z refl))
  | inr z ↦ (λ e. true≢false (sym ((==_iff c 0).1 e) ∙ z), all_nonzero-AllNonzero cs (rw z at h))
]

pub joined-AllNonzero :
    (k i : ℕ) (f : ℕ → List ℕ) → ((j : ℕ) → AllNonzero (f j)) → AllNonzero (joined k i f)
joined-AllNonzero zero i f h = tt
joined-AllNonzero (suc k) i f h =
    AllNonzero-append (f i) (joined k (i + 1) f) (h i) (joined-AllNonzero k (i + 1) f h)

-- several texts, printed one after the other, and as one text
abbrev pub print_texts : List (List ℕ) → Screen → Screen
print_texts [] s = s
print_texts (cs ∷ texts) s = print_texts texts (print cs s)

abbrev pub concat : List (List ℕ) → List ℕ
concat [] = []
concat (cs ∷ texts) = cs ++ concat texts

abbrev pub AreAllNonzero : List (List ℕ) → Type 0
AreAllNonzero [] = Unit {0}
AreAllNonzero (cs ∷ texts) = AllNonzero cs × AreAllNonzero texts

pub concat-AllNonzero : (texts : List (List ℕ)) → AreAllNonzero texts → AllNonzero (concat texts)
concat-AllNonzero [] h = tt
concat-AllNonzero (cs ∷ texts) (h, hs) =
    AllNonzero-append cs (concat texts) h (concat-AllNonzero texts hs)

pub print-concat :
    (texts : List (List ℕ)) (s : Screen)
    → AreAllNonzero texts
    → print (concat texts) s ≡ print_texts texts s
print-concat [] s h = unfold print in refl
print-concat (cs ∷ texts) s (h, hs) =
    print-append cs (concat texts) s h ∙ print-concat texts (print cs s) hs
