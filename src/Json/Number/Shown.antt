-- ===== src/Json/Number/Shown.antt =====
-- `int` reads back what `str` prints.
use mathlib.Core.Path.{subst}
use agent_wake.Prelude.{
  ℕ, zero, suc, ◌+◌, ◌-◌, ◌*◌, ◌/◌, ◌%◌, ◌≤◌, ◌≡◌, refl, sym, ◌∙◌, ap, true, false, some, List, [],
  ◌∷◌, ◌++◌, arith, inl, inr, Bool-cases, ltb, eqb, All, All-append,
}
use agent_wake.Json.{ℤ, pos, negsuc}
use agent_wake.Json.Number.{
  is_blank, is_digit, read_digits, skip_blanks, read_signed, read_int, digits, show_int,
}

-- the number that digits stand for, behind those that have been read
abbrev value : ℕ → List ℕ → ℕ
value n [] = n
value n (c ∷ s) = value (n * 10 + (c - 48)) s

value-append : (n : ℕ) (s : List ℕ) (c : ℕ) → value n (s ++ c ∷ []) ≡ value n s * 10 + (c - 48)
value-append n [] c = refl
value-append n (d ∷ s) c = value-append (n * 10 + (d - 48)) s c

read_digits-value :
    (n : ℕ) (s : List ℕ) → All (λ c. is_digit c ≡ true) s → read_digits n true s ≡ some (value n s)
unfolding read_digits
read_digits-value n [] h = refl
read_digits-value n (c ∷ s) h = rw h.0 (read_digits-value (n * 10 + (c - 48)) s h.1)

read_digits-front :
    (c : ℕ) (s : List ℕ)
    → is_digit c ≡ true
    → All (λ d. is_digit d ≡ true) s
    → read_digits 0 false (c ∷ s) ≡ some (value 0 (c ∷ s))
unfolding read_digits
read_digits-front c s h hs = rw h (read_digits-value (0 * 10 + (c - 48)) s hs)

last_digit : (n : ℕ) → is_digit (48 + n % 10) ≡ true
last_digit n = ground arith

pub digits-IsDigit : (fuel n : ℕ) → All (λ c. is_digit c ≡ true) (digits fuel n)
unfolding digits
digits-IsDigit zero n = (last_digit n, tt)
digits-IsDigit (suc fuel) n = elim (Bool-cases (ltb n 10)) [
  | inl y ↦ rw y (last_digit n, tt)
  | inr m ↦ rw m (
      All-append (λ c. is_digit c ≡ true) (digits fuel (n / 10)) _ (digits-IsDigit fuel (n / 10))
        (last_digit n, tt))
]

value-digits : (fuel n : ℕ) → n ≤ fuel → value 0 (digits fuel n) ≡ n
unfolding digits
value-digits zero n h = omega arith
value-digits (suc fuel) n h = elim (Bool-cases (ltb n 10)) [
  | inl y ↦ rw y (ground arith)
  | inr m ↦ rw m (
      value-append 0 (digits fuel (n / 10)) (48 + n % 10)
      ∙ rw (value-digits fuel (n / 10) (ground arith)) (omega arith))
]

-- there is a digit
pub digits-front : (fuel n : ℕ) → (c : ℕ) × (s : List ℕ) × (digits fuel n ≡ c ∷ s)
unfolding digits
digits-front zero n = (48 + n % 10, [], refl)
digits-front (suc fuel) n = elim (Bool-cases (ltb n 10)) [
  | inl y ↦ (48 + n % 10, [], rw y refl)
  | inr m ↦
      let (c, s, e) = digits-front fuel (n / 10) in (c, s ++ (48 + n % 10) ∷ [], rw (m, e) refl)
]

-- what a digit is not
not_blank : (c : ℕ) → is_digit c ≡ true → is_blank c ≡ false
not_blank c h = ground arith

not_sign : (c : ℕ) → is_digit c ≡ true → (eqb c 45 ≡ false) × (eqb c 43 ≡ false)
not_sign c h = (ground arith, ground arith)

read_int-unsigned :
    (c : ℕ) (s : List ℕ) {n : ℕ}
    → is_digit c ≡ true
    → read_digits 0 false (c ∷ s) ≡ some n
    → read_int (c ∷ s) ≡ some (pos n)
unfolding read_int skip_blanks read_signed
read_int-unsigned c s h e = rw (not_blank c h, (not_sign c h).0, (not_sign c h).1, e) refl

module _ (n : ℕ) where
  read_digits-digits : read_digits 0 false (digits n n) ≡ some n
  read_digits-digits =
      let (c, s, e) = digits-front n n in
      let (d, ds) = subst (All (λ c. is_digit c ≡ true)) e (digits-IsDigit n n) in
      ap (read_digits 0 false) e
      ∙ read_digits-front c s d ds
      ∙ ap some (ap (value 0) (sym e) ∙ value-digits n n (omega arith))

  read_int-digits : read_int (digits n n) ≡ some (pos n)
  read_int-digits =
      let (c, s, e) = digits-front n n in
      let (d, ds) = subst (All (λ c. is_digit c ≡ true)) e (digits-IsDigit n n) in
      ap read_int e
      ∙ read_int-unsigned c s d (ap (read_digits 0 false) (sym e) ∙ read_digits-digits)

pub read_int-show_int : (n : ℤ) → read_int (show_int n) ≡ some n
unfolding read_int skip_blanks read_signed show_int
read_int-show_int (pos n) = read_int-digits n
read_int-show_int (negsuc n) = rw (read_digits-digits (suc n)) refl
