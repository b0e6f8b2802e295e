-- ===== src/Text/Numbers.antt =====
-- `atoi` on the decimal text of a number.
use native.Mathlib.Decide.{dec_lt}
use distributed_process.Base.{
  ℕ, zero, suc, ◌+◌, ◌*◌, ◌/◌, ◌%◌, ◌^◌, ◌<◌, ◌≡◌, ◌≢◌, ◌∙◌, refl, sym, ap, inl, inr, true, false,
  some, List, [], ◌∷◌, ◌++◌, append_assoc, ltb, ◌==◌, Bool-cases, arith,
}
use distributed_process.Log.{digits, decimal}
use distributed_process.Text.{is_space, is_digit, skip_space, read_digits, signed, read_sign, atoi}

-- The text that follows does not start with a digit.
abbrev pub NoDigit : List ℕ → Type 0
NoDigit [] = Unit
NoDigit (c ∷ cs) = is_digit c ≡ false

-- `n` has at most `fuel` digits.
abbrev pub HasDigits : ℕ → ℕ → Type 0
HasDigits zero n = n ≡ 0
HasDigits (suc fuel) n = HasDigits fuel (n / 10)

read_digit :
    (m k : ℕ) (rest : List ℕ)
    → k < 10
    → read_digits m ((48 + k) ∷ rest) ≡ read_digits (10 * m + k) rest
unfolding read_digits
read_digit m k rest h =
    let is : is_digit (48 + k) ≡ true = ground arith in
    rw (is, read_digits) (ap (λ n. read_digits n rest) (omega arith))

read_digits-stop : (n : ℕ) (rest : List ℕ) → NoDigit rest → read_digits n rest ≡ n
unfolding read_digits
read_digits-stop n [] h = refl
read_digits-stop n (c ∷ cs) h = rw (h, read_digits)

read_digits-digits :
    (fuel n : ℕ) (rest : List ℕ)
    → HasDigits fuel n
    → read_digits 0 (digits fuel n ++ rest) ≡ read_digits n rest
unfolding digits
read_digits-digits zero n rest h = ap (λ k. read_digits k rest) (omega (arith, h))
read_digits-digits (suc fuel) n rest h = elim (Bool-cases (ltb n 10)) [
  | inl small ↦
      rw small (read_digit 0 n rest (ground arith) ∙ ap (λ k. read_digits k rest) (omega arith))
  | inr large ↦
      rw (large, append_assoc)
        (read_digits-digits fuel (n / 10) ((48 + n % 10) ∷ rest) h
          ∙ read_digit (n / 10) (n % 10) rest (omega arith)
          ∙ ap (λ k. read_digits k rest) (omega arith))
]

digits-small : (fuel n : ℕ) → ltb n 10 ≡ true → digits (suc fuel) n ≡ (48 + n) ∷ []
unfolding digits
digits-small fuel n h = rw h

digits-large :
    (fuel n : ℕ)
    → ltb n 10 ≡ false
    → digits (suc fuel) n ≡ digits fuel (n / 10) ++ ((48 + n % 10) ∷ [])
unfolding digits
digits-large fuel n h = rw h

-- A number starts with a digit.
digits-cons :
    (fuel n : ℕ) (rest : List ℕ)
    → 0 < fuel
    → (c : ℕ) × (cs : List ℕ) × (digits fuel n ++ rest ≡ c ∷ cs) × (is_digit c ≡ true)
digits-cons zero n rest pos = absurd (omega arith)
digits-cons (suc fuel) n rest pos = elim (Bool-cases (ltb n 10)) [
  | inl small ↦ (48 + n, rest, rw (digits-small fuel n small), ground arith)
  | inr large ↦ elim (dec_lt 0 fuel) [
    | yes more ↦
        let (c, cs, e, digit) = digits-cons fuel (n / 10) ((48 + n % 10) ∷ rest) more in
        (c, cs, rw (digits-large fuel n large, append_assoc) e, digit)
    | no last ↦
        let empty : fuel ≡ 0 = omega arith in
        (
          48 + n % 10,
          rest,
          rw (digits-large fuel n large, empty) (unfold digits in refl),
          ground arith,
        )
  ]
]

atoi_digit :
    (c : ℕ) (cs : List ℕ)
    → is_digit c ≡ true
    → atoi (c ∷ cs) ≡ signed false (read_digits 0 (c ∷ cs))
unfolding atoi skip_space read_sign
atoi_digit c cs h =
    let word : is_space c ≡ false = ground arith in
    let plain : (c == b'-') ≡ false = ground arith in
    let plain' : (c == b'+') ≡ false = ground arith in rw (word, plain, plain')

-- `atoi` reads the decimal text of an `int` back, whatever follows it but a digit.
pub atoi-decimal :
    (n : ℕ) (rest : List ℕ) → n < 2 ^ 31 → NoDigit rest → atoi (decimal n ++ rest) ≡ some n
unfolding decimal
atoi-decimal n rest small stop =
    let (c, cs, e, digit) = digits-cons 10 n rest (omega arith) in
    let fits : ltb n (2 ^ 31) ≡ true = ground arith in
    ap atoi e
    ∙ atoi_digit c cs digit
    ∙ ap (λ s. signed false (read_digits 0 s)) (sym e)
    ∙ ap (signed false) (read_digits-digits 10 n rest (omega arith) ∙ read_digits-stop n rest stop)
    ∙ rw fits

pub decimal-filled : (n : ℕ) → decimal n ≢ []
unfolding decimal
decimal-filled n =
    let (c, cs, e, digit) = digits-cons 10 n [] (omega arith) in
    let none : digits 10 n ++ [] ≢ [] = λ x. cc in λ empty. none (ap (λ t. t ++ []) empty)
