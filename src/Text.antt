-- ===== src/Text.antt =====
-- What src/parser.c uses of the C library on text: `fgets`, `strtok` with a space, and `atoi`. Text
-- is a list of bytes.
pub mod Numbers
pub mod Words
use distributed_process.Base.{
  ℕ, zero, suc, ◌+◌, ◌-◌, ◌*◌, ◌^◌, ◌%◌, ◌≤◌, ◌<◌, Bool, true, false, ◌&&◌, ◌||◌, Option, none,
  some, List, [], ◌∷◌, ◌++◌, ltb, leb, ◌==◌, if◌then◌else◌, u64,
}

abbrev pub is_space : ℕ → Bool
is_space c = (c == 32) || (leb 9 c && leb c 13)

abbrev pub is_digit : ℕ → Bool
is_digit c = leb 48 c && leb c 57

pub skip_space : List ℕ → List ℕ
skip_space [] = []
skip_space (c ∷ cs) = let more = skip_space cs in if is_space c then more else c ∷ cs

-- The digits at the front, behind digits that gave `n`.
pub read_digits : ℕ → List ℕ → ℕ
read_digits n [] = n
read_digits n (c ∷ cs) = elim (is_digit c) [ true ↦ read_digits (10 * n + (c - 48)) cs | false ↦ n ]

-- The value behind a sign, as a `size_t`; `none` where an `int` cannot hold it and C defines
-- nothing.
abbrev pub signed : Bool → ℕ → Option ℕ
signed minus n =
    if minus
    then (if leb n (2 ^ 31) then some (u64 (2 ^ 64 - n)) else none)
    else if ltb n (2 ^ 31)
    then some n
    else none

pub read_sign : List ℕ → Option ℕ
read_sign [] = some 0
read_sign (c ∷ cs) =
    if c == b'-'
    then signed true (read_digits 0 cs)
    else if c == b'+'
    then signed false (read_digits 0 cs)
    else signed false (read_digits 0 (c ∷ cs))

pub atoi : List ℕ → Option ℕ
unfolding skip_space read_digits read_sign
atoi s = read_sign (skip_space s)

-- The tokens that calls of `strtok` with a space return until NULL, behind the start `t` of one.
abbrev pub flush : List ℕ → List (List ℕ) → List (List ℕ)
flush [] ts = ts
flush (c ∷ t) ts = (c ∷ t) ∷ ts

pub split : List ℕ → List ℕ → List (List ℕ)
split t [] = flush t []
split t (c ∷ cs) = elim (c == 32) [
  | true ↦ flush t (split [] cs)
  | false ↦ split (t ++ (c ∷ [])) cs
]

abbrev pub tokens : List ℕ → List (List ℕ)
tokens s = split [] s

-- At most `n` bytes, up to a newline, and what follows.
pub take_line : ℕ → List ℕ → List ℕ × List ℕ
take_line zero s = ([], s)
take_line (suc n) [] = ([], [])
take_line (suc n) (c ∷ cs) = elim (c == 10) [
  | true ↦ (c ∷ [], cs)
  | false ↦ let (l, rest) = take_line n cs in (c ∷ l, rest)
]

-- The string that starts a buffer.
pub c_text : List ℕ → List ℕ
c_text [] = []
c_text (c ∷ cs) = elim (c == 0) [ true ↦ [] | false ↦ c ∷ c_text cs ]

-- `fgets` into a buffer of `n + 1` bytes: the string that is read, and what is left of the file;
-- `none` at the end.
pub fgets : ℕ → List ℕ → Option (List ℕ × List ℕ)
unfolding take_line c_text
fgets n [] = none
fgets n (c ∷ cs) = let (l, rest) = take_line n (c ∷ cs) in some (c_text l, rest)
