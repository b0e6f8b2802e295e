-- ===== src/Text/Words.antt =====
-- `strtok` and `fgets` on words, and on lines of words.
use distributed_process.Base.{
  ℕ, zero, suc, ◌+◌, ◌/◌, ◌%◌, ◌<◌, ◌≡◌, ◌≢◌, ◌∙◌, refl, ap, inl, inr, false, some, List, [], ◌∷◌,
  ◌++◌, append-nil, append_assoc, length, ltb, ◌==◌, Bool-cases, arith,
}
use distributed_process.Log.{digits, decimal}
use distributed_process.Text.{flush, split, tokens, take_line, c_text, fgets}

-- The byte `b` does not occur.
abbrev pub Avoids : ℕ → List ℕ → Type 0
Avoids b [] = Unit
Avoids b (c ∷ cs) = ((c == b) ≡ false) × Avoids b cs

pub Avoids-append : (b : ℕ) (xs ys : List ℕ) → Avoids b xs → Avoids b ys → Avoids b (xs ++ ys)
Avoids-append b [] ys h k = k
Avoids-append b (x ∷ xs) ys (h, hs) k = (h, Avoids-append b xs ys hs k)

Avoids-digits : (b fuel n : ℕ) → b < 48 → Avoids b (digits fuel n)
unfolding digits
Avoids-digits b zero n h = tt
Avoids-digits b (suc fuel) n h = elim (Bool-cases (ltb n 10)) [
  | inl small ↦ rw small (ground arith, tt)
  | inr large ↦ rw large (
      Avoids-append b (digits fuel (n / 10)) ((48 + n % 10) ∷ []) (Avoids-digits b fuel (n / 10) h)
        (ground arith, tt))
]

pub Avoids-decimal : (b n : ℕ) → b < 48 → Avoids b (decimal n)
unfolding decimal
Avoids-decimal b n h = Avoids-digits b 10 n h

-- A word that a space ends, and one that the text ends.
split-space :
    (w t rest : List ℕ) → Avoids 32 w → split t (w ++ (32 ∷ rest)) ≡ flush (t ++ w) (split [] rest)
unfolding split
split-space [] t rest h = rw append-nil
split-space (c ∷ cs) t rest (h, hs) =
    rw (h, split)
      (split-space cs (t ++ (c ∷ [])) rest hs
        ∙ ap (λ x. flush x (split [] rest)) (append_assoc t (c ∷ []) cs))

split-end : (w t : List ℕ) → Avoids 32 w → split t w ≡ flush (t ++ w) []
unfolding split
split-end [] t h = rw append-nil
split-end (c ∷ cs) t (h, hs) =
    rw (h, split)
      (split-end cs (t ++ (c ∷ [])) hs ∙ ap (λ x. flush x []) (append_assoc t (c ∷ []) cs))

flush-word : (w : List ℕ) (ts : List (List ℕ)) → w ≢ [] → flush w ts ≡ w ∷ ts
flush-word [] ts ne = absurd (ne refl)
flush-word (c ∷ cs) ts ne = refl

pub tokens-space :
    (w rest : List ℕ) → Avoids 32 w → w ≢ [] → tokens (w ++ (32 ∷ rest)) ≡ w ∷ tokens rest
tokens-space w rest h ne = split-space w [] rest h ∙ flush-word w (split [] rest) ne

pub tokens-end : (w : List ℕ) → Avoids 32 w → w ≢ [] → tokens w ≡ w ∷ []
tokens-end w h ne = split-end w [] h ∙ flush-word w [] ne

take_line-line :
    (n : ℕ) (l rest : List ℕ)
    → Avoids 10 l
    → length l < n
    → take_line n (l ++ (10 ∷ rest)) ≡ (l ++ (10 ∷ []), rest)
unfolding take_line
take_line-line zero l rest h short = absurd (omega arith)
take_line-line (suc n) [] rest h short = refl
take_line-line (suc n) (c ∷ cs) rest (h, hs) short =
    rw (h, take_line, take_line-line n cs rest hs (omega arith))

c_text-whole : (l : List ℕ) → Avoids 0 l → c_text l ≡ l
unfolding c_text
c_text-whole [] h = refl
c_text-whole (c ∷ cs) (h, hs) = rw (h, c_text, c_text-whole cs hs)

fgets-cons :
    (n : ℕ) (s l rest : List ℕ)
    → s ≢ []
    → take_line n s ≡ (l, rest)
    → fgets n s ≡ some (c_text l, rest)
unfolding fgets
fgets-cons n [] l rest ne e = absurd (ne refl)
fgets-cons n (c ∷ cs) l rest ne e = rw e

append-cons_filled : (l rest : List ℕ) (c : ℕ) → l ++ (c ∷ rest) ≢ []
append-cons_filled [] rest c = λ e. cc
append-cons_filled (x ∷ l) rest c = λ e. cc

-- A line that fits is read whole, with its newline.
pub fgets-line :
    (n : ℕ) (l rest : List ℕ)
    → Avoids 10 l
    → Avoids 0 l
    → length l < n
    → fgets n (l ++ (10 ∷ rest)) ≡ some (l ++ (10 ∷ []), rest)
fgets-line n l rest lines nuls short =
    fgets-cons n (l ++ (10 ∷ rest)) (l ++ (10 ∷ [])) rest (append-cons_filled l rest 10)
      (take_line-line n l rest lines short)
    ∙ ap (λ t. some (t, rest))
        (c_text-whole (l ++ (10 ∷ [])) (Avoids-append 0 l (10 ∷ []) nuls (refl, tt)))
