-- ===== src/Node/Parser/Lines.antt =====
-- The lines of a membership file, as src/parser.c reads them.
use distributed_process.Base.{
  Every, ℕ, zero, suc, ◌^◌, ◌<◌, ◌≡◌, ◌≢◌, ◌∙◌, refl, sym, ap, false, List, [], ◌∷◌, ◌++◌,
  append-nil, append_assoc, length, ◌==◌, ErrorCode, arith, done, Prog, Ok, and_then-step,
}
use distributed_process.Log.{decimal}
use distributed_process.Text.{tokens}
use distributed_process.Text.Numbers.{NoDigit, atoi-decimal, decimal-filled}
use distributed_process.Text.Words.{
  Avoids-append, Avoids-decimal, tokens-space, tokens-end, fgets-line,
}
use distributed_process.Node.{NetData}
use distributed_process.Node.Parser.{number, positive_number, parse_lines}
use distributed_process.Node.Parser.Rendered.{deps_text, lines_text, Fits}

module _ {T L : Type 0} (after : L → T → T) where
  abbrev pub after_all : List L → T → T
  after_all [] t = t
  after_all (l ∷ ls) t = after_all ls (after l t)

  pub after_all-keeps :
      (Good : L → Type 0) (Inv : T → Type 0) (ls : List L) (t : T)
      → ((l : L) (t : T) → Good l → Inv t → Inv (after l t))
      → Every Good ls
      → Inv t
      → Inv (after_all ls t)
  after_all-keeps Good Inv [] t keep good inv = inv
  after_all-keeps Good Inv (l ∷ ls) t keep good inv =
      after_all-keeps Good Inv ls (after l t) keep good.1 (keep l t good.0 inv)

-- The loop over lines, where the body makes of the part `t` of the process that `put` sets the part
-- `after l t`.
module _ {A T L : Type 0} (f : List (List ℕ) → Prog (NetData A) Ok) (put : T → NetData A)
    (text : L → List ℕ) (after : L → T → T) (Good : L → Type 0) (Inv : T → Type 0)
    (fits : (l : L) → Good l → Fits (text l))
    (step : (l : L) (t : T)
      → Good l
      → Inv t
      → f (tokens (text l ++ (10 ∷ []))) (put t) ≡ done tt (put (after l t)))
    (keep : (l : L) (t : T) → Good l → Inv t → Inv (after l t)) where
  pub parse_lines-text :
      (n : ℕ) (ls : List L) (rest : List ℕ) (t : T)
      → length ls ≡ n
      → Every Good ls
      → Inv t
      → parse_lines f n (lines_text text ls rest) (put t) ≡ done rest (put (after_all after ls t))
  unfolding parse_lines
  parse_lines-text zero [] rest t e good inv = refl
  parse_lines-text (suc n) [] rest t e good inv = absurd (omega (arith, e))
  parse_lines-text zero (l ∷ ls) rest t e good inv = absurd (omega (arith, e))
  parse_lines-text (suc n) (l ∷ ls) rest t e good inv =
      let fit = fits l good.0 in
      rw
        (fgets-line 31 (text l) (lines_text text ls rest) fit.lines fit.nuls fit.short, parse_lines)
        (and_then-step _ (λ _. parse_lines f n (lines_text text ls rest)) (step l t good.0 inv)
          ∙ parse_lines-text n ls rest (after l t) (omega (arith, e)) good.1 (keep l t good.0 inv))

module _ {A : Type 0} where
  -- A positive number that the text holds.
  pub positive_number-decimal :
      (e : ErrorCode) (n : ℕ) (rest : List ℕ) (d : NetData A)
      → 0 < n
      → n < 2 ^ 31
      → NoDigit rest
      → positive_number e (decimal n ++ rest) d ≡ done n d
  positive_number-decimal e n rest d pos small stop =
      let more : (n == 0) ≡ false = ground arith in
      rw (positive_number, number, atoi-decimal n rest small stop, more)

  pub positive_number-whole :
      (e : ErrorCode) (n : ℕ) (d : NetData A)
      → 0 < n
      → n < 2 ^ 31
      → positive_number e (decimal n) d ≡ done n d
  positive_number-whole e n d pos small =
      ap (λ t. positive_number e t d) (sym (append-nil (decimal n)))
      ∙ positive_number-decimal e n [] d pos small tt

  pub number-decimal :
      (n : ℕ) (rest : List ℕ) (d : NetData A)
      → n < 2 ^ 31
      → NoDigit rest
      → number (decimal n ++ rest) d ≡ done n d
  number-decimal n rest d small stop = rw (number, atoi-decimal n rest small stop)

-- The tokens of the numbers of a line, the first of which is `p`.
abbrev pub number_tokens : ℕ → List ℕ → List (List ℕ)
number_tokens p [] = (decimal p ++ (10 ∷ [])) ∷ []
number_tokens p (q ∷ qs) = (decimal p ++ []) ∷ number_tokens q qs

pub append-filled : (xs ys : List ℕ) → xs ≢ [] → xs ++ ys ≢ []
append-filled [] ys h = absurd (h refl)
append-filled (x ∷ xs) ys h = λ e. cc

pub tokens-numbers :
    (p : ℕ) (ps : List ℕ) → tokens ((decimal p ++ deps_text ps) ++ (10 ∷ [])) ≡ number_tokens p ps
tokens-numbers p [] =
    ap (λ t. tokens (t ++ (10 ∷ []))) (append-nil (decimal p))
    ∙ tokens-end (decimal p ++ (10 ∷ []))
        (Avoids-append 32 (decimal p) (10 ∷ []) (Avoids-decimal 32 p (omega arith)) (refl, tt))
        (append-filled (decimal p) (10 ∷ []) (decimal-filled p))
tokens-numbers p (q ∷ qs) =
    ap tokens (append_assoc (decimal p) (deps_text (q ∷ qs)) (10 ∷ []))
    ∙ tokens-space (decimal p) ((decimal q ++ deps_text qs) ++ (10 ∷ []))
        (Avoids-decimal 32 p (omega arith)) (decimal-filled p)
    ∙ ap (λ t. decimal p ∷ t) (tokens-numbers q qs)
    ∙ ap (λ t. t ∷ number_tokens q qs) (sym (append-nil (decimal p)))
