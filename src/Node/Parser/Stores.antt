-- ===== src/Node/Parser/Stores.antt =====
-- What a sequence of writes, each under its own key from 1 on, leaves in an array.
use distributed_process.Base.{
  Every, ℕ, ◌-◌, ◌<◌, ◌≡◌, ◌≢◌, ◌∙◌, refl, sym, ap, subst, inl, inr, List, [], ◌∷◌, length,
  length-set, get_or, set, get_or-set_self, get_or-set_ne, ◌==◌, Bool-cases, arith,
}
use distributed_process.Node.Clock.Deliverable.{InRange}
use distributed_process.Node.Parser.Rendered.{DistinctBy}

module _ {L E : Type 0} (key : L → ℕ) (value : L → E → E) (blank : E) where
  abbrev pub store : L → List E → List E
  store l xs = set xs (key l - 1) (value l (get_or xs (key l - 1) blank))

  abbrev pub stores : List L → List E → List E
  stores [] xs = xs
  stores (l ∷ ls) xs = stores ls (store l xs)

  pub length-stores : (ls : List L) (xs : List E) → length (stores ls xs) ≡ length xs
  length-stores [] xs = refl
  length-stores (l ∷ ls) xs = length-stores ls (store l xs) ∙ length-set xs (key l - 1) _

  stores-other :
      (n k : ℕ) (ls : List L) (xs : List E)
      → 0 < k
      → Every (λ l. InRange n (key l)) ls
      → Every (λ l. k ≢ key l) ls
      → get_or (stores ls xs) (k - 1) blank ≡ get_or xs (k - 1) blank
  stores-other n k [] xs pos real ne = refl
  stores-other n k (l ∷ ls) xs pos real ne =
      stores-other n k ls (store l xs) pos real.1 ne.1
      ∙ get_or-set_ne xs (key l - 1) (k - 1) _ blank (λ e. ne.0 (omega (arith, e, real.0.0)))

  abbrev Blank : List E → L → Type 0
  Blank xs l = get_or xs (key l - 1) blank ≡ blank

  Blank-store :
      (n : ℕ) (l : L) (ls : List L) (xs : List E)
      → 0 < key l
      → Every (λ l'. InRange n (key l')) ls
      → Every (λ l'. key l ≢ key l') ls
      → Every (Blank xs) ls
      → Every (Blank (store l xs)) ls
  Blank-store n l [] xs pos real ne b = tt
  Blank-store n l (m ∷ ls) xs pos real ne b = (
    get_or-set_ne xs (key l - 1) (key m - 1) _ blank (λ e. ne.0 (omega (arith, e, pos, real.0.0)))
        ∙ b.0,
    Blank-store n l ls xs pos real.1 ne.1 b.1,
  )

  -- Under each key that occurs there is its value.
  pub stores-found :
      (ls : List L) (xs : List E)
      → Every (λ l. InRange (length xs) (key l)) ls
      → DistinctBy key ls
      → Every (Blank xs) ls
      → Every (λ l. get_or (stores ls xs) (key l - 1) blank ≡ value l blank) ls
  stores-found [] xs real apart b = tt
  stores-found (l ∷ ls) xs real apart b = (
    stores-other (length xs) (key l) ls (store l xs) real.0.0 real.1 apart.0
        ∙ get_or-set_self xs (key l - 1) _ blank (omega (arith, real.0))
        ∙ ap (value l) b.0,
    stores-found ls (store l xs)
        (subst (λ k. Every (λ l. InRange k (key l)) ls) (sym (length-set xs (key l - 1) _)) real.1)
        apart.1 (Blank-store (length xs) l ls xs real.0.0 real.1 apart.0 b.1),
  )

  -- What holds of every entry and of every value that is stored still holds of every entry.
  pub stores-all :
      (Q : E → Type 0) (ls : List L) (xs : List E)
      → Every (λ l. InRange (length xs) (key l)) ls
      → DistinctBy key ls
      → Every (Blank xs) ls
      → Every (λ l. Q (value l blank)) ls
      → ((i : ℕ) → Q (get_or xs i blank))
      → (i : ℕ) → Q (get_or (stores ls xs) i blank)
  stores-all Q [] xs real apart b h all = all
  stores-all Q (l ∷ ls) xs real apart b h all =
      stores-all Q ls (store l xs)
        (subst (λ k. Every (λ l. InRange k (key l)) ls) (sym (length-set xs (key l - 1) _)) real.1)
        apart.1 (Blank-store (length xs) l ls xs real.0.0 real.1 apart.0 b.1) h.1
        (λ i. elim (Bool-cases (key l - 1 == i)) [
          | inl same ↦
              let here : key l - 1 ≡ i = ground (arith, same) in
              subst Q
                (sym (
                  ap (λ k. get_or (store l xs) k blank) (sym here)
                  ∙ get_or-set_self xs (key l - 1) _ blank (omega (arith, real.0))
                  ∙ ap (value l) b.0))
                h.0
          | inr differs ↦
              let other : key l - 1 ≢ i = ground (arith, differs) in
              subst Q (sym (get_or-set_ne xs (key l - 1) i _ blank other)) (all i)
        ])
