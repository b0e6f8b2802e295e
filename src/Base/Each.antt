-- ===== src/Base/Each.antt =====
-- What holds of each element of a list.
use mathlib.Core.List.{List, [], ◌∷◌}
use mathlib.Core.Path.{◌≡◌, sym, subst}
use mathlib.Core.Logic.{◌⊎◌, inl, inr}

abbrev pub Every : {L : Type 0} → (L → Type 0) → List L → Type 0
Every P [] = Unit
Every P (l ∷ ls) = P l × Every P ls

pub Every-map :
    {L : Type 0} {P Q : L → Type 0}
    → ((l : L) → P l → Q l)
    → (ls : List L) → Every P ls
    → Every Q ls
Every-map f [] h = tt
Every-map f (l ∷ ls) (h, hs) = (f l h, Every-map f ls hs)

pub Every-both :
    {L : Type 0} (P Q : L → Type 0) (ls : List L)
    → Every P ls
    → Every Q ls
    → Every (λ l. P l × Q l) ls
Every-both P Q [] h k = tt
Every-both P Q (l ∷ ls) (h, hs) (k, ks) = ((h, k), Every-both P Q ls hs ks)

pub Every-all : {L : Type 0} {P : L → Type 0} → ((l : L) → P l) → (ls : List L) → Every P ls
Every-all f [] = tt
Every-all f (l ∷ ls) = (f l, Every-all f ls)

-- The list has the element.
abbrev pub Has : {L : Type 0} → L → List L → Type 0
Has l [] = ⊥
Has l (x ∷ xs) = (l ≡ x) ⊎ Has l xs

pub Every-Has : {L : Type 0} (P : L → Type 0) (l : L) (ls : List L) → Every P ls → Has l ls → P l
Every-Has P l [] h m = elim m [ ]
Every-Has P l (x ∷ xs) h (inl e) = subst P (sym e) (h.0)
Every-Has P l (x ∷ xs) h (inr m) = Every-Has P l xs (h.1) m
