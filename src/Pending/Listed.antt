-- ===== src/Pending/Listed.antt =====
-- The doubly linked lists of src/pending.c: which clocks a list holds, in their order.
use distributed_process.Base.{
  ◌≡◌, ◌≢◌, ◌∙◌, refl, sym, ap, true, false, Option, some, List, [], ◌∷◌, ◌++◌, ◌==◌, arith,
}
use mathlib.Core.Option
use distributed_process.Message.{VecClock}
use distributed_process.Pending.{Ptr, VecNode, Heap, write}

-- A node of a list: where it stands, and its clock.
pub record Cell : Type 0 where
  pub at : Ptr
  pub clock : VecClock

-- From `p` on, behind `before`, the heap holds these cells, linked both ways, up to the last.
abbrev pub IsSeg : Heap → Ptr → Ptr → List Cell → Ptr → Type 0
IsSeg h before p [] last = (p ≡ 0) × (before ≡ last)
IsSeg h before p (c ∷ cs) last =
    (c.at ≡ p)
    × (p ≢ 0)
    × (next : Ptr) × (h p ≡ some (record { clock = c.clock; next = next; previous = before }))
    × IsSeg h p next cs last

-- No cell stands at `p`.
abbrev pub Apart : Ptr → List Cell → Type 0
Apart p [] = Unit
Apart p (c ∷ cs) = (p ≢ c.at) × Apart p cs

abbrev pub AllApart : List Cell → Type 0
AllApart [] = Unit
AllApart (c ∷ cs) = Apart c.at cs × AllApart cs

pub write_same : (h : Heap) (p : Ptr) (n : Option VecNode) → write h p n p ≡ n
write_same h p n = let same : (p == p) ≡ true = ground arith in rw same

pub write_other : (h : Heap) (p q : Ptr) (n : Option VecNode) → q ≢ p → write h p n q ≡ h q
write_other h p q n ne = let other : (q == p) ≡ false = ground (arith, ne) in rw other

-- The last node of a list that is not empty has no next, and stands at one of its cells.
pub IsSeg-last :
    (h : Heap) (before p last : Ptr) (c : Cell) (cs : List Cell)
    → IsSeg h before p (c ∷ cs) last
    → (n : VecNode) × (h last ≡ some n)
      × (n.next ≡ 0)
      × (last ≢ 0)
      × ((q : Ptr) → Apart q (c ∷ cs) → q ≢ last)
IsSeg-last h before p last c [] (at, ne, next, found, (end, here)) = (
  record { clock = c.clock; next = next; previous = before },
  ap h (sym here) ∙ found,
  end,
  λ e. ne (here ∙ e),
  λ q apart e. apart.0 (e ∙ sym here ∙ sym at),
)
IsSeg-last h before p last c (c' ∷ cs) (at, ne, next, found, more) =
    let (n, e, end, real, other) = IsSeg-last h p next last c' cs more in
    (n, e, end, real, λ q apart. other q apart.1)

-- A new node behind the last one, which is made to point to it.
pub IsSeg-append :
    (h : Heap) (before p last q : Ptr) (clock : VecClock) (n : VecNode) (c : Cell) (cs : List Cell)
    → IsSeg h before p (c ∷ cs) last
    → AllApart (c ∷ cs)
    → Apart q (c ∷ cs)
    → q ≢ 0
    → h last ≡ some n
    → IsSeg
        (write
          (write h q (some (record { clock = clock; next = 0; previous = last })))
          last
          (some (record n { next = q })))
        before
        p
        ((c ∷ cs) ++ (record { at = q; clock = clock } ∷ []))
        q
IsSeg-append h before p last q clock n c [] (at, ne, next, found, (end, here)) apart fresh real e =
    let new : VecNode = record { clock = clock; next = 0; previous = last } in
    let node : VecNode = record { clock = c.clock; next = next; previous = before } in
    let differs : q ≢ last = λ x. fresh.0 (x ∙ sym here ∙ sym at) in
    let links : Option VecNode → Option VecNode =
      Option.map (λ (m : VecNode). record m { next = q }) in
    let h₁ = write h q (some new) in
    (
      at,
      ne,
      q,
      ap (write h₁ last (some (record n { next = q }))) here
          ∙ write_same h₁ last (some (record n { next = q }))
          ∙ ap links (sym e ∙ ap h (sym here) ∙ found),
      (
        refl,
        real,
        0,
        write_other h₁ last q (some (record n { next = q })) differs
            ∙ write_same h q (some new)
            ∙ ap (λ k. some (record { clock = clock; next = 0; previous = k })) (sym here),
        (refl, refl),
      ),
    )
IsSeg-append h before p last q clock n c (c' ∷ cs) (at, ne, next, found, more) apart fresh real e =
    let new : VecNode = record { clock = clock; next = 0; previous = last } in
    let (_, _, _, _, other) = IsSeg-last h p next last c' cs more in
    (
      at,
      ne,
      next,
      write_other (write h q (some new)) last p _ (λ x. other c.at apart.0 (at ∙ x))
          ∙ write_other h q p _ (λ x. fresh.0 (sym x ∙ sym at))
          ∙ found,
      IsSeg-append h p next last q clock n c' cs more apart.1 fresh.1 real e,
    )

-- A write where no cell stands.
pub IsSeg-write :
    (h : Heap) (q : Ptr) (n : Option VecNode) (before p last : Ptr) (cs : List Cell)
    → IsSeg h before p cs last
    → Apart q cs
    → IsSeg (write h q n) before p cs last
IsSeg-write h q n before p last [] s apart = s
IsSeg-write h q n before p last (c ∷ cs) (at, ne, next, found, more) (differs, apart) = (
  at,
  ne,
  next,
  write_other h q p n (λ e. differs (sym e ∙ sym at)) ∙ found,
  IsSeg-write h q n p next last cs more apart,
)
