-- ===== src/Pending/Free.antt =====
-- The removal of the first node of a list of src/pending.c, and `free_veclist`.
use distributed_process.Base.{
  ℕ, zero, suc, ◌+◌, ◌-◌, ◌^◌, ◌<◌, ◌≡◌, ◌≢◌, ◌∙◌, refl, sym, ap, subst, Every, true, false, none,
  some, List, [], ◌∷◌, ◌==◌, length, u64, arith, done, and_then-step,
}
use distributed_process.Pending.{
  Ptr, VecNode, empty_list, Chain, write, unlink_front, unlink_back, remove_veclist, free_nodes,
  free_veclist,
}
use distributed_process.Pending.Listed.{
  Cell, Apart, IsSeg-last, IsSeg-write, write_same, write_other,
}
use distributed_process.Pending.Add.{Holds, load_found}

-- Every clock has an entry.
abbrev pub Filled : List Cell → Type 0
Filled [] = Unit
Filled (d ∷ ds) = (0 < length d.clock.vector) × Filled ds

-- The nodes of these cells are released, and no other is touched.
pub record Gone (cells : List Cell) (c c' : Chain) : Type 0 where
  pub released : Every (λ d. c'.heap d.at ≡ none) cells
  pub others : (q : Ptr) → Apart q cells → c'.heap q ≡ c.heap q

remove_head :
    (d : Cell) (ds : List Cell) (c : Chain)
    → Holds (d ∷ ds) c
    → 0 < length d.clock.vector
    → length (d ∷ ds) < 2 ^ 64
    → (c' : Chain) × (remove_veclist c.list.head c ≡ done tt c')
      × Holds ds c'
      × (c'.heap d.at ≡ none)
      × ((q : Ptr) → Apart q (d ∷ ds) → c'.heap q ≡ c.heap q)
unfolding remove_veclist unlink_front unlink_back
remove_head d [] c h filled room =
    let p = c.list.head in
    let (at, ne, next, found, (end, here)) = h.seg in
    let n : VecNode = record { clock = d.clock; next = next; previous = 0 } in
    let real : (p == 0) ≡ false = ground (arith, ne) in
    let some_entry : (length d.clock.vector == 0) ≡ false = ground (arith, filled) in
    let first : (p == p) ≡ true = ground arith in
    let last : (c.list.tail == p) ≡ true = ground (arith, here) in
    let c₁ : Chain = record c { list = record (c.list) { head = next } } in
    let e₁ : unlink_front p n c ≡ done tt c₁ = rw first in
    let e₂ : unlink_back p n c₁ ≡ done tt (record c₁ { list = record (c₁.list) { tail = 0 } }) =
      rw last in
    (
      record {
        heap = write c.heap p none;
        list = record { num_elems = u64 (c.list.num_elems + (2 ^ 64 - 1)); head = next; tail = 0 };
      },
      rw real (
          and_then-step _ _ (load_found p c n ne found)
          ∙ rw some_entry (and_then-step _ _ e₁ ∙ and_then-step _ _ e₂)),
      record { seg = (end, refl); apart = tt; size = omega (arith, h.size) },
      ap (write c.heap p none) at ∙ write_same c.heap p none,
      λ q a. write_other c.heap p q none (λ e. a.0 (e ∙ sym at)),
    )
remove_head d (d' ∷ ds) c h filled room =
    let p = c.list.head in
    let (at, ne, next, found, (at', ne', next', found', more)) = h.seg in
    let (_, _, _, _, other) =
      IsSeg-last c.heap p next c.list.tail d' ds (at', ne', next', found', more) in
    let n : VecNode = record { clock = d.clock; next = next; previous = 0 } in
    let after : VecNode = record { clock = d'.clock; next = next'; previous = p } in
    let real : (p == 0) ≡ false = ground (arith, ne) in
    let some_entry : (length d.clock.vector == 0) ≡ false = ground (arith, filled) in
    let first : (p == p) ≡ true = ground arith in
    let differs : p ≢ c.list.tail = λ e. other d.at h.apart.0 (at ∙ e) in
    let not_last : (c.list.tail == p) ≡ false = ground (arith, differs) in
    let h₁ = write c.heap next (some (record after { previous = 0 })) in
    let c₁ : Chain = record c { list = record (c.list) { head = next } } in
    let e₁ : unlink_front p n c ≡ done tt c₁ = rw first in
    let e₂ : unlink_back p n c₁ ≡ done tt (record c₁ { heap = h₁ }) =
      rw not_last (and_then-step _ _ (load_found next c₁ after ne' found')) in
    let apart_p : Apart p (d' ∷ ds) = subst (λ q. Apart q (d' ∷ ds)) at h.apart.0 in
    let apart_next : Apart next ds = subst (λ q. Apart q ds) at' h.apart.1.0 in
    (
      record {
        heap = write h₁ p none;
        list = record (c.list) { num_elems = u64 (c.list.num_elems + (2 ^ 64 - 1)); head = next };
      },
      rw real (
          and_then-step _ _ (load_found p c n ne found)
          ∙ rw some_entry (and_then-step _ _ e₁ ∙ and_then-step _ _ e₂)),
      record {
        seg =
            IsSeg-write h₁ p none 0 next c.list.tail (d' ∷ ds)
              (
                at',
                ne',
                next',
                write_same c.heap next _,
                IsSeg-write c.heap next _ next next' c.list.tail ds more apart_next,
              )
              apart_p;
        apart = h.apart.1;
        size = omega (arith, h.size, room);
      },
      ap (write h₁ p none) at ∙ write_same h₁ p none,
      λ q a.
          write_other h₁ p q none (λ e. a.0 (e ∙ sym at))
          ∙ write_other c.heap next q _ (λ e. a.1.0 (e ∙ sym at')),
    )

free_nodes_lem :
    (fuel : ℕ) (cells : List Cell) (c : Chain)
    → Holds cells c
    → Filled cells
    → length cells < 2 ^ 64
    → length cells < fuel
    → (c' : Chain) × (free_nodes fuel c.list.head c ≡ done tt c') × Holds [] c' × Gone cells c c'
unfolding free_nodes
free_nodes_lem zero cells c h f room enough = absurd (omega (arith, enough))
free_nodes_lem (suc fuel) [] c h f room enough =
    let end : (c.list.head == 0) ≡ true = ground (arith, h.seg.0) in
    (c, rw end, h, record { released = tt; others = λ q a. refl })
free_nodes_lem (suc fuel) (d ∷ ds) c h f room enough =
    let real : (c.list.head == 0) ≡ false = ground (arith, h.seg.1) in
    let (c₁, e, h₁, gone, others) = remove_head d ds c h f.0 room in
    let (c', e', h', g) =
      free_nodes_lem fuel ds c₁ h₁ f.1 (omega (arith, room)) (omega (arith, enough)) in
    (
      c',
      rw real (and_then-step _ _ e ∙ e'),
      h',
      record {
        released = (g.others d.at h.apart.0 ∙ gone, g.released);
        others = λ q a. g.others q a.1 ∙ others q a;
      },
    )

-- On a list that holds clocks with an entry each, `free_veclist` releases every node of the list,
-- touches no other node, and returns 0 with an empty list, where its loop has one round for each node
-- and one more, and the nodes are fewer than 2 ^ 64.
pub free_veclist_lem :
    (fuel : ℕ) (cells : List Cell) (c : Chain)
    → Holds cells c
    → Filled cells
    → length cells < 2 ^ 64
    → length cells < fuel
    → (c' : Chain) × (free_veclist fuel c ≡ done tt c') × (c'.list ≡ empty_list) × Gone cells c c'
unfolding free_veclist
free_veclist_lem fuel cells c h f room enough =
    let (c₁, e, h₁, g) = free_nodes_lem fuel cells c h f room enough in
    (
      record c₁ { list = record (c₁.list) { head = 0; tail = 0 } },
      and_then-step _ _ e,
      ap (λ k. record { num_elems = k; head = 0; tail = 0 }) h₁.size,
      record { released = g.released; others = g.others },
    )
