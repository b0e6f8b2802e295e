-- ===== src/Tests/Chains.antt =====
-- Runs of src/pending.c on a list of two clocks.
use distributed_process.Base.{◌≢◌, ◌≡◌, ◌++◌, refl, arith, some, none, List, [], ◌∷◌, done}
use distributed_process.Pending.{Ptr, Chain, empty_list, write, add_veclist, free_veclist}
use distributed_process.Pending.Listed.{Apart, Cell}
use distributed_process.Pending.Add.{Holds, add_veclist_lem}
use distributed_process.Pending.Free.{Gone, free_veclist_lem}
use distributed_process.Tests.Samples.{generous, clock_of}

abbrev cells : List Cell
cells = record { at = 3; clock = clock_of 1 0 } ∷ record { at = 4; clock = clock_of 1 1 } ∷ []

abbrev two : Chain
two = record {
  heap =
      write (write (λ p. none) 3 (some (record { clock = clock_of 1 0; next = 4; previous = 0 }))) 4
        (some (record { clock = clock_of 1 1; next = 0; previous = 3 }));
  list = record { num_elems = 2; head = 3; tail = 4 };
}

two-Holds : Holds cells two
two-Holds = record {
  seg =
      (refl, λ e. omega (arith, e), 4, refl, (refl, λ e. omega (arith, e), 0, refl, (refl, refl)));
  apart = ((λ e. omega (arith, e), tt), (tt, tt));
  size = refl;
}

add_veclist_lem_example :
    (c' : Chain) × (add_veclist generous (clock_of 2 1) two ≡ done tt c')
    × Holds (cells ++ (record { at = 5; clock = clock_of 2 1 } ∷ [])) c'
    × ((p : Ptr) → p ≢ 5 → Apart p cells → c'.heap p ≡ two.heap p)
add_veclist_lem_example =
    add_veclist_lem generous cells two (clock_of 2 1) two-Holds (λ k. refl)
      (λ e. omega (arith, e), (λ e. omega (arith, e), tt)) (λ e. omega (arith, e)) (omega arith)
      (omega arith) refl

free_veclist_lem_example :
    (c' : Chain) × (free_veclist 3 two ≡ done tt c') × (c'.list ≡ empty_list) × Gone cells two c'
free_veclist_lem_example =
    free_veclist_lem 3 cells two two-Holds (omega arith, (omega arith, tt)) (omega arith)
      (omega arith)
