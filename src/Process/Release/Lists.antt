-- ===== src/Process/Release/Lists.antt =====
-- `free_dependencies` of src/dependencies.c, block by block.
use distributed_process.Base.{
  ℕ, zero, suc, ◌+◌, ◌≤◌, ◌<◌, ◌≡◌, ◌≢◌, inl, inr, ◌∙◌, refl, sym, ap, Bool, true, false, not, ◌&&◌,
  ◌||◌, none, some, List, [], ◌∷◌, length, length-set, get_elem?, get_elem?-past, set, leb, le→leb,
  ◌==◌, OnSome, Bool-cases, arith, tests, done, and_then-step,
}
use native.Mathlib.Decide.{dec_lt}
use distributed_process.Dependencies.{DependencyList, Dependencies, Pointer}
use distributed_process.Process.{Block, dependency_lists, pid_list, Process, mark_freed, same_block}
use distributed_process.Process.Release.{is_none, set_matrix, free_lists, free_matrix}
use distributed_process.Process.Release.Held.{has_list, has_lists, has_pids, or-false}

get_elem?-set_ne :
    (ls : List DependencyList) (i j : ℕ) (v : DependencyList)
    → j ≢ i
    → get_elem? (set ls i v) j ≡ get_elem? ls j
get_elem?-set_ne [] i j v h = refl
get_elem?-set_ne (l ∷ ls) zero zero v h = absurd (h refl)
get_elem?-set_ne (l ∷ ls) zero (suc j) v h = refl
get_elem?-set_ne (l ∷ ls) (suc i) zero v h = refl
get_elem?-set_ne (l ∷ ls) (suc i) (suc j) v h = get_elem?-set_ne ls i j v (λ e. h (ap suc e))

get_elem?-in :
    (ls : List DependencyList) (i : ℕ)
    → i < length ls
    → (l : DependencyList) × (get_elem? ls i ≡ some l)
get_elem?-in [] i h = absurd (omega arith)
get_elem?-in (l ∷ ls) zero h = (l, refl)
get_elem?-in (l ∷ ls) (suc i) h = get_elem?-in ls i (omega arith)

-- What the loop over the lists leaves.
record Cleared {A : Type 0} (l : ℕ) (m : Dependencies) (p p' : Process A) : Type 0 where
  pub lists :
      (i : ℕ)
      → p'.freed (pid_list i) ≡ (p.freed (pid_list i) || (leb l i && has_list m.dep_lists i))
  pub matrix : Dependencies
  pub others : (b : Block) → ((i : ℕ) → same_block b (pid_list i) ≡ false) → p'.freed b ≡ p.freed b
  pub kept : p' ≡ record (set_matrix matrix p) { freed = p'.freed }

set-has_list :
    (ls : List DependencyList) (i j : ℕ) (v : DependencyList)
    → j ≢ i
    → has_list (set ls i v) j ≡ has_list ls j
set-has_list ls i j v h = rw (get_elem?-set_ne ls i j v h, has_list) refl

past-has_list : (ls : List DependencyList) (i : ℕ) → length ls ≤ i → has_list ls i ≡ false
past-has_list ls i h = rw (get_elem?-past ls i h, has_list) refl

at-has_list :
    (ls : List DependencyList) (i : ℕ) (x : DependencyList)
    → get_elem? ls i ≡ some x
    → has_list ls i ≡ not (is_none x.pid_list)
at-has_list ls i x h = rw (h, has_list) refl

same_self : (a : ℕ) → (a == a) ≡ true
same_self a = ground arith

-- The mark that one round makes, and those of the rounds behind it.
mark_pid :
    (freed : Bool) (ls : List DependencyList) (l i : ℕ) (x v : DependencyList)
    → get_elem? ls l ≡ some x
    → ((((i == l) && not (is_none x.pid_list)) || freed)
        || (leb (l + 1) i && has_list (set ls l v) i))
      ≡ (freed || (leb l i && has_list ls i))
mark_pid true ls l i x v found =
    elim ((i == l) && not (is_none x.pid_list))
      as (λ c. ((c || true) || (leb (l + 1) i && has_list (set ls l v) i)) ≡ true) [
        | true ↦ refl
        | false ↦ refl
      ]
mark_pid false ls l i x v found = elim (dec_lt i l) [
  | yes before ↦
      let a : (i == l) ≡ false = ground arith in
      let b : leb (l + 1) i ≡ false = ground arith in
      let c : leb l i ≡ false = ground arith in rw (a, b, c) refl
  | no after ↦ elim (dec_lt l i) [
    | yes behind ↦
        let a : (i == l) ≡ false = ground arith in
        let b : leb (l + 1) i ≡ true = ground arith in
        let c : leb l i ≡ true = ground arith in
        rw (a, b, c) (set-has_list ls l i v (λ e. omega arith))
    | no other ↦
        let same : i ≡ l = omega arith in
        let b : leb (l + 1) l ≡ false = ground arith in
        let c : leb l l ≡ true = ground arith in
        rw (same, same_self l, b, c)
          (elim (is_none x.pid_list) as (λ n. ((not n || false) || false) ≡ not n) [
            | true ↦ refl
            | false ↦ refl
          ]
            ∙ sym (at-has_list ls l x found))
  ]
]

free_lists-step :
    {A : Type 0} (l n : ℕ) (m : Dependencies) (p : Process A) (x : DependencyList)
    → get_elem? m.dep_lists l ≡ some x
    → free_lists l (suc n) m p
      ≡ free_lists
          (l + 1)
          n
          (record m { dep_lists = set m.dep_lists l (record x { pid_list = none }) })
          (mark_freed (pid_list l) (is_none x.pid_list) p)
unfolding free_lists
free_lists-step l n m p x e = rw (e, free_lists) refl

free_lists-Cleared :
    {A : Type 0} (l n : ℕ) (m : Dependencies) (p : Process A)
    → l + n ≡ length m.dep_lists
    → (p' : Process A) × (free_lists l n m p ≡ done tt p') × Cleared l m p p'
unfolding free_lists
free_lists-Cleared l zero m p e = (
  set_matrix m p,
  refl,
  record {
    lists = λ i. elim (Bool-cases (leb l i)) [
      | inl behind ↦
          rw (behind, past-has_list m.dep_lists i (omega (tests, behind, e)))
            (sym (or-false (p.freed (pid_list i))))
      | inr before ↦ rw before (sym (or-false (p.freed (pid_list i))))
    ];
    matrix = m;
    others = λ b h. refl;
    kept = refl;
  },
)
free_lists-Cleared l (suc n) m p e =
    let (x, found) = get_elem?-in m.dep_lists l (omega arith) in
    let v : DependencyList = record x { pid_list = none } in
    let m' : Dependencies = record m { dep_lists = set m.dep_lists l v } in
    let q = mark_freed (pid_list l) (is_none x.pid_list) p in
    let (p', run, c) =
      free_lists-Cleared (l + 1) n m' q (omega (arith, e, length-set m.dep_lists l v)) in
    (
      p',
      free_lists-step l n m p x found ∙ run,
      record {
        lists = λ i. c.lists i ∙ mark_pid (p.freed (pid_list i)) m.dep_lists l i x v found;
        matrix = c.matrix;
        others = λ b h. c.others b h ∙ rw (h l) refl;
        kept = c.kept;
      },
    )

-- What `free_dependencies` leaves, given the pointer.
pub record Unlisted {A : Type 0} (m : Pointer) (p p' : Process A) : Type 0 where
  pub lists : p'.freed dependency_lists ≡ has_lists m
  pub pids : (i : ℕ) → p'.freed (pid_list i) ≡ has_pids m i
  pub others :
      (b : Block)
      → same_block b dependency_lists ≡ false
      → ((i : ℕ) → same_block b (pid_list i) ≡ false)
      → p'.freed b ≡ p.freed b
  pub pointer : Pointer
  pub kept : p' ≡ record p { net = record (p.net) { dependencies = pointer }; freed = p'.freed }

module _ {A : Type 0} (p : Process A) (unused : p.freed dependency_lists ≡ false)
    (pids : (i : ℕ) → p.freed (pid_list i) ≡ false) where
  pub free_matrix_lem :
      (m : Pointer)
      → m ≡ p.net.dependencies
      → OnSome (λ m. length m.dep_lists ≡ m.num_proc) m
      → (p' : Process A) × (free_matrix m p ≡ done tt p') × Unlisted m p p'
  unfolding free_matrix
  free_matrix_lem none e sized = (
    p,
    refl,
    record {
      lists = unused;
      pids = λ i. pids i;
      others = λ b h k. refl;
      pointer = none;
      kept = ap (λ m. record p { net = record (p.net) { dependencies = m } }) (sym e);
    },
  )
  free_matrix_lem (some m) e sized = elim (Bool-cases (length m.dep_lists == 0)) [
    | inl null ↦ (
      set_matrix (record m { num_proc = 0 }) p,
      rw null refl,
      record {
        lists = rw null (unused);
        pids = λ i. pids i ∙ sym (past-has_list m.dep_lists i (ground (arith, null)));
        others = λ b h k. refl;
        pointer = some (record m { num_proc = 0 });
        kept = refl;
      },
    )
    | inr some_list ↦
        let (q, run, c) =
          free_lists-Cleared 0 m.num_proc (record m { num_proc = 0 }) p (omega (arith, sized)) in
        let free : q.freed dependency_lists ≡ false =
          c.others dependency_lists (λ i. refl) ∙ unused in
        (
          mark_freed dependency_lists false q,
          rw some_list (and_then-step _ _ run ∙ rw free refl),
          record {
            lists = rw some_list refl;
            pids = λ i. c.lists i ∙ rw (pids (i), le→leb 0 i (omega arith)) refl;
            others = λ b h k. rw h (c.others b k);
            pointer = some c.matrix;
            kept = ap (mark_freed dependency_lists false) c.kept;
          },
        )
  ]
