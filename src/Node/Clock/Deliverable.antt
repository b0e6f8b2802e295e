-- ===== src/Node/Clock/Deliverable.antt =====
-- The test of src/pending.c for a message that can be delivered, and the count of a delivery.
use distributed_process.Base.{
  ℕ, ◌+◌, ◌-◌, ◌^◌, ◌≤◌, ◌<◌, ◌≡◌, ◌↔◌, ◌∙◌, refl, sym, ap, inl, inr, Bool, true, false, some, List,
  [], ◌∷◌, length, get_elem?, get_or, set, length-set, get_or-set_self, get_or-set_ne,
  get_elem?-eq-get_or, ltb, ◌==◌, if◌then◌else◌, Bool-cases, u32, pred32, arith, lock-free, done,
}
use distributed_process.Dependencies.{Dependencies}
use distributed_process.Dependencies.Access
use distributed_process.Dependencies.Access.{list_of, get_dependencies_lem, list_of-found}
use distributed_process.Message.{VecClock}
use distributed_process.Node.{NetData}
use distributed_process.Node.Clock.{
  block, dependency_list, no_later, count_up, update_vec_clock, compare_clocks, test_vec_clock,
}

-- Every process of the list satisfies `P`.
abbrev pub All : (ℕ → Type 0) → List ℕ → Type 0
All P [] = Unit
All P (x ∷ xs) = P x × All P xs

-- An id of a process, as the parser should have left it.
abbrev pub InRange : ℕ → ℕ → Type 0
InRange num_proc p = (0 < p) × (p ≤ num_proc)

-- The entry of process `p` in a clock.
abbrev pub entry : List ℕ → ℕ → ℕ
entry xs p = get_or xs (p - 1) 0

-- The clock `theirs` is nowhere ahead of `ours` on the processes `pids`.
abbrev pub CaughtUp : List ℕ → List ℕ → List ℕ → Type 0
CaughtUp pids theirs ours = All (λ p. entry theirs p ≤ entry ours p) pids

no_later_lem :
    (num_proc : ℕ) (pids theirs ours : List ℕ) (acc : Bool)
    → num_proc < 2 ^ 32
    → All (InRange num_proc) pids
    → length theirs ≡ num_proc
    → length ours ≡ num_proc
    → (b : Bool) × (no_later pids theirs ours (length pids) acc ≡ some b)
      × ((b ≡ true) ↔ ((acc ≡ true) × CaughtUp pids theirs ours))
unfolding no_later
no_later_lem num_proc [] theirs ours acc narrow r ht ho = (acc, refl, (λ e. (e, tt), λ e. e.0))
no_later_lem num_proc (p ∷ pids) theirs ours acc narrow r ht ho =
    let at : pred32 (u32 p) ≡ p - 1 = omega (arith, r.0) in
    let a = entry theirs p in
    let b = entry ours p in
    let fa = get_elem?-eq-get_or theirs (p - 1) 0 (omega (arith, r.0)) in
    let fb = get_elem?-eq-get_or ours (p - 1) 0 (omega (arith, r.0)) in
    let (c, e, iff) =
      no_later_lem num_proc pids theirs ours (if ltb b a then false else acc) narrow r.1 ht ho in
    (
      c,
      rw (at, fa, no_later, at, fb) e,
      (
        λ h. let (x, rest) = iff.0 h in (ground arith, (ground arith, rest)),
        λ h. iff.1 (ground arith, h.1.1),
      ),
    )

-- The processes that `pid` depends on, in a matrix.
abbrev pub pids_of : Dependencies → ℕ → List ℕ
pids_of m pid = block (list_of m pid).pid_list

-- What the layers above find in a process: its clock has an entry for each process, its mutex is
-- free, and the matrix has for each process a whole list of ids of processes.
pub record IsReady {A : Type 0} (d : NetData A) : Type 0 where
  pub free : d.clock_locked ≡ false
  pub sized : length d.vector_clock.vector ≡ d.num_proc
  pub narrow : d.num_proc < 2 ^ 32
  pub matrix : Dependencies
  pub pointer : d.dependencies ≡ some matrix
  pub valid : Access.IsValid matrix
  pub same : matrix.num_proc ≡ d.num_proc
  pub whole :
      (pid : ℕ)
      → InRange d.num_proc pid
      → length (pids_of matrix pid) ≡ (list_of matrix pid).list_len
  pub ids : (pid : ℕ) → InRange d.num_proc pid → All (InRange d.num_proc) (pids_of matrix pid)

module _ {A : Type 0} (d : NetData A) (r : IsReady d) (pid : ℕ)
    (real : InRange d.num_proc pid) where
  abbrev pub waited_for : List ℕ
  waited_for = pids_of r.matrix pid

  dependency_list_lem : dependency_list d.dependencies pid ≡ some (list_of r.matrix pid)
  dependency_list_lem = rw (r.pointer) (
      rw (get_dependencies_lem r.valid pid real.0 (omega (arith, r.same, real.1)), dependency_list)
        (list_of-found r.valid pid real.0 (omega (arith, r.same, real.1))))

  -- On a ready process, for one of the processes and a clock with an entry for each, the test reads
  -- inside its arrays, changes nothing, leaves the mutex free, and answers 1 exactly if the clock
  -- is nowhere ahead of the process's own on the processes that the sender depends on.
  pub test_vec_clock_lem :
      (clock : VecClock)
      → length clock.vector ≡ d.num_proc
      → (b : Bool) × (test_vec_clock clock pid d ≡ done b d)
        × ((b ≡ true) ↔ CaughtUp waited_for clock.vector d.vector_clock.vector)
  unfolding test_vec_clock compare_clocks
  test_vec_clock_lem clock full =
      let (b, e, iff) =
        no_later_lem d.num_proc waited_for clock.vector d.vector_clock.vector true r.narrow
          (r.ids pid real) full r.sized in
      let e' : no_later waited_for clock.vector d.vector_clock.vector
            (list_of r.matrix pid).list_len true
          ≡ some b =
        ap (λ n. no_later waited_for clock.vector d.vector_clock.vector n true)
          (sym (r.whole pid real))
        ∙ e in
      (
        b,
        lock-free (λ d. d.clock_locked) (λ d. record d { clock_locked = true }) _ d r.free
            ∙ rw (dependency_list_lem, e', compare_clocks)
                (λ i. done b (record d { clock_locked = sym r.free i })),
        (λ h. (iff.0 h).1, λ h. iff.1 (refl, h)),
      )

  -- The process with one more delivery of `pid`.
  abbrev pub counted : NetData A
  counted = record d {
    vector_clock = record (d.vector_clock) {
      vector = set d.vector_clock.vector (pid - 1) (u32 (entry d.vector_clock.vector pid + 1));
    };
    clock_locked = false;
  }

  -- On a ready process `update_vec_clock` counts one more delivery of one of the processes, answers
  -- with the new count, and leaves the mutex free and the rest as it was.
  pub update_vec_clock_lem :
      update_vec_clock pid d ≡ done (u32 (entry d.vector_clock.vector pid + 1)) counted
  unfolding update_vec_clock count_up
  update_vec_clock_lem =
      let at : pred32 pid ≡ pid - 1 = omega (arith, real, r.narrow) in
      let accepted : ltb d.num_proc pid ≡ false = ground (arith, real) in
      let found : get_elem? d.vector_clock.vector (pid - 1)
          ≡ some (entry d.vector_clock.vector pid) =
        get_elem?-eq-get_or d.vector_clock.vector (pid - 1) 0 (omega (arith, real, r.sized)) in
      rw (accepted, r.free, at, found, count_up, at)

  pub counted-IsReady : IsReady counted
  counted-IsReady = record {
    free = refl;
    sized = length-set d.vector_clock.vector (pid - 1) _ ∙ r.sized;
    narrow = r.narrow;
    matrix = r.matrix;
    pointer = r.pointer;
    valid = r.valid;
    same = r.same;
    whole = r.whole;
    ids = r.ids;
  }

  -- Its own entry goes up by one, and no other changes.
  pub entry-counted :
      (p : ℕ)
      → 0 < p
      → entry counted.vector_clock.vector p ≡ (
          if p == pid
          then u32 (entry d.vector_clock.vector pid + 1)
          else entry d.vector_clock.vector p)
  entry-counted p pos = elim (Bool-cases (p == pid)) [
    | inl eq ↦
        let same : p ≡ pid = ground arith in
        rw (eq, same)
          (get_or-set_self d.vector_clock.vector (pid - 1) _ 0 (omega (arith, real, r.sized)))
    | inr ne ↦
        rw ne (get_or-set_ne d.vector_clock.vector (pid - 1) (p - 1) _ 0 (ground (arith, real)))
  ]
