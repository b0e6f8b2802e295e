-- ===== src/Node/Clock/Frame.antt =====
-- What the calls of src/pending.c on the clock leave.
use distributed_process.Base.{
  ℕ, inl, inr, true, false, ltb, get_elem?, pred32, Bool-cases, Option-cases, done, err, fault,
  hang, Outcome, Ok, lock, Ends-chain, Env,
}
use distributed_process.Dependencies.{DependencyList}
use distributed_process.Message.{VecClock, no_clock, alloc_vector}
use distributed_process.Node.{NetData}
use distributed_process.Node.Frame.{Keeps, Respects}
use distributed_process.Node.Clock.{
  block, dependency_list, no_later, count_up, update_vec_clock, get_vec_clock_copy, compare_clocks,
  test_vec_clock,
}

module _ {A : Type 0} (Q : NetData A → Type 0) (r : Respects Q) where
  pub update_vec_clock-Keeps : (pid : ℕ) (d : NetData A) → Q d → Keeps Q (update_vec_clock pid d)
  unfolding update_vec_clock count_up
  update_vec_clock-Keeps pid d q = elim (Bool-cases (ltb d.num_proc pid)) [
    | inl e ↦ rw e tt
    | inr e ↦ elim (Bool-cases d.clock_locked) [
      | inl held ↦ rw (e, held) tt
      | inr free ↦ elim (Option-cases (get_elem? d.vector_clock.vector (pred32 pid))) [
        | inl past ↦ rw (e, free, past, count_up) tt
        | inr found ↦ rw (e, free, found.1, count_up) (r.clock d _ false q)
      ]
    ]
  ]

  lock-Keeps :
      (d : NetData A)
      → Q d
      → Keeps Q (lock (λ d. d.clock_locked) (λ d. record d { clock_locked = true }) d)
  lock-Keeps d q = elim (Bool-cases d.clock_locked) [
    | inl held ↦ rw held tt
    | inr free ↦ rw free (r.clock d d.vector_clock true q)
  ]

  compare_clocks-Keeps :
      (dep : DependencyList) (clock : VecClock) (d : NetData A)
      → Q d
      → Keeps Q (compare_clocks dep clock d)
  unfolding compare_clocks
  compare_clocks-Keeps dep clock d q =
      elim (Option-cases
        (no_later (block dep.pid_list) clock.vector d.vector_clock.vector dep.list_len true)) [
          | inl out ↦ rw (compare_clocks, out) tt
          | inr found ↦ rw (compare_clocks, found.1) (r.clock d d.vector_clock false q)
        ]

  pub test_vec_clock-Keeps :
      (clock : VecClock) (pid : ℕ) (d : NetData A) → Q d → Keeps Q (test_vec_clock clock pid d)
  unfolding test_vec_clock
  test_vec_clock-Keeps clock pid d q = Ends-chain Q _ _ (lock-Keeps d q) (λ u s qs.
      elim (Option-cases (dependency_list s.dependencies pid)) [
        | inl past ↦ rw past tt
        | inr (dep, found) ↦ rw found (compare_clocks-Keeps dep clock s qs)
      ])

  pub get_vec_clock_copy-Keeps :
      (env : Env) (d : NetData A) → Q d → Keeps Q (get_vec_clock_copy env d)
  unfolding get_vec_clock_copy
  get_vec_clock_copy-Keeps env d q = elim (Bool-cases d.clock_locked) [
    | inl held ↦ rw held tt
    | inr free ↦ rw free (copied (alloc_vector env d.num_proc d.vector_clock.vector no_clock))
  ]
    where
      copied :
          (o : Outcome VecClock Ok)
          → Keeps Q (elim o [
            | done _ c ↦ done c (record d { clock_locked = false })
            | err e c ↦ err e (record d { clock_locked = true })
            | fault ↦ fault
            | hang ↦ hang
          ])
      copied (done _ c) = r.clock d d.vector_clock false q
      copied (err e c) = tt
      copied fault = tt
      copied hang = tt
