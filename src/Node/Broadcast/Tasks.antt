-- ===== src/Node/Broadcast/Tasks.antt =====
-- `send_beb` of src/beb.c: what it puts on the queue.
use distributed_process.Base.{
  ℕ, zero, suc, ◌+◌, ◌*◌, ◌^◌, ◌≤◌, ◌<◌, ◌≡◌, ◌∙◌, refl, sym, ap, inl, inr, true, false, List, [],
  ◌∷◌, ◌++◌, append-nil, append_assoc, length, take, take-length, ltb, ◌==◌, if◌then◌else◌,
  Bool-cases, u32, arith, done, and_then-step, put_back, Env,
}
use distributed_process.Queue.{Queue}
use distributed_process.Queue.Ring.{contents, IsValid}
use distributed_process.Queue.Fifo.{enqueue_lem}
use distributed_process.Message.{VecClock, UrbMsg, Task, blank_task, alloc_vector}
use distributed_process.Node.{NetData}
use distributed_process.Node.Broadcast.{beb_msg, with_clock, put_task, send_one, beb_loop, send_beb}

-- The task for process `i`, with a clock of its own.
abbrev pub beb_task : ℕ → ℕ → UrbMsg → ℕ → Task
beb_task num_proc self m i = record {
  pid_dest = i;
  msg =
      with_clock (beb_msg num_proc self m i)
        (record { num_proc = num_proc; vector = m.lcb_msg.vec_clock.vector });
}

-- The tasks for the `n` processes from `i` on, less the sender.
unfoldable pub beb_tasks : ℕ → ℕ → UrbMsg → ℕ → ℕ → List Task
beb_tasks num_proc self m zero i = []
beb_tasks num_proc self m (suc n) i =
    let rest = beb_tasks num_proc self m n (i + 1) in
    if i == self then rest else beb_task num_proc self m i ∷ rest

-- A bound that the ring does not outgrow.
pub record HasSpace (q : Queue Task) (n bound : ℕ) : Type 0 where
  pub narrow : bound < 2 ^ 30
  pub ring : q.qsize ≤ bound
  pub tasks : (q.no_elem + n) * 2 ≤ bound

-- The copy of a whole clock.
alloc_vector_lem :
    (env : Env)
    → ((k : ℕ) → env.grants k ≡ true)
    → (num_proc : ℕ) (vector : List ℕ) (c : VecClock) → length vector ≡ num_proc
    → alloc_vector env num_proc vector c ≡ done tt (record { num_proc = num_proc; vector = vector })
unfolding alloc_vector
alloc_vector_lem env grants num_proc vector c full =
    let enough : ltb (length vector) num_proc ≡ false = ground arith in
    let whole : take num_proc vector ≡ vector =
      ap (λ n. take n vector) (sym full) ∙ take-length vector in
    rw (grants (4 * num_proc), enough, whole)

module _ {A : Type 0} (env : Env) (grants : (k : ℕ) → env.grants k ≡ true) (m : UrbMsg) where
  send_one_lem :
      (i : ℕ) (d : NetData A)
      → length m.lcb_msg.vec_clock.vector ≡ d.num_proc
      → send_one env m i d ≡ put_task env (beb_task d.num_proc (u32 d.self_pid) m i) d
  unfolding send_one
  send_one_lem i d full =
      let vector = m.lcb_msg.vec_clock.vector in
      rw (alloc_vector_lem env grants d.num_proc vector m.lcb_msg.vec_clock full, send_one)

  beb_loop_lem :
      (n i bound : ℕ) (d : NetData A)
      → IsValid d.task_q
      → HasSpace d.task_q n bound
      → length m.lcb_msg.vec_clock.vector ≡ d.num_proc
      → (q : Queue Task) × (beb_loop env m n i d ≡ done tt (record d { task_q = q }))
        × IsValid q
        × (contents blank_task q
            ≡ contents blank_task d.task_q ++ beb_tasks d.num_proc (u32 d.self_pid) m n i)
  unfolding beb_loop beb_tasks put_task
  beb_loop_lem zero i bound d v space full = (d.task_q, refl, v, sym (append-nil _))
  beb_loop_lem (suc n) i bound d v space full = elim (Bool-cases (i == u32 d.self_pid)) [
    | inl self ↦
        let less : HasSpace d.task_q n bound = record {
          narrow = space.narrow;
          ring = space.ring;
          tasks = omega (arith, space.tasks);
        } in
        let (q, e, valid, c) = beb_loop_lem n (i + 1) bound d v less full in
        (q, rw self e, valid, rw self c)
    | inr other ↦
        let t = beb_task d.num_proc (u32 d.self_pid) m i in
        let (q1, e1, queued) =
          enqueue_lem blank_task env d.task_q t v (omega (arith, space)) (grants _) in
        let d1 : NetData A = record d { task_q = q1 } in
        let less : HasSpace q1 n bound = record {
          narrow = space.narrow;
          ring = omega (arith, queued.growth, space.ring, space.tasks);
          tasks = omega (arith, queued.count, space.tasks);
        } in
        let (q, e, valid, c) = beb_loop_lem n (i + 1) bound d1 queued.valid less full in
        (
          q,
          rw other (
              and_then-step (send_one env m i d) _
                (send_one_lem i d full ∙ ap (put_back (λ k. record d { task_q = k })) e1)
              ∙ e),
          valid,
          rw other (
              c
              ∙ ap (λ ts. ts ++ beb_tasks d.num_proc (u32 d.self_pid) m n (i + 1)) queued.added
              ∙ append_assoc (contents blank_task d.task_q) (t ∷ [])
                  (beb_tasks d.num_proc (u32 d.self_pid) m n (i + 1))),
        )
  ]

  -- On a valid queue that has space, with memory granted and a clock with an entry for each of
  -- them, `send_beb` returns 0, puts behind the tasks that wait one task for each process but the
  -- sender, in the order of their ids and each with the whole clock, and changes nothing else.
  pub send_beb_lem :
      (bound : ℕ) (d : NetData A)
      → IsValid d.task_q
      → HasSpace d.task_q d.num_proc bound
      → length m.lcb_msg.vec_clock.vector ≡ d.num_proc
      → (q : Queue Task) × (send_beb env m d ≡ done tt (record d { task_q = q }))
        × IsValid q
        × (contents blank_task q
            ≡ contents blank_task d.task_q ++ beb_tasks d.num_proc (u32 d.self_pid) m d.num_proc 1)
  unfolding send_beb
  send_beb_lem bound d v space full =
      let narrow : u32 d.num_proc ≡ d.num_proc = omega (arith, space) in
      rw narrow (beb_loop_lem d.num_proc 1 bound d v space full)
