-- ===== src/Queue/Fifo.antt =====
-- `enqueue` and `dequeue` of src/mqueue.c against a first-in first-out list.
use distributed_process.Base.{
  ℕ, zero, suc, ◌+◌, ◌-◌, ◌*◌, ◌^◌, ◌<◌, ◌≡◌, ◌⊎◌, ◌∙◌, refl, inl, inr, sym, ap, true, false, none,
  some, [], ◌∷◌, ◌++◌, length, get_elem?, get_or, set, length-set, get_elem?-eq-get_or, ltb, ◌==◌,
  Bool-cases, arith, u32, error_memory, done, err, hang, Env,
}
use native.Mathlib.Nat.{mod-lt}
use distributed_process.Queue.{
  Queue, task_bytes, realloc_queue, make_room, insert_back, enqueue, queue_empty, take_front,
  dequeue,
}
use distributed_process.Queue.Ring.{
  slot, slot-suc, slot-next, window, contents, window-set, window-suc, IsValid,
}
use distributed_process.Queue.Refine.{unlocked, HasRoom, realloc_queue_lem}

module _ {A : Type 0} (blank : A) where
  make_room_lem :
      (env : Env) (q : Queue A)
      → IsValid (unlocked q)
      → q.qsize < 2 ^ 30
      → env.grants (task_bytes * (q.qsize * 2)) ≡ true
      → (q' : Queue A) × (make_room blank env q ≡ done tt q') × HasRoom blank q q'
  unfolding make_room
  make_room_lem env q v narrow granted = elim (Bool-cases (q.no_elem == q.qsize)) [
    | inl full ↦ rw full (realloc_queue_lem blank env q v (ground arith) narrow granted)
    | inr space ↦ (
      q,
      rw space,
      record {
        valid = v;
        room = ground (arith, v.bounded);
        same = refl;
        count = refl;
        growth = inl refl;
      },
    )
  ]

  -- The queue with `x` behind the last task.
  abbrev inserted : Queue A → A → Queue A
  inserted q x = record q {
    elems = set q.elems q.back x;
    no_elem = q.no_elem + 1;
    back = slot q.qsize q.back 1;
    locked = false;
  }

  insert_back_lem :
      (q : Queue A) (x : A)
      → IsValid (unlocked q)
      → q.no_elem < q.qsize
      → (insert_back blank x q ≡ done tt (inserted q x))
        × IsValid (inserted q x)
        × (contents blank (inserted q x) ≡ contents blank q ++ (x ∷ []))
  unfolding insert_back
  insert_back_lem q x v room =
      let at : q.back < q.qsize =
        omega (arith, v.behind, mod-lt (q.front + q.no_elem) {m = q.qsize} (omega arith)) in
      let inside : ltb q.back (length q.elems) ≡ true = ground (arith, v.sized) in
      let count : u32 (q.no_elem + 1) ≡ q.no_elem + 1 = omega (arith, v.narrow) in
      let back : u32 (q.back + 1) ≡ q.back + 1 = omega (arith, v.narrow) in
      (
        rw (inside, count, back),
        record {
          sized = length-set q.elems q.back x ∙ v.sized;
          front_in = v.front_in;
          bounded = omega arith;
          narrow = v.narrow;
          behind =
              ap (λ k. slot q.qsize k 1) v.behind
              ∙ sym (slot-suc q.qsize q.front q.no_elem)
              ∙ ap (slot q.qsize q.front) (omega arith);
          free = refl;
        },
        ap (λ n. window blank (set q.elems q.back x) q.qsize q.front n) {y = suc q.no_elem}
              (omega arith)
            ∙ ap (λ k. window blank (set q.elems k x) q.qsize q.front (suc q.no_elem)) v.behind
            ∙ window-set blank q.elems q.qsize q.front q.no_elem x v.sized v.front_in room,
      )

  -- What `enqueue` leaves.
  pub record Queued (q : Queue A) (x : A) (q' : Queue A) : Type 0 where
    pub valid : IsValid q'
    pub added : contents blank q' ≡ contents blank q ++ (x ∷ [])
    pub count : q'.no_elem ≡ q.no_elem + 1
    pub growth : (q'.qsize ≡ q.qsize) ⊎ (q'.qsize ≡ q.no_elem * 2)

  -- On a valid queue of fewer than 2 ^ 30 slots, with memory granted for twice as many, `enqueue`
  -- returns 0, leaves a valid queue, and puts the task behind all that wait, also where the ring is
  -- full and is replaced by one of twice its size.
  pub enqueue_lem :
      (env : Env) (q : Queue A) (x : A)
      → IsValid q
      → q.qsize < 2 ^ 30
      → env.grants (task_bytes * (q.qsize * 2)) ≡ true
      → (q' : Queue A) × (enqueue blank env x q ≡ done tt q') × Queued q x q'
  unfolding enqueue
  enqueue_lem env q x v narrow granted =
      let held = record q { locked = true } in
      let (r, e, room) =
        make_room_lem env held
          (record {
            sized = v.sized;
            front_in = v.front_in;
            bounded = v.bounded;
            narrow = v.narrow;
            behind = v.behind;
            free = refl;
          })
          narrow granted in
      let (f, valid, added) = insert_back_lem r x room.valid room.room in
      (
        inserted r x,
        rw (v.free, e) f,
        record {
          valid = valid;
          added = added ∙ ap (λ s. s ++ (x ∷ [])) room.same;
          count = ap (λ n. n + 1) room.count;
          growth = room.growth;
        },
      )

  -- Where the ring of a valid queue is full and memory is refused, `enqueue` returns ERROR_MEMORY
  -- with its mutex held and the ring gone, with all tasks in it, and from then on neither `enqueue` nor `dequeue` ever
  -- returns.
  pub enqueue_refused :
      (env : Env) (q : Queue A) (x : A)
      → IsValid q
      → q.no_elem ≡ q.qsize
      → env.grants (task_bytes * u32 (q.qsize * 2)) ≡ false
      → (q' : Queue A) × (enqueue blank env x q ≡ err error_memory q')
        × (q'.elems ≡ [])
        × ((env' : Env) (y : A) → enqueue blank env' y q' ≡ hang)
        × (dequeue q' ≡ hang)
  unfolding enqueue dequeue make_room realloc_queue
  enqueue_refused env q x v full refused =
      let same : (q.no_elem == q.qsize) ≡ true = ground arith in
      (
        record q { locked = true; elems = [] },
        rw (v.free, same, refused),
        refl,
        λ env' y. refl,
        refl,
      )

  -- What `dequeue` returns and leaves on a queue that holds tasks.
  pub record Popped (q : Queue A) (x : A) (q' : Queue A) : Type 0 where
    pub valid : IsValid q'
    pub first : contents blank q ≡ x ∷ contents blank q'
    pub size : q'.qsize ≡ q.qsize
    pub count : q.no_elem ≡ q'.no_elem + 1

  take_front-cons :
      (q : Queue A)
      → IsValid (unlocked q)
      → (n : ℕ) → q.no_elem ≡ suc n
      → (x : A) × (q' : Queue A) × (take_front q ≡ done (some x) q') × Popped q x q'
  unfolding take_front queue_empty
  take_front-cons q v n e =
      let x = get_or q.elems q.front blank in
      let some_left : (q.no_elem == 0) ≡ false = ground arith in
      let found : get_elem? q.elems q.front ≡ some x =
        get_elem?-eq-get_or q.elems q.front blank (omega (arith, v.sized, v.front_in)) in
      let next : u32 (q.front + 1) ≡ q.front + 1 = omega (arith, v.narrow, v.front_in) in
      let less : q.no_elem - 1 ≡ n = omega arith in
      (
        x,
        record q { no_elem = q.no_elem - 1; front = slot q.qsize q.front 1; locked = false },
        rw (some_left, found, next),
        record {
          valid = record {
            sized = v.sized;
            front_in = mod-lt (q.front + 1) (omega (arith, v.front_in));
            bounded = omega (arith, v.bounded);
            narrow = v.narrow;
            behind =
                v.behind
                ∙ ap (slot q.qsize q.front) e
                ∙ slot-next q.qsize q.front n
                ∙ ap (slot q.qsize (slot q.qsize q.front 1)) (sym less);
            free = refl;
          };
          first =
              ap (window blank q.elems q.qsize q.front) e
              ∙ window-suc blank q.elems q.qsize q.front n v.front_in
              ∙ ap (λ k. x ∷ window blank q.elems q.qsize (slot q.qsize q.front 1) k) (sym less);
          size = refl;
          count = omega arith;
        },
      )

  -- What `dequeue` does to a valid queue.
  abbrev pub Served : Queue A → Type 0
  Served q =
      ((q.no_elem ≡ 0) × (dequeue q ≡ done none q))
      ⊎ ((x : A) × (q' : Queue A) × (dequeue q ≡ done (some x) q') × Popped q x q')

  dequeue-free :
      (q : Queue A) → q.locked ≡ false → dequeue q ≡ take_front (record q { locked = true })
  unfolding dequeue
  dequeue-free q e = rw e

  served : (q : Queue A) → IsValid q → (n : ℕ) → q.no_elem ≡ n → Served q
  unfolding take_front queue_empty
  served q v zero e =
      let empty : (q.no_elem == 0) ≡ true = ground arith in
      inl
        (e, dequeue-free q v.free ∙ rw empty (λ i. done none (record q { locked = sym v.free i })))
  served q v (suc n) e =
      let (x, q', f, popped) =
        take_front-cons (record q { locked = true })
          (record {
            sized = v.sized;
            front_in = v.front_in;
            bounded = v.bounded;
            narrow = v.narrow;
            behind = v.behind;
            free = refl;
          })
          n e in
      inr (
        x,
        q',
        dequeue-free q v.free ∙ f,
        record {
          valid = popped.valid;
          first = popped.first;
          size = popped.size;
          count = popped.count;
        },
      )

  -- On a valid queue `dequeue` answers EMPTY_QUEUE and changes nothing if no task waits; else it
  -- returns 0 and the task that has waited longest, and leaves a valid queue of the others.
  pub dequeue_lem : (q : Queue A) → IsValid q → Served q
  dequeue_lem q v = served q v q.no_elem refl
