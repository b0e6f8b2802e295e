-- ===== src/Queue/Runs.antt =====
-- Sequences of calls on the queue of src/mqueue.c, against the same calls on a list.
use distributed_process.Base.{
  ℕ, suc, ◌+◌, ◌-◌, ◌*◌, ◌^◌, ◌≤◌, ◌<◌, ◌≡◌, ◌∙◌, refl, inl, inr, ap, true, Option, none, some,
  List, [], ◌∷◌, ◌++◌, length, arith, length-tabulate, get_or, done, Env,
}
use distributed_process.Queue.{Queue, enqueue, dequeue}
use distributed_process.Queue.Ring.{slot, contents, IsValid}
use distributed_process.Queue.Fifo.{enqueue_lem, dequeue_lem, Popped}

-- What the threads do to the queue.
pub data Op (A : Type 0) : Type 0 where
  put : A → Op A
  get : Op A

module _ {A : Type 0} where
  -- The answers of the calls on a first-in first-out list.
  unfoldable pub fifo : List (Op A) → List A → List (Option A)
  fifo [] xs = []
  fifo (put x ∷ ops) xs = fifo ops (xs ++ (x ∷ []))
  fifo (get ∷ ops) [] = none ∷ fifo ops []
  fifo (get ∷ ops) (x ∷ xs) = some x ∷ fifo ops xs

  abbrev pub puts : List (Op A) → ℕ
  puts [] = 0
  puts (put x ∷ ops) = suc (puts ops)
  puts (get ∷ ops) = puts ops

module _ {A : Type 0} (blank : A) (env : Env) where
  -- The answers of the calls on a queue; a call that fails or does not return ends them.
  unfoldable pub run : List (Op A) → Queue A → List (Option A)
  run [] q = []
  run (put x ∷ ops) q = elim (enqueue blank env x q) [ done _ q' ↦ run ops q' | _ ↦ [] ]
  run (get ∷ ops) q = elim (dequeue q) [ done out q' ↦ out ∷ run ops q' | _ ↦ [] ]

  length-contents : (q : Queue A) → length (contents blank q) ≡ q.no_elem
  length-contents q =
      length-tabulate (λ k. get_or q.elems (slot q.qsize q.front k) blank) 0 q.no_elem

  nil_of_empty : (q : Queue A) → q.no_elem ≡ 0 → contents blank q ≡ []
  nil_of_empty q e = go (contents blank q) (length-contents q ∙ e)
    where
      go : (xs : List A) → length xs ≡ 0 → xs ≡ []
      go [] h = refl
      go (x ∷ xs) h = absurd (omega arith)

  -- A bound that the ring never outgrows, however often it is doubled.
  record Fits (ops : List (Op A)) (q : Queue A) (bound : ℕ) : Type 0 where
    narrow : bound < 2 ^ 30
    ring : q.qsize ≤ bound
    tasks : (q.no_elem + puts ops) * 2 ≤ bound

  runs :
      ((n : ℕ) → env.grants n ≡ true)
      → (ops : List (Op A)) (q : Queue A) (bound : ℕ) → IsValid q
      → Fits ops q bound
      → run ops q ≡ fifo ops (contents blank q)
  unfolding run fifo
  runs grants [] q bound v f = refl
  runs grants (put x ∷ ops) q bound v f =
      let (q', e, queued) = enqueue_lem blank env q x v (omega (arith, f)) (grants _) in
      let fits : Fits ops q' bound = record {
        narrow = f.narrow;
        ring = omega (arith, queued.growth, f.ring, f.tasks);
        tasks = omega (arith, queued.count, f.tasks);
      } in
      rw (e, run) (runs grants ops q' bound queued.valid fits ∙ ap (fifo ops) queued.added)
  runs grants (get ∷ ops) q bound v f = elim (dequeue_lem blank q v) [
    | inl (empty, e) ↦
        let nothing = nil_of_empty q empty in
        rw (e, run, nothing)
          (ap (λ t. none ∷ t) (runs grants ops q bound v f' ∙ ap (fifo ops) nothing))
    | inr (x, q', e, popped) ↦
        rw (e, run, popped.first)
          (ap (λ t. some x ∷ t) (runs grants ops q' bound popped.valid (less q' popped)))
  ]
    where
      f' : Fits ops q bound
      f' = record { narrow = f.narrow; ring = f.ring; tasks = f.tasks }

      less : {x : A} (q' : Queue A) → Popped blank q x q' → Fits ops q' bound
      less q' popped = record {
        narrow = f.narrow;
        ring = omega (arith, popped.size, f.ring);
        tasks = omega (arith, popped.count, f.tasks);
      }

  -- No sequence of `enqueue`s and `dequeue`s tells a valid queue from a first-in first-out list of
  -- its tasks, if memory is granted, the ring has fewer than 2 ^ 30 slots, and the tasks that wait
  -- or are put are fewer than 2 ^ 29: no task is lost, doubled or overtaken, over wrap-around and
  -- growth.
  pub run_refines :
      (ops : List (Op A)) (q : Queue A)
      → ((n : ℕ) → env.grants n ≡ true)
      → IsValid q
      → q.qsize < 2 ^ 30
      → q.no_elem + puts ops < 2 ^ 29
      → run ops q ≡ fifo ops (contents blank q)
  run_refines ops q grants v ring tasks =
      runs grants ops q (2 ^ 30 - 1) v
        (record { narrow = omega arith; ring = omega arith; tasks = omega arith })
