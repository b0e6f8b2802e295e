-- ===== src/Queue.antt =====
-- src/mqueue.c: the task queue that the sender threads process, a ring that grows when it is full.
-- `A` is `queue_task_t`, and `blank` the task whose bytes are all 0, which `calloc` fills a ring
-- with.
pub mod Ring
pub mod Refine
pub mod Fifo
pub mod Runs
use distributed_process.Base.{
  ℕ, zero, suc, ◌+◌, ◌-◌, ◌*◌, ◌%◌, ◌^◌, Bool, true, false, Option, none, some, List, [], length,
  get_elem?, set, replicate, ltb, ◌==◌, if◌then◌else◌, u32, error_memory, error_mutex, done, err,
  fault, hang, Prog, Ok, and_then, ◌>>=◌, ◌>>◌, pure, lock, Env,
}

-- `msg_queue_t`, with whether its mutex is held. A null `elems` is the empty list.
pub record Queue (A : Type 0) : Type 0 where
  pub no_elem : ℕ
  pub qsize : ℕ
  pub front : ℕ
  pub back : ℕ
  pub elems : List A
  pub locked : Bool

-- `sizeof(queue_task_t)`, where pointers have 8 bytes and a mutex has 40.
abbrev pub task_bytes : ℕ
task_bytes = 104

module _ {A : Type 0} (blank : A) where
  unfoldable pub init_queue : Env → ℕ → Prog (Queue A) Ok
  init_queue env size q =
      if env.mutexes
      then (if env.grants (task_bytes * size)
          then done tt (record {
            no_elem = 0;
            qsize = u32 size;
            front = 0;
            back = 0;
            elems = replicate size blank;
            locked = false;
          })
          else err error_memory (record q { no_elem = 0; elems = []; locked = false }))
      else err error_mutex q

  -- The loop of `realloc_queue`: `n` rounds from `i` on; `none` is an access outside a ring.
  unfoldable pub copy_ring : List A → ℕ → ℕ → ℕ → ℕ → List A → Option (List A)
  copy_ring old qsize index i zero new = some new
  copy_ring old qsize index i (suc n) new = elim (get_elem? old index) [
    | none ↦ none
    | some x ↦
        if ltb i (length new)
        then copy_ring old qsize (u32 (index + 1) % qsize) (i + 1) n (set new i x)
        else none
  ]

  unfoldable pub realloc_queue : Env → Prog (Queue A) Ok
  unfolding copy_ring
  realloc_queue env q =
      if env.grants (task_bytes * u32 (q.qsize * 2))
      then elim (copy_ring q.elems q.qsize q.front 0 q.no_elem
          (replicate (u32 (q.qsize * 2)) blank)) [
            | none ↦ fault
            | some elems ↦
                done tt (record q {
                  elems = elems;
                  front = 0;
                  back = q.no_elem;
                  qsize = u32 (q.qsize * 2);
                })
          ]
      else err error_memory (record q { elems = [] })

  abbrev take_mutex : Prog (Queue A) Ok
  take_mutex = lock (λ q. q.locked) (λ q. record q { locked = true })

  -- `if (queue->no_elem == queue->qsize)`; an error returns with the mutex held.
  unfoldable pub make_room : Env → Prog (Queue A) Ok
  make_room env q = if q.no_elem == q.qsize then realloc_queue env q else done tt q

  -- The insertion, and the release of the mutex.
  unfoldable pub insert_back : A → Prog (Queue A) Ok
  insert_back x q =
      if ltb q.back (length q.elems)
      then done tt (record q {
        elems = set q.elems q.back x;
        no_elem = u32 (q.no_elem + 1);
        back = u32 (q.back + 1) % q.qsize;
        locked = false;
      })
      else if length q.elems == 0
      then err error_memory q
      else fault

  unfoldable pub enqueue : Env → A → Prog (Queue A) Ok
  enqueue env x = do take_mutex; make_room env; insert_back x

module _ {A : Type 0} where
  unfoldable pub queue_empty : Queue A → Bool
  queue_empty q = q.no_elem == 0

  -- `none` is EMPTY_QUEUE.
  unfoldable pub take_front : Prog (Queue A) (Option A)
  unfolding queue_empty
  take_front q =
      if queue_empty q
      then done none (record q { locked = false })
      else elim (get_elem? q.elems q.front) [
        | none ↦ fault
        | some x ↦ done (some x) (record q {
          no_elem = q.no_elem - 1;
          front = u32 (q.front + 1) % q.qsize;
          locked = false;
        })
      ]

  unfoldable pub dequeue : Prog (Queue A) (Option A)
  dequeue = lock (λ q. q.locked) (λ q. record q { locked = true }) >> take_front
