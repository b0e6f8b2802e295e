-- ===== src/Node/Clock.antt =====
-- src/pending.c, the vector clock of a process under its mutex: how many messages of each process
-- it has delivered, and whether a received clock lets a message be delivered.
pub mod Deliverable
pub mod Frame
use distributed_process.Base.{
  ℕ, zero, suc, ◌+◌, ◌*◌, ◌^◌, ◌%◌, Bool, true, false, Option, none, some, List, [], ◌∷◌, length,
  get_elem?, set, replicate, ltb, if◌then◌else◌, u32, pred32, pred64, error_memory, error_mutex,
  error_pid, done, err, fault, hang, Prog, Ok, and_then, ◌>>=◌, ◌>>◌, pure, read_at, lock, put_back,
  Env,
}
use distributed_process.Dependencies.{DependencyList, Dependencies, Pointer, get_dependencies}
use distributed_process.Message.{VecClock, alloc_vector, no_clock}
use distributed_process.Node.{NetData}

-- A null list is the empty list.
abbrev pub block : Option (List ℕ) → List ℕ
block none = []
block (some xs) = xs

-- The list that `get_dependencies` points to; `none` is the null pointer, or one past the array.
abbrev pub dependency_list : Pointer → ℕ → Option DependencyList
dependency_list none pid = none
dependency_list (some d) pid = elim (get_dependencies (some d) pid) [
  | none ↦ none
  | some i ↦ get_elem? d.dep_lists i
]

-- The loop over the processes that the sender depends on, `n` rounds; `none` is a read outside an
-- array. `theirs` is the clock of the message, `ours` that of the process.
pub no_later : List ℕ → List ℕ → List ℕ → ℕ → Bool → Option Bool
no_later pids theirs ours zero is_bigger = some is_bigger
no_later [] theirs ours (suc n) is_bigger = none
no_later (p ∷ pids) theirs ours (suc n) is_bigger = elim (get_elem? theirs (pred32 (u32 p))) [
  | none ↦ none
  | some a ↦ elim (get_elem? ours (pred32 (u32 p))) [
    | none ↦ none
    | some b ↦ no_later pids theirs ours n (if ltb b a then false else is_bigger)
  ]
]

module _ {A : Type 0} where
  abbrev take_mutex : Prog (NetData A) Ok
  take_mutex = lock (λ d. d.clock_locked) (λ d. record d { clock_locked = true })

  abbrev release : NetData A → NetData A
  release d = record d { clock_locked = false }

  unfoldable pub init_vector_mutex : Env → ℕ → Prog (NetData A) Ok
  init_vector_mutex env num_proc d =
      if env.mutexes
      then put_back (λ c. record d { vector_clock = c; clock_locked = false })
          (alloc_vector env num_proc (replicate num_proc 0) d.vector_clock)
      else err error_mutex d

  -- The count of process `pid` goes up by one; the new count is what `seq` receives.
  unfoldable pub count_up : ℕ → Prog (NetData A) ℕ
  count_up i d = elim (get_elem? d.vector_clock.vector i) [
    | none ↦ fault
    | some n ↦ done (u32 (n + 1)) (record d {
      vector_clock = record (d.vector_clock) { vector = set d.vector_clock.vector i (u32 (n + 1)) };
      clock_locked = false;
    })
  ]

  unfoldable pub update_vec_clock : ℕ → Prog (NetData A) ℕ
  unfolding count_up
  update_vec_clock pid d =
      if ltb d.num_proc pid then err error_pid d else (do take_mutex; count_up (pred32 pid)) d

  -- Where the copy fails the mutex stays held.
  pub get_vec_clock_copy : Env → Prog (NetData A) VecClock
  get_vec_clock_copy env = take_mutex >> λ d.
      elim (alloc_vector env d.num_proc d.vector_clock.vector no_clock) [
        | done _ c ↦ done c (release d)
        | err e c ↦ err e d
        | fault ↦ fault
        | hang ↦ hang
      ]

  -- `dep` is what `get_dependencies` has found; a null `pid_list` is read only if it has an entry.
  unfoldable pub compare_clocks : DependencyList → VecClock → Prog (NetData A) Bool
  compare_clocks dep clock d =
      elim (no_later (block dep.pid_list) clock.vector d.vector_clock.vector dep.list_len true) [
        | none ↦ fault
        | some b ↦ done b (record d { clock_locked = false })
      ]

  -- Whether the message with clock `clock` of process `pid` can be delivered. The list is found
  -- before the mutex is taken, and read after.
  unfoldable pub test_vec_clock : VecClock → ℕ → Prog (NetData A) Bool
  unfolding compare_clocks no_later
  test_vec_clock clock pid = take_mutex >> λ d. elim (dependency_list d.dependencies pid) [
    | none ↦ fault
    | some dep ↦ compare_clocks dep clock d
  ]
