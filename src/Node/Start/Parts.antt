-- ===== src/Node/Start/Parts.antt =====
-- What each step of the set-up of src/da_proc.c leaves, with memory granted: an empty part.
use distributed_process.Base.{
  ℕ, zero, suc, ◌+◌, ◌*◌, ◌^◌, ◌≤◌, ◌<◌, ◌≡◌, refl, ap, true, false, [], ◌∷◌, length, replicate,
  length-replicate, get_or-replicate, take, ltb, u32, arith, done, Env,
}
use distributed_process.Table.{UidTable, AckTable, init_table_uid, init_ack_table, init_deliver_pl}
use distributed_process.Table.Growth
use distributed_process.Table.Growth.{value}
use distributed_process.UrbTable.{UrbTable, entry, init_urb_table}
use distributed_process.UrbTable.Flags
use distributed_process.UrbTable.Flags.{flags}
use distributed_process.Queue.{Queue, task_bytes, init_queue}
use distributed_process.Log.{LogData, init_log_data, digits}
use distributed_process.Message.{VecClock, Task, blank_task, alloc_vector}
use distributed_process.Pending.{LcbPending, empty_list, init_pending_lcb}
use distributed_process.Node.{NetData}
use distributed_process.Node.Clock.{init_vector_mutex}
use distributed_process.Node.Start.{queue_len, orig_table_size, msg_buf_max_size, name_file}

abbrev pub empty_queue : Queue Task
empty_queue = record {
  no_elem = 0;
  qsize = queue_len;
  front = 0;
  back = 0;
  elems = replicate queue_len blank_task;
  locked = false;
}

abbrev pub empty_table : ℕ → UidTable
empty_table n = record {
  no_msgs = orig_table_size;
  no_process = n;
  total_entries = orig_table_size * n * n;
  entries = replicate (orig_table_size * n * n) 0;
}

abbrev pub empty_flags : ℕ → UrbTable
empty_flags n = record {
  values = replicate (orig_table_size * n) (entry 0 0);
  no_msgs = orig_table_size;
  no_process = n;
  total_entries = orig_table_size * n;
}

abbrev pub empty_log : LogData → LogData
empty_log l = record l {
  buf_max_size = msg_buf_max_size;
  buf_current_size = 0;
  buffer = replicate msg_buf_max_size 0;
  file = [];
}

abbrev pub empty_pending : ℕ → LcbPending → LcbPending
empty_pending n p = record p { lists = replicate n empty_list; num_proc = n }

abbrev pub zero_clock : ℕ → VecClock
zero_clock n = record { num_proc = n; vector = replicate n 0 }

-- The size of a table is an `unsigned int`.
pub record IsSmall (n : ℕ) : Type 0 where
  pub positive : 0 < n
  pub narrow : orig_table_size * n * n < 2 ^ 32

take-replicate : (n x : ℕ) → take n (replicate n x) ≡ replicate n x
take-replicate zero x = refl
take-replicate (suc n) x = ap (λ xs. x ∷ xs) (take-replicate n x)

square : (n : ℕ) → 0 < n → orig_table_size * n ≤ orig_table_size * n * n
square n h = grind arith

pub value-empty_table : (n i : ℕ) → value (empty_table n) i ≡ 0
value-empty_table n i = ground (arith, get_or-replicate {A = ℕ} (orig_table_size * n * n) i 0)

pub flags-empty_flags : (n i : ℕ) → flags (empty_flags n) i ≡ entry 0 0
flags-empty_flags n i = ground (arith, get_or-replicate (orig_table_size * n) i (entry 0 0))

module _ (n : ℕ) (s : IsSmall n) where
  pub empty_table-IsValid : Growth.IsValid (empty_table n)
  empty_table-IsValid = record {
    sized = length-replicate (orig_table_size * n * n) 0;
    positive = omega (arith, square n s.positive, s.positive);
  }

  pub empty_flags-IsValid : Flags.IsValid (empty_flags n)
  empty_flags-IsValid = record {
    sized = length-replicate (orig_table_size * n) (entry 0 0);
    positive = omega (arith, s.positive);
    small = omega (arith, square n s.positive, s.narrow);
  }

  pub narrow_lem : u32 n ≡ n
  narrow_lem = omega (arith, square n s.positive, s.narrow)

  module _ (env : Env) (grants : (k : ℕ) → env.grants k ≡ true) (mutexes : env.mutexes ≡ true) where
    pub init_queue_lem :
        (q : Queue Task) → init_queue blank_task env queue_len q ≡ done tt empty_queue
    unfolding init_queue
    init_queue_lem q = rw (mutexes, grants (task_bytes * queue_len))

    pub init_table_lem :
        (t : UidTable) → init_table_uid env orig_table_size n t ≡ done tt (empty_table n)
    unfolding init_table_uid
    init_table_lem t =
        let table : u32 (orig_table_size * n * n) ≡ orig_table_size * n * n =
          omega (arith, s.narrow) in
        rw (table, grants (4 * (orig_table_size * n * n)))

    pub init_deliver_lem :
        (t : UidTable) → init_deliver_pl env orig_table_size n t ≡ done tt (empty_table n)
    unfolding init_deliver_pl
    init_deliver_lem t = init_table_lem t

    pub init_ack_lem :
        (a : AckTable)
        → init_ack_table env orig_table_size n a
          ≡ done tt (record { table = empty_table n; locked = false })
    unfolding init_ack_table
    init_ack_lem a = ground (arith, mutexes, init_table_lem a.table)

    pub init_urb_lem :
        (t : UrbTable) → init_urb_table env orig_table_size n t ≡ done tt (empty_flags n)
    unfolding init_urb_table
    init_urb_lem t =
        let wide : u32 (orig_table_size * n) ≡ orig_table_size * n =
          omega (arith, square n s.positive, s.narrow) in
        rw (wide, grants (8 * (orig_table_size * n)))

    pub init_pending_lem : (p : LcbPending) → init_pending_lcb env n p ≡ done tt (empty_pending n p)
    unfolding init_pending_lcb
    init_pending_lem p = rw (grants _)

    pub init_clock_lem :
        {A : Type 0} (d : NetData A)
        → init_vector_mutex env n d
          ≡ done tt (record d { vector_clock = zero_clock n; clock_locked = false })
    unfolding init_vector_mutex alloc_vector
    init_clock_lem d =
        let enough : ltb (length (replicate {A = ℕ} n 0)) n ≡ false =
          ground (arith, length-replicate {A = ℕ} n 0) in
        rw (mutexes, grants (4 * n), enough, take-replicate n 0)

    pub init_log_lem :
        (l : LogData) → init_log_data env true msg_buf_max_size l ≡ done tt (empty_log l)
    unfolding init_log_data
    init_log_lem l = rw (grants msg_buf_max_size)

-- The name of the file has room for a process id of one digit.
one_digit : (p : ℕ) → p < 10 → length (digits 20 p) ≡ 1
unfolding digits
one_digit p h = ground arith

pub name_file_lem : {A : Type 0} (d : NetData A) → d.self_pid < 10 → name_file d ≡ done tt d
unfolding name_file
name_file_lem d h =
    let fits : ltb 14 (length (digits 20 d.self_pid) + 13) ≡ false =
      ground (arith, one_digit d.self_pid h) in
    rw fits
