-- ===== src/FifoTable.antt =====
-- src/fifo.c, its two tables: `pending_t`, which messages have come and wait, and `next_t`, how
-- many messages of each process were delivered.
pub mod Access
use distributed_process.Base.{
  ℕ, zero, suc, ◌+◌, ◌-◌, ◌*◌, ◌/◌, ◌^◌, ◌%◌, Bool, true, false, List, [], length, get_elem?, set,
  none, some, replicate, ltb, leb, if◌then◌else◌, u32, pred32, realloc, error_memory, error_table,
  done, err, fault, hang, Prog, Ok, and_then, ◌>>=◌, ◌>>◌, pure, reject, read_at, Env,
}

abbrev pub max_size_pending : ℕ
max_size_pending = 1024 * 8

-- `pending_t`. A null `bol` is the empty list.
pub record PendingTable : Type 0 where
  pub bol : List ℕ
  pub no_msgs : ℕ
  pub no_process : ℕ
  pub total_entries : ℕ

pub init_pending : Env → ℕ → ℕ → Prog PendingTable Ok
init_pending env no_msgs no_process t =
    let total = u32 (no_msgs * no_process) in
    if env.grants (4 * total)
    then done tt (record {
      bol = replicate total 0;
      no_msgs = no_msgs;
      no_process = no_process;
      total_entries = total;
    })
    else err error_memory (record t { bol = []; total_entries = total })

-- The new size, a number of entries, is given to `realloc` as a number of bytes. `memset` then
-- writes from byte `4 * old` on; only an empty table has that inside the block, and there it writes
-- nothing.
pub realloc_pending : Env → Prog PendingTable Ok
realloc_pending env t =
    let old = t.total_entries in
    let new = u32 (t.total_entries * 2) in
    if env.grants new
    then (if leb (4 * old + u32 (new + 2 ^ 32 - old)) new
        then done tt (record t {
          bol = realloc env.junk t.bol (new / 4);
          total_entries = new;
          no_msgs = u32 (t.no_msgs * 2);
        })
        else fault)
    else err error_memory (record t { bol = [] })

-- `while(seen_id >= pending->total_entries)`, at most `fuel` times.
pub pending_until : ℕ → Env → ℕ → Prog PendingTable Ok
pending_until zero env seen_id t = hang
pending_until (suc fuel) env seen_id t =
    let more = and_then (realloc_pending env t) (λ _. pending_until fuel env seen_id) in
    if leb t.total_entries seen_id then more else done tt t

-- `pending->bol[seen_id] = value`.
pub store_pending : ℕ → ℕ → Prog PendingTable Ok
store_pending seen_id value t =
    if ltb seen_id (length t.bol)
    then done tt (record t { bol = set t.bol seen_id value })
    else fault

pub add_pending : Env → ℕ → ℕ → Prog PendingTable Ok
unfolding pending_until realloc_pending store_pending
add_pending env seen_id value = do
  reject (ltb max_size_pending seen_id) error_table
  pending_until (seen_id + 1) env seen_id
  store_pending seen_id value

-- 0 outside the table.
pub get_pending : ℕ → Prog PendingTable ℕ
get_pending seen_id t = if leb t.total_entries seen_id then done 0 t else read_at t.bol seen_id t

pub free_pending : Prog PendingTable Ok
free_pending t = done tt (record t { bol = [] })

-- `next_t`. A null `entries` is the empty list.
pub record NextTable : Type 0 where
  pub no_process : ℕ
  pub entries : List ℕ

pub init_next : Env → ℕ → Prog NextTable Ok
init_next env no_process t =
    if env.grants (4 * no_process)
    then done tt (record { entries = replicate no_process 0; no_process = no_process })
    else err error_memory (record t { entries = [] })

-- The result is an `int` in the code, and here its value as an `unsigned int`.
pub get_next : ℕ → Prog NextTable ℕ
get_next pid t =
    if ltb t.no_process pid
    then err error_table t
    else (do x ← read_at t.entries (pred32 pid); pure (u32 (x + 1))) t

pub incr_next : ℕ → Prog NextTable Ok
incr_next pid t =
    if ltb t.no_process pid
    then err error_table t
    else (do
      x ← read_at t.entries (pred32 pid)
      λ t. done tt (record t { entries = set t.entries (pred32 pid) (u32 (x + 1)) }))
        t

pub free_next : Prog NextTable Ok
free_next t = done tt (record t { entries = [] })
