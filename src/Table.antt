-- ===== src/Table.antt =====
-- src/plink.c, its tables: `uid_table_t`, the acknowledgement table of the perfect link under its
-- mutex, and the table of delivered ids. Entries are `unsigned int`; a table grows by doubling.
pub mod Growth
pub mod Write
pub mod Keep
pub mod Acks
use distributed_process.Base.{
  ℕ, zero, suc, ◌+◌, ◌-◌, ◌*◌, ◌^◌, ◌≤◌, ◌<◌, ◌≡◌, Bool, true, false, List, [], length, get_or, set,
  replicate, ltb, leb, if◌then◌else◌, u32, realloc, memset, ErrorCode, error_memory, error_table,
  error_mutex, Outcome, done, err, fault, hang, Prog, Ok, and_then, ◌>>=◌, ◌>>◌, pure, crash,
  diverge, modify, reject, read_at, lock, put_back, within, Env,
}

abbrev pub max_size : ℕ
max_size = 1024 * 8

-- `uid_table_t`. A null `entries` is the empty list.
pub record UidTable : Type 0 where
  pub no_msgs : ℕ
  pub no_process : ℕ
  pub total_entries : ℕ
  pub entries : List ℕ

-- The product of `unsigned int`s.
abbrev pub table_size : ℕ → ℕ → ℕ
table_size no_msgs no_process = u32 (no_msgs * no_process * no_process)

unfoldable pub init_table_uid : Env → ℕ → ℕ → Prog UidTable Ok
init_table_uid env no_msgs no_process t =
    if env.grants (4 * table_size no_msgs no_process)
    then done tt (record {
      no_msgs = no_msgs;
      no_process = no_process;
      total_entries = table_size no_msgs no_process;
      entries = replicate (table_size no_msgs no_process) 0;
    })
    else err error_memory (record t { entries = [] })

-- 0 outside the table.
unfoldable pub table_read_entry : ℕ → Prog UidTable ℕ
table_read_entry mid t = if leb t.total_entries mid then done 0 t else read_at t.entries mid t

-- One round of the loop of `table_write_entry`. `memset` is given a number of entries where it
-- takes a number of bytes.
pub grow : Env → Prog UidTable Ok
grow env t =
    if env.grants (4 * u32 (t.total_entries * 2))
    then done tt (record {
      no_msgs = u32 (t.no_msgs * 2);
      no_process = t.no_process;
      total_entries = u32 (t.total_entries * 2);
      entries =
          memset t.total_entries (u32 (u32 (t.total_entries * 2) + 2 ^ 32 - t.total_entries))
            (realloc env.junk t.entries (u32 (t.total_entries * 2)));
    })
    else err error_memory (record t { entries = [] })

-- `while(mid >= table->total_entries)`, at most `fuel` times; see `Write` for the fuel.
unfoldable pub grow_until : ℕ → Env → ℕ → Prog UidTable Ok
grow_until zero env mid t = hang
grow_until (suc fuel) env mid t =
    let more = and_then (grow env t) (λ _. grow_until fuel env mid) in
    if leb t.total_entries mid then more else done tt t

-- `table->entries[mid] = value`.
unfoldable pub store_entry : ℕ → ℕ → Prog UidTable Ok
store_entry mid value t =
    if ltb mid (length t.entries)
    then done tt (record t { entries = set t.entries mid value })
    else fault

unfoldable pub table_write_entry : Env → ℕ → ℕ → Prog UidTable Ok
table_write_entry env mid value = do
  reject (ltb max_size mid) error_table
  grow_until (mid + 1) env mid
  store_entry mid value

-- `ack_table_t`, with whether its mutex is held.
pub record AckTable : Type 0 where
  pub table : UidTable
  pub locked : Bool

abbrev in_table : {A : Type 0} → Prog UidTable A → Prog AckTable A
in_table = within (λ a. a.table) (λ a t. record a { table = t })

abbrev take_mutex : Prog AckTable Ok
take_mutex = lock (λ a. a.locked) (λ a. record a { locked = true })

abbrev release : AckTable → AckTable
release a = record a { locked = false }

unfoldable pub init_ack_table : Env → ℕ → ℕ → Prog AckTable Ok
init_ack_table env no_entries no_process a =
    if env.mutexes
    then in_table (init_table_uid env no_entries no_process) (record a { locked = false })
    else err error_mutex a

-- The code comes back after the mutex is released, an error too.
pub is_ack : ℕ → Prog AckTable ℕ
is_ack mid = take_mutex >> λ a. put_back release (in_table (table_read_entry mid) a)

pub set_ack : Env → ℕ → Prog AckTable Ok
set_ack env mid = take_mutex >> λ a. put_back release (in_table (table_write_entry env mid 1) a)

-- `pl_delivered_t` is a `uid_table_t`.
unfoldable pub init_deliver_pl : Env → ℕ → ℕ → Prog UidTable Ok
init_deliver_pl env no_entries no_process = init_table_uid env no_entries no_process

unfoldable pub is_delivered : ℕ → Prog UidTable ℕ
is_delivered mid = table_read_entry mid

unfoldable pub set_delivered : Env → ℕ → Prog UidTable Ok
set_delivered env mid = table_write_entry env mid 1
