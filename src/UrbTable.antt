-- ===== src/UrbTable.antt =====
-- src/urb.c, `urb_table_t`: for each message whether it was seen and whether it was delivered.
pub mod Flags
pub mod Keep
use distributed_process.Base.{
  ℕ, zero, suc, ◌+◌, ◌-◌, ◌*◌, ◌/◌, ◌%◌, ◌^◌, ◌≤◌, ◌<◌, ◌≡◌, Bool, true, false, List, [], ◌++◌,
  length, get_or, set, get_elem?, none, some, take, tabulate, replicate, ltb, leb, if◌then◌else◌,
  u32, error_memory, error_table, done, err, fault, hang, Prog, Ok, and_then, ◌>>=◌, ◌>>◌, pure,
  crash, reject, read_at, Env,
}

abbrev pub max_size_urb : ℕ
max_size_urb = 1024 * 8

-- `urb_entry_t`, of 8 bytes.
pub record UrbEntry : Type 0 where
  pub seen : ℕ
  pub delivered : ℕ

abbrev pub entry : ℕ → ℕ → UrbEntry
entry s d = record { seen = s; delivered = d }

-- `urb_table_t`. A null `values` is the empty list.
pub record UrbTable : Type 0 where
  pub values : List UrbEntry
  pub no_msgs : ℕ
  pub no_process : ℕ
  pub total_entries : ℕ

unfoldable pub init_urb_table : Env → ℕ → ℕ → Prog UrbTable Ok
init_urb_table env no_msgs no_process t =
    if env.grants (8 * u32 (no_msgs * no_process))
    then done tt (record {
      values = replicate (u32 (no_msgs * no_process)) (entry 0 0);
      no_msgs = no_msgs;
      no_process = no_process;
      total_entries = u32 (no_msgs * no_process);
    })
    else err error_memory (record t { values = []; total_entries = u32 (no_msgs * no_process) })

-- `realloc` to `n` whole entries.
realloc_entries : (ℕ → ℕ) → List UrbEntry → ℕ → List UrbEntry
realloc_entries junk xs n =
    if leb n (length xs)
    then take n xs
    else xs ++ tabulate (λ i. entry (junk (2 * i)) (junk (2 * i + 1))) (length xs) (n - length xs)

-- The new size, a number of entries, is given to `realloc` as a number of bytes. `memset` then
-- writes from byte `8 * old` on; only an empty table has that inside the block, and there it
-- writes nothing.
pub realloc_table : Env → Prog UrbTable Ok
unfolding realloc_entries
realloc_table env t =
    let old = t.total_entries in
    let new = u32 (t.total_entries * 2) in
    if env.grants new
    then (if leb (8 * old + u32 (new + 2 ^ 32 - old)) new
        then done tt (record t {
          values = realloc_entries env.junk t.values (new / 8);
          total_entries = u32 (t.total_entries * 2);
          no_msgs = u32 (t.no_msgs * 2);
        })
        else fault)
    else err error_memory (record t { values = [] })

-- `while(seen_id >= table->total_entries)`, at most `fuel` times.
unfoldable pub grow_until : ℕ → Env → ℕ → Prog UrbTable Ok
grow_until zero env seen_id t = hang
grow_until (suc fuel) env seen_id t =
    let more = and_then (realloc_table env t) (λ _. grow_until fuel env seen_id) in
    if leb t.total_entries seen_id then more else done tt t

-- `table->values[seen_id]` is changed by `f`.
unfoldable pub update_entry : ℕ → (UrbEntry → UrbEntry) → Prog UrbTable Ok
update_entry seen_id f t = elim (get_elem? t.values seen_id) [
  | none ↦ fault
  | some e ↦ done tt (record t { values = set t.values seen_id (f e) })
]

unfoldable pub is_delivered_urb : ℕ → Prog UrbTable ℕ
is_delivered_urb seen_id t =
    if leb t.total_entries seen_id
    then done 0 t
    else (do e ← read_at t.values seen_id; pure e.delivered) t

unfoldable pub add_delivered_urb : Env → ℕ → Prog UrbTable Ok
unfolding grow_until update_entry
add_delivered_urb env seen_id = do
  reject (ltb max_size_urb seen_id) error_table
  grow_until (seen_id + 1) env seen_id
  update_entry seen_id (λ e. record e { delivered = 1 })

unfoldable pub is_seen_urb : ℕ → Prog UrbTable ℕ
is_seen_urb seen_id t =
    if leb t.total_entries seen_id
    then done 0 t
    else (do e ← read_at t.values seen_id; pure e.seen) t

pub add_seen_urb : Env → ℕ → Prog UrbTable Ok
unfolding grow_until update_entry
add_seen_urb env seen_id = do
  reject (ltb max_size_urb seen_id) error_table
  grow_until (seen_id + 1) env seen_id
  update_entry seen_id (λ e. record e { seen = 1 })
