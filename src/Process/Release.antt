-- ===== src/Process/Release.antt =====
-- What a process releases at its end: `free_queue` of src/mqueue.c, `free_table_uid`, `free_ack_table`
-- and `free_delivered` of src/plink.c, `free_urb_table` and `free_ack_urb` of src/urb.c,
-- `free_log_data` of src/log.c, `free_addr_book` of src/addrbook.c, `free_dependencies` of
-- src/dependencies.c, and `free_data` of src/da_proc.c.
pub mod Held
pub mod Lists
pub mod Parts
pub mod Freed
use distributed_process.Base.{
  ℕ, zero, suc, ◌+◌, ◌==◌, Bool, true, false, Option, none, some, [], length, get_elem?, set, not,
  if◌then◌else◌, Outcome, done, err, fault, hang, Prog, Ok, and_then, ◌>>=◌, ◌>>◌, pure, modify,
  ignore,
}
use distributed_process.Table.{UidTable}
use distributed_process.UrbTable.{UrbTable}
use distributed_process.Queue.{Queue}
use distributed_process.AddrBook.{AddrBook}
use distributed_process.Dependencies.{DependencyList, Dependencies, Pointer}
use distributed_process.Message.{Task, VecClock, destroy_vector}
use distributed_process.Pending.{LcbPending, destroy_pending_lcb}
use distributed_process.Node.{NetData, in_pending}
use distributed_process.Process.{
  Block, book_addresses, book_struct, dependency_lists, queue_elems, ack_entries, urb_values,
  log_buffer, log_stream, delivered_entries, urback_entries, pending_lists, clock_vector, pid_list,
  Process, in_net, mark_freed,
}

abbrev pub is_none : {A : Type 0} → Option A → Bool
is_none none = true
is_none (some a) = false

module _ {A : Type 0} where
  -- `free` of a pointer, which is left as it is: nothing where it is null, and a second time is a
  -- fault.
  abbrev pub release : Block → Bool → Prog (Process A) Ok
  release b null p = if p.freed b then fault else done tt (mark_freed b null p)

  pub free_addr_book : Prog (Process A) Ok
  free_addr_book p = elim p.net.address_book [
    | none ↦ done tt p
    | some b ↦ (do release book_addresses false; release book_struct false) p
  ]

  -- The matrix that the process points to.
  abbrev pub set_matrix : Dependencies → Process A → Process A
  set_matrix m p = record p { net = record (p.net) { dependencies = some m } }

  -- The loop over the lists, `n` rounds from `l` on. The pointer to each is set to null.
  pub free_lists : ℕ → ℕ → Dependencies → Prog (Process A) Ok
  free_lists l zero m p = done tt (set_matrix m p)
  free_lists l (suc n) m p = elim (get_elem? m.dep_lists l) [
    | none ↦ fault
    | some list ↦
        free_lists (l + 1) n
          (record m { dep_lists = set m.dep_lists l (record list { pid_list = none }) })
          (mark_freed (pid_list l) (is_none list.pid_list) p)
  ]

  -- The structure itself is not released.
  pub free_matrix : Pointer → Prog (Process A) Ok
  unfolding free_lists
  free_matrix none p = done tt p
  free_matrix (some m) p =
      if length m.dep_lists == 0
      then done tt (set_matrix (record m { num_proc = 0 }) p)
      else (do free_lists 0 m.num_proc (record m { num_proc = 0 }); release dependency_lists false)
          p

  pub free_dependencies : Prog (Process A) Ok
  unfolding free_matrix
  free_dependencies p = free_matrix p.net.dependencies p

  pub free_queue : Prog (Process A) Ok
  free_queue p =
      let q = p.net.task_q in
      done tt (record (mark_freed queue_elems (length q.elems == 0) p) {
        net = record (p.net) { task_q = record q { elems = [] } };
      })

  -- `table->entries = NULL` comes after `free`, for the table of acknowledgements, the only one that
  -- is released so.
  pub free_table_uid : Prog (Process A) Ok
  free_table_uid p =
      let a = p.net.pl_acks in
      done tt (record (mark_freed ack_entries (length a.table.entries == 0) p) {
        net = record (p.net) { pl_acks = record a { table = record (a.table) { entries = [] } } };
      })

  pub free_ack_table : Prog (Process A) Ok
  unfolding free_table_uid
  free_ack_table = free_table_uid

  pub free_urb_table : Prog (Process A) Ok
  free_urb_table p =
      let t = p.net.urb_table in
      done tt (record (mark_freed urb_values (length t.values == 0) p) {
        net = record (p.net) { urb_table = record t { values = [] } };
      })

  pub free_log_data : Prog (Process A) Ok
  free_log_data = do
    λ p. release log_buffer (length p.net.logdata.buffer == 0) p
    λ p. release log_stream (not p.log_open) p

  pub free_delivered : Prog (Process A) Ok
  free_delivered p = release delivered_entries (length p.net.pl_delivered.entries == 0) p

  pub free_ack_urb : Prog (Process A) Ok
  free_ack_urb p = release urback_entries (length p.net.urbacks.entries == 0) p

  -- `free_data` behind the address book and the matrix. `destroy_pending_lcb` and `destroy_vector`
  -- release one block each; an error of theirs is dropped.
  pub free_parts : Prog (Process A) Ok
  unfolding free_queue free_table_uid free_ack_table free_urb_table free_log_data free_delivered
      free_ack_urb
  free_parts = do
    free_queue
    free_ack_table
    free_urb_table
    free_log_data
    free_delivered
    free_ack_urb
    λ p. release pending_lists (length p.net.lcb_pending.lists == 0) p
    λ p. ignore (in_net (in_pending destroy_pending_lcb) p)
    λ p. release clock_vector (length p.net.vector_clock.vector == 0) p

  unfoldable pub free_data : Prog (Process A) Ok
  unfolding free_addr_book free_lists free_matrix free_dependencies free_parts
  free_data = do free_addr_book; free_dependencies; free_parts
