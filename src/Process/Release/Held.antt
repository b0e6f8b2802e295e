-- ===== src/Process/Release/Held.antt =====
-- The blocks that the parts of a process point to, which `free_data` of src/da_proc.c may release.
use distributed_process.Base.{
  ℕ, ◌≡◌, refl, Bool, true, false, not, ◌||◌, none, some, List, length, get_elem?, ◌==◌,
}
use distributed_process.Dependencies.{DependencyList, Pointer}
use distributed_process.Process.{
  Block, book_addresses, book_struct, dependency_lists, dependency_struct, queue_elems, ack_entries,
  urb_values, log_buffer, log_stream, delivered_entries, urback_entries, pending_lists,
  clock_vector, sender_threads, pid_list, Process,
}
use distributed_process.Process.Release.{is_none}

abbrev pub has_list : List DependencyList → ℕ → Bool
has_list ls i = elim (get_elem? ls i) [ none ↦ false | some l ↦ not (is_none l.pid_list) ]

abbrev pub has_lists : Pointer → Bool
has_lists none = false
has_lists (some m) = not (length m.dep_lists == 0)

abbrev pub has_pids : Pointer → ℕ → Bool
has_pids none i = false
has_pids (some m) i = has_list m.dep_lists i

-- The pointer to the block is not null, by the parts of a process.
abbrev pub held : {A : Type 0} → Process A → Block → Bool
held p book_addresses = not (is_none p.net.address_book)
held p book_struct = not (is_none p.net.address_book)
held p dependency_lists = has_lists p.net.dependencies
held p dependency_struct = not (is_none p.net.dependencies)
held p queue_elems = not (length p.net.task_q.elems == 0)
held p ack_entries = not (length p.net.pl_acks.table.entries == 0)
held p urb_values = not (length p.net.urb_table.values == 0)
held p log_buffer = not (length p.net.logdata.buffer == 0)
held p log_stream = p.log_open
held p delivered_entries = not (length p.net.pl_delivered.entries == 0)
held p urback_entries = not (length p.net.urbacks.entries == 0)
held p pending_lists = not (length p.net.lcb_pending.lists == 0)
held p clock_vector = not (length p.net.vector_clock.vector == 0)
held p sender_threads = not (length p.senders == 0)
held p (pid_list i) = has_pids p.net.dependencies i

-- What `free_data` releases: all but the array of the senders and the structure of the matrix.
abbrev pub is_released : Block → Bool
is_released sender_threads = false
is_released dependency_struct = false
is_released b = true

pub not-not : (b : Bool) → not (not b) ≡ b
not-not true = refl
not-not false = refl

pub or-false : (b : Bool) → (b || false) ≡ b
or-false true = refl
or-false false = refl
