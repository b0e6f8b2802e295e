-- ===== src/Process.antt =====
-- A whole process of src/da_proc.c: `net_data`, the threads and sockets that it owns, and the blocks
-- of memory that it has released.
pub mod Threads
pub mod Release
pub mod Main
use distributed_process.Base.{
  ℕ, zero, suc, Bool, true, false, ◌&&◌, ◌||◌, Option, none, some, List, get_elem?, set, ◌+◌, ◌==◌,
  not, if◌then◌else◌, Outcome, done, err, fault, hang, Prog, Ok, within,
}
use distributed_process.Node.{NetData}

-- Where a thread stands. One that is `absent` was never created, and its `pthread_t` holds nothing;
-- one that has `ended` waits to be joined.
pub data Thread : Type 0 where
  absent running ended joined : Thread

-- `sender_thread_t`, with the `sender_thread_arg_t` in it; its pointer to `net_data` is left out.
pub record SenderThread : Type 0 where
  pub thread : Thread
  pub idx : ℕ
  pub socket_fd : ℕ

-- The blocks of a fixed number for a process that `malloc` and its kin have given and that `free` or
-- `fclose` takes back. The nodes of messages that wait stand in the heap of their lists, and the
-- clocks of those nodes, of tasks and of received messages are values, not blocks.
pub data Block : Type 0 where
  book_addresses book_struct dependency_lists dependency_struct queue_elems ack_entries : Block
  urb_values log_buffer log_stream delivered_entries urback_entries pending_lists : Block
  clock_vector sender_threads : Block
  pid_list : ℕ → Block

abbrev kind : Block → ℕ
kind book_addresses = 0
kind book_struct = 1
kind dependency_lists = 2
kind dependency_struct = 3
kind queue_elems = 4
kind ack_entries = 5
kind urb_values = 6
kind log_buffer = 7
kind log_stream = 8
kind delivered_entries = 9
kind urback_entries = 10
kind pending_lists = 11
kind clock_vector = 12
kind sender_threads = 13
kind (pid_list i) = 14

abbrev index : Block → ℕ
index (pid_list i) = i
index b = 0

abbrev pub same_block : Block → Block → Bool
same_block a b = kind a == kind b && index a == index b

-- `senders` is empty where its pointer is null, or dangles because the array was released. `sockets`
-- are the open ones, the latest first, and `bound` is the address at which the receiver's is bound.
-- `log_open` says whether `logdata->file` is open, and `freed` which blocks were released.
pub record Process (A : Type 0) : Type 0 where
  pub net : NetData A
  pub senders : List SenderThread
  pub receiver : Thread
  pub receiver_fd : ℕ
  pub bound : Option A
  pub sockets : List ℕ
  pub log_open : Bool
  pub freed : Block → Bool

abbrev pub in_net : {A B : Type 0} → Prog (NetData A) B → Prog (Process A) B
in_net = within (λ p. p.net) (λ p d. record p { net = d })

-- The block is released, if the pointer to it is not null.
abbrev pub mark_freed : {A : Type 0} → Block → Bool → Process A → Process A
mark_freed b null p = record p { freed = λ x. (same_block x b && not null) || p.freed x }
