-- ===== src/Node.antt =====
-- `net_data_t` of include/data.h: all that one process knows, and the datagrams that it has sent.
-- Its children are the layers of the protocol. `A` is the system's `struct sockaddr_in`.
pub mod Frame
pub mod Clock
pub mod Causal
pub mod Broadcast
pub mod Link
pub mod Start
pub mod Fifo
pub mod Parser
pub mod Run
use distributed_process.Base.{ℕ, Bool, true, false, Option, List, Prog, Ok, within, lock, done}
use distributed_process.Table.{UidTable, AckTable}
use distributed_process.UrbTable.{UrbTable}
use distributed_process.FifoTable.{PendingTable, NextTable}
use distributed_process.Queue.{Queue}
use distributed_process.Log.{LogData}
use distributed_process.AddrBook.{AddrBook}
use distributed_process.Dependencies.{Pointer}
use distributed_process.Message.{VecClock, Task}
use distributed_process.Pending.{LcbPending}

-- The threads and the sockets are left out. `wire` holds the
-- datagrams that `sendto` has taken, the latest first.
pub record NetData (A : Type 0) : Type 0 where
  pub address_book : Option (AddrBook A)
  pub self_pid : ℕ
  pub num_proc : ℕ
  pub num_msg : ℕ
  pub pl_acks : AckTable
  pub pl_delivered : UidTable
  pub task_q : Queue Task
  pub pending : PendingTable
  pub next : NextTable
  pub urb_table : UrbTable
  pub urbacks : UidTable
  pub logdata : LogData
  pub dependencies : Pointer
  pub lcb_pending : LcbPending
  pub vector_clock : VecClock
  pub clock_locked : Bool
  pub wire : List (A × List ℕ)

-- A function on one part of the process.
module _ {A B : Type 0} where
  abbrev pub in_acks : Prog AckTable B → Prog (NetData A) B
  in_acks = within (λ d. d.pl_acks) (λ d t. record d { pl_acks = t })

  abbrev pub in_delivered : Prog UidTable B → Prog (NetData A) B
  in_delivered = within (λ d. d.pl_delivered) (λ d t. record d { pl_delivered = t })

  abbrev pub in_queue : Prog (Queue Task) B → Prog (NetData A) B
  in_queue = within (λ d. d.task_q) (λ d q. record d { task_q = q })

  abbrev pub in_urb_table : Prog UrbTable B → Prog (NetData A) B
  in_urb_table = within (λ d. d.urb_table) (λ d t. record d { urb_table = t })

  abbrev pub in_urbacks : Prog UidTable B → Prog (NetData A) B
  in_urbacks = within (λ d. d.urbacks) (λ d t. record d { urbacks = t })

  abbrev pub in_log : Prog LogData B → Prog (NetData A) B
  in_log = within (λ d. d.logdata) (λ d l. record d { logdata = l })

  abbrev pub in_pending : Prog LcbPending B → Prog (NetData A) B
  in_pending = within (λ d. d.lcb_pending) (λ d p. record d { lcb_pending = p })

  abbrev pub in_book : Prog (Option (AddrBook A)) B → Prog (NetData A) B
  in_book = within (λ d. d.address_book) (λ d b. record d { address_book = b })

  abbrev pub in_fifo : Prog PendingTable B → Prog (NetData A) B
  in_fifo = within (λ d. d.pending) (λ d t. record d { pending = t })

  abbrev pub in_next : Prog NextTable B → Prog (NetData A) B
  in_next = within (λ d. d.next) (λ d t. record d { next = t })
