-- ===== src/Node/Frame.antt =====
-- What a property of a process has to bear so that the calls on it keep it: each change of a part,
-- where the call returns.
use distributed_process.Base.{ℕ, Bool, Option, List, Outcome, Ends, Leaves, Env}
use distributed_process.Table.{UidTable, is_ack, set_ack, is_delivered, set_delivered}
use distributed_process.UrbTable.{is_seen_urb, is_delivered_urb}
use distributed_process.UrbTable.Flags.{Flag, add}
use distributed_process.Queue.{Queue}
use distributed_process.Log.{print_line}
use distributed_process.AddrBook.{AddrBook}
use distributed_process.Message.{VecClock, Task}
use distributed_process.Pending.{LcbPending}
use distributed_process.Node.{NetData, in_log, in_urb_table, in_acks, in_delivered}

module _ {A : Type 0} (Q : NetData A → Type 0) where
  -- Where the call returns, the property holds.
  abbrev pub Keeps : {B : Type 0} → Outcome (NetData A) B → Type 0
  Keeps o = Ends (λ b d. Q d) o

  pub record Respects : Type 0 where
    pub clock :
        (d : NetData A) (c : VecClock) (b : Bool)
        → Q d
        → Q (record d { vector_clock = c; clock_locked = b })
    pub pending : (d : NetData A) (p : LcbPending) → Q d → Q (record d { lcb_pending = p })
    pub urbacks : (d : NetData A) (t : UidTable) → Q d → Q (record d { urbacks = t })
    pub asked : (j : ℕ) (d : NetData A) → Q d → Leaves Q (in_acks (is_ack j) d)
    pub acked : (env : Env) (j : ℕ) (d : NetData A) → Q d → Keeps (in_acks (set_ack env j) d)
    pub looked : (j : ℕ) (d : NetData A) → Q d → Keeps (in_delivered (is_delivered j) d)
    pub entered :
        (env : Env) (j : ℕ) (d : NetData A) → Q d → Keeps (in_delivered (set_delivered env j) d)
    pub queue : (d : NetData A) (t : Queue Task) → Q d → Q (record d { task_q = t })
    pub book : (d : NetData A) (b : Option (AddrBook A)) → Q d → Q (record d { address_book = b })
    pub wire : (d : NetData A) (w : List (A × List ℕ)) → Q d → Q (record d { wire = w })
    pub line :
        (env : Env) (text : List ℕ) (d : NetData A) → Q d → Keeps (in_log (print_line env text) d)
    pub flag :
        (flag : Flag) (env : Env) (j : ℕ) (d : NetData A)
        → Q d
        → Keeps (in_urb_table (add flag env j) d)
    pub seen : (j : ℕ) (d : NetData A) → Q d → Keeps (in_urb_table (is_seen_urb j) d)
    pub was_delivered : (j : ℕ) (d : NetData A) → Q d → Keeps (in_urb_table (is_delivered_urb j) d)
