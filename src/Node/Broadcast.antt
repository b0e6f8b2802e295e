-- ===== src/Node/Broadcast.antt =====
-- src/beb.c, the broadcast half of src/urb.c, and `send_lcb` of src/lcb.c. A broadcast puts one
-- task for each other process on the queue.
pub mod Ids
pub mod Quorum
pub mod Tasks
pub mod Kept
pub mod Once
pub mod Frame
use distributed_process.Base.{
  ℕ, zero, suc, ◌+◌, ◌-◌, ◌*◌, ◌/◌, ◌%◌, ◌^◌, Bool, true, false, Option, none, some, List, [],
  length, get_elem?, set, ltb, leb, ◌==◌, if◌then◌else◌, u32, pred32, pred64, done, err, fault,
  hang, Prog, Ok, and_then, ◌>>=◌, ◌>>◌, pure, read_at, Env,
}
use distributed_process.Table.{UidTable, table_write_entry}
use distributed_process.UrbTable.{is_seen_urb, is_delivered_urb, add_seen_urb, add_delivered_urb}
use distributed_process.Queue.{enqueue}
use distributed_process.Log.{log_urb_broadcast}
use distributed_process.Message.{
  VecClock, no_clock, FifoMsg, LcbMsg, UrbMsg, Msg, Task, blank_task, alloc_vector,
}
use distributed_process.Node.{NetData, in_queue, in_urb_table, in_urbacks, in_log}
use distributed_process.Node.Clock.{get_vec_clock_copy}
use distributed_process.Node.Causal.{deliver_lcb}

-- The id of a message, from its sequence number and its original sender.
abbrev pub seen_id_of : ℕ → ℕ → ℕ → ℕ
seen_id_of num_proc sequence_num sender =
    u32 (num_proc * pred32 sequence_num + sender + (2 ^ 32 - 1))

-- The place of process `pid` in the row of a message.
abbrev pub row_id : ℕ → ℕ → ℕ → ℕ
row_id num_proc seen_id pid = u32 (num_proc * seen_id + pid + (2 ^ 32 - 1))

-- The message of `send_beb` to process `i`.
abbrev pub beb_msg : ℕ → ℕ → UrbMsg → ℕ → Msg
beb_msg num_proc self m i = record {
  urb_msg = m;
  mid = row_id num_proc m.seen_id self;
  ackid = row_id num_proc m.seen_id i;
  sender = self;
  mtype = 0;
}

abbrev pub with_clock : Msg → VecClock → Msg
with_clock m c = record m {
  urb_msg = record (m.urb_msg) { lcb_msg = record (m.urb_msg.lcb_msg) { vec_clock = c } };
}

module _ {A : Type 0} where
  unfoldable pub put_task : Env → Task → Prog (NetData A) Ok
  put_task env t = in_queue (enqueue blank_task env t)

  -- One round of the loop of `send_beb`. Where the clock cannot be copied the task is put on the
  -- queue all the same, with the null pointer for a clock.
  pub send_one : Env → UrbMsg → ℕ → Prog (NetData A) Ok
  unfolding put_task
  send_one env m i d =
      let message = beb_msg d.num_proc (u32 d.self_pid) m i in
      elim (alloc_vector env d.num_proc m.lcb_msg.vec_clock.vector m.lcb_msg.vec_clock) [
        | done _ c ↦ put_task env (record { pid_dest = i; msg = with_clock message c }) d
        | err _ c ↦ put_task env (record { pid_dest = i; msg = with_clock message c }) d
        | fault ↦ fault
        | hang ↦ hang
      ]

  -- `n` rounds from process `i` on.
  pub beb_loop : Env → UrbMsg → ℕ → ℕ → Prog (NetData A) Ok
  beb_loop env m zero i d = done tt d
  beb_loop env m (suc n) i d =
      and_then (if i == u32 d.self_pid then done tt d else send_one env m i d)
        (λ _. beb_loop env m n (i + 1))

  pub send_beb : Env → UrbMsg → Prog (NetData A) Ok
  unfolding beb_loop send_one
  send_beb env m d = beb_loop env m (u32 d.num_proc) 1 d

  unfoldable pub set_ack_urb : Env → ℕ → Prog (NetData A) Ok
  set_ack_urb env mid = in_urbacks (table_write_entry env mid 1)

  pub send_urb : Env → FifoMsg → LcbMsg → Prog (NetData A) Ok
  unfolding set_ack_urb send_beb
  send_urb env m lcb d =
      let seen_id = seen_id_of d.num_proc m.sequence_num m.original_sender in
      let mid = row_id d.num_proc seen_id d.self_pid in
      (do
        in_urb_table (add_seen_urb env seen_id)
        set_ack_urb env mid
        in_log (log_urb_broadcast env m.sequence_num)
        send_beb env (record { lcb_msg = lcb; fifo_msg = m; seen_id = seen_id; mid = mid }))
        d

  -- The write of the sender's own entry in the copied clock; `i` messages were sent before.
  pub stamp : ℕ → ℕ → VecClock → Prog (NetData A) VecClock
  stamp self i c d =
      if ltb (pred64 self) (length c.vector)
      then done (record c { vector = set c.vector (pred64 self) i }) d
      else fault

  -- `n` rounds, of which the first sends message `i + 1`.
  unfoldable pub send_loop : Env → ℕ → ℕ → Prog (NetData A) Ok
  send_loop env zero i d = done tt d
  send_loop env (suc n) i d =
      (do
        c ← get_vec_clock_copy env
        c' ← stamp d.self_pid i c
        send_urb env (record { sequence_num = i + 1; original_sender = u32 d.self_pid })
            (record { vec_clock = c'; original_sender = u32 d.self_pid })
        send_loop env n (i + 1))
        d

  pub send_lcb : Env → ℕ → Prog (NetData A) Ok
  unfolding send_loop stamp send_urb
  send_lcb env m = send_loop env m 0

-- The loop of `can_deliver` counts the entries that are 1, `n` rounds from index `i` on. The index
-- is an `int`, which from 2 ^ 31 on is negative.
unfoldable pub count_acks : List ℕ → ℕ → ℕ → ℕ → Option ℕ
count_acks entries zero i counter = some counter
count_acks entries (suc n) i counter = elim (get_elem? entries i) [
  | none ↦ none
  | some x ↦
      let rest = count_acks entries n (i + 1) (if x == 1 then counter + 1 else counter) in
      if ltb i (2 ^ 31) then rest else none
]

-- Whether more than half of the processes have seen the message.
unfoldable pub can_deliver : ℕ → Prog UidTable Bool
unfolding count_acks
can_deliver seen_id t =
    if leb t.total_entries (u32 (t.no_process * seen_id + t.no_process))
    then done false t
    else elim (count_acks t.entries
        (u32 (seen_id * t.no_process + t.no_process) - u32 (seen_id * t.no_process))
        (u32 (seen_id * t.no_process)) 0) [
          | none ↦ fault
          | some counter ↦ done (ltb (t.no_process / 2) counter) t
        ]

module _ {A : Type 0} where
  -- A message that was not seen before is marked as seen, acknowledged for the process itself, and
  -- broadcast again.
  pub relay : Env → UrbMsg → Prog (NetData A) Ok
  unfolding set_ack_urb send_beb
  relay env m = do
    in_urb_table (add_seen_urb env m.seen_id)
    λ d. elim (alloc_vector env d.num_proc m.lcb_msg.vec_clock.vector m.lcb_msg.vec_clock) [
      | done _ c ↦
          let mid = row_id d.num_proc m.seen_id d.self_pid in
          (do
            set_ack_urb env mid
            send_beb env (record m { mid = mid; lcb_msg = record (m.lcb_msg) { vec_clock = c } }))
            d
      | err e _ ↦ err e d
      | fault ↦ fault
      | hang ↦ hang
    ]

  unfoldable pub relay_if_new : Env → UrbMsg → Prog (NetData A) Ok
  relay_if_new env m = do
    seen ← in_urb_table (is_seen_urb m.seen_id)
    if seen == 0 then relay env m else pure tt

  -- The test of the second operand of `&&`, and what follows it.
  unfoldable pub deliver_if_new : ℕ → Env → UrbMsg → Prog (NetData A) Ok
  deliver_if_new fuel env m = do
    delivered ← in_urb_table (is_delivered_urb m.seen_id)
    if delivered == 0
        then (do in_urb_table (add_delivered_urb env m.seen_id); deliver_lcb fuel env m.lcb_msg)
        else pure tt

  unfoldable pub deliver_if_ready : ℕ → Env → UrbMsg → Prog (NetData A) Ok
  unfolding deliver_if_new
  deliver_if_ready fuel env m = do
    ready ← in_urbacks (can_deliver m.seen_id)
    if ready then deliver_if_new fuel env m else pure tt

  unfoldable pub deliver_urb : ℕ → Env → UrbMsg → Prog (NetData A) Ok
  unfolding set_ack_urb relay_if_new deliver_if_ready
  deliver_urb fuel env m = do set_ack_urb env m.mid; relay_if_new env m; deliver_if_ready fuel env m

  unfoldable pub deliver_beb : ℕ → Env → UrbMsg → Prog (NetData A) Ok
  deliver_beb fuel env m = deliver_urb fuel env m
