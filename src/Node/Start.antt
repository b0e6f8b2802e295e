-- ===== src/Node/Start.antt =====
-- The part of `init_data` of src/da_proc.c between the parser and the threads: every table, queue
-- and log of a process is set up.
pub mod Parts
pub mod Started
pub mod Ready
use distributed_process.Base.{
  ℕ, ◌+◌, Bool, true, false, List, [], length, ltb, if◌then◌else◌, u32, done, fault, Prog, Ok,
  and_then, ◌>>=◌, ◌>>◌, Env,
}
use distributed_process.Table.{UidTable, init_table_uid, init_ack_table, init_deliver_pl}
use distributed_process.UrbTable.{init_urb_table}
use distributed_process.Queue.{init_queue}
use distributed_process.Log.{init_log_data, digits}
use distributed_process.Message.{blank_task}
use distributed_process.Pending.{init_pending_lcb}
use distributed_process.Node.{
  NetData, in_acks, in_delivered, in_queue, in_urb_table, in_urbacks, in_pending, in_log,
}
use distributed_process.Node.Clock.{init_vector_mutex}

abbrev pub queue_len : ℕ
queue_len = 200

abbrev pub orig_table_size : ℕ
orig_table_size = 150

abbrev pub msg_buf_max_size : ℕ
msg_buf_max_size = 1024

-- `init_ack_urb` of src/urb.c.
abbrev pub init_ack_urb : Env → ℕ → ℕ → Prog UidTable Ok
init_ack_urb env no_entries no_process = init_table_uid env no_entries no_process

module _ {A : Type 0} where
  -- `sprintf` of `da_proc_%zu.out` into the 14 bytes of `log_filename`; `%zu` has up to 20 digits.
  pub name_file : Prog (NetData A) Ok
  name_file d = if ltb 14 (length (digits 20 d.self_pid) + 13) then fault else done tt d

  -- `opens` says whether `fopen` succeeds.
  pub init_parts : Env → Bool → Prog (NetData A) Ok
  unfolding name_file
  init_parts env opens d =
      let n = u32 d.num_proc in
      (do
        in_queue (init_queue blank_task env queue_len)
        in_acks (init_ack_table env orig_table_size n)
        in_delivered (init_deliver_pl env orig_table_size n)
        in_urb_table (init_urb_table env orig_table_size n)
        in_urbacks (init_ack_urb env orig_table_size n)
        in_pending (init_pending_lcb env d.num_proc)
        init_vector_mutex env n
        name_file
        in_log (init_log_data env opens msg_buf_max_size))
        d
