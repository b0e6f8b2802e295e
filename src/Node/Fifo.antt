-- ===== src/Node/Fifo.antt =====
-- src/fifo.c, the FIFO layer, which the build does not use: broadcast, and delivery in the order of
-- the sender.
pub mod Spec
pub mod Round
pub mod Order
use distributed_process.Base.{
  ℕ, zero, suc, ◌+◌, ◌-◌, ◌*◌, ◌^◌, ◌%◌, Bool, true, false, ◌==◌, if◌then◌else◌, u32, Outcome, done,
  err, fault, hang, Prog, Ok, and_then, ◌>>=◌, ◌>>◌, pure, Env,
}
use distributed_process.FifoTable.{add_pending, get_pending, NextTable, get_next, incr_next}
use distributed_process.Log.{log_deliver}
use distributed_process.Message.{FifoMsg, LcbMsg}
use distributed_process.Node.{NetData, in_fifo, in_next, in_log}
use distributed_process.Node.Broadcast.{seen_id_of, send_urb}

-- `next_idx = get_next(…)`: an error code, ERROR_TABLE, is taken for an index.
pub next_index : Outcome NextTable ℕ → Outcome NextTable ℕ
next_index (err e t) = done (2 ^ 32 - 111) t
next_index o = o

module _ {A : Type 0} where
  -- The loop over the messages, `n` rounds, of which the first sends message `i`. `rest` is what
  -- the message of the layer below holds, which is not initialised.
  pub send_fifo_loop : Env → LcbMsg → ℕ → ℕ → Prog (NetData A) Ok
  send_fifo_loop env rest zero i d = done tt d
  send_fifo_loop env rest (suc n) i d =
      (do
        send_urb env (record { sequence_num = u32 i; original_sender = u32 d.self_pid }) rest
        send_fifo_loop env rest n (i + 1))
        d

  pub send_fifo : Env → LcbMsg → ℕ → Prog (NetData A) Ok
  unfolding send_fifo_loop
  send_fifo env rest m = send_fifo_loop env rest m 1

  -- The loop of `deliver_fifo`, at most `fuel` rounds; the message is that of the round.
  pub deliver_next : ℕ → Env → FifoMsg → ℕ → Prog (NetData A) Ok
  deliver_next zero env m next_idx d = hang
  deliver_next (suc fuel) env m next_idx d =
      let id = seen_id_of d.num_proc next_idx m.original_sender in
      (do
        waits ← in_fifo (get_pending id)
        if waits == 1
            then (do
              in_next (incr_next m.original_sender)
              in_fifo (add_pending env id 0)
              in_log (log_deliver env m.original_sender m.sequence_num)
              deliver_next fuel env (record m { sequence_num = u32 (m.sequence_num + 1) })
                  (u32 (next_idx + 1)))
            else pure tt)
        d

  pub deliver_fifo : ℕ → Env → FifoMsg → Prog (NetData A) Ok
  unfolding next_index deliver_next
  deliver_fifo fuel env m d =
      (do
        in_fifo (add_pending env (seen_id_of d.num_proc m.sequence_num m.original_sender) 1)
        next_idx ← in_next (λ t. next_index (get_next m.original_sender t))
        deliver_next fuel env m next_idx)
        d
