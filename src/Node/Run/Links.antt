-- ===== src/Node/Run/Links.antt =====
-- The perfect link of src/plink.c under a run of the threads of a process: what is acknowledged stays
-- acknowledged, and what is delivered stays delivered.
use distributed_process.Base.{ℕ, ◌≤◌, ◌≡◌, ◌≢◌, sym, subst, false, done, Ends-done, Env}
use distributed_process.Table.{AckTable, max_size}
use distributed_process.Table.Growth.{IsValid, value}
use distributed_process.Table.Write.{Grants}
use distributed_process.Table.Acks.{IsFree}
use distributed_process.Message.{UrbMsg, Msg}
use distributed_process.Node.{NetData}
use distributed_process.Node.Link.{ack_of, send_fl, deliver_pl, send_pl}
use distributed_process.Node.Link.Acks.{send_pl-acked, deliver_pl-again}
use distributed_process.Node.Link.Known.{
  IsAcked, IsAcked-Respects, IsDelivered, IsDelivered-Respects, deliver_pl-IsDelivered,
  deliver_pl-IsAcked,
}
use distributed_process.Node.Run.{Run}
use distributed_process.Node.Run.Kept.{Run-Keeps}

module _ {A : Type 0} where
  -- An acknowledgement up to `MAX_SIZE` that comes to a process whose table of acknowledgements is
  -- valid and free, with memory granted, is entered and passed no further, and from then on, after
  -- any run of the process, `send_pl` returns 0 at once for each message with its id, and sends
  -- nothing.
  pub acked_for_good :
      (env : Env) (fuel : ℕ) (rest : UrbMsg) (ack : Msg) (d : NetData A)
      → Grants env
      → IsFree d.pl_acks
      → ack.mtype ≡ 1
      → ack.ackid ≤ max_size
      → (a : AckTable) × (deliver_pl fuel env rest ack d ≡ done tt (record d { pl_acks = a }))
        × ((e : NetData A) (env' : Env) (meanwhile : ℕ → NetData A → NetData A) (pid : ℕ) (m : Msg)
            → Run (record d { pl_acks = a }) e
            → m.ackid ≡ ack.ackid
            → send_pl env' meanwhile pid m e ≡ done false e)
  acked_for_good env fuel rest ack d grants v is_ack' small =
      let (a, h, entered) = deliver_pl-IsAcked env fuel rest ack d grants v is_ack' small in
      (
        a,
        h,
        λ e env' meanwhile pid m r same.
            let (acked, u) =
              Run-Keeps (IsAcked ack.ackid) (IsAcked-Respects ack.ackid) r (entered, tt) in
            send_pl-acked env' meanwhile pid m e (record { free = acked.0; valid = acked.1.0 })
              (subst (λ k. value e.pl_acks.table k ≢ 0) (sym same) (acked.1.1)),
      )

  -- After a `deliver_pl` that returns 0 on a message that is no acknowledgement, from a valid table
  -- of delivered messages on, and any run of the process, `deliver_pl` does with a message of the
  -- same id what `send_fl` does with the acknowledgement, and nothing else, an error included: no
  -- message is delivered twice.
  pub never_again :
      (env env' : Env) (fuel fuel' : ℕ) (rest rest' : UrbMsg) (m m' : Msg) (d d₁ e : NetData A)
      → IsValid d.pl_delivered
      → m.mtype ≢ 1
      → m'.mtype ≢ 1
      → m'.mid ≡ m.mid
      → deliver_pl fuel env rest m d ≡ done tt d₁
      → Run d₁ e
      → deliver_pl fuel' env' rest' m' e ≡ send_fl env' m'.sender (ack_of e.self_pid rest' m') e
  never_again env env' fuel fuel' rest rest' m m' d d₁ e v ordinary ordinary' same h r =
      let first : IsDelivered m.mid d₁ =
        Ends-done _ _ (deliver_pl-IsDelivered env fuel m rest d v ordinary) h in
      let (u, (valid, kept)) = Run-Keeps (IsDelivered m.mid) (IsDelivered-Respects m.mid) r first in
      deliver_pl-again env' fuel' rest' m' e valid ordinary'
        (subst (λ k. value e.pl_delivered k ≢ 0) (sym same) kept)
