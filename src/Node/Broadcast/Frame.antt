-- ===== src/Node/Broadcast/Frame.antt =====
-- What the calls of src/urb.c, src/beb.c and `send_lcb` of src/lcb.c leave.
use distributed_process.Base.{
  ℕ, zero, suc, ◌+◌, inl, inr, ◌==◌, ltb, length, Bool-cases, u32, pred64, done, err, fault, hang,
  Outcome, Ok, Ends-chain, Ends-part, Env, ◌>>◌,
}
use distributed_process.UrbTable.Flags.{as_seen, as_delivered}
use distributed_process.Log.{log_urb_broadcast, broadcast_line}
use distributed_process.Message.{VecClock, UrbMsg, LcbMsg, FifoMsg, Task, alloc_vector}
use distributed_process.Node.{NetData, in_log}
use distributed_process.Node.Frame.{Keeps, Respects}
use distributed_process.Node.Clock.Frame.{get_vec_clock_copy-Keeps}
use distributed_process.Node.Causal.Frame.{deliver_lcb-Keeps}
use distributed_process.Node.Broadcast.{
  row_id, beb_msg, with_clock, put_task, send_one, beb_loop, send_beb, set_ack_urb, send_urb, stamp,
  send_loop, send_lcb, can_deliver, relay, relay_if_new, deliver_if_new, deliver_if_ready,
  deliver_urb, deliver_beb,
}

module _ {A : Type 0} (Q : NetData A → Type 0) (r : Respects Q) (env : Env) where
  put_task-Keeps : (t : Task) (d : NetData A) → Q d → Keeps Q (put_task env t d)
  unfolding put_task
  put_task-Keeps t d q = Ends-part Q (λ x. record d { task_q = x }) _ (λ x. r.queue d x q)

  set_ack_urb-Keeps : (mid : ℕ) (d : NetData A) → Q d → Keeps Q (set_ack_urb env mid d)
  unfolding set_ack_urb
  set_ack_urb-Keeps mid d q = Ends-part Q (λ x. record d { urbacks = x }) _ (λ x. r.urbacks d x q)

  send_one-Keeps : (m : UrbMsg) (i : ℕ) (d : NetData A) → Q d → Keeps Q (send_one env m i d)
  unfolding send_one
  send_one-Keeps m i d q =
      go (alloc_vector env d.num_proc m.lcb_msg.vec_clock.vector m.lcb_msg.vec_clock)
    where
      go :
          (o : Outcome VecClock Ok)
          → Keeps Q (elim o [
            | done _ c ↦
                put_task env
                  (record {
                    pid_dest = i;
                    msg = with_clock (beb_msg d.num_proc (u32 d.self_pid) m i) c;
                  })
                  d
            | err _ c ↦
                put_task env
                  (record {
                    pid_dest = i;
                    msg = with_clock (beb_msg d.num_proc (u32 d.self_pid) m i) c;
                  })
                  d
            | fault ↦ fault
            | hang ↦ hang
          ])
      go (done _ c) = put_task-Keeps _ d q
      go (err _ c) = put_task-Keeps _ d q
      go fault = tt
      go hang = tt

  beb_loop-Keeps : (m : UrbMsg) (n i : ℕ) (d : NetData A) → Q d → Keeps Q (beb_loop env m n i d)
  unfolding beb_loop
  beb_loop-Keeps m zero i d q = q
  beb_loop-Keeps m (suc n) i d q = elim (Bool-cases (i == u32 d.self_pid)) [
    | inl self ↦ rw self (beb_loop-Keeps m n (i + 1) d q)
    | inr other ↦
        rw other
          (Ends-chain Q _ _ (send_one-Keeps m i d q) (λ u d' q'. beb_loop-Keeps m n (i + 1) d' q'))
  ]

  send_beb-Keeps : (m : UrbMsg) (d : NetData A) → Q d → Keeps Q (send_beb env m d)
  unfolding send_beb
  send_beb-Keeps m d q = beb_loop-Keeps m (u32 d.num_proc) 1 d q

  send_urb-Keeps :
      (m : FifoMsg) (lcb : LcbMsg) (d : NetData A) → Q d → Keeps Q (send_urb env m lcb d)
  unfolding send_urb log_urb_broadcast
  send_urb-Keeps m lcb d q = Ends-chain Q _ _ (r.flag as_seen env _ d q) (λ u d₁ q₁.
      Ends-chain Q _ _ (set_ack_urb-Keeps _ d₁ q₁) (λ u d₂ q₂.
        Ends-chain Q (in_log (log_urb_broadcast env m.sequence_num) d₂) _
          (r.line env (broadcast_line m.sequence_num) d₂ q₂) (λ u d₃ q₃. send_beb-Keeps _ d₃ q₃)))

  stamp-Keeps : (self n : ℕ) (c : VecClock) (d : NetData A) → Q d → Keeps Q (stamp self n c d)
  unfolding stamp
  stamp-Keeps self n c d q = elim (Bool-cases (ltb (pred64 self) (length c.vector))) [
    | inl e ↦ rw (stamp, e) q
    | inr e ↦ rw (stamp, e) tt
  ]

  pub send_loop-Keeps : (n k : ℕ) (d : NetData A) → Q d → Keeps Q (send_loop env n k d)
  unfolding send_loop
  send_loop-Keeps zero k d q = q
  send_loop-Keeps (suc n) k d q =
      Ends-chain Q _ _ (get_vec_clock_copy-Keeps Q r env d q) (λ c d₁ q₁.
        Ends-chain Q _ _ (stamp-Keeps _ k c d₁ q₁) (λ c' d₂ q₂.
          Ends-chain Q _ _ (send_urb-Keeps _ _ d₂ q₂) (λ u d₃ q₃. send_loop-Keeps n (k + 1) d₃ q₃)))

  pub send_lcb-Keeps : (n : ℕ) (d : NetData A) → Q d → Keeps Q (send_lcb env n d)
  unfolding send_lcb
  send_lcb-Keeps n d q = send_loop-Keeps n 0 d q

  relay-Keeps : (m : UrbMsg) (d : NetData A) → Q d → Keeps Q (relay env m d)
  unfolding relay
  relay-Keeps m d q = Ends-chain Q _ _ (r.flag as_seen env m.seen_id d q) (λ u d₁ q₁.
      go d₁ q₁ (alloc_vector env d₁.num_proc m.lcb_msg.vec_clock.vector m.lcb_msg.vec_clock))
    where
      go :
          (d₁ : NetData A)
          → Q d₁
          → (o : Outcome VecClock Ok)
          → Keeps Q (elim o [
            | done _ c ↦
                let mid = row_id d₁.num_proc m.seen_id d₁.self_pid in
                (do
                  set_ack_urb env mid
                  send_beb env
                      (record m { mid = mid; lcb_msg = record (m.lcb_msg) { vec_clock = c } }))
                  d₁
            | err e _ ↦ err e d₁
            | fault ↦ fault
            | hang ↦ hang
          ])
      go d₁ q₁ (done _ c) =
          Ends-chain Q _ _ (set_ack_urb-Keeps _ d₁ q₁) (λ u d₂ q₂. send_beb-Keeps _ d₂ q₂)
      go d₁ q₁ (err e _) = tt
      go d₁ q₁ fault = tt
      go d₁ q₁ hang = tt

  deliver_if_new-Keeps :
      (fuel : ℕ) (m : UrbMsg) (d : NetData A) → Q d → Keeps Q (deliver_if_new fuel env m d)
  unfolding deliver_if_new
  deliver_if_new-Keeps fuel m d q = Ends-chain Q _ _ (r.was_delivered m.seen_id d q) (λ x d₁ q₁.
      elim (Bool-cases (x == 0)) [
        | inl new ↦ rw new (
            Ends-chain Q _ _ (r.flag as_delivered env m.seen_id d₁ q₁)
              (λ u d₂ q₂. deliver_lcb-Keeps Q r fuel env m.lcb_msg d₂ q₂))
        | inr old ↦ rw old q₁
      ])

  pub deliver_urb-Keeps :
      (fuel : ℕ) (m : UrbMsg) (d : NetData A) → Q d → Keeps Q (deliver_urb fuel env m d)
  unfolding deliver_urb relay_if_new deliver_if_ready
  deliver_urb-Keeps fuel m d q = Ends-chain Q _ _ (set_ack_urb-Keeps m.mid d q) (λ u d₁ q₁.
      Ends-chain Q _ _
        (Ends-chain Q _ _ (r.seen m.seen_id d₁ q₁) (λ x d₂ q₂. elim (Bool-cases (x == 0)) [
          | inl new ↦ rw new (relay-Keeps m d₂ q₂)
          | inr old ↦ rw old q₂
        ]))
        (λ u d₃ q₃.
          Ends-chain Q _ _
            (Ends-part Q (λ t. record d₃ { urbacks = t }) (can_deliver m.seen_id d₃.urbacks)
              (λ t. r.urbacks d₃ t q₃))
            (λ ready d₄ q₄. elim (Bool-cases ready) [
              | inl yes' ↦ rw yes' (deliver_if_new-Keeps fuel m d₄ q₄)
              | inr no' ↦ rw no' q₄
            ])))

  pub deliver_beb-Keeps :
      (fuel : ℕ) (m : UrbMsg) (d : NetData A) → Q d → Keeps Q (deliver_beb fuel env m d)
  unfolding deliver_beb
  deliver_beb-Keeps fuel m d q = deliver_urb-Keeps fuel m d q
