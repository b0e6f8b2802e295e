-- ===== src/Node/Link/Frame.antt =====
-- What a round of the receiver thread (src/receiver.c) and of a sender thread (src/sender.c) leaves.
use distributed_process.Base.{
  ℕ, zero, suc, inl, inr, Option, List, ◌==◌, Bool-cases, done, err, fault, hang, Outcome, Ok,
  and_then, Ends-chain, Env, error_send, Leaves, Leaves-part, Leaves-chain, Leaves-recode,
  Leaves-Ends, Option-cases, pure,
}
use distributed_process.AddrBook.{get_addr}
use distributed_process.Queue.{dequeue, enqueue}
use distributed_process.Table.{is_ack, is_delivered, set_delivered}
use distributed_process.Message.{UrbMsg, Msg, Task, blank_task, serialize}
use distributed_process.Node.{NetData, in_acks, in_delivered, in_queue}
use distributed_process.Node.Frame.{Keeps, Respects}
use distributed_process.Node.Broadcast.{put_task}
use distributed_process.Node.Broadcast.Frame.{deliver_beb-Keeps}
use distributed_process.Node.Link.{
  without_vector, threshold, ack_no, receive_msg, send_datagram, send_message, send_fl,
  deliver_once, deliver_pl, deliver_fl, process_msg, receiver_round, send_rounds, send_pl,
  sender_round,
}

module _ {A : Type 0} (Q : NetData A → Type 0) (r : Respects Q) (env : Env) where
  send_datagram-Leaves :
      (a : A) (ws : List ℕ) (d : NetData A) → Q d → Leaves Q (send_datagram env a ws d)
  unfolding send_datagram
  send_datagram-Leaves a ws d q = elim (Bool-cases env.sends) [
    | inl e ↦ rw (send_datagram, e) (r.wire d _ q)
    | inr e ↦ rw (send_datagram, e) q
  ]

  pub send_fl-Leaves : (pid : ℕ) (m : Msg) (d : NetData A) → Q d → Leaves Q (send_fl env pid m d)
  unfolding send_fl send_message
  send_fl-Leaves pid m d q =
      Leaves-chain Q _ _
        (Leaves-part Q (λ b. record d { address_book = b }) (get_addr pid d.address_book)
          (λ b. r.book d b q))
        (λ a d₁ q₁. go a d₁ q₁ (serialize env d₁.num_proc m))
    where
      go :
          (a : A) (d₁ : NetData A)
          → Q d₁
          → (o : Outcome Msg (List ℕ))
          → Leaves Q (elim o [
            | done buffer _ ↦ send_datagram env a buffer d₁
            | err e _ ↦ err e d₁
            | fault ↦ fault
            | hang ↦ hang
          ])
      go a d₁ q₁ (done buffer _) = send_datagram-Leaves a buffer d₁ q₁
      go a d₁ q₁ (err e _) = q₁
      go a d₁ q₁ fault = tt
      go a d₁ q₁ hang = tt

  put_task-Leaves : (t : Task) (d : NetData A) → Q d → Leaves Q (put_task env t d)
  unfolding put_task
  put_task-Leaves t d q =
      Leaves-part Q (λ x. record d { task_q = x }) (enqueue blank_task env t d.task_q)
        (λ x. r.queue d x q)

  module _ (meanwhile : ℕ → NetData A → NetData A)
      (others : (n : ℕ) (d : NetData A) → Q d → Q (meanwhile n d)) where
    send_rounds-Leaves :
        (n pid : ℕ) (m : Msg) (d : NetData A) → Q d → Leaves Q (send_rounds env meanwhile n pid m d)
    unfolding send_rounds
    send_rounds-Leaves zero pid m d q =
        Leaves-chain Q (in_acks (is_ack m.ackid) d) _ (r.asked m.ackid d q) (λ acked d₁ q₁.
          elim (Bool-cases (acked == 0)) [
            | inl e ↦ rw e (Leaves-chain Q _ _ (put_task-Leaves _ d₁ q₁) (λ u d₂ q₂. q₂))
            | inr e ↦ rw e q₁
          ])
    send_rounds-Leaves (suc n) pid m d q =
        Leaves-chain Q (in_acks (is_ack m.ackid) d) _ (r.asked m.ackid d q) (λ acked d₁ q₁.
          elim (Bool-cases (acked == 0)) [
            | inl e ↦ rw e (
                Leaves-chain Q _ _ (Leaves-recode Q error_send _ (send_fl-Leaves pid m d₁ q₁))
                  (λ u d₂ q₂. send_rounds-Leaves n pid m (meanwhile n d₂) (others n d₂ q₂)))
            | inr e ↦ rw e q₁
          ])

    pub sender_round-Leaves : (d : NetData A) → Q d → Leaves Q (sender_round env meanwhile d)
    unfolding sender_round send_pl
    sender_round-Leaves d q =
        Leaves-chain Q (in_queue dequeue d) _
          (Leaves-part Q (λ x. record d { task_q = x }) (dequeue d.task_q) (λ x. r.queue d x q))
          (λ next d₁ q₁. elim (Option-cases next) [
            | inl e ↦ rw e q₁
            | inr (t, e) ↦ rw e (
                Leaves-chain Q _ _ (send_rounds-Leaves threshold t.pid_dest t.msg d₁ q₁)
                  (λ b d₂ q₂. q₂))
          ])

module _ {A : Type 0} (Q : NetData A → Type 0) (r : Respects Q) (env : Env) (fuel : ℕ)
    (rest : UrbMsg) where
  deliver_once-Keeps : (m : Msg) (d : NetData A) → Q d → Keeps Q (deliver_once fuel env m d)
  unfolding deliver_once
  deliver_once-Keeps m d q =
      Ends-chain Q (in_delivered (is_delivered m.mid) d) _ (r.looked m.mid d q) (λ before d₁ q₁.
        elim (Bool-cases (before == 0)) [
          | inl e ↦ rw e (
              Ends-chain Q (in_delivered (set_delivered env m.mid) d₁) _ (r.entered env m.mid d₁ q₁)
                (λ u d₂ q₂. deliver_beb-Keeps Q r env fuel m.urb_msg d₂ q₂))
          | inr e ↦ rw e q₁
        ])

  process_msg-Keeps : (m : Msg) (d : NetData A) → Q d → Keeps Q (process_msg fuel env rest m d)
  unfolding process_msg deliver_fl deliver_pl
  process_msg-Keeps m d q = elim (Bool-cases (m.mtype == ack_no)) [
    | inl e ↦ rw e (r.acked env m.ackid d q)
    | inr e ↦ rw e (
        Ends-chain Q _ _ (Leaves-Ends Q _ (send_fl-Leaves Q r env m.sender _ d q))
          (λ u d₁ q₁. deliver_once-Keeps m d₁ q₁))
  ]

  pub receiver_round-Keeps :
      (words : Option (List ℕ)) (next_message : Msg) (d : NetData A)
      → Q d
      → Keeps Q (receiver_round fuel env rest words next_message d)
  unfolding receiver_round
  receiver_round-Keeps words next_message d q = go (receive_msg env words d.num_proc next_message)
    where
      go :
          (o : Outcome Msg Ok)
          → Keeps Q (elim o [
            | done _ m ↦ and_then (process_msg fuel env rest m d) (λ _. pure (without_vector m))
            | err e _ ↦ err e d
            | fault ↦ fault
            | hang ↦ hang
          ])
      go (done _ m) = Ends-chain Q _ _ (process_msg-Keeps m d q) (λ u d₁ q₁. q₁)
      go (err e _) = tt
      go fault = tt
      go hang = tt
