-- ===== src/Node/Link.antt =====
-- src/flink.c, src/layerzero.c and the perfect link of src/plink.c, with the work of the receiver
-- thread (src/receiver.c) and of a sender thread (src/sender.c) for one message.
pub mod Acks
pub mod Retry
pub mod Frame
pub mod Known
use distributed_process.Base.{
  recode, ℕ, zero, suc, Bool, true, false, Option, none, some, List, [], ◌∷◌, take, ◌++◌, replicate,
  ◌==◌, if◌then◌else◌, u32, ErrorCode, Outcome, error_send, error_network, done, err, fault, hang,
  Prog, Ok, and_then, ◌>>=◌, ◌>>◌, pure, raise, modify, Env,
}
use distributed_process.Table.{is_ack, set_ack, is_delivered, set_delivered}
use distributed_process.AddrBook.{get_addr}
use distributed_process.Queue.{dequeue}
use distributed_process.Message.{VecClock, UrbMsg, Msg, serialize, deserialize, num_fields}
use distributed_process.Node.{NetData, in_acks, in_delivered, in_queue, in_book}
use distributed_process.Node.Broadcast.{put_task, deliver_beb}

abbrev pub threshold : ℕ
threshold = 10

abbrev pub ack_no : ℕ
ack_no = 1

-- The acknowledgement of a message; the part of the layers above is not initialised, `rest`.
abbrev pub ack_of : ℕ → UrbMsg → Msg → Msg
ack_of self rest m = record {
  urb_msg = rest;
  mid = m.mid;
  ackid = m.ackid;
  sender = u32 self;
  mtype = ack_no;
}

-- `recvfrom` into a buffer of zeros; `none` is a failure. What does not fit is cut off. The state
-- is the message that the receiver thread fills in.
unfoldable pub receive_msg : Env → Option (List ℕ) → ℕ → Prog Msg Ok
receive_msg env none num_proc = raise error_network
receive_msg env (some words) num_proc =
    deserialize env (some (take (num_fields num_proc) (words ++ replicate (num_fields num_proc) 0)))
      num_proc

-- The vector of the received message is released, and its pointer set to null.
abbrev pub without_vector : Msg → Msg
without_vector m =
    let l = m.urb_msg.lcb_msg in
    let clock : VecClock = record (l.vec_clock) { vector = [] } in
    record m { urb_msg = record (m.urb_msg) { lcb_msg = record l { vec_clock = clock } } }

module _ {A : Type 0} where
  -- The datagram is in the array that `serialize` makes.
  unfoldable pub send_datagram : Env → A → List ℕ → Prog (NetData A) Ok
  send_datagram env address buffer d =
      if env.sends
      then done tt (record d { wire = (address, buffer) ∷ d.wire })
      else err error_send d

  unfoldable pub send_message : Env → ℕ → Msg → Prog (NetData A) Ok
  unfolding send_datagram
  send_message env dest_pid m = do
    address ← in_book (get_addr dest_pid)
    λ d. elim (serialize env d.num_proc m) [
      | done buffer _ ↦ send_datagram env address buffer d
      | err e _ ↦ err e d
      | fault ↦ fault
      | hang ↦ hang
    ]

  unfoldable pub send_fl : Env → ℕ → Msg → Prog (NetData A) Ok
  send_fl env dest_pid m = send_message env dest_pid m

  unfoldable pub deliver_once : ℕ → Env → Msg → Prog (NetData A) Ok
  deliver_once fuel env m = do
    before ← in_delivered (is_delivered m.mid)
    if before == 0
        then (do in_delivered (set_delivered env m.mid); deliver_beb fuel env m.urb_msg)
        else pure tt

  unfoldable pub deliver_pl : ℕ → Env → UrbMsg → Msg → Prog (NetData A) Ok
  unfolding deliver_once send_fl send_message
  deliver_pl fuel env rest m d =
      if m.mtype == ack_no
      then in_acks (set_ack env m.ackid) d
      else (do send_fl env m.sender (ack_of d.self_pid rest m); deliver_once fuel env m) d

  pub deliver_fl : ℕ → Env → UrbMsg → Msg → Prog (NetData A) Ok
  deliver_fl fuel env rest m = deliver_pl fuel env rest m

  pub process_msg : ℕ → Env → UrbMsg → Msg → Prog (NetData A) Ok
  process_msg fuel env rest m = deliver_fl fuel env rest m

  -- One round of the loop of `receiver_f`, over the message that the round before has left.
  pub receiver_round : ℕ → Env → UrbMsg → Option (List ℕ) → Msg → Prog (NetData A) Msg
  unfolding process_msg
  receiver_round fuel env rest words next_message d =
      elim (receive_msg env words d.num_proc next_message) [
        | done _ m ↦ and_then (process_msg fuel env rest m d) (λ _. pure (without_vector m))
        | err e _ ↦ err e d
        | fault ↦ fault
        | hang ↦ hang
      ]

  -- `send_pl`: while the acknowledgement is missing, the datagram is sent again, up to `rounds`
  -- more times, and then the task goes back to the queue. What the other threads do while the
  -- thread sleeps is `meanwhile`, by the number of the rounds that are left. The answer is `true`
  -- for BACK_TO_QUEUE.
  pub send_rounds : Env → (ℕ → NetData A → NetData A) → ℕ → ℕ → Msg → Prog (NetData A) Bool
  send_rounds env meanwhile zero pid m = do
    acked ← in_acks (is_ack m.ackid)
    if acked == 0
        then (do put_task env (record { pid_dest = pid; msg = m }); pure true)
        else pure false
  send_rounds env meanwhile (suc n) pid m = do
    acked ← in_acks (is_ack m.ackid)
    if acked == 0
        then (do
          λ d. recode error_send (send_fl env pid m d)
          modify (meanwhile n)
          send_rounds env meanwhile n pid m)
        else pure false

  pub send_pl : Env → (ℕ → NetData A → NetData A) → ℕ → Msg → Prog (NetData A) Bool
  unfolding send_rounds send_fl send_message
  send_pl env meanwhile pid m = send_rounds env meanwhile threshold pid m

  -- One round of the loop of `sender_f`: nothing, where the queue is empty.
  unfoldable pub sender_round : Env → (ℕ → NetData A → NetData A) → Prog (NetData A) Ok
  sender_round env meanwhile = do
    next ← in_queue dequeue
    elim next [ none ↦ pure tt | some t ↦ send_pl env meanwhile t.pid_dest t.msg >> pure tt ]
