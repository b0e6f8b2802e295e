-- ===== src/Node/Link/Retry.antt =====
-- `send_pl` of src/plink.c without an acknowledgement.
use distributed_process.Base.{
  ℕ, zero, suc, ◌*◌, ◌^◌, ◌≤◌, ◌<◌, ◌≡◌, ◌++◌, ◌∙◌, ap, true, some, List, ◌∷◌, replicate, done,
  and_then, and_then-step, pure, put_back, Env,
}
use distributed_process.Table.{is_ack}
use distributed_process.Table.Growth.{value}
use distributed_process.Table.Acks.{IsFree, is_ack_lem}
use distributed_process.AddrBook.{AddrBook, get_addr}
use distributed_process.AddrBook.Access
use distributed_process.AddrBook.Access.{address, get_addr_lem}
use distributed_process.Queue.{Queue, task_bytes}
use distributed_process.Queue.Ring
use distributed_process.Queue.Ring.{contents}
use distributed_process.Queue.Fifo.{enqueue_lem, Queued}
use distributed_process.Message.{Msg, Task, blank_task, serialize}
use distributed_process.Node.{NetData, in_acks, in_book}
use distributed_process.Node.Broadcast.{put_task}
use distributed_process.Node.Link.{
  threshold, send_datagram, send_message, send_fl, send_rounds, send_pl,
}

-- The wire after `n` more datagrams `x`.
sent : {B : Type 0} → ℕ → B → List B → List B
sent zero x xs = xs
sent (suc n) x xs = sent n x (x ∷ xs)

module _ {A : Type 0} (env : Env) (blank : A) (b : AddrBook A) (v : Access.IsValid b) (pid : ℕ)
    (low : 0 < pid) (high : pid ≤ b.num_proc) (m : Msg) (buffer : List ℕ) where
  -- A process with that address book.
  abbrev pub with_book : NetData A → NetData A
  with_book d = record d { address_book = some b }

  abbrev datagram : A × List ℕ
  datagram = (address blank b pid, buffer)

  send_fl_lem :
      (d : NetData A)
      → env.sends ≡ true
      → serialize env d.num_proc m ≡ done buffer m
      → send_fl env pid m (with_book d)
        ≡ done tt (record (with_book d) { wire = datagram ∷ d.wire })
  unfolding send_fl send_message send_datagram
  send_fl_lem d sends coded =
      and_then-step (in_book (get_addr pid) (with_book d)) _
        (ap (put_back (λ k. record d { address_book = k })) (get_addr_lem blank b pid v low high))
      ∙ rw (coded, sends)

  -- The test of the loop, on a message that is not acknowledged.
  unacked_lem :
      (d : NetData A)
      → IsFree d.pl_acks
      → value d.pl_acks.table m.ackid ≡ 0
      → in_acks (is_ack m.ackid) (with_book d) ≡ done 0 (with_book d)
  unacked_lem d f unacked =
      ap (put_back (λ t. record (with_book d) { pl_acks = t }))
        (is_ack_lem d.pl_acks m.ackid f ∙ ap (λ x. done x d.pl_acks) unacked)

  send_rounds_lem :
      (n : ℕ) (d : NetData A)
      → env.sends ≡ true
      → serialize env d.num_proc m ≡ done buffer m
      → IsFree d.pl_acks
      → value d.pl_acks.table m.ackid ≡ 0
      → send_rounds env (λ k d. d) n pid m (with_book d)
        ≡ and_then
            (put_task env
              (record { pid_dest = pid; msg = m })
              (record (with_book d) { wire = sent n datagram d.wire }))
            (λ _. pure true)
  unfolding send_rounds sent
  send_rounds_lem zero d sends coded f unacked =
      and_then-step (in_acks (is_ack m.ackid) (with_book d)) _ (unacked_lem d f unacked)
  send_rounds_lem (suc n) d sends coded f unacked =
      and_then-step (in_acks (is_ack m.ackid) (with_book d)) _ (unacked_lem d f unacked)
      ∙ rw (send_fl_lem d sends coded)
          (send_rounds_lem n (record d { wire = datagram ∷ d.wire }) sends coded f unacked)

  -- A message that no one acknowledges, to a process of the valid address book, is sent as often as
  -- THRESHOLD says, each time the same datagram to the address of that process, and is then put at
  -- the end of the queue, and BACK_TO_QUEUE is returned. The other threads do nothing meanwhile,
  -- each `sendto` succeeds, memory is granted, the table of acknowledgements is valid and free, and
  -- the queue is valid and has fewer than 2 ^ 30 slots.
  pub send_pl-retries :
      (d : NetData A)
      → env.sends ≡ true
      → serialize env d.num_proc m ≡ done buffer m
      → IsFree d.pl_acks
      → value d.pl_acks.table m.ackid ≡ 0
      → Ring.IsValid d.task_q
      → d.task_q.qsize < 2 ^ 30
      → env.grants (task_bytes * (d.task_q.qsize * 2)) ≡ true
      → (q : Queue Task) × (send_pl env (λ k d. d) pid m (with_book d)
          ≡ done true (record (with_book d) {
            task_q = q;
            wire = replicate threshold (address blank b pid, buffer) ++ d.wire;
          }))
        × Queued blank_task d.task_q (record { pid_dest = pid; msg = m }) q
  unfolding send_pl sent put_task
  send_pl-retries d sends coded f unacked valid narrow granted =
      let t : Task = record { pid_dest = pid; msg = m } in
      let (q, e, queued) = enqueue_lem blank_task env d.task_q t valid narrow granted in
      (q, send_rounds_lem threshold d sends coded f unacked ∙ rw e, queued)
