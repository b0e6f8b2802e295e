-- ===== src/Tests/Layers.antt =====
-- Runs of the layers of a process: src/plink.c, src/urb.c, src/beb.c and the start in
-- src/da_proc.c.
use distributed_process.Base.{ℕ, ◌≡◌, ◌++◌, refl, arith, true, false, [], ◌∷◌, done}
use distributed_process.Table.{AckTable, table_write_entry, grow_until, store_entry}
use distributed_process.Table.Acks.{IsFree}
use distributed_process.UrbTable.{entry, is_seen_urb, is_delivered_urb}
use distributed_process.Queue.{Queue}
use distributed_process.Queue.Ring
use distributed_process.Queue.Ring.{contents}
use distributed_process.Message.{UrbMsg, Task, blank_task}
use distributed_process.Node.{NetData}
use distributed_process.Node.Broadcast.{
  set_ack_urb, relay_if_new, deliver_if_new, deliver_if_ready, deliver_urb, can_deliver, count_acks,
  send_beb,
}
use distributed_process.Node.Broadcast.Tasks.{beb_task, beb_tasks, send_beb_lem}
use distributed_process.Node.Link.{ack_of, send_fl, deliver_pl, send_pl}
use distributed_process.Node.Link.{send_datagram, send_message, deliver_once, sender_round}
use distributed_process.Node.Broadcast.{deliver_beb}
use distributed_process.Table.{is_delivered, set_delivered, table_read_entry}
use distributed_process.AddrBook.{get_addr}
use distributed_process.Queue.{dequeue, queue_empty, take_front}
use distributed_process.Message.{Msg}
use distributed_process.Node.Run.{Run, rest, sends}
use distributed_process.Node.Run.Links.{acked_for_good, never_again}
use distributed_process.Node.Start.{init_parts}
use distributed_process.Node.Start.Started.{Started, init_parts-Started}
use distributed_process.Base.{List, ◌++◌, replicate, true, Env}
use distributed_process.Message.{serialize}
use distributed_process.Queue.Fifo.{Queued}
use distributed_process.Tests.Samples.{acks_table, book}
use distributed_process.Node.Link.Retry.{send_pl-retries}
use distributed_process.Tests.Samples.{generous, process, msg_of_type}

-- The process with message 0 delivered, and with room for tasks.
abbrev later : NetData ℕ
later = record process {
  urb_table = record {
    values = entry 1 1 ∷ entry 0 0 ∷ [];
    no_msgs = 1;
    no_process = 2;
    total_entries = 2;
  };
  task_q = record {
    no_elem = 0;
    qsize = 2;
    front = 0;
    back = 0;
    elems = blank_task ∷ blank_task ∷ [];
    locked = false;
  };
}

abbrev old_msg : UrbMsg
old_msg = record ((msg_of_type 0).urb_msg) { seen_id = 0; mid = 1 }

acks-IsFree : IsFree later.pl_acks
acks-IsFree = record { free = refl; valid = record { sized = refl; positive = omega arith } }

later_run : deliver_urb 3 generous old_msg later ≡ done tt later
unfolding deliver_urb set_ack_urb relay_if_new deliver_if_new deliver_if_ready can_deliver
    count_acks table_write_entry grow_until store_entry is_seen_urb is_delivered_urb
later_run = refl

acked_for_good_example :
    (a : AckTable) × (deliver_pl 3 generous old_msg (msg_of_type 1) later
      ≡ done tt (record later { pl_acks = a }))
    × ((e : NetData ℕ) (env' : Env) (meanwhile : ℕ → NetData ℕ → NetData ℕ) (pid : ℕ) (m : Msg)
        → Run (record later { pl_acks = a }) e
        → m.ackid ≡ 2
        → send_pl env' meanwhile pid m e ≡ done false e)
acked_for_good_example =
    acked_for_good generous 3 old_msg (msg_of_type 1) later (λ n h. refl) acks-IsFree refl
      (omega arith)

-- A message of process 2 that was not delivered, and the process with its acknowledgement sent.
abbrev datagram_3 : Msg
datagram_3 = record (msg_of_type 0) { urb_msg = old_msg }

abbrev before_3 : NetData ℕ
before_3 = record later {
  pl_delivered = record {
    no_msgs = 1;
    no_process = 2;
    total_entries = 4;
    entries = 1 ∷ 1 ∷ 1 ∷ 0 ∷ [];
  };
}

abbrev after_3 : NetData ℕ
after_3 = record later { wire = (102, 3 ∷ 2 ∷ 1 ∷ 1 ∷ replicate 5 4294967295) ∷ [] }

first_3 : deliver_pl 3 generous old_msg datagram_3 before_3 ≡ done tt after_3
unfolding deliver_pl deliver_once send_fl send_message send_datagram serialize get_addr is_delivered
    set_delivered table_read_entry table_write_entry grow_until store_entry deliver_beb deliver_urb
    set_ack_urb relay_if_new deliver_if_new deliver_if_ready can_deliver count_acks is_seen_urb
    is_delivered_urb
first_3 = refl

idle_3 : sender_round generous (λ n x. x) after_3 ≡ done tt after_3
unfolding sender_round dequeue queue_empty take_front
idle_3 = refl

never_again_example :
    deliver_pl 3 generous old_msg datagram_3 after_3
    ≡ send_fl generous 2 (ack_of 1 old_msg datagram_3) after_3
never_again_example =
    never_again generous generous 3 3 old_msg old_msg datagram_3 datagram_3 before_3 after_3 after_3
      (record { sized = refl; positive = omega arith }) (λ e. omega (arith, e))
      (λ e. omega (arith, e)) refl first_3 (sends generous (λ n x. x) rest (λ n x. rest) idle_3)

send_beb_lem_example :
    (q : Queue Task) × (send_beb generous old_msg later ≡ done tt (record later { task_q = q }))
    × Ring.IsValid q
    × (contents blank_task q ≡ [] ++ (beb_task 2 1 old_msg 2 ∷ []))
unfolding beb_tasks
send_beb_lem_example =
    send_beb_lem generous (λ k. refl) old_msg 8 later
      (record {
        sized = refl;
        front_in = omega arith;
        bounded = omega arith;
        narrow = omega arith;
        behind = refl;
        free = refl;
      })
      (record { narrow = omega arith; ring = omega arith; tasks = omega arith }) refl

init_parts-Started_example :
    (d' : NetData ℕ) × (init_parts generous true later ≡ done tt d') × Started later d'
init_parts-Started_example =
    init_parts-Started generous later (λ k. refl) refl
      (record { positive = omega arith; narrow = omega arith }) (omega arith) refl

-- The datagram of an ordinary message to process 2, that no one has acknowledged.
abbrev silent : NetData ℕ
silent = record later {
  pl_acks = record { table = record acks_table { entries = 0 ∷ 0 ∷ 0 ∷ 0 ∷ [] }; locked = false };
}

abbrev words : List ℕ
words = 3 ∷ 2 ∷ 2 ∷ 0 ∷ 3 ∷ 1 ∷ 2 ∷ 1 ∷ 0 ∷ []

words_lem : serialize generous 2 (msg_of_type 0) ≡ done words (msg_of_type 0)
unfolding serialize
words_lem = refl

send_pl-retries_example :
    (q : Queue Task) × (send_pl generous (λ k d. d) 2 (msg_of_type 0) silent
      ≡ done true (record silent { task_q = q; wire = replicate 10 (102, words) ++ [] }))
    × Queued blank_task silent.task_q (record { pid_dest = 2; msg = msg_of_type 0 }) q
send_pl-retries_example =
    send_pl-retries generous 0 book
      (record { sized = refl; positive = omega arith; narrow = omega arith }) 2 (omega arith)
      (omega arith) (msg_of_type 0) words silent refl words_lem
      (record { free = refl; valid = record { sized = refl; positive = omega arith } }) refl
      (record {
        sized = refl;
        front_in = omega arith;
        bounded = omega arith;
        narrow = omega arith;
        behind = refl;
        free = refl;
      })
      (omega arith) refl
