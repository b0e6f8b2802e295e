-- ===== src/Tests/Runs.antt =====
-- Two calls of `deliver_urb` of src/urb.c for one message, a round of a sender thread between them.
use distributed_process.Base.{ℕ, ◌≡◌, ◌⊎◌, refl, arith, false, [], ◌∷◌, done}
use distributed_process.Table.{table_write_entry, grow_until, store_entry}
use distributed_process.UrbTable
use distributed_process.UrbTable.{
  entry, is_seen_urb, is_delivered_urb, add_delivered_urb, update_entry,
}
use distributed_process.Queue.{dequeue, queue_empty, take_front}
use distributed_process.Dependencies.{get_dependencies}
use distributed_process.Log.{
  log_deliver, print_line, write_log, write_to_file, flush_if_full, append_line, digits, decimal,
}
use distributed_process.Message.{UrbMsg}
use distributed_process.Node.{NetData}
use distributed_process.Node.Clock.{test_vec_clock, compare_clocks, update_vec_clock, count_up}
use distributed_process.Node.Causal.{
  deliver_lcb, deliver_now, find_all, find_pending, search_lists, search_list, log_deliver_lcb,
}
use distributed_process.Node.Broadcast.{
  set_ack_urb, relay_if_new, deliver_if_new, deliver_if_ready, deliver_urb, can_deliver, count_acks,
}
use distributed_process.Node.Broadcast.Kept.{Unseen}
use distributed_process.Node.Link.{sender_round}
use distributed_process.Node.Run.{rest, sends}
use distributed_process.Node.Run.Once.{at_most_once}
use distributed_process.Tests.Samples.{generous, process, msg_of_type, first_msg, clock_of}

abbrev new_msg : UrbMsg
new_msg = record ((msg_of_type 0).urb_msg) { seen_id = 0; mid = 1; lcb_msg = first_msg }

-- `b 1` is in the file, and `d 2 1` in the buffer.
abbrev after_delivery : NetData ℕ
after_delivery = record process {
  urb_table = record {
    values = entry 1 1 ∷ entry 0 0 ∷ [];
    no_msgs = 1;
    no_process = 2;
    total_entries = 2;
  };
  vector_clock = clock_of 1 1;
  logdata = record {
    file = 98 ∷ 32 ∷ 49 ∷ 10 ∷ [];
    buffer = 100 ∷ 32 ∷ 50 ∷ 32 ∷ 49 ∷ 10 ∷ 0 ∷ 0 ∷ [];
    buf_current_size = 6;
    buf_max_size = 8;
    locked = false;
  };
}

first_call : deliver_urb 3 generous new_msg process ≡ done tt after_delivery
unfolding deliver_urb set_ack_urb relay_if_new deliver_if_new deliver_if_ready can_deliver
    count_acks table_write_entry grow_until store_entry is_seen_urb is_delivered_urb
    add_delivered_urb UrbTable.grow_until update_entry deliver_lcb deliver_now find_all find_pending
    search_lists search_list log_deliver_lcb test_vec_clock compare_clocks update_vec_clock count_up
    get_dependencies log_deliver print_line write_log write_to_file flush_if_full append_line digits
    decimal
first_call = refl

idle_round : sender_round generous (λ n x. x) after_delivery ≡ done tt after_delivery
unfolding sender_round dequeue queue_empty take_front
idle_round = refl

second_call : deliver_urb 3 generous new_msg after_delivery ≡ done tt after_delivery
unfolding deliver_urb set_ack_urb relay_if_new deliver_if_new deliver_if_ready can_deliver
    count_acks table_write_entry grow_until store_entry is_seen_urb is_delivered_urb
second_call = refl

at_most_once_example : Unseen process after_delivery ⊎ Unseen after_delivery after_delivery
at_most_once_example =
    at_most_once generous generous 3 3 new_msg new_msg process after_delivery after_delivery
      after_delivery (record { sized = refl; positive = omega arith; small = omega arith }) refl
      first_call (sends generous (λ n x. x) rest (λ n x. rest) idle_round) second_call
