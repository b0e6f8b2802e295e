-- ===== src/Process/Release/Parts.antt =====
-- `free_data` of src/da_proc.c behind the address book and the matrix.
use distributed_process.Base.{
  ◌≡◌, inl, inr, ◌∙◌, refl, Bool, false, not, [], length, ◌==◌, ignore, Bool-cases, done,
  and_then-step,
}
use distributed_process.Pending.{LcbPending, destroy_pending_lcb}
use distributed_process.Node.{NetData, in_pending}
use distributed_process.Process.{
  Block, queue_elems, ack_entries, urb_values, log_buffer, log_stream, delivered_entries,
  urback_entries, pending_lists, clock_vector, Process, in_net, mark_freed,
}
use distributed_process.Process.Release.{
  release, free_parts, free_log_data, free_delivered, free_ack_urb,
}

release_lem :
    {A : Type 0} (b : Block) (null : Bool) (p : Process A)
    → p.freed b ≡ false
    → release b null p ≡ done tt (mark_freed b null p)
release_lem b null p e = rw e refl

destroyed :
    {A : Type 0} (q : Process A)
    → (p : LcbPending) × (ignore (in_net (in_pending destroy_pending_lcb) q)
        ≡ done tt (record q { net = record (q.net) { lcb_pending = p } }))
      × (p.heap ≡ q.net.lcb_pending.heap)
unfolding destroy_pending_lcb
destroyed q = elim (Bool-cases (length q.net.lcb_pending.lists == 0)) [
  | inl null ↦ (q.net.lcb_pending, rw null refl, refl)
  | inr there ↦ (record (q.net.lcb_pending) { lists = []; num_proc = 0 }, rw there refl, refl)
]

module _ {A : Type 0} (q : Process A) where
  -- The parts behind the address book and the matrix.
  abbrev pub marked : Process A
  marked = mark_freed clock_vector (length q.net.vector_clock.vector == 0) (
      mark_freed pending_lists (length q.net.lcb_pending.lists == 0) (
        mark_freed urback_entries (length q.net.urbacks.entries == 0) (
          mark_freed delivered_entries (length q.net.pl_delivered.entries == 0) (
            mark_freed log_stream (not q.log_open) (
              mark_freed log_buffer (length q.net.logdata.buffer == 0) (
                mark_freed urb_values (length q.net.urb_table.values == 0) (
                  mark_freed ack_entries (length q.net.pl_acks.table.entries == 0)
                    (mark_freed queue_elems (length q.net.task_q.elems == 0) q))))))))

  abbrev pub emptied : LcbPending → NetData A
  emptied p = record (q.net) {
    task_q = record (q.net.task_q) { elems = [] };
    pl_acks = record (q.net.pl_acks) { table = record (q.net.pl_acks.table) { entries = [] } };
    urb_table = record (q.net.urb_table) { values = [] };
    lcb_pending = p;
  }

  pub free_parts_lem :
      q.freed log_buffer ≡ false
      → q.freed log_stream ≡ false
      → q.freed delivered_entries ≡ false
      → q.freed urback_entries ≡ false
      → q.freed pending_lists ≡ false
      → q.freed clock_vector ≡ false
      → (p : LcbPending) × (free_parts q ≡ done tt (record marked { net = emptied p }))
        × (p.heap ≡ q.net.lcb_pending.heap)
  unfolding free_parts
  free_parts_lem a b c d e f =
      let q3 : Process A =
        record (mark_freed urb_values (length q.net.urb_table.values == 0) (
          mark_freed ack_entries (length q.net.pl_acks.table.entries == 0)
            (mark_freed queue_elems (length q.net.task_q.elems == 0) q))) {
              net = emptied q.net.lcb_pending;
            } in
      let q4 = mark_freed log_buffer (length q.net.logdata.buffer == 0) q3 in
      let q5 = mark_freed log_stream (not q.log_open) q4 in
      let q6 = mark_freed delivered_entries (length q.net.pl_delivered.entries == 0) q5 in
      let q7 = mark_freed urback_entries (length q.net.urbacks.entries == 0) q6 in
      let q8 = mark_freed pending_lists (length q.net.lcb_pending.lists == 0) q7 in
      let (p, e8, nodes) = destroyed q8 in
      let q9 : Process A = record q8 { net = record (q8.net) { lcb_pending = p } } in
      (
        p,
        and_then-step (free_log_data q3) _ (
              and_then-step (release log_buffer (length q.net.logdata.buffer == 0) q3) _
                (release_lem log_buffer _ q3 a)
              ∙ release_lem log_stream (not q.log_open) q4 b)
            ∙ and_then-step (free_delivered q5) _ (release_lem delivered_entries _ q5 c)
            ∙ and_then-step (free_ack_urb q6) _ (release_lem urback_entries _ q6 d)
            ∙ and_then-step (release pending_lists (length q.net.lcb_pending.lists == 0) q7) _
                (release_lem pending_lists _ q7 e)
            ∙ and_then-step (ignore (in_net (in_pending destroy_pending_lcb) q8)) _ e8
            ∙ release_lem clock_vector (length q.net.vector_clock.vector == 0) q9 f,
        nodes,
      )
