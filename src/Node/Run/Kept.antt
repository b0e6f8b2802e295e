-- ===== src/Node/Run/Kept.antt =====
-- What the threads keep, whatever they do in whatever order.
use distributed_process.Base.{
  ℕ, Ends-done, Ends-part, Leaves-part, Ends-put_back, Leaves-Ends, Leaves-err, Ends, sym, subst,
}
use distributed_process.Table.{is_ack, set_ack, is_delivered, set_delivered}
use distributed_process.UrbTable.Flags.{is_seen_lem, is_delivered_lem}
use distributed_process.UrbTable.Keep.{Flagged, add-Flagged}
use distributed_process.Log.{print_line}
use distributed_process.Node.{NetData}
use distributed_process.Node.Frame.{Respects}
use distributed_process.Node.Broadcast.Frame.{send_loop-Keeps}
use distributed_process.Node.Link.Frame.{receiver_round-Keeps, sender_round-Leaves}
use distributed_process.Node.Run.{Run, rest, receives, sends, gives_up, broadcasts}

-- A property that each change of a part respects holds along a run.
pub Run-Keeps :
    {A : Type 0} (Q : NetData A → Type 0) → Respects Q → {d e : NetData A} → Run d e → Q d → Q e
Run-Keeps Q r rest q = q
Run-Keeps Q r (receives fuel env junk words m m' run h) q =
    Ends-done _ _ (receiver_round-Keeps Q r env fuel junk words m _ (Run-Keeps Q r run q)) h
Run-Keeps Q r (sends env meanwhile run others h) q =
    Ends-done _ _
      (Leaves-Ends Q _ (
        sender_round-Leaves Q r env meanwhile (λ n x p. Run-Keeps Q r (others n x) p) _
          (Run-Keeps Q r run q)))
      h
Run-Keeps Q r (gives_up env meanwhile code run others h) q =
    Leaves-err Q _
      (sender_round-Leaves Q r env meanwhile (λ n x p. Run-Keeps Q r (others n x) p) _
        (Run-Keeps Q r run q))
      h
Run-Keeps Q r (broadcasts env n k run h) q =
    Ends-done _ _ (send_loop-Keeps Q r env n k _ (Run-Keeps Q r run q)) h

-- Message `i` is marked as delivered.
abbrev pub Marked : {A : Type 0} → ℕ → NetData A → Type 0
Marked i d = Flagged i d.urb_table

pub Marked-Respects : {A : Type 0} (i : ℕ) → Respects {A = A} (Marked i)
Marked-Respects i = record {
  clock = λ d c b q. q;
  pending = λ d p q. q;
  urbacks = λ d t q. q;
  asked =
      λ j d q. Leaves-part (Marked i) (λ t. record d { pl_acks = t }) (is_ack j d.pl_acks) (λ t. q);
  acked = λ env j d q.
      Ends-part (Marked i) (λ t. record d { pl_acks = t }) (set_ack env j d.pl_acks) (λ t. q);
  looked = λ j d q.
      Ends-part (Marked i) (λ t. record d { pl_delivered = t }) (is_delivered j d.pl_delivered)
        (λ t. q);
  entered = λ env j d q.
      Ends-part (Marked i) (λ t. record d { pl_delivered = t }) (set_delivered env j d.pl_delivered)
        (λ t. q);
  queue = λ d t q. q;
  book = λ d b q. q;
  wire = λ d w q. q;
  line = λ env text d q.
      Ends-part (Marked i) (λ l. record d { logdata = l }) (print_line env text d.logdata) (λ l. q);
  flag = λ flag env j d q.
      Ends-put_back (λ u d. Marked i d) (λ t. record d { urb_table = t }) _
        (add-Flagged flag env i j d.urb_table q);
  seen = λ j d q.
      Ends-put_back (λ u d. Marked i d) (λ t. record d { urb_table = t }) _
        (subst (Ends (λ x t. Flagged i t)) (sym (is_seen_lem q.0 j)) q);
  was_delivered = λ j d q.
      Ends-put_back (λ u d. Marked i d) (λ t. record d { urb_table = t }) _
        (subst (Ends (λ x t. Flagged i t)) (sym (is_delivered_lem q.0 j)) q);
}
