-- ===== src/Node/Run/Logged.antt =====
-- The log under a run of the threads of a process.
use distributed_process.Base.{◌≡◌, Ends-map, Ends-part, Leaves-part, Ends-put_back}
use distributed_process.Table.{is_ack, set_ack, is_delivered, set_delivered}
use distributed_process.UrbTable.{is_seen_urb, is_delivered_urb}
use distributed_process.UrbTable.Flags.{add}
use distributed_process.Log.{print_line}
use distributed_process.Log.Written.{IsValid}
use distributed_process.Log.Kept.{print_line-IsValid}
use distributed_process.Dependencies.{Pointer}
use distributed_process.Node.{NetData}
use distributed_process.Node.Frame.{Respects}

-- The log is valid, and the matrix is `m`.
pub record IsLogging {A : Type 0} (m : Pointer) (d : NetData A) : Type 0 where
  pub valid : IsValid d.logdata
  pub matrix : d.dependencies ≡ m

pub IsLogging-Respects : {A : Type 0} (m : Pointer) → Respects {A = A} (IsLogging m)
IsLogging-Respects m = record {
  clock = λ d c b q. record { valid = q.valid; matrix = q.matrix };
  pending = λ d p q. record { valid = q.valid; matrix = q.matrix };
  urbacks = λ d t q. record { valid = q.valid; matrix = q.matrix };
  asked = λ j d q.
      Leaves-part (IsLogging m) (λ t. record d { pl_acks = t }) (is_ack j d.pl_acks)
        (λ t. record { valid = q.valid; matrix = q.matrix });
  acked = λ env j d q.
      Ends-part (IsLogging m) (λ t. record d { pl_acks = t }) (set_ack env j d.pl_acks)
        (λ t. record { valid = q.valid; matrix = q.matrix });
  looked = λ j d q.
      Ends-part (IsLogging m) (λ t. record d { pl_delivered = t }) (is_delivered j d.pl_delivered)
        (λ t. record { valid = q.valid; matrix = q.matrix });
  entered = λ env j d q.
      Ends-part (IsLogging m) (λ t. record d { pl_delivered = t })
        (set_delivered env j d.pl_delivered) (λ t. record { valid = q.valid; matrix = q.matrix });
  queue = λ d t q. record { valid = q.valid; matrix = q.matrix };
  book = λ d b q. record { valid = q.valid; matrix = q.matrix };
  wire = λ d w q. record { valid = q.valid; matrix = q.matrix };
  line = λ env text d q.
      Ends-put_back (λ u e. IsLogging m e) (λ l. record d { logdata = l })
        (print_line env text d.logdata)
        (Ends-map (λ u l. IsValid l) _ (print_line env text d.logdata)
          (λ u l v. record { valid = v; matrix = q.matrix })
          (print_line-IsValid env text d.logdata q.valid));
  flag = λ flag env j d q.
      Ends-part (IsLogging m) (λ t. record d { urb_table = t }) (add flag env j d.urb_table)
        (λ t. record { valid = q.valid; matrix = q.matrix });
  seen = λ j d q.
      Ends-part (IsLogging m) (λ t. record d { urb_table = t }) (is_seen_urb j d.urb_table)
        (λ t. record { valid = q.valid; matrix = q.matrix });
  was_delivered = λ j d q.
      Ends-part (IsLogging m) (λ t. record d { urb_table = t }) (is_delivered_urb j d.urb_table)
        (λ t. record { valid = q.valid; matrix = q.matrix });
}
