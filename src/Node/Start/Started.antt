-- ===== src/Node/Start/Started.antt =====
-- What the set-up of src/da_proc.c leaves.
use distributed_process.Base.{
  u32, ℕ, zero, suc, ◌+◌, ◌≤◌, ◌<◌, ◌≡◌, ◌∙◌, refl, ap, true, false, some, [], get_elem?-eq-get_or,
  replicate, length-replicate, get_or-replicate, arith, done, and_then-step, put_back, Env,
}
use distributed_process.Table.{init_table_uid, init_ack_table, init_deliver_pl}
use distributed_process.Table.Growth.{value}
use distributed_process.Table.Growth
use distributed_process.Table.Acks.{IsFree}
use distributed_process.UrbTable.{entry, init_urb_table}
use distributed_process.UrbTable.Flags
use distributed_process.UrbTable.Flags.{flags}
use distributed_process.Queue.{init_queue}
use distributed_process.Queue.Ring
use distributed_process.Queue.Ring.{contents}
use distributed_process.Log.Written
use distributed_process.Log.Written.{written}
use distributed_process.Message.{blank_task}
use distributed_process.Pending.{empty_list, init_pending_lcb}
use distributed_process.Node.{
  NetData, in_acks, in_delivered, in_queue, in_urb_table, in_urbacks, in_pending,
}
use distributed_process.Node.Clock.{init_vector_mutex}
use distributed_process.Node.Causal.Search.{Idle}
use distributed_process.Node.Causal.Delivery.{IsIdle}
use distributed_process.Node.Start.Parts.{
  empty_queue, empty_table, empty_flags, empty_log, empty_pending, zero_clock, IsSmall,
  value-empty_table, flags-empty_flags, empty_table-IsValid, empty_flags-IsValid, narrow_lem,
  init_queue_lem, init_table_lem, init_deliver_lem, init_ack_lem, init_urb_lem, init_pending_lem,
  init_clock_lem, init_log_lem, name_file_lem,
}
use distributed_process.Node.Start.{
  queue_len, orig_table_size, msg_buf_max_size, name_file, init_parts,
}

pub record Started {A : Type 0} (d d' : NetData A) : Type 0 where
  pub queue : Ring.IsValid d'.task_q
  pub no_tasks : contents blank_task d'.task_q ≡ []
  pub acks : IsFree d'.pl_acks
  pub no_acks : (i : ℕ) → value d'.pl_acks.table i ≡ 0
  pub delivered : Growth.IsValid d'.pl_delivered
  pub none_delivered : (i : ℕ) → value d'.pl_delivered i ≡ 0
  pub urb : Flags.IsValid d'.urb_table
  pub no_flags : (i : ℕ) → flags d'.urb_table i ≡ entry 0 0
  pub urbacks : Growth.IsValid d'.urbacks
  pub rows : d'.urbacks.no_process ≡ d.num_proc
  pub no_urbacks : (i : ℕ) → value d'.urbacks i ≡ 0
  pub pending : IsIdle d'
  pub clock : d'.vector_clock.vector ≡ replicate d.num_proc 0
  pub clock_free : d'.clock_locked ≡ false
  pub log : Written.IsValid d'.logdata
  pub nothing_logged : written d'.logdata ≡ []
  pub buffer : d'.logdata.buf_max_size ≡ msg_buf_max_size
  pub same_num_proc : d'.num_proc ≡ d.num_proc
  pub same_dependencies : d'.dependencies ≡ d.dependencies

empty-Idle : (n k i : ℕ) → i + k ≤ n → Idle (replicate n empty_list) i k
empty-Idle n zero i h = tt
empty-Idle n (suc k) i h = (
  (
    empty_list,
    get_elem?-eq-get_or (replicate n empty_list) i empty_list
          (omega (arith, length-replicate n empty_list))
        ∙ ap some (get_or-replicate n i empty_list),
    refl,
  ),
  empty-Idle n k (i + 1) (omega arith),
)

module _ {A : Type 0} (d : NetData A) where
  abbrev pub started : NetData A
  started = record d {
    task_q = empty_queue;
    pl_acks = record { table = empty_table d.num_proc; locked = false };
    pl_delivered = empty_table d.num_proc;
    urb_table = empty_flags d.num_proc;
    urbacks = empty_table d.num_proc;
    lcb_pending = empty_pending d.num_proc d.lcb_pending;
    vector_clock = zero_clock d.num_proc;
    clock_locked = false;
    logdata = empty_log d.logdata;
  }

  pub started-Started : IsSmall d.num_proc → d.logdata.locked ≡ false → Started d started
  started-Started s free = record {
    queue = record {
      sized = refl;
      front_in = omega arith;
      bounded = omega arith;
      narrow = omega arith;
      behind = refl;
      free = refl;
    };
    no_tasks = refl;
    acks = record { free = refl; valid = empty_table-IsValid d.num_proc s };
    no_acks = value-empty_table d.num_proc;
    delivered = empty_table-IsValid d.num_proc s;
    none_delivered = value-empty_table d.num_proc;
    urb = empty_flags-IsValid d.num_proc s;
    no_flags = flags-empty_flags d.num_proc;
    urbacks = empty_table-IsValid d.num_proc s;
    rows = refl;
    no_urbacks = value-empty_table d.num_proc;
    pending = empty-Idle d.num_proc (u32 d.num_proc) 0 (omega arith);
    clock = refl;
    clock_free = refl;
    log = record {
      sized = length-replicate {A = ℕ} msg_buf_max_size 0;
      fits = omega arith;
      narrow = omega arith;
      free = free;
    };
    nothing_logged = refl;
    buffer = refl;
    same_num_proc = refl;
    same_dependencies = refl;
  }

  pub steps :
      (env : Env)
      → ((k : ℕ) → env.grants k ≡ true)
      → env.mutexes ≡ true
      → IsSmall d.num_proc
      → d.self_pid < 10
      → init_parts env true d ≡ done tt started
  unfolding init_parts
  steps env grants mutexes s self =
      let n = d.num_proc in
      let d1 : NetData A = record d { task_q = empty_queue } in
      let d2 : NetData A = record d1 {
        pl_acks = record { table = empty_table n; locked = false };
      } in
      let d3 : NetData A = record d2 { pl_delivered = empty_table n } in
      let d4 : NetData A = record d3 { urb_table = empty_flags n } in
      let d5 : NetData A = record d4 { urbacks = empty_table n } in
      let d6 : NetData A = record d5 { lcb_pending = empty_pending n d.lcb_pending } in
      let d7 : NetData A = record d6 { vector_clock = zero_clock n; clock_locked = false } in
      rw (narrow_lem n s) (
        and_then-step (in_queue (init_queue blank_task env queue_len) d) _ (
          ap (put_back (λ q. record d { task_q = q }))
            (init_queue_lem n s env grants mutexes d.task_q))
        ∙ and_then-step (in_acks (init_ack_table env orig_table_size n) d1) _ (
            ap (put_back (λ t. record d1 { pl_acks = t }))
              (init_ack_lem n s env grants mutexes d.pl_acks))
        ∙ and_then-step (in_delivered (init_deliver_pl env orig_table_size n) d2) _ (
            ap (put_back (λ t. record d2 { pl_delivered = t }))
              (init_deliver_lem n s env grants mutexes d.pl_delivered))
        ∙ and_then-step (in_urb_table (init_urb_table env orig_table_size n) d3) _ (
            ap (put_back (λ t. record d3 { urb_table = t }))
              (init_urb_lem n s env grants mutexes d.urb_table))
        ∙ and_then-step (in_urbacks (init_table_uid env orig_table_size n) d4) _ (
            ap (put_back (λ t. record d4 { urbacks = t }))
              (init_table_lem n s env grants mutexes d.urbacks))
        ∙ and_then-step (in_pending (init_pending_lcb env n) d5) _ (
            ap (put_back (λ t. record d5 { lcb_pending = t }))
              (init_pending_lem n s env grants mutexes d.lcb_pending))
        ∙ and_then-step (init_vector_mutex env n d6) _ (init_clock_lem n s env grants mutexes d6)
        ∙ and_then-step (name_file d7) _ (name_file_lem d7 self)
        ∙ ap (put_back (λ l. record d7 { logdata = l }))
            (init_log_lem n s env grants mutexes d.logdata))

-- With every call of the system granted, for a process whose id has one digit and whose tables'
-- sizes are an `unsigned int`, and with the log's mutex free, the set-up of `init_data` returns 0
-- and leaves each part valid: an empty queue, tables that read 0 everywhere, no message that waits,
-- a clock of zeros and an empty log, with all mutexes free.
pub init_parts-Started :
    {A : Type 0} (env : Env) (d : NetData A)
    → ((k : ℕ) → env.grants k ≡ true)
    → env.mutexes ≡ true
    → IsSmall d.num_proc
    → d.self_pid < 10
    → d.logdata.locked ≡ false
    → (d' : NetData A) × (init_parts env true d ≡ done tt d') × Started d d'
init_parts-Started env d grants mutexes s self free =
    (started d, steps d env grants mutexes s self, started-Started d s free)
