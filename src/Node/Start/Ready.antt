-- ===== src/Node/Start/Ready.antt =====
-- The first delivery after the set-up of src/da_proc.c.
use distributed_process.Base.{
  ℕ, suc, ◌+◌, ◌-◌, ◌≤◌, ◌<◌, ◌≡◌, ◌∙◌, refl, ap, ap₂, if◌then◌else◌, true, false, some, List, [],
  ◌∷◌, length, replicate, length-replicate, get_or-replicate, arith, u32, ◌==◌, done, and_then-step,
  ◌>>◌, Env,
}
use distributed_process.Dependencies.{Dependencies}
use distributed_process.Dependencies.Access
use distributed_process.Dependencies.Access.{list_of}
use distributed_process.Log.{delivery_line, decimal}
use distributed_process.Log.Written.{WritesAll, written}
use distributed_process.Log.Lines.{length-decimal_one, length-decimal_two}
use distributed_process.Message.{LcbMsg}
use distributed_process.Node.{NetData}
use distributed_process.Node.Clock.Deliverable.{All, InRange, IsReady, CaughtUp, pids_of, entry}
use distributed_process.Node.Causal.{deliver_lcb}
use distributed_process.Node.Causal.Delivery.{deliver_lcb-idle}
use distributed_process.Node.Start.{init_parts}
use distributed_process.Node.Start.Parts.{IsSmall, narrow_lem}
use distributed_process.Node.Start.Started.{started, started-Started, steps}

-- What the parser has to leave for the set-up: a matrix with a whole list of ids for each process.
pub record IsConfigured {A : Type 0} (d : NetData A) : Type 0 where
  pub matrix : Dependencies
  pub pointer : d.dependencies ≡ some matrix
  pub valid : Access.IsValid matrix
  pub same : matrix.num_proc ≡ d.num_proc
  pub whole :
      (pid : ℕ)
      → InRange d.num_proc pid
      → length (pids_of matrix pid) ≡ (list_of matrix pid).list_len
  pub ids : (pid : ℕ) → InRange d.num_proc pid → All (InRange d.num_proc) (pids_of matrix pid)

module _ {A : Type 0} (d : NetData A) (s : IsSmall d.num_proc) (c : IsConfigured d) where
  abbrev started-IsReady : IsReady (started d)
  started-IsReady = record {
    free = refl;
    sized = length-replicate {A = ℕ} d.num_proc 0;
    narrow = omega (arith, narrow_lem d.num_proc s);
    matrix = c.matrix;
    pointer = c.pointer;
    valid = c.valid;
    same = c.same;
    whole = c.whole;
    ids = c.ids;
  }

caught_up :
    (pids theirs : List ℕ) (n : ℕ)
    → All (λ p. entry theirs p ≤ 0) pids
    → CaughtUp pids theirs (replicate n 0)
caught_up [] theirs n h = tt
caught_up (p ∷ pids) theirs n (h, hs) = (omega (arith, h), caught_up pids theirs n hs)

-- What a first delivery of process `pid` leaves: a count of one, and one line in the log.
pub record HasDelivered {A : Type 0} (pid : ℕ) (d : NetData A) : Type 0 where
  pub count : (p : ℕ) → 0 < p → entry d.vector_clock.vector p ≡ (if p == pid then 1 else 0)
  pub line : written d.logdata ≡ delivery_line pid 1

-- With every call of the system granted and a configured process whose id has one digit, whose
-- tables' sizes are an `unsigned int`, and whose log's mutex is free: the set-up, and then the
-- delivery of a first message of one of the processes below 100, whose clock has an entry for each
-- process and is 0 on those that its sender depends on, return 0, and leave a count of one for its
-- sender, none for the others, and one line in the log.
pub first_delivery :
    {A : Type 0} (env : Env) (fuel : ℕ) (d : NetData A) (m : LcbMsg)
    → ((k : ℕ) → env.grants k ≡ true)
    → env.mutexes ≡ true
    → WritesAll env
    → (s : IsSmall d.num_proc) → (c : IsConfigured d) → d.self_pid < 10
    → d.logdata.locked ≡ false
    → InRange d.num_proc m.original_sender
    → m.original_sender < 100
    → length m.vec_clock.vector ≡ d.num_proc
    → All (λ p. entry m.vec_clock.vector p ≤ 0) (pids_of c.matrix m.original_sender)
    → (d' : NetData A) × ((init_parts env true >> deliver_lcb (suc fuel) env m) d ≡ done tt d')
      × HasDelivered m.original_sender d'
first_delivery env fuel d m grants mutexes all s c self free real small full zeros =
    let pid = m.original_sender in
    let zero_entry : (p : ℕ) → entry (replicate d.num_proc 0) p ≡ 0 =
      λ p. get_or-replicate {A = ℕ} d.num_proc (p - 1) 0 in
    let one : u32 (entry (replicate d.num_proc 0) pid + 1) ≡ 1 =
      ap (λ k. u32 (k + 1)) (zero_entry pid) in
    let ready = started-IsReady d s c in
    let fresh = started-Started d s free in
    let (d', e, delivered) =
      deliver_lcb-idle env fuel m (started d) ready real full
        (caught_up (pids_of c.matrix pid) m.vec_clock.vector d.num_proc zeros) fresh.pending
        fresh.log all (omega arith)
        (omega (
          arith,
          length-decimal_two pid small,
          ap (λ k. length (decimal k)) one,
          length-decimal_one 1 (omega arith),
        )) in
    (
      d',
      and_then-step (init_parts env true d) _ (steps d env grants mutexes s self) ∙ e,
      record {
        count = λ p pos.
            delivered.clock p pos ∙ ap₂ (λ a b. if p == pid then a else b) one (zero_entry p);
        line = delivered.log ∙ ap (delivery_line pid) one;
      },
    )
