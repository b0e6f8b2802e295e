-- ===== src/Tests/Fifo.antt =====
-- Runs of src/fifo.c on a process of two.
use distributed_process.Base.{ℕ, ◌+◌, ◌≡◌, ◌≢◌, arith, [], ◌∷◌, refl, done}
use distributed_process.FifoTable.Access.{count}
use distributed_process.Node.{NetData}
use distributed_process.Node.Fifo.{deliver_fifo}
use distributed_process.Node.Fifo.Spec.{come, streak, IsReady, Ran}
use distributed_process.Node.Fifo.Order.{arrived, deliver_fifo_lem}
use distributed_process.Tests.Samples.{generous, process}

-- Message 2 of process 1 waits for message 1.
abbrev early : NetData ℕ
early = record process {
  pending = record { bol = 0 ∷ 0 ∷ 1 ∷ 0 ∷ []; no_msgs = 2; no_process = 2; total_entries = 4 };
}

abbrev early-IsReady : IsReady early 1 3
early-IsReady = record {
  table = record { sized = refl; small = omega arith };
  next = record { sized = refl; narrow = omega arith };
  rows = refl;
  low = omega arith;
  high = omega arith;
  digit = omega arith;
  hundred = omega arith;
  narrow = omega arith;
  not_come = λ e. omega (arith, e);
  log = record { sized = refl; fits = omega arith; narrow = omega arith; free = refl };
  line = omega arith;
}

abbrev both : NetData ℕ
both = arrived generous (λ n. refl) 1 3 early 1

two_wait : streak both 1 2 1 ≡ 2
unfolding streak
two_wait = refl

deliver_fifo_lem_example :
    (d' : NetData ℕ) × (deliver_fifo 9 generous
        (record { sequence_num = 1; original_sender = 1 })
        early
      ≡ done tt d')
    × Ran both 1 3 1 (streak both 1 2 1) d'
    × (come d' 1 (count d'.next 1 + 1) ≢ 1)
deliver_fifo_lem_example =
    deliver_fifo_lem generous (λ n. refl) 1 3 early early-IsReady 1 (omega arith) (omega arith)
      (omega arith) 9 (omega arith) (omega arith) (λ e. omega (arith, e))
