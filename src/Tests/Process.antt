-- ===== src/Tests/Process.antt =====
-- Runs of src/pending.c and src/lcb.c on a process of two.
use distributed_process.Base.{
  ℕ, zero, suc, ◌+◌, ◌≡◌, ◌≢◌, ◌↔◌, ◌≤◌, refl, arith, Bool, true, false, List, [], ◌∷◌, ◌++◌, some,
  none, set, length, done,
}
use distributed_process.Dependencies.Access.{list_of}
use distributed_process.Log.{decimal, digits}
use distributed_process.Log.Written
use distributed_process.Pending.{Ptr, VecList, LcbPending, Chain, write, empty_list}
use distributed_process.Pending.Listed.{Cell, Apart}
use distributed_process.Pending.Add.{Holds}
use distributed_process.Node.{NetData}
use distributed_process.Node.Clock.{test_vec_clock}
use distributed_process.Node.Clock.Deliverable.{
  All, InRange, IsReady, CaughtUp, pids_of, test_vec_clock_lem,
}
use distributed_process.Node.Causal.{find_pending, deliver_lcb}
use distributed_process.Node.Causal.Search.{Idle, find_pending_iff}
use distributed_process.Node.Causal.Delivery.{
  IsIdle, Delivered, deliver_lcb-wait, deliver_lcb-idle, deliver_lcb-stuck,
}
use distributed_process.Message.{LcbMsg}
use distributed_process.Node.Start.Ready.{IsConfigured}
use distributed_process.Tests.Samples.{
  generous, matrix, process, waiting, first_msg, second_msg, clock_of,
}

whole_lists :
    (pid : ℕ) → InRange 2 pid → length (pids_of matrix pid) ≡ (list_of matrix pid).list_len
whole_lists zero r = absurd (omega (arith, r))
whole_lists (suc zero) r = refl
whole_lists (suc (suc zero)) r = refl
whole_lists (suc (suc (suc n))) r = absurd (omega (arith, r))

ids-InRange : (pid : ℕ) → InRange 2 pid → All (InRange 2) (pids_of matrix pid)
ids-InRange zero r = absurd (omega (arith, r))
ids-InRange (suc zero) r = ((omega arith, omega arith), tt)
ids-InRange (suc (suc zero)) r = ((omega arith, omega arith), ((omega arith, omega arith), tt))
ids-InRange (suc (suc (suc n))) r = absurd (omega (arith, r))

-- The process, whatever waits in it.
abbrev ready : (p : LcbPending) → IsReady (record process { lcb_pending = p })
ready p = record {
  free = refl;
  sized = refl;
  narrow = omega arith;
  matrix = matrix;
  pointer = refl;
  valid = record { sized = refl; positive = omega arith; narrow = omega arith };
  same = refl;
  whole = whole_lists;
  ids = ids-InRange;
}

log-IsValid : Written.IsValid process.logdata
log-IsValid = record { sized = refl; fits = omega arith; narrow = omega arith; free = refl }

not-IsIdle : ¬ IsIdle waiting
not-IsIdle (a, ((l, e, null), b)) = cc

caught_up : CaughtUp (1 ∷ 2 ∷ []) (1 ∷ 0 ∷ []) (1 ∷ 0 ∷ [])
caught_up = (omega arith, (omega arith, tt))

ahead : ¬ CaughtUp (1 ∷ 2 ∷ []) (1 ∷ 1 ∷ []) (1 ∷ 0 ∷ [])
ahead (a, (b, c)) = omega (arith, b)

find_pending_iff_example :
    (find_pending 9 generous waiting ≡ done true waiting)
    ↔ (Idle waiting.lcb_pending.lists 0 2 × (true ≡ false) × (waiting ≡ waiting))
find_pending_iff_example = find_pending_iff generous 8 waiting true waiting

-- One message of process 2 waits, and another comes.
abbrev held_7 : List Cell
held_7 = record { at = 7; clock = clock_of 1 1 } ∷ []

abbrev list_7 : VecList
list_7 = record { num_elems = 1; head = 7; tail = 7 }

abbrev pending_7 : LcbPending
pending_7 = record {
  num_proc = 2;
  lists = empty_list ∷ list_7 ∷ [];
  heap = write (λ p. none) 7 (some (record { clock = clock_of 1 1; next = 0; previous = 0 }));
}

abbrev process_7 : NetData ℕ
process_7 = record process { lcb_pending = pending_7 }

deliver_lcb-wait_example :
    (c : Chain) × (deliver_lcb 9 generous second_msg process_7
      ≡ done tt (record process_7 {
        lcb_pending = record pending_7 { lists = set pending_7.lists 1 c.list; heap = c.heap };
      }))
    × Holds (held_7 ++ (record { at = 5; clock = clock_of 1 1 } ∷ [])) c
    × ((q : Ptr) → q ≢ 5 → Apart q held_7 → c.heap q ≡ pending_7.heap q)
deliver_lcb-wait_example =
    deliver_lcb-wait generous 9 second_msg process_7 (ready pending_7) (omega arith, omega arith)
      refl list_7 held_7 ahead refl refl refl
      (record {
        seg = (refl, λ e. omega (arith, e), 0, refl, (refl, refl));
        apart = (tt, tt);
        size = refl;
      })
      (λ k. refl) (λ e. omega (arith, e), tt) (λ e. omega (arith, e)) (omega arith)

idle : IsIdle process
idle = ((empty_list, refl, refl), ((empty_list, refl, refl), tt))

short : length (decimal 2) + length (decimal 1) ≤ 3
unfolding decimal digits
short = omega arith

deliver_lcb-idle_example :
    (d' : NetData ℕ) × (deliver_lcb 9 generous first_msg process ≡ done tt d')
    × Delivered process 2 d'
deliver_lcb-idle_example =
    deliver_lcb-idle generous 8 first_msg process (ready process.lcb_pending)
      (omega arith, omega arith) refl caught_up idle log-IsValid (λ n. refl) (omega arith) short

deliver_lcb-stuck_example : deliver_lcb 9 generous first_msg waiting ≢ done tt process
deliver_lcb-stuck_example =
    deliver_lcb-stuck generous 8 first_msg waiting (ready waiting.lcb_pending)
      (omega arith, omega arith) refl caught_up not-IsIdle process

test_vec_clock_lem_example :
    (b : Bool) × (test_vec_clock (clock_of 1 1) 2 process ≡ done b process)
    × ((b ≡ true) ↔ CaughtUp (1 ∷ 2 ∷ []) (1 ∷ 1 ∷ []) (1 ∷ 0 ∷ []))
test_vec_clock_lem_example =
    test_vec_clock_lem process (ready process.lcb_pending) 2 (omega arith, omega arith)
      (clock_of 1 1) refl

abbrev process-IsConfigured : IsConfigured process
process-IsConfigured = record {
  matrix = matrix;
  pointer = refl;
  valid = record { sized = refl; positive = omega arith; narrow = omega arith };
  same = refl;
  whole = whole_lists;
  ids = ids-InRange;
}

abbrev zero_msg : LcbMsg
zero_msg = record { vec_clock = clock_of 0 0; original_sender = 2 }
