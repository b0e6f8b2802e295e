-- ===== src/Process/Main/Stopped.antt =====
-- A process that the handler `stop` of src/da_proc.c has ended.
use distributed_process.Base.{
  ◌≡◌, ◌∙◌, refl, ap, Bool, true, false, not, ◌&&◌, length, ◌==◌, if◌then◌else◌, Every, OnSome,
  Bool-cases, inl, inr, List, done, fault, and_then-step, put_back, ignore, Ok, Outcome, err, hang,
  Env,
}
use distributed_process.Log.{LogData, write_to_file}
use distributed_process.Log.Written
use distributed_process.Log.Written.{WritesAll, written, write_to_file-ignore}
use distributed_process.Node.{in_log}
use distributed_process.Process.{
  Thread, running, joined, SenderThread, Block, book_addresses, book_struct, dependency_lists,
  dependency_struct, queue_elems, ack_entries, urb_values, log_buffer, log_stream,
  delivered_entries, urback_entries, pending_lists, clock_vector, sender_threads, pid_list, Process,
  in_net,
}
use distributed_process.Process.Threads.{System, terminate_receiver, terminate_senders}
use distributed_process.Process.Threads.Ended.{IsLive, with_thread, terminate_senders_lem}
use distributed_process.Process.Release.Held.{held, is_released}
use distributed_process.Process.Release.Freed.{free_data_lem}
use distributed_process.Process.Main.{num_sender_threads, stop}

-- What a stop leaves.
pub record Stopped {A : Type 0} (cancels : Bool) (p p' : Process A) : Type 0 where
  pub file : p'.net.logdata.file ≡ written p.net.logdata
  pub senders : p'.senders ≡ with_thread joined p.senders
  pub receiver : p'.receiver ≡ (if cancels then joined else running)
  pub blocks : (b : Block) → p'.freed b ≡ (is_released b && held p b)
  pub nodes : p'.net.lcb_pending.heap ≡ p.net.lcb_pending.heap

module _ {A : Type 0} where
  -- A process with its log.
  abbrev with_log : LogData → Process A → Process A
  with_log l p = record p { net = record (p.net) { logdata = l } }

  terminate_receiver_lem :
      (s : System) (p : Process A)
      → p.receiver ≡ running
      → p.net.logdata.locked ≡ false
      → ignore (terminate_receiver s p)
        ≡ done tt (record (with_log (record (p.net.logdata) { locked = not s.cancels }) p) {
          receiver = if s.cancels then joined else running;
        })
  unfolding terminate_receiver
  terminate_receiver_lem s p runs free = elim (Bool-cases s.cancels) [
    | inl e ↦ rw free (rw runs (rw e refl))
    | inr e ↦
        let held : LogData = record (p.net.logdata) { locked = true } in
        rw free
          (rw runs (rw e (ap (λ t. done tt (record (with_log held p) { receiver = t })) runs)))
  ]

  ignore-in_log :
      (o : Outcome LogData Ok) (p : Process A) {l : LogData}
      → ignore o ≡ done tt l
      → ignore
          (put_back (λ d. record p { net = d }) (put_back (λ l. record (p.net) { logdata = l }) o))
        ≡ done tt (with_log l p)
  ignore-in_log (done a l) p e = cc
  ignore-in_log (err c l) p e = cc
  ignore-in_log fault p e = cc
  ignore-in_log hang p e = cc

  -- A log whose buffer is as long holds the same blocks.
  held_same :
      (p : Process A) (ts : List SenderThread) (t : Thread) (l : LogData)
      → length l.buffer ≡ length p.net.logdata.buffer
      → (b : Block)
      → (is_released b && held (record (with_log l p) { senders = ts; receiver = t }) b)
        ≡ (is_released b && held p b)
  held_same p ts t l e book_addresses = refl
  held_same p ts t l e book_struct = refl
  held_same p ts t l e dependency_lists = refl
  held_same p ts t l e dependency_struct = refl
  held_same p ts t l e queue_elems = refl
  held_same p ts t l e ack_entries = refl
  held_same p ts t l e urb_values = refl
  held_same p ts t l e log_stream = refl
  held_same p ts t l e delivered_entries = refl
  held_same p ts t l e urback_entries = refl
  held_same p ts t l e pending_lists = refl
  held_same p ts t l e clock_vector = refl
  held_same p ts t l e sender_threads = refl
  held_same p ts t l e (pid_list i) = refl
  held_same p ts t l e log_buffer = ap (λ n. not (n == 0)) e

-- On a process whose ten sender threads run or have ended by themselves, whose receiver runs, whose log
-- is valid with its mutex free, whose matrix, if there is one, has a list for each of its processes,
-- and that has released no block: if `fwrite` takes what it is given, the handler returns. Every line
-- that was logged is in the file; the senders are joined, and the receiver, where it can be cancelled;
-- and of the blocks that `Block` names each is released once, but for the array of the senders and the
-- structure of the matrix. None of the nodes of messages that wait is released.
pub stop_lem :
    {A : Type 0} (env : Env) (s : System) (p : Process A)
    → WritesAll env
    → length p.senders ≡ num_sender_threads
    → Every IsLive p.senders
    → p.receiver ≡ running
    → Written.IsValid p.net.logdata
    → OnSome (λ m. length m.dep_lists ≡ m.num_proc) p.net.dependencies
    → ((b : Block) → p.freed b ≡ false)
    → (p' : Process A) × (stop env s p ≡ done tt p') × Stopped s.cancels p p'
unfolding stop
stop_lem {A} env s p all ten live runs v sized unused =
    let p1 : Process A = record p { senders = with_thread joined p.senders } in
    let t : Thread = if s.cancels then joined else running in
    let l : LogData = record (p.net.logdata) { locked = not s.cancels } in
    let p2 : Process A = record (with_log l p1) { receiver = t } in
    let (l', e, file, size) =
      write_to_file-ignore env all l
        (record { sized = v.sized; fits = v.fits; narrow = v.narrow; free = refl }) in
    let p3 = with_log l' p2 in
    let (p4, run, r) = free_data_lem p3 unused sized in
    (
      p4,
      and_then-step (terminate_senders num_sender_threads p) _
            (terminate_senders_lem num_sender_threads p ten live)
          ∙ and_then-step (ignore (terminate_receiver s p1)) _
              (terminate_receiver_lem s p1 runs (v.free))
          ∙ and_then-step (ignore (in_net (in_log (write_to_file env)) p2)) _
              (ignore-in_log (write_to_file env l) p2 e)
          ∙ run,
      record {
        file = ap (λ x. x.file) r.log ∙ file;
        senders = r.senders;
        receiver = r.receiver;
        blocks = λ b. r.blocks b ∙ held_same p (with_thread joined p.senders) t l' size b;
        nodes = r.nodes;
      },
    )
