-- ===== src/Node/Causal/Delivery.antt =====
-- `deliver_lcb` of src/lcb.c, on messages that can be delivered and on messages that wait.
use distributed_process.Base.{
  ℕ, zero, suc, ◌+◌, ◌≤◌, ◌<◌, ◌≡◌, ◌≢◌, ◌∙◌, refl, sym, ap, subst, true, false, ◌++◌, length,
  Bool-cases, inl, inr, if◌then◌else◌, ◌==◌, u32, done, and_then-done, and_then-step, put_back,
  put_back-done, Env, List, [], ◌∷◌, get_elem?, some, set, ◌-◌, ◌^◌, arith,
}
use distributed_process.Log.{line_max_length, log_deliver, delivery_line, decimal}
use distributed_process.Log.Written
use distributed_process.Log.Written.{WritesAll, Logged, written}
use distributed_process.Log.Lines.{log_deliver_lem}
use distributed_process.Message.{LcbMsg}
use distributed_process.Pending.{Ptr, VecList, Chain, add_pending_lcb}
use distributed_process.Pending.Listed.{Cell, Apart}
use distributed_process.Pending.Add.{Holds, add_pending_lcb_lem}
use distributed_process.Node.{NetData, in_log, in_pending}
use distributed_process.Node.Clock.{test_vec_clock, update_vec_clock}
use distributed_process.Node.Clock.Deliverable.{
  InRange, CaughtUp, IsReady, waited_for, entry, counted, test_vec_clock_lem, update_vec_clock_lem,
  entry-counted,
}
use distributed_process.Node.Causal.{
  log_deliver_lcb, find_pending, find_all, deliver_now, deliver_lcb,
}
use distributed_process.Node.Causal.Search.{Idle, find_pending_iff}

-- No message waits.
abbrev pub IsIdle : {A : Type 0} → NetData A → Type 0
IsIdle d = Idle d.lcb_pending.lists 0 (u32 d.lcb_pending.num_proc)

module _ {A : Type 0} (env : Env) where
  find_all-idle :
      (calls fuel : ℕ) (d : NetData A)
      → IsIdle d
      → find_all (suc calls) (suc fuel) env d ≡ done tt d
  unfolding find_all
  find_all-idle calls fuel d idle =
      and_then-step (find_pending (suc fuel) env d) _
        ((find_pending_iff env fuel d false d).1 (idle, refl, refl))

  find_all-done :
      (calls fuel : ℕ) (d d' : NetData A) → find_all calls (suc fuel) env d ≡ done tt d' → IsIdle d
  unfolding find_all
  find_all-done zero fuel d d' h = cc
  find_all-done (suc calls) fuel d d' h =
      let (b, d1, a, h1) = and_then-done (find_pending (suc fuel) env d) _ h in
      ((find_pending_iff env fuel d b d1).0 a).0

-- What a delivery of process `pid` leaves.
pub record Delivered {A : Type 0} (d : NetData A) (pid : ℕ) (d' : NetData A) : Type 0 where
  pub clock :
      (p : ℕ)
      → 0 < p
      → entry d'.vector_clock.vector p ≡ (
          if p == pid
          then u32 (entry d.vector_clock.vector pid + 1)
          else entry d.vector_clock.vector p)
  pub log :
      written d'.logdata
      ≡ written d.logdata ++ delivery_line pid (u32 (entry d.vector_clock.vector pid + 1))
  pub pending : d'.lcb_pending ≡ d.lcb_pending
  pub queue : d'.task_q ≡ d.task_q

module _ {A : Type 0} (env : Env) (fuel : ℕ) (m : LcbMsg) (d : NetData A) (r : IsReady d)
    (real : InRange d.num_proc m.original_sender)
    (full : length m.vec_clock.vector ≡ d.num_proc) where
  deliver_lcb-now :
      CaughtUp (waited_for d r m.original_sender real) m.vec_clock.vector d.vector_clock.vector
      → deliver_lcb fuel env m d ≡ deliver_now fuel env m.original_sender d
  unfolding deliver_lcb
  deliver_lcb-now caught =
      let (b, e, iff) = test_vec_clock_lem d r m.original_sender real m.vec_clock full in
      let e' : test_vec_clock m.vec_clock m.original_sender d ≡ done true d =
        e ∙ ap (λ t. done t d) (iff.1 caught) in
      and_then-step (test_vec_clock m.vec_clock m.original_sender d) _ e'

  deliver_lcb-late :
      ¬ CaughtUp (waited_for d r m.original_sender real) m.vec_clock.vector d.vector_clock.vector
      → deliver_lcb fuel env m d ≡ in_pending (add_pending_lcb env m.original_sender m.vec_clock) d
  unfolding deliver_lcb
  deliver_lcb-late ahead =
      let (b, e, iff) = test_vec_clock_lem d r m.original_sender real m.vec_clock full in
      elim (Bool-cases b) [
        | inl caught ↦ absurd (ahead (iff.0 caught))
        | inr late ↦
            let e' : test_vec_clock m.vec_clock m.original_sender d ≡ done false d =
              e ∙ ap (λ t. done t d) late in
            and_then-step (test_vec_clock m.vec_clock m.original_sender d) _ e'
      ]

  -- On a ready process with a list for each of the processes, a message of one of them, with a
  -- clock for all of them that is ahead of the process's own on a process that its sender depends
  -- on, waits: with memory granted, at an address that is not null and where no node of the list of
  -- its sender stands,
  -- `deliver_lcb` returns 0, a copy of the clock stands behind those that the list of its sender
  -- holds, no node outside that list is touched, and the other lists and the rest of the process
  -- are as before. The list has fewer than 2 ^ 64 - 1 nodes.
  pub deliver_lcb-wait :
      (l : VecList) (cells : List Cell)
      → ¬ CaughtUp (waited_for d r m.original_sender real) m.vec_clock.vector d.vector_clock.vector
      → m.vec_clock.num_proc ≡ d.num_proc
      → d.lcb_pending.num_proc ≡ d.num_proc
      → get_elem? d.lcb_pending.lists (m.original_sender - 1) ≡ some l
      → Holds cells (record { heap = d.lcb_pending.heap; list = l })
      → ((k : ℕ) → env.grants k ≡ true)
      → Apart env.address cells
      → env.address ≢ 0
      → length cells + 1 < 2 ^ 64
      → (c : Chain) × (deliver_lcb fuel env m d
          ≡ done tt (record d {
            lcb_pending = record (d.lcb_pending) {
              lists = set d.lcb_pending.lists (m.original_sender - 1) c.list;
              heap = c.heap;
            };
          }))
        × Holds (cells ++ (record { at = env.address; clock = m.vec_clock } ∷ [])) c
        × ((q : Ptr) → q ≢ env.address → Apart q cells → c.heap q ≡ d.lcb_pending.heap q)
  deliver_lcb-wait l cells ahead clocks lists at h grants fresh some' room =
      let pid = m.original_sender in
      let (c, e, holds, others) =
        add_pending_lcb_lem env pid m.vec_clock d.lcb_pending l cells (omega (arith, real))
          (omega (arith, real, lists)) (omega (arith, real, r.narrow)) at h grants fresh some' room
          (omega (arith, real, clocks)) (omega (arith, full, clocks)) in
      (
        c,
        deliver_lcb-late ahead ∙ ap (put_back (λ p. record d { lcb_pending = p })) e,
        holds,
        others,
      )

module _ {A : Type 0} (env : Env) (fuel : ℕ) (m : LcbMsg) (d : NetData A) (r : IsReady d)
    (real : InRange d.num_proc m.original_sender) (full : length m.vec_clock.vector ≡ d.num_proc)
    (caught : CaughtUp
      (waited_for d r m.original_sender real)
      m.vec_clock.vector
      d.vector_clock.vector) where
  abbrev pid : ℕ
  pid = m.original_sender

  abbrev count : ℕ
  count = u32 (entry d.vector_clock.vector pid + 1)

  -- On a ready process with no message waiting, a message of one of the processes, with a clock for
  -- all of them that is nowhere ahead on the processes that its sender depends on, is delivered:
  -- `deliver_lcb` returns 0, the entry of its sender goes up by one, no other entry changes, and
  -- the log gets one line, with the sender and the new count. The log is valid and has room for a
  -- line, `fwrite` takes what it is given, and the two numbers have three digits together.
  pub deliver_lcb-idle :
      IsIdle d
      → Written.IsValid d.logdata
      → WritesAll env
      → line_max_length ≤ d.logdata.buf_max_size
      → length (decimal pid) + length (decimal count) ≤ 3
      → (d' : NetData A) × (deliver_lcb (suc fuel) env m d ≡ done tt d') × Delivered d pid d'
  unfolding deliver_now log_deliver_lcb
  deliver_lcb-idle idle v all big few =
      let (l', e, logged) = log_deliver_lem env d.logdata v all big pid count few in
      let d1 = counted d r pid real in
      let d2 : NetData A = record d1 { logdata = l' } in
      (
        d2,
        deliver_lcb-now env (suc fuel) m d r real full caught
            ∙ and_then-step (update_vec_clock pid d) _ (update_vec_clock_lem d r pid real)
            ∙ and_then-step (in_log (log_deliver env pid count) d1) _
                (ap (put_back (λ l. record d1 { logdata = l })) e)
            ∙ find_all-idle env fuel fuel d2 idle,
        record {
          clock = entry-counted d r pid real;
          log = logged.text;
          pending = refl;
          queue = refl;
        },
      )

  -- While any message waits on a ready process, the delivery of another of one of the processes,
  -- with a clock for all of them that is nowhere ahead on those that its sender depends on, never
  -- completes: `deliver_lcb` counts and logs it, and then returns an error, leaves its memory or
  -- never comes back.
  pub deliver_lcb-stuck :
      ¬ IsIdle d → (d' : NetData A) → deliver_lcb (suc fuel) env m d ≢ done tt d'
  unfolding deliver_now log_deliver_lcb
  deliver_lcb-stuck waiting d' h =
      let h0 = sym (deliver_lcb-now env (suc fuel) m d r real full caught) ∙ h in
      let h1 =
        sym (and_then-step (update_vec_clock pid d) _ (update_vec_clock_lem d r pid real)) ∙ h0 in
      let (_, d2, a, h2) =
        and_then-done (in_log (log_deliver env pid count) (counted d r pid real)) _ h1 in
      let d1 = counted d r pid real in
      let (l, b, same) =
        put_back-done (λ l. record d1 { logdata = l }) (log_deliver env pid count d1.logdata) a in
      waiting
        (subst (λ (x : NetData A). IsIdle x) same (find_all-done env (suc fuel) fuel d2 d' h2))
