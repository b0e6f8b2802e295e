-- ===== src/Node/Fifo/Round.antt =====
-- One round of the loop of `deliver_fifo` of src/fifo.c.
use distributed_process.Base.{
  ℕ, suc, ◌+◌, ◌≤◌, ◌<◌, ◌≡◌, ◌∙◌, refl, sym, ap, inl, inr, true, false, ◌++◌, append-nil,
  append_assoc, ◌==◌, if◌then◌else◌, Bool-cases, u32, arith, done, and_then-step, put_back, Env,
}
use distributed_process.FifoTable.{add_pending, get_pending, incr_next}
use distributed_process.FifoTable.Access.{
  marked, get_pending_lem, add_pending_lem, marked-IsValid, waits-marked, count, counted,
  incr_next_lem, counted-IsNext, count-counted,
}
use distributed_process.Log.{LogData, delivery_line, log_deliver}
use distributed_process.Log.Written.{WritesAll, Logged, written}
use distributed_process.Log.Lines.{length-decimal_one, length-decimal_two, log_deliver_lem}
use distributed_process.Node.{NetData, in_fifo, in_next, in_log}
use distributed_process.Node.Broadcast.{seen_id_of}
use distributed_process.Node.Broadcast.Ids.{seen_id_injective}
use distributed_process.Node.Fifo.{deliver_next}
use distributed_process.Node.Fifo.Spec.{come, lines, IsReady, Ran, times_le}

module _ {A : Type 0} (env : Env) (all : WritesAll env) (s limit : ℕ) where
  pub ne_of_ids :
      (d : NetData A)
      → IsReady d s limit
      → (i j : ℕ) → 0 < i
      → 0 < j
      → i ≤ limit
      → j ≤ limit
      → (i == j) ≡ false
      → (seen_id_of d.num_proc i s == seen_id_of d.num_proc j s) ≡ false
  ne_of_ids d r i j low low' high high' ne =
      elim (Bool-cases (seen_id_of d.num_proc i s == seen_id_of d.num_proc j s)) [
        | inl eq ↦
            let (same, _) =
              seen_id_injective d.num_proc i s j s low low' r.low r.low r.high r.high
                (omega (arith, times_le d.num_proc i limit high, r.narrow))
                (omega (arith, times_le d.num_proc j limit high', r.narrow))
                (omega (arith, r.hundred)) (omega (arith, r.hundred)) (ground arith) in
            ground (arith, same)
        | inr apart ↦ apart
      ]

  -- The process after the delivery of message `seq`, but for the log.
  abbrev pub delivered : NetData A → ℕ → NetData A
  delivered d seq = record d {
    next = counted d.next s;
    pending = marked d.pending (seen_id_of d.num_proc seq s) 0;
  }

  module _ (d : NetData A) (r : IsReady d s limit) (seq : ℕ) (pos : 0 < seq) (below : seq < limit)
      (here : come d s seq ≡ 1) where
    inside : seen_id_of d.num_proc seq s < d.pending.total_entries
    inside = ground (arith, here)

    pub come-delivered :
        (i : ℕ)
        → 0 < i
        → i ≤ limit
        → come (delivered d seq) s i ≡ (if i == seq then 0 else come d s i)
    come-delivered i low high =
        let n = d.num_proc in
        let id = seen_id_of n seq s in
        elim (Bool-cases (i == seq)) [
          | inl eq ↦
              let same : i ≡ seq = ground arith in
              waits-marked r.table id 0 (seen_id_of n i s) inside
              ∙ rw (eq, same) (let itself : (id == id) ≡ true = ground arith in rw itself)
          | inr ne ↦
              let apart : (seen_id_of n i s == id) ≡ false =
                ne_of_ids d r i seq low pos high (omega arith) ne in
              waits-marked r.table id 0 (seen_id_of n i s) inside ∙ rw (apart, ne)
        ]

    log_step :
        (l' : LogData) × (log_deliver env s seq d.logdata ≡ done tt l')
        × Logged d.logdata (delivery_line s seq) l'
    log_step = log_deliver_lem env d.logdata r.log all r.line s seq (
        omega
          (arith, length-decimal_one s r.digit, length-decimal_two seq (omega (arith, r.hundred))))

    -- The process after the delivery, with the log `l'`.
    pub IsReady-delivered :
        (l' : LogData)
        → Logged d.logdata (delivery_line s seq) l'
        → IsReady (record (delivered d seq) { logdata = l' }) s limit
    IsReady-delivered l' logged = record {
      table = marked-IsValid r.table (seen_id_of d.num_proc seq s) 0;
      next = counted-IsNext r.next s r.low (omega (arith, r.high, r.rows));
      rows = r.rows;
      low = r.low;
      high = r.high;
      digit = r.digit;
      hundred = r.hundred;
      narrow = r.narrow;
      not_come = λ e.
          let apart : (limit == seq) ≡ false = ground arith in
          r.not_come (rw apart at (sym (come-delivered limit (omega arith) (omega arith))) ∙ e);
      log = logged.valid;
      line = omega (arith, logged.size, r.line);
    }

    -- One round of the loop.
    pub deliver_step :
        (fuel : ℕ)
        → (l' : LogData) × Logged d.logdata (delivery_line s seq) l'
          × (deliver_next (suc fuel) env (record { sequence_num = seq; original_sender = s }) seq d
              ≡ deliver_next fuel env
                  (record { sequence_num = seq + 1; original_sender = s })
                  (seq + 1)
                  (record (delivered d seq) { logdata = l' }))
    unfolding deliver_next
    deliver_step fuel =
        let id = seen_id_of d.num_proc seq s in
        let (l', e, logged) = log_step in
        let d1 : NetData A = record d { next = counted d.next s } in
        let more : u32 (seq + 1) ≡ seq + 1 = omega (arith, r.hundred) in
        (
          l',
          logged,
          and_then-step (in_fifo (get_pending id) d) _ (
                ap (put_back (λ t. record d { pending = t }))
                  (get_pending_lem r.table id ∙ ap (λ x. done x d.pending) here))
              ∙ and_then-step (in_next (incr_next s) d) _ (
                  ap (put_back (λ t. record d { next = t }))
                    (incr_next_lem r.next s r.low (omega (arith, r.high, r.rows))))
              ∙ and_then-step (in_fifo (add_pending env id 0) d1) _ (
                  ap (put_back (λ t. record d1 { pending = t }))
                    (add_pending_lem r.table id env 0 inside))
              ∙ and_then-step (in_log (log_deliver env s seq) (delivered d seq)) _
                  (ap (put_back (λ l. record (delivered d seq) { logdata = l })) e)
              ∙ rw more,
        )

    pub in_next-counted : count d.next s + 1 ≡ seq → count (counted d.next s) s ≡ count d.next s + 1
    in_next-counted at =
        let itself : (s == s) ≡ true = ground arith in
        count-counted r.next s r.low (omega (arith, r.high, r.rows)) s r.low
        ∙ rw itself (omega (arith, at, r.hundred))

    -- A delivery of `seq`, and then of those that follow it.
    pub Ran-cons :
        (l' : LogData) (k : ℕ) (d' : NetData A)
        → count d.next s + 1 ≡ seq
        → Logged d.logdata (delivery_line s seq) l'
        → Ran (record (delivered d seq) { logdata = l' }) s limit (seq + 1) k d'
        → Ran d s limit seq (suc k) d'
    unfolding lines
    Ran-cons l' k d' at logged ran =
        let high : s ≤ d.next.no_process = omega (arith, r.high, r.rows) in
        record {
          ready = ran.ready;
          log =
              ran.log
              ∙ ap (λ t. t ++ lines s (seq + 1) k) logged.text
              ∙ append_assoc (written d.logdata) (delivery_line s seq) (lines s (seq + 1) k);
          next = ran.next ∙ ap (λ c. c + k) (in_next-counted at) ∙ omega arith;
          others = λ p pos' ne.
              ran.others p pos' ne
              ∙ count-counted r.next s r.low high p pos'
              ∙ (let apart : (p == s) ≡ false = ground (arith, ne) in rw apart);
          come_after = λ i low' high'.
              ran.come_after i low' high' ∙ ground (arith, come-delivered i low' high');
          other_marks = λ j h.
              ran.other_marks j (λ i low' high'. h i (omega arith) (omega arith))
              ∙ waits-marked r.table (seen_id_of d.num_proc seq s) 0 j inside
              ∙ (let apart : (j == seen_id_of d.num_proc seq s) ≡ false =
                    ground (arith, h seq (omega arith) (omega arith)) in
                  rw apart refl);
        }

  pub Ran-nil : (d : NetData A) (seq : ℕ) → IsReady d s limit → Ran d s limit seq 0 d
  unfolding lines
  Ran-nil d seq r = record {
    ready = r;
    log = sym (append-nil _);
    next = omega arith;
    others = λ p pos ne. refl;
    come_after = λ i low high. ground arith;
    other_marks = λ j h. refl;
  }
