-- ===== src/Node/Fifo/Order.antt =====
-- `deliver_fifo` of src/fifo.c: which messages it delivers, and in which order.
use distributed_process.Base.{
  ℕ, zero, suc, ◌+◌, ◌-◌, ◌≤◌, ◌<◌, ◌≡◌, ◌≢◌, ◌∙◌, refl, sym, ap, subst, inl, inr, true, false,
  ◌==◌, if◌then◌else◌, Bool-cases, u32, arith, done, and_then-step, put_back, Env,
}
use distributed_process.FifoTable.{add_pending, get_pending, get_next}
use distributed_process.FifoTable.Access.{
  marked, get_pending_lem, add_pending_lem, marked-IsValid, waits-marked, count, get_next_lem,
}
use distributed_process.Log.Written.{WritesAll}
use distributed_process.Node.{NetData, in_fifo, in_next}
use distributed_process.Node.Broadcast.{seen_id_of}
use distributed_process.Node.Fifo.{next_index, deliver_next, deliver_fifo}
use distributed_process.Node.Fifo.Spec.{come, streak, IsReady, Ran}
use distributed_process.Node.Fifo.Round.{
  ne_of_ids, delivered, come-delivered, IsReady-delivered, deliver_step, in_next-counted, Ran-cons,
  Ran-nil,
}

module _ {A : Type 0} (env : Env) (all : WritesAll env) (s limit : ℕ) where
  streak_congr :
      (n seq : ℕ) (d e : NetData A)
      → ((i : ℕ) → seq ≤ i → i < seq + n → come e s i ≡ come d s i)
      → streak e s n seq ≡ streak d s n seq
  unfolding streak
  streak_congr zero seq d e h = refl
  streak_congr (suc n) seq d e h =
      let rest = streak_congr n (seq + 1) d e (λ i low high. h i (omega arith) (omega arith)) in
      let first = h seq (omega arith) (omega arith) in rw (first, rest)

  -- What the loop does from message `seq` on, where it delivers `k` messages.
  abbrev Runs : ℕ → ℕ → ℕ → NetData A → ℕ → Type 0
  Runs fuel seq q d k =
      (d' : NetData A) × (deliver_next fuel env (record { sequence_num = q; original_sender = s })
          seq d
        ≡ done tt d')
      × Ran d s limit seq k d'
      × (come d' s (seq + k) ≢ 1)

  Runs-stop :
      (fuel seq q : ℕ) (d : NetData A)
      → IsReady d s limit
      → come d s seq ≢ 1
      → Runs (suc fuel) seq q d 0
  unfolding deliver_next
  Runs-stop fuel seq q d r gap =
      let id = seen_id_of d.num_proc seq s in
      let other : (come d s seq == 1) ≡ false = ground (arith, gap) in
      (
        d,
        and_then-step (in_fifo (get_pending id) d) _
              (ap (put_back (λ t. record d { pending = t })) (get_pending_lem r.table id))
            ∙ rw other,
        Ran-nil env all s limit d seq r,
        λ e. gap (ap (come d s) (omega arith) ∙ e),
      )

  deliver_next_lem :
      (n fuel seq q : ℕ) (d : NetData A)
      → IsReady d s limit
      → n < fuel
      → 0 < seq
      → seq + n ≡ limit
      → count d.next s + 1 ≡ seq
      → (come d s seq ≡ 1 → q ≡ seq)
      → Runs fuel seq q d (streak d s n seq)
  unfolding streak
  deliver_next_lem n zero seq q d r enough pos last at own = absurd (omega arith)
  deliver_next_lem zero (suc fuel) seq q d r enough pos last at own =
      Runs-stop fuel seq q d r (λ e. r.not_come (ap (come d s) (omega arith) ∙ e))
  deliver_next_lem (suc n) (suc fuel) seq q d r enough pos last at own =
      elim (Bool-cases (come d s seq == 1)) [
        | inl waiting ↦
            let here : come d s seq ≡ 1 = ground arith in
            let below : seq < limit = omega arith in
            let (l', logged, step) = deliver_step env all s limit d r seq pos below here fuel in
            let e : NetData A = record (delivered env all s limit d seq) { logdata = l' } in
            let up = in_next-counted env all s limit d r seq pos below here at in
            let (d', run, ran, gap) =
              deliver_next_lem n fuel (seq + 1) (seq + 1) e
                (IsReady-delivered env all s limit d r seq pos below here l' logged) (omega arith)
                (omega arith) (omega arith) (omega (arith, up, at)) (λ h. refl) in
            let same = streak_congr n (seq + 1) d e (λ i low high.
              come-delivered env all s limit d r seq pos below here i (omega arith) (omega arith)
              ∙ (let apart : (i == seq) ≡ false = ground arith in rw apart)) in
            let k = streak e s n (seq + 1) in
            rw waiting (
              subst (λ j. Runs (suc fuel) seq q d (suc j)) same
                (
                  d',
                  ap
                        (λ x.
                          deliver_next (suc fuel) env
                            (record { sequence_num = x; original_sender = s }) seq d)
                        (own here)
                      ∙ step
                      ∙ run,
                  Ran-cons env all s limit d r seq pos below here l' k d' at logged ran,
                  λ h. gap (ap (come d' s) (omega arith) ∙ h),
                ))
        | inr stop ↦ rw stop (Runs-stop fuel seq q d r (ground arith))
      ]

  -- The process with message `q` of process `s` marked as one that waits.
  abbrev pub arrived : NetData A → ℕ → NetData A
  arrived d q = record d { pending = marked d.pending (seen_id_of d.num_proc q s) 1 }

  module _ (d : NetData A) (r : IsReady d s limit) (q : ℕ) (pos : 0 < q) (early : q < limit)
      (inside : seen_id_of d.num_proc q s < d.pending.total_entries) where
    come-arrived :
        (i : ℕ) → 0 < i → i ≤ limit → come (arrived d q) s i ≡ (if i == q then 1 else come d s i)
    come-arrived i low high =
        let id = seen_id_of d.num_proc q s in
        elim (Bool-cases (i == q)) [
          | inl eq ↦
              let same : i ≡ q = ground arith in
              let itself : (id == id) ≡ true = ground arith in
              waits-marked r.table id 1 (seen_id_of d.num_proc i s) inside
              ∙ rw (eq, same) (rw itself)
          | inr ne ↦
              waits-marked r.table id 1 (seen_id_of d.num_proc i s) inside
              ∙ rw (ne_of_ids env all s limit d r i q low pos high (omega arith) ne, ne)
        ]

    IsReady-arrived : IsReady (arrived d q) s limit
    IsReady-arrived = record {
      table = marked-IsValid r.table (seen_id_of d.num_proc q s) 1;
      next = r.next;
      rows = r.rows;
      low = r.low;
      high = r.high;
      digit = r.digit;
      hundred = r.hundred;
      narrow = r.narrow;
      not_come = λ e.
          let apart : (limit == q) ≡ false = ground arith in
          r.not_come (rw apart at (sym (come-arrived limit (omega arith) (omega arith))) ∙ e);
      log = r.log;
      line = r.line;
    }

    -- On a ready process of which the next message of a sender below 10 does not wait, a message of
    -- that sender inside the table, below one that has not come, whose number is at most 100, is
    -- marked, and if `fwrite` takes what it is given, `deliver_fifo` returns 0: it logs and counts
    -- the deliveries of the messages from the next one on, in their order and without a gap, as
    -- many as have come, clears their marks and, in the whole table, no other, leaves the counts of
    -- the other senders, and leaves a ready process of which the next message does not wait. The
    -- number of processes times that of the message that has not come is below 2 ^ 32, the log is
    -- valid and its buffer has room for a line, and with `limit + 1` rounds of fuel the loop ends.
    pub deliver_fifo_lem :
        (fuel : ℕ)
        → limit < fuel
        → count d.next s + 1 ≤ limit
        → come d s (count d.next s + 1) ≢ 1
        → (d' : NetData A) × (deliver_fifo fuel env
              (record { sequence_num = q; original_sender = s })
              d
            ≡ done tt d')
          × Ran
              (arrived d q)
              s
              limit
              (count d.next s + 1)
              (streak (arrived d q) s (limit - (count d.next s + 1)) (count d.next s + 1))
              d'
          × (come d' s (count d'.next s + 1) ≢ 1)
    unfolding deliver_fifo next_index
    deliver_fifo_lem fuel enough room gap =
        let next = count d.next s + 1 in
        let (d', run, ran, gap') =
          deliver_next_lem (limit - next) fuel next q (arrived d q) IsReady-arrived (omega arith)
            (omega arith) (omega arith) refl own in
        let wide : u32 next ≡ next = omega (arith, room, r.hundred) in
        (
          d',
          and_then-step (in_fifo (add_pending env (seen_id_of d.num_proc q s) 1) d) _ (
                ap (put_back (λ t. record d { pending = t }))
                  (add_pending_lem r.table (seen_id_of d.num_proc q s) env 1 inside))
              ∙ and_then-step (in_next (λ t. next_index (get_next s t)) (arrived d q)) _ (
                  ap (put_back (λ t. record (arrived d q) { next = t }))
                    (ap next_index (get_next_lem r.next s r.low (omega (arith, r.high, r.rows))))
                  ∙ ap (λ x. done x (arrived d q)) wide)
              ∙ run,
          ran,
          λ e. gap' (ap (come d' s) (omega (arith, ran.next)) ∙ e),
        )
      where
        own : come (arrived d q) s (count d.next s + 1) ≡ 1 → q ≡ count d.next s + 1
        own e = elim (Bool-cases (count d.next s + 1 == q)) [
          | inl eq ↦ ground arith
          | inr ne ↦
              absurd
                (gap (rw ne at (sym (come-arrived (count d.next s + 1) (omega arith) room)) ∙ e))
        ]
