-- ===== src/Node/Run/Once.antt =====
-- No message is delivered twice in a run of a process: `deliver_urb` of src/urb.c under the threads
-- of src/receiver.c, src/sender.c and src/lcb.c.
use distributed_process.Base.{
  ℕ, ◌≡◌, ◌⊎◌, refl, sym, subst, inl, inr, ◌==◌, Bool-cases, done, Ends-done, Ends-put_back,
  and_then-done, Env, put_back-done,
}
use distributed_process.UrbTable.{is_delivered_urb, add_delivered_urb}
use distributed_process.UrbTable.Flags.{IsValid, is_delivered_lem}
use distributed_process.UrbTable.Keep.{add_delivered-Flagged}
use distributed_process.Message.{UrbMsg}
use distributed_process.Node.{NetData, in_urb_table, in_urbacks}
use distributed_process.Node.Causal.Frame.{deliver_lcb-Keeps}
use distributed_process.Node.Broadcast.{
  set_ack_urb, can_deliver, relay_if_new, deliver_if_new, deliver_if_ready, deliver_urb,
}
use distributed_process.Node.Broadcast.Kept.{Unseen, Kept, Kept-acks, read_flags, set_ack_urb-Kept}
use distributed_process.Node.Broadcast.Once.{relay_if_new-Kept, deliver_urb-Unseen}
use distributed_process.Node.Run.Kept.{Run-Keeps, Marked, Marked-Respects}
use distributed_process.Node.Run.{Run}

module _ {A : Type 0} (env : Env) (fuel : ℕ) (m : UrbMsg) (d : NetData A) where
  abbrev Decided : NetData A → Type 0
  Decided d' = Unseen d d' ⊎ Marked m.seen_id d'

  deliver_if_new-Decided :
      (e e' : NetData A)
      → Kept m.seen_id d e
      → deliver_if_new fuel env m e ≡ done tt e'
      → Decided e'
  unfolding deliver_if_new
  deliver_if_new-Decided e e' k h =
      let (x, e1, a, b) = and_then-done (in_urb_table (is_delivered_urb m.seen_id) e) _ h in
      let (_, unchanged) =
        read_flags (is_delivered_urb m.seen_id) e e1 x _ (is_delivered_lem k.valid m.seen_id) a in
      let k1 = subst (Kept m.seen_id d) (sym unchanged) k in
      elim (Bool-cases (x == 0)) [
        | inl new ↦
            let (_, e2, a', b') =
              and_then-done (in_urb_table (add_delivered_urb env m.seen_id) e1) _ (rw new at b) in
            let marked : Marked m.seen_id e2 =
              Ends-done (λ u d. Marked m.seen_id d) _
                (Ends-put_back (λ u d. Marked m.seen_id d) (λ t. record e1 { urb_table = t }) _
                  (add_delivered-Flagged env m.seen_id e1.urb_table k1.valid))
                a' in
            inr (
              Ends-done _ _
                (deliver_lcb-Keeps (Marked m.seen_id) (Marked-Respects m.seen_id) fuel env m.lcb_msg
                  e2 marked)
                b')
        | inr old ↦
            let b' = rw old at b in
            let end : e1 ≡ e' = cc in inl (subst (Kept m.seen_id d) end k1).unseen
      ]

  deliver_urb-Decided :
      (d' : NetData A) → IsValid d.urb_table → deliver_urb fuel env m d ≡ done tt d' → Decided d'
  unfolding deliver_urb deliver_if_ready
  deliver_urb-Decided d' v h =
      let start : Kept m.seen_id d d = record {
        unseen = record { log = refl; clock = refl; pending = refl };
        valid = v;
        flag = refl;
      } in
      let (_, d1, a, b) = and_then-done (set_ack_urb env m.mid d) _ h in
      let (_, d2, a', b') = and_then-done (relay_if_new env m d1) _ b in
      let k2 = relay_if_new-Kept env m d1 d2 (set_ack_urb-Kept env m.mid d d1 start a) a' in
      let (ready, d3, a'', b'') = and_then-done (in_urbacks (can_deliver m.seen_id) d2) _ b' in
      let (t, _, same) =
        put_back-done (λ t. record d2 { urbacks = t }) (can_deliver m.seen_id d2.urbacks) a'' in
      let k3 = subst (Kept m.seen_id d) (sym same) (Kept-acks k2 t) in
      elim (Bool-cases ready) [
        | inl yes' ↦ deliver_if_new-Decided d3 d' k3 (rw yes' at b'')
        | inr no' ↦
            let x = rw no' at b'' in
            let end : d3 ≡ d' = cc in inl (subst (Kept m.seen_id d) end k3).unseen
      ]

-- Of two calls of `deliver_urb` for one message that return 0, with any run of the process between
-- them, from a valid table of flags on, at least one leaves the log, the clock and the messages
-- that wait as they were: no message is delivered twice.
pub at_most_once :
    {A : Type 0} (env env' : Env) (fuel fuel' : ℕ) (m m' : UrbMsg) (d d₁ e e' : NetData A)
    → IsValid d.urb_table
    → m.seen_id ≡ m'.seen_id
    → deliver_urb fuel env m d ≡ done tt d₁
    → Run d₁ e
    → deliver_urb fuel' env' m' e ≡ done tt e'
    → Unseen d d₁ ⊎ Unseen e e'
at_most_once env env' fuel fuel' m m' d d₁ e e' v same h r h' =
    elim (deliver_urb-Decided env fuel m d d₁ v h) [
      | inl unseen ↦ inl unseen
      | inr marked ↦
          let later =
            subst (λ k. Marked k e) same
              (Run-Keeps (Marked m.seen_id) (Marked-Respects m.seen_id) r marked) in
          inr (deliver_urb-Unseen env' fuel' m' e e' later.0 later.1 h')
    ]
