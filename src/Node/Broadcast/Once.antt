-- ===== src/Node/Broadcast/Once.antt =====
-- `deliver_urb` of src/urb.c on a message that was delivered before.
use distributed_process.Base.{
  ℕ, ◌≡◌, ◌∙◌, refl, sym, ap, subst, inl, inr, false, ◌==◌, Bool-cases, arith, done, err, fault,
  hang, Outcome, Ok, and_then-done, ◌>>◌, put_back-done, Env,
}
use distributed_process.UrbTable.{is_seen_urb, is_delivered_urb, add_seen_urb}
use distributed_process.UrbTable.Flags.{IsValid, flags, is_delivered_lem, is_seen_lem}
use distributed_process.Message.{VecClock, UrbMsg, alloc_vector}
use distributed_process.Node.{NetData, in_urb_table, in_urbacks}
use distributed_process.Node.Broadcast.{
  row_id, send_beb, set_ack_urb, can_deliver, relay, relay_if_new, deliver_if_new, deliver_if_ready,
  deliver_urb,
}
use distributed_process.Node.Broadcast.Kept.{
  Unseen, Kept, Kept-acks, read_flags, set_ack_urb-Kept, add_seen_urb-Kept, send_beb-Kept,
}

module _ {A : Type 0} (env : Env) {i : ℕ} {d : NetData A} where
  -- The part of `relay` that follows the copy of the clock.
  relayed-Kept :
      (m : UrbMsg) (e e' : NetData A) (o : Outcome VecClock Ok)
      → Kept i d e
      → (elim o [
        | done _ c ↦
            let mid = row_id e.num_proc m.seen_id e.self_pid in
            (do
              set_ack_urb env mid
              send_beb env (record m { mid = mid; lcb_msg = record (m.lcb_msg) { vec_clock = c } }))
              e
        | err x _ ↦ err x e
        | fault ↦ fault
        | hang ↦ hang
      ])
        ≡ done tt e'
      → Kept i d e'
  relayed-Kept m e e' (done _ c) k h =
      let mid = row_id e.num_proc m.seen_id e.self_pid in
      let (_, e1, a, b) = and_then-done (set_ack_urb env mid e) _ h in
      send_beb-Kept env (record m { mid = mid; lcb_msg = record (m.lcb_msg) { vec_clock = c } }) e1
        e' (set_ack_urb-Kept env mid e e1 k a) b
  relayed-Kept m e e' (err x c) k h = absurd cc
  relayed-Kept m e e' fault k h = absurd cc
  relayed-Kept m e e' hang k h = absurd cc

  relay-Kept :
      (m : UrbMsg) (e e' : NetData A) → Kept i d e → relay env m e ≡ done tt e' → Kept i d e'
  unfolding relay
  relay-Kept m e e' k h =
      let (_, e1, a, b) = and_then-done (in_urb_table (add_seen_urb env m.seen_id) e) _ h in
      relayed-Kept m e1 e'
        (alloc_vector env e1.num_proc m.lcb_msg.vec_clock.vector m.lcb_msg.vec_clock)
        (add_seen_urb-Kept env m.seen_id e e1 k a) b

  pub relay_if_new-Kept :
      (m : UrbMsg) (e e' : NetData A) → Kept i d e → relay_if_new env m e ≡ done tt e' → Kept i d e'
  unfolding relay_if_new
  relay_if_new-Kept m e e' k h =
      let (seen, e1, a, b) = and_then-done (in_urb_table (is_seen_urb m.seen_id) e) _ h in
      let (_, unchanged) =
        read_flags (is_seen_urb m.seen_id) e e1 seen _ (is_seen_lem k.valid m.seen_id) a in
      let k1 = subst (Kept i d) (sym unchanged) k in
      elim (Bool-cases (seen == 0)) [
        | inl new ↦ relay-Kept m e1 e' k1 (rw new at b)
        | inr old ↦ let b' = rw old at b in let end : e1 ≡ e' = cc in subst (Kept i d) end k1
      ]

  deliver_if_new-Kept :
      (fuel : ℕ) (m : UrbMsg) (e e' : NetData A)
      → m.seen_id ≡ i
      → (flags d.urb_table i).delivered ≡ 1
      → Kept i d e
      → deliver_if_new fuel env m e ≡ done tt e'
      → Kept i d e'
  unfolding deliver_if_new
  deliver_if_new-Kept fuel m e e' is flag k h =
      let (x, e1, a, b) = and_then-done (in_urb_table (is_delivered_urb m.seen_id) e) _ h in
      let (at, unchanged) =
        read_flags (is_delivered_urb m.seen_id) e e1 x _ (is_delivered_lem k.valid m.seen_id) a in
      let one : x ≡ 1 = at ∙ ap (λ j. (flags e.urb_table j).delivered) is ∙ k.flag ∙ flag in
      let before : (x == 0) ≡ false = ground arith in
      let b' = rw before at b in let end : e1 ≡ e' = cc in subst (Kept i d) (sym unchanged ∙ end) k

  deliver_if_ready-Kept :
      (fuel : ℕ) (m : UrbMsg) (e e' : NetData A)
      → m.seen_id ≡ i
      → (flags d.urb_table i).delivered ≡ 1
      → Kept i d e
      → deliver_if_ready fuel env m e ≡ done tt e'
      → Kept i d e'
  unfolding deliver_if_ready
  deliver_if_ready-Kept fuel m e e' is flag k h =
      let (ready, e1, a, b) = and_then-done (in_urbacks (can_deliver m.seen_id) e) _ h in
      let (t, _, same) =
        put_back-done (λ t. record e { urbacks = t }) (can_deliver m.seen_id e.urbacks) a in
      let k1 = subst (Kept i d) (sym same) (Kept-acks k t) in
      elim (Bool-cases ready) [
        | inl yes' ↦ deliver_if_new-Kept fuel m e1 e' is flag k1 (rw yes' at b)
        | inr no' ↦ let b' = rw no' at b in let end : e1 ≡ e' = cc in subst (Kept i d) end k1
      ]

-- A message that the valid table of flags has as delivered is not delivered again: a `deliver_urb`
-- that returns 0 leaves the log, the clock and the messages that wait as they were, however many
-- acknowledgements of the message have come.
pub deliver_urb-Unseen :
    {A : Type 0} (env : Env) (fuel : ℕ) (m : UrbMsg) (d d' : NetData A)
    → IsValid d.urb_table
    → (flags d.urb_table m.seen_id).delivered ≡ 1
    → deliver_urb fuel env m d ≡ done tt d'
    → Unseen d d'
unfolding deliver_urb
deliver_urb-Unseen env fuel m d d' v flag h =
    let start : Kept m.seen_id d d = record {
      unseen = record { log = refl; clock = refl; pending = refl };
      valid = v;
      flag = refl;
    } in
    let (_, d1, a, b) = and_then-done (set_ack_urb env m.mid d) _ h in
    let (_, d2, a', b') = and_then-done (relay_if_new env m d1) _ b in
    (deliver_if_ready-Kept env fuel m d2 d' refl flag
      (relay_if_new-Kept env m d1 d2 (set_ack_urb-Kept env m.mid d d1 start a) a') b').unseen
