-- ===== src/Node/Link/Known.antt =====
-- The tables of the perfect link of src/plink.c: what `deliver_pl` enters in them, and what no call
-- takes out again.
use distributed_process.Base.{
  Option, List, ℕ, ◌≤◌, ◌≡◌, ◌≢◌, sym, subst, inl, inr, true, false, ◌==◌, Bool-cases, arith, done,
  Ends, Ends-map, Ends-and_then, Ends-put_back, Ends-part, Leaves, Leaves-put_back, Leaves-all,
  Leaves-map, Ends-all, ap, and_then-step, Leaves-Ends, put_back, Env,
}
use distributed_process.Table.{
  UidTable, AckTable, max_size, is_ack, set_ack, is_delivered, set_delivered,
}
use distributed_process.Table.Growth.{IsValid, value}
use distributed_process.Table.Write.{Grants}
use distributed_process.Table.Acks.{
  IsFree, is_ack_lem, set_ack_lem, is_delivered_lem, set_ack-Wrote, set_delivered-Wrote,
}
use distributed_process.Table.Keep.{Holds, Wrote-Holds, Wrote-new}
use distributed_process.Message.{UrbMsg, Msg}
use distributed_process.UrbTable.{is_seen_urb, is_delivered_urb}
use distributed_process.UrbTable.Flags.{add}
use distributed_process.Log.{print_line}
use distributed_process.Node.{NetData, in_delivered}
use distributed_process.Node.Frame.{Keeps, Respects}
use distributed_process.Node.Broadcast.Frame.{deliver_beb-Keeps}
use distributed_process.Node.Link.{
  process_msg, deliver_fl, receiver_round, receive_msg, without_vector, ack_of, send_fl,
  deliver_once, deliver_pl,
}
use distributed_process.Node.Link.Frame.{send_fl-Leaves}

-- What holds of the two tables of a process.
abbrev pub Tables : {A : Type 0} → (AckTable → Type 0) → (UidTable → Type 0) → NetData A → Type 0
Tables P R d = P d.pl_acks × R d.pl_delivered

-- A process keeps it, if the operations of the tables do.
module _ {A : Type 0} (P : AckTable → Type 0) (R : UidTable → Type 0)
    (asks : (j : ℕ) (a : AckTable) → P a → Leaves P (is_ack j a))
    (acks : (env : Env) (j : ℕ) (a : AckTable) → P a → Ends (λ u x. P x) (set_ack env j a))
    (looks : (j : ℕ) (t : UidTable) → R t → Ends (λ u x. R x) (is_delivered j t))
    (enters : (env : Env) (j : ℕ) (t : UidTable)
      → R t
      → Ends (λ u x. R x) (set_delivered env j t)) where
  Tables-Respects : Respects {A = A} (Tables P R)
  Tables-Respects = record {
    clock = λ d c b q. q;
    pending = λ d p q. q;
    urbacks = λ d t q. q;
    asked = λ j d q.
        Leaves-put_back (Tables P R) (λ t. record d { pl_acks = t }) (is_ack j d.pl_acks)
          (Leaves-map _ _ (is_ack j d.pl_acks) (λ a p. (p, q.1)) (asks j d.pl_acks q.0));
    acked = λ env j d q.
        Ends-put_back (λ u e. Tables P R e) (λ t. record d { pl_acks = t })
          (set_ack env j d.pl_acks)
          (Ends-map _ _ (set_ack env j d.pl_acks) (λ u t p. (p, q.1)) (acks env j d.pl_acks q.0));
    looked = λ j d q.
        Ends-put_back (λ u e. Tables P R e) (λ t. record d { pl_delivered = t })
          (is_delivered j d.pl_delivered)
          (Ends-map _ _ (is_delivered j d.pl_delivered) (λ u t p. (q.0, p))
            (looks j d.pl_delivered q.1));
    entered = λ env j d q.
        Ends-put_back (λ u e. Tables P R e) (λ t. record d { pl_delivered = t })
          (set_delivered env j d.pl_delivered)
          (Ends-map _ _ (set_delivered env j d.pl_delivered) (λ u t p. (q.0, p))
            (enters env j d.pl_delivered q.1));
    queue = λ d t q. q;
    book = λ d b q. q;
    wire = λ d w q. q;
    line = λ env text d q.
        Ends-part (Tables P R) (λ l. record d { logdata = l }) (print_line env text d.logdata)
          (λ l. q);
    flag = λ flag env j d q.
        Ends-part (Tables P R) (λ t. record d { urb_table = t }) (add flag env j d.urb_table)
          (λ t. q);
    seen = λ j d q.
        Ends-part (Tables P R) (λ t. record d { urb_table = t }) (is_seen_urb j d.urb_table)
          (λ t. q);
    was_delivered = λ j d q.
        Ends-part (Tables P R) (λ t. record d { urb_table = t }) (is_delivered_urb j d.urb_table)
          (λ t. q);
  }

-- Message `i` is acknowledged, under a free mutex.
abbrev pub Acked : ℕ → AckTable → Type 0
Acked i a = (a.locked ≡ false) × Holds i a.table

Acked-is_ack : (i j : ℕ) (a : AckTable) → Acked i a → Leaves (Acked i) (is_ack j a)
Acked-is_ack i j a p =
    subst (Leaves (Acked i)) (sym (is_ack_lem a j (record { free = p.0; valid = p.1.0 }))) p

Acked-set_ack :
    (i : ℕ) (env : Env) (j : ℕ) (a : AckTable)
    → Acked i a
    → Ends (λ u x. Acked i x) (set_ack env j a)
Acked-set_ack i env j a p =
    Ends-map _ _ (set_ack env j a) (λ u x w. (w.0, Wrote-Holds i j (w.1) (p.1)))
      (set_ack-Wrote env j a (record { free = p.0; valid = p.1.0 }))

Holds-looks : (i j : ℕ) (t : UidTable) → Holds i t → Ends (λ u x. Holds i x) (is_delivered j t)
Holds-looks i j t p = subst (Ends (λ u x. Holds i x)) (sym (is_delivered_lem j (p.0))) p

Holds-enters :
    (i : ℕ) (env : Env) (j : ℕ) (t : UidTable)
    → Holds i t
    → Ends (λ u x. Holds i x) (set_delivered env j t)
Holds-enters i env j t p =
    Ends-map _ _ (set_delivered env j t) (λ u x w. Wrote-Holds i j w p)
      (set_delivered-Wrote env j t (p.0))

-- Message `i` is acknowledged, or delivered, in a process.
module _ {A : Type 0} (i : ℕ) where
  abbrev pub IsAcked : NetData A → Type 0
  IsAcked = Tables (Acked i) (λ t. Unit)

  pub IsAcked-Respects : Respects IsAcked
  IsAcked-Respects =
      Tables-Respects (Acked i) (λ t. Unit) (Acked-is_ack i) (Acked-set_ack i)
        (λ j t q. Ends-all _ (is_delivered j t) (λ u x. tt))
        (λ env j t q. Ends-all _ (set_delivered env j t) (λ u x. tt))

  abbrev pub IsDelivered : NetData A → Type 0
  IsDelivered = Tables (λ a. Unit) (Holds i)

  pub IsDelivered-Respects : Respects IsDelivered
  IsDelivered-Respects =
      Tables-Respects (λ a. Unit) (Holds i) (λ j a q. Leaves-all _ (is_ack j a) (λ x. tt))
        (λ env j a q. Ends-all _ (set_ack env j a) (λ u x. tt)) (Holds-looks i) (Holds-enters i)

abbrev HasTable : {A : Type 0} → NetData A → Type 0
HasTable = Tables (λ a. Unit) IsValid

HasTable-Respects : {A : Type 0} → Respects {A = A} HasTable
HasTable-Respects =
    Tables-Respects (λ a. Unit) IsValid (λ j a q. Leaves-all _ (is_ack j a) (λ x. tt))
      (λ env j a q. Ends-all _ (set_ack env j a) (λ u x. tt))
      (λ j t v. subst (Ends (λ u x. IsValid x)) (sym (is_delivered_lem j v)) v)
      (λ env j t v.
        Ends-map _ _ (set_delivered env j t) (λ u x w. w.valid) (set_delivered-Wrote env j t v))

-- What `deliver_pl` has returned 0 for is in the table of delivered messages.
module _ {A : Type 0} (env : Env) (fuel : ℕ) (m : Msg) where
  deliver_once-IsDelivered :
      (d : NetData A) → HasTable d → Keeps (IsDelivered m.mid) (deliver_once fuel env m d)
  unfolding deliver_once
  deliver_once-IsDelivered d v =
      let x : ℕ = value d.pl_delivered m.mid in
      subst (Ends (λ u e. IsDelivered m.mid e))
        (sym (
          and_then-step (in_delivered (is_delivered m.mid) d) _
            (ap (put_back (λ t. record d { pl_delivered = t })) (is_delivered_lem m.mid (v.1)))))
        (elim (Bool-cases (x == 0)) [
          | inl new ↦ rw new (
              Ends-and_then (λ u e. IsDelivered m.mid e) (λ u e. IsDelivered m.mid e)
                (in_delivered (set_delivered env m.mid) d) _
                (Ends-put_back (λ u e. IsDelivered m.mid e) (λ t. record d { pl_delivered = t })
                  (set_delivered env m.mid d.pl_delivered)
                  (Ends-map _ _ (set_delivered env m.mid d.pl_delivered)
                    (λ u t w. (tt, Wrote-new m.mid w))
                    (set_delivered-Wrote env m.mid d.pl_delivered (v.1))))
                (λ u e q.
                  deliver_beb-Keeps (IsDelivered m.mid) (IsDelivered-Respects m.mid) env fuel
                    m.urb_msg e q))
          | inr old ↦ rw old (tt, (v.1, λ z. ground arith))
        ])

  pub deliver_pl-IsDelivered :
      (rest : UrbMsg) (d : NetData A)
      → IsValid d.pl_delivered
      → m.mtype ≢ 1
      → Keeps (IsDelivered m.mid) (deliver_pl fuel env rest m d)
  unfolding deliver_pl
  deliver_pl-IsDelivered rest d v ordinary =
      let plain : (m.mtype == 1) ≡ false = ground arith in
      rw plain (
        Ends-and_then (λ u e. HasTable e) (λ u e. IsDelivered m.mid e)
          (send_fl env m.sender (ack_of d.self_pid rest m) d) _
          (Leaves-Ends HasTable _ (
            send_fl-Leaves HasTable HasTable-Respects env m.sender (ack_of d.self_pid rest m) d
              (tt, v)))
          (λ u e q. deliver_once-IsDelivered e q))

-- An acknowledgement up to `MAX_SIZE`, with memory granted, is entered and passed no further.
pub deliver_pl-IsAcked :
    {A : Type 0} (env : Env) (fuel : ℕ) (rest : UrbMsg) (ack : Msg) (d : NetData A)
    → Grants env
    → IsFree d.pl_acks
    → ack.mtype ≡ 1
    → ack.ackid ≤ max_size
    → (a : AckTable) × (deliver_pl fuel env rest ack d ≡ done tt (record d { pl_acks = a }))
      × Acked ack.ackid a
unfolding deliver_pl
deliver_pl-IsAcked env fuel rest ack d grants v is_ack' small =
    let (a, e, f, wrote) = set_ack_lem env d.pl_acks ack.ackid grants v small in
    let is : (ack.mtype == 1) ≡ true = ground arith in
    (a, rw (is, e), (f.free, Wrote-new ack.ackid wrote))

-- A round of the receiver thread on a message that was read.
pub receiver_round_lem :
    {A : Type 0} (fuel : ℕ) (env : Env) (rest : UrbMsg) (words : Option (List ℕ)) (next m : Msg)
    (d d' : NetData A)
    → receive_msg env words d.num_proc next ≡ done tt m
    → deliver_pl fuel env rest m d ≡ done tt d'
    → receiver_round fuel env rest words next d ≡ done (without_vector m) d'
unfolding receiver_round process_msg deliver_fl
receiver_round_lem fuel env rest words next m d d' received delivered =
    rw (receiver_round, received, delivered)
