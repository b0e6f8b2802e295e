-- ===== src/Node/Broadcast/Kept.antt =====
-- What the steps of `deliver_urb` of src/urb.c change, and what they leave.
use distributed_process.Base.{
  ℕ, zero, suc, ◌+◌, ◌≡◌, ◌∙◌, sym, ap, subst, inl, inr, ◌==◌, Bool-cases, u32, done, err, fault,
  hang, Outcome, Prog, Ok, and_then-done, put_back-done, Env,
}
use distributed_process.UrbTable.{UrbTable, add_seen_urb}
use distributed_process.UrbTable.Flags.{IsValid, flags}
use distributed_process.UrbTable.Keep.{add_seen-kept}
use distributed_process.Table.{UidTable}
use distributed_process.Queue.{Queue}
use distributed_process.Message.{VecClock, UrbMsg, Msg, Task, alloc_vector}
use distributed_process.Node.{NetData, in_urb_table}
use distributed_process.Node.Broadcast.{
  beb_msg, with_clock, put_task, send_one, beb_loop, send_beb, set_ack_urb,
}

-- What the application sees is as before: the log, the count of deliveries, and what waits for one.
pub record Unseen {A : Type 0} (d d' : NetData A) : Type 0 where
  pub log : d'.logdata ≡ d.logdata
  pub clock : d'.vector_clock ≡ d.vector_clock
  pub pending : d'.lcb_pending ≡ d.lcb_pending

-- The same, with a table of flags that is valid and has message `i` as delivered if it had.
pub record Kept {A : Type 0} (i : ℕ) (d d' : NetData A) : Type 0 where
  pub unseen : Unseen d d'
  pub valid : IsValid d'.urb_table
  pub flag : (flags d'.urb_table i).delivered ≡ (flags d.urb_table i).delivered

-- Only the queue, the table of acknowledgements or the table of flags has changed.
module _ {A : Type 0} {i : ℕ} {d e : NetData A} (k : Kept i d e) where
  Kept-queue : (q : Queue Task) → Kept i d (record e { task_q = q })
  Kept-queue q = record {
    unseen = record { log = k.unseen.log; clock = k.unseen.clock; pending = k.unseen.pending };
    valid = k.valid;
    flag = k.flag;
  }

  pub Kept-acks : (t : UidTable) → Kept i d (record e { urbacks = t })
  Kept-acks t = record {
    unseen = record { log = k.unseen.log; clock = k.unseen.clock; pending = k.unseen.pending };
    valid = k.valid;
    flag = k.flag;
  }

  Kept-flags :
      (t : UrbTable)
      → IsValid t × ((flags t i).delivered ≡ (flags e.urb_table i).delivered)
      → Kept i d (record e { urb_table = t })
  Kept-flags t (v, same) = record {
    unseen = record { log = k.unseen.log; clock = k.unseen.clock; pending = k.unseen.pending };
    valid = v;
    flag = same ∙ k.flag;
  }

-- A function that only reads the table of flags changes nothing.
pub read_flags :
    {A : Type 0} (f : Prog UrbTable ℕ) (e e' : NetData A) (x y : ℕ)
    → f e.urb_table ≡ done y e.urb_table
    → in_urb_table f e ≡ done x e'
    → (x ≡ y) × (e' ≡ e)
read_flags f e e' x y r h =
    let (t, c, same) = put_back-done (λ t. record e { urb_table = t }) (f e.urb_table) h in
    let found : t ≡ e.urb_table = cc in (cc, same ∙ ap (λ t. record e { urb_table = t }) found)

module _ {A : Type 0} (env : Env) {i : ℕ} {d : NetData A} where
  put_task-Kept :
      (t : Task) (e e' : NetData A) → Kept i d e → put_task env t e ≡ done tt e' → Kept i d e'
  unfolding put_task
  put_task-Kept t e e' k h =
      let (q, _, same) = put_back-done (λ q. record e { task_q = q }) _ h in
      subst (Kept i d) (sym same) (Kept-queue k q)

  pub set_ack_urb-Kept :
      (mid : ℕ) (e e' : NetData A) → Kept i d e → set_ack_urb env mid e ≡ done tt e' → Kept i d e'
  unfolding set_ack_urb
  set_ack_urb-Kept mid e e' k h =
      let (t, _, same) = put_back-done (λ t. record e { urbacks = t }) _ h in
      subst (Kept i d) (sym same) (Kept-acks k t)

  pub add_seen_urb-Kept :
      (j : ℕ) (e e' : NetData A)
      → Kept i d e
      → in_urb_table (add_seen_urb env j) e ≡ done tt e'
      → Kept i d e'
  add_seen_urb-Kept j e e' k h =
      let (t, a, same) =
        put_back-done (λ t. record e { urb_table = t }) (add_seen_urb env j e.urb_table) h in
      subst (Kept i d) (sym same) (Kept-flags k t (add_seen-kept env j i e.urb_table t k.valid a))

  -- The part of `send_one` that follows the copy of the clock.
  sent_one-Kept :
      (message : Msg) (p : ℕ) (e e' : NetData A) (o : Outcome VecClock Ok)
      → Kept i d e
      → (elim o [
        | done _ c ↦ put_task env (record { pid_dest = p; msg = with_clock message c }) e
        | err _ c ↦ put_task env (record { pid_dest = p; msg = with_clock message c }) e
        | fault ↦ fault
        | hang ↦ hang
      ])
        ≡ done tt e'
      → Kept i d e'
  sent_one-Kept message p e e' (done _ c) k h = put_task-Kept _ e e' k h
  sent_one-Kept message p e e' (err _ c) k h = put_task-Kept _ e e' k h
  sent_one-Kept message p e e' fault k h = absurd cc
  sent_one-Kept message p e e' hang k h = absurd cc

  send_one-Kept :
      (m : UrbMsg) (p : ℕ) (e e' : NetData A)
      → Kept i d e
      → send_one env m p e ≡ done tt e'
      → Kept i d e'
  unfolding send_one
  send_one-Kept m p e e' k h =
      sent_one-Kept (beb_msg e.num_proc (u32 e.self_pid) m p) p e e'
        (alloc_vector env e.num_proc m.lcb_msg.vec_clock.vector m.lcb_msg.vec_clock) k h

  beb_loop-Kept :
      (m : UrbMsg) (n p : ℕ) (e e' : NetData A)
      → Kept i d e
      → beb_loop env m n p e ≡ done tt e'
      → Kept i d e'
  unfolding beb_loop
  beb_loop-Kept m zero p e e' k h = let same : e ≡ e' = cc in subst (Kept i d) same k
  beb_loop-Kept m (suc n) p e e' k h = elim (Bool-cases (p == u32 e.self_pid)) [
    | inl self ↦ beb_loop-Kept m n (p + 1) e e' k (rw self at h)
    | inr other ↦
        let (_, e1, a, b) = and_then-done (send_one env m p e) _ (rw other at h) in
        beb_loop-Kept m n (p + 1) e1 e' (send_one-Kept m p e e1 k a) b
  ]

  pub send_beb-Kept :
      (m : UrbMsg) (e e' : NetData A) → Kept i d e → send_beb env m e ≡ done tt e' → Kept i d e'
  unfolding send_beb
  send_beb-Kept m e e' k h = beb_loop-Kept m (u32 e.num_proc) 1 e e' k h
