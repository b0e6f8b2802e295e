-- ===== src/Node/Causal/Frame.antt =====
-- What `deliver_lcb` of src/lcb.c leaves.
use distributed_process.Base.{
  u32, ℕ, zero, suc, ◌+◌, inl, inr, Bool, true, false, List, get_elem?, ◌==◌, Bool-cases,
  Option-cases, Ends-chain, Ends-part, Env, read_at,
}
use distributed_process.Pending.{Ptr, in_list, remove_veclist}
use distributed_process.Message.{LcbMsg}
use distributed_process.Node.{NetData, in_pending}
use distributed_process.Node.Frame.{Keeps, Respects}
use distributed_process.Log.{log_deliver, delivery_line}
use distributed_process.Node.Clock.Frame.{update_vec_clock-Keeps, test_vec_clock-Keeps}
use distributed_process.Node.Causal.{
  log_deliver_lcb, node_at, deliver_node, search_list, search_lists, find_pending, find_all,
  deliver_now, deliver_lcb,
}

module _ {A : Type 0} (Q : NetData A → Type 0) (r : Respects Q) where
  node_at-Keeps : (p : Ptr) (d : NetData A) → Q d → Keeps Q (node_at p d)
  unfolding node_at
  node_at-Keeps p d q = elim (Option-cases (d.lcb_pending.heap p)) [
    | inl e ↦ rw (node_at, e) tt
    | inr n ↦ rw (node_at, n.1) q
  ]

  log_deliver_lcb-Keeps :
      (env : Env) (pid seq : ℕ) (d : NetData A) → Q d → Keeps Q (log_deliver_lcb env pid seq d)
  unfolding log_deliver_lcb log_deliver
  log_deliver_lcb-Keeps env pid seq d q = r.line env (delivery_line pid seq) d q

  deliver_node-Keeps :
      (env : Env) (i : ℕ) (p : Ptr) (d : NetData A) → Q d → Keeps Q (deliver_node env i p d)
  unfolding deliver_node
  deliver_node-Keeps env i p d q =
      Ends-chain Q _ _ (update_vec_clock-Keeps Q r (i + 1) d q) (λ seq d₁ q₁.
        Ends-chain Q _ _ (log_deliver_lcb-Keeps env (i + 1) seq d₁ q₁) (λ u d₂ q₂.
          Ends-chain Q _ _ (node_at-Keeps p d₂ q₂) (λ n d₃ q₃.
            Ends-chain Q (in_pending (in_list i (remove_veclist n.next)) d₃) _
              (Ends-part Q (λ t. record d₃ { lcb_pending = t }) _ (λ t. r.pending d₃ t q₃))
              (λ u d₄ q₄. q₄))))

  search_list-Keeps :
      (fuel : ℕ) (env : Env) (i : ℕ) (p : Ptr) (found : Bool) (d : NetData A)
      → Q d
      → Keeps Q (search_list fuel env i p found d)
  unfolding search_list
  search_list-Keeps zero env i p found d q = tt
  search_list-Keeps (suc fuel) env i p found d q = elim (Bool-cases (p == 0)) [
    | inl e ↦ rw e q
    | inr e ↦ rw e (
        Ends-chain Q _ _ (node_at-Keeps p d q) (λ n d₁ q₁.
          Ends-chain Q _ _ (test_vec_clock-Keeps Q r n.clock (i + 1) d₁ q₁) (λ b d₂ q₂.
            elim (Bool-cases b) [
              | inl yes' ↦ rw yes' (
                  Ends-chain Q _ _ (deliver_node-Keeps env i p d₂ q₂)
                    (λ p' d₃ q₃. search_list-Keeps fuel env i p' true d₃ q₃))
              | inr no' ↦ rw no' (search_list-Keeps fuel env i p found d₂ q₂)
            ])))
  ]

  read_at-Keeps :
      {B : Type 0} (xs : List B) (i : ℕ) (d : NetData A) → Q d → Keeps Q (read_at xs i d)
  read_at-Keeps xs i d q = elim (Option-cases (get_elem? xs i)) [
    | inl e ↦ rw (read_at, e) tt
    | inr x ↦ rw (read_at, x.1) q
  ]

  search_lists-Keeps :
      (fuel : ℕ) (env : Env) (n i : ℕ) (found : Bool) (d : NetData A)
      → Q d
      → Keeps Q (search_lists fuel env n i found d)
  unfolding search_lists
  search_lists-Keeps fuel env zero i found d q = q
  search_lists-Keeps fuel env (suc n) i found d q =
      Ends-chain Q (read_at d.lcb_pending.lists i d) _ (read_at-Keeps d.lcb_pending.lists i d q)
        (λ l d₁ q₁.
          Ends-chain Q _ _ (search_list-Keeps fuel env i l.head found d₁ q₁)
            (λ found' d' q'. search_lists-Keeps fuel env n (i + 1) found' d' q'))

  find_all-Keeps :
      (calls fuel : ℕ) (env : Env) (d : NetData A) → Q d → Keeps Q (find_all calls fuel env d)
  unfolding find_all find_pending
  find_all-Keeps zero fuel env d q = tt
  find_all-Keeps (suc calls) fuel env d q =
      Ends-chain Q _ _ (search_lists-Keeps fuel env (u32 d.lcb_pending.num_proc) 0 false d q)
        (λ b d' q'. elim (Bool-cases b) [
          | inl yes' ↦ rw yes' (find_all-Keeps calls fuel env d' q')
          | inr no' ↦ rw no' q'
        ])

  pub deliver_lcb-Keeps :
      (fuel : ℕ) (env : Env) (m : LcbMsg) (d : NetData A) → Q d → Keeps Q (deliver_lcb fuel env m d)
  unfolding deliver_lcb deliver_now
  deliver_lcb-Keeps fuel env m d q =
      Ends-chain Q _ _ (test_vec_clock-Keeps Q r m.vec_clock m.original_sender d q) (λ b d₁ q₁.
        elim (Bool-cases b) [
          | inl yes' ↦ rw yes' (
              Ends-chain Q _ _ (update_vec_clock-Keeps Q r m.original_sender d₁ q₁) (λ seq d₂ q₂.
                Ends-chain Q _ _ (log_deliver_lcb-Keeps env m.original_sender seq d₂ q₂)
                  (λ u d₃ q₃. find_all-Keeps fuel fuel env d₃ q₃)))
          | inr no' ↦
              rw no' (Ends-part Q (λ t. record d₁ { lcb_pending = t }) _ (λ t. r.pending d₁ t q₁))
        ])
