-- ===== src/Node/Causal.antt =====
-- src/lcb.c and `find_pending` of src/pending.c: localized causal delivery.
pub mod Search
pub mod Frame
pub mod Delivery
use distributed_process.Base.{
  ℕ, zero, suc, ◌+◌, Bool, true, false, Option, none, some, List, [], length, get_elem?,
  if◌then◌else◌, ◌==◌, u32, done, err, fault, hang, Prog, Ok, and_then, ◌>>=◌, ◌>>◌, pure, read_at,
  Env,
}
use distributed_process.Log.{log_deliver}
use distributed_process.Message.{VecClock, LcbMsg}
use distributed_process.Pending.{
  Ptr, VecNode, VecList, Heap, LcbPending, in_list, remove_veclist, add_pending_lcb,
}
use distributed_process.Node.{NetData, in_log, in_pending}
use distributed_process.Node.Clock.{test_vec_clock, update_vec_clock}

module _ {A : Type 0} where
  unfoldable pub log_deliver_lcb : Env → ℕ → ℕ → Prog (NetData A) Ok
  log_deliver_lcb env pid seq = in_log (log_deliver env pid seq)

  -- `ptr->…`, a fault where no node is allocated.
  pub node_at : Ptr → Prog (NetData A) VecNode
  node_at p d = elim (d.lcb_pending.heap p) [ none ↦ fault | some n ↦ done n d ]

  -- What the loop of `find_pending` does with a message that can be delivered: it counts and logs a
  -- delivery of process `pid`, goes on to the next node, and removes that one. The result is `ptr`.
  pub deliver_node : Env → ℕ → Ptr → Prog (NetData A) Ptr
  unfolding log_deliver_lcb node_at
  deliver_node env i p = do
    seq ← update_vec_clock (i + 1)
    log_deliver_lcb env (i + 1) seq
    n ← node_at p
    in_pending (in_list i (remove_veclist n.next))
    pure n.next

  -- `while(ptr != NULL)`, at most `fuel` rounds; a message that cannot be delivered leaves `ptr` as
  -- it is. The result is `found_one`.
  unfoldable pub search_list : ℕ → Env → ℕ → Ptr → Bool → Prog (NetData A) Bool
  search_list zero env i p found d = hang
  search_list (suc fuel) env i p found d =
      if p == 0
      then done found d
      else and_then (node_at p d) (λ n. test_vec_clock n.clock (i + 1) >>= λ b d'. elim b [
        | true ↦ and_then (deliver_node env i p d') (λ q. search_list fuel env i q true)
        | false ↦ search_list fuel env i p found d'
      ])

  -- The loop over the lists, `n` rounds from list `i` on.
  unfoldable pub search_lists : ℕ → Env → ℕ → ℕ → Bool → Prog (NetData A) Bool
  search_lists fuel env zero i found d = done found d
  search_lists fuel env (suc n) i found d = and_then (read_at d.lcb_pending.lists i d) (λ l.
      search_list fuel env i l.head found >>= λ found' d'.
      search_lists fuel env n (i + 1) found' d')

  unfoldable pub find_pending : ℕ → Env → Prog (NetData A) Bool
  unfolding search_lists search_list
  find_pending fuel env d = search_lists fuel env (u32 d.lcb_pending.num_proc) 0 false d

  -- `error = find_pending(data); while(error > 0) error = find_pending(data);`, at most `calls`
  -- calls.
  unfoldable pub find_all : ℕ → ℕ → Env → Prog (NetData A) Ok
  find_all zero fuel env d = hang
  find_all (suc calls) fuel env d =
      and_then (find_pending fuel env d)
        (λ b d'. elim b [ true ↦ find_all calls fuel env d' | false ↦ done tt d' ])

  unfoldable pub deliver_now : ℕ → Env → ℕ → Prog (NetData A) Ok
  unfolding log_deliver_lcb
  deliver_now fuel env pid = do
    seq ← update_vec_clock pid
    log_deliver_lcb env pid seq
    find_all fuel fuel env

  unfoldable pub deliver_lcb : ℕ → Env → LcbMsg → Prog (NetData A) Ok
  unfolding deliver_now
  deliver_lcb fuel env m = do
    b ← test_vec_clock m.vec_clock m.original_sender
    if b
        then deliver_now fuel env m.original_sender
        else in_pending (add_pending_lcb env m.original_sender m.vec_clock)
