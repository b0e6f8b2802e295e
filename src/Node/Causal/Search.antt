-- ===== src/Node/Causal/Search.antt =====
-- `find_pending` of src/pending.c: when it comes back.
use distributed_process.Base.{
  ℕ, zero, suc, ◌+◌, ◌≡◌, u32, ◌≢◌, ◌↔◌, ◌∙◌, refl, inl, inr, Bool, true, false, some, List,
  get_elem?, ◌==◌, Bool-cases, arith, done, err, fault, hang, Ok, and_then-done, read_at,
  read_at-done, read_at-found, and_then-step, subst, put_back, Outcome, Env,
}
use distributed_process.Pending.{Ptr, VecList, LcbPending, in_list, remove_veclist}
use distributed_process.Pending.Remove.{remove-ne-null}
use distributed_process.Node.{NetData, in_pending}
use distributed_process.Node.Clock.{test_vec_clock, update_vec_clock}
use distributed_process.Node.Causal.{
  log_deliver_lcb, node_at, deliver_node, search_list, search_lists, find_pending,
}

-- No message waits in the `n` lists from `i` on.
abbrev pub Idle : List VecList → ℕ → ℕ → Type 0
Idle lists i zero = Unit
Idle lists i (suc n) =
    ((l : VecList) × (get_elem? lists i ≡ some l) × (l.head ≡ 0)) × Idle lists (i + 1) n

module _ {A : Type 0} (env : Env) where
  -- A removal that succeeds was of a node.
  removed-ne-null :
      (i : ℕ) (q : Ptr) (d : NetData A) {d' : NetData A}
      → in_pending (in_list i (remove_veclist q)) d ≡ done tt d'
      → q ≢ 0
  removed-ne-null i q d h = go (in_list i (remove_veclist q) d.lcb_pending) refl h
    where
      go :
          (o : Outcome LcbPending Ok)
          → in_list i (remove_veclist q) d.lcb_pending ≡ o
          → {d' : NetData A} → put_back (λ p. record d { lcb_pending = p }) o ≡ done tt d'
          → q ≢ 0
      go (done _ p') e k = remove-ne-null i q d.lcb_pending p' e
      go (err c p') e k = cc
      go fault e k = cc
      go hang e k = cc

  deliver_node-ne-null :
      (i : ℕ) (p : Ptr) (d : NetData A) {q : Ptr} {d' : NetData A}
      → deliver_node env i p d ≡ done q d'
      → q ≢ 0
  unfolding deliver_node
  deliver_node-ne-null i p d h e =
      let (seq, d1, a, h1) = and_then-done (update_vec_clock (i + 1) d) _ h in
      let (_, d2, b, h2) = and_then-done (log_deliver_lcb env (i + 1) seq d1) _ h1 in
      let (n, d3, c, h3) = and_then-done (node_at p d2) _ h2 in
      let (_, d4, r, h4) = and_then-done (in_pending (in_list i (remove_veclist n.next)) d3) _ h3 in
      removed-ne-null i n.next d3 r (cc)

  search_list-ne-done :
      (fuel i : ℕ) (p : Ptr) (found : Bool) (d : NetData A) (b : Bool) (d' : NetData A)
      → p ≢ 0
      → search_list fuel env i p found d ≢ done b d'
  unfolding search_list
  search_list-ne-done zero i p found d b d' ne h = cc
  search_list-ne-done (suc fuel) i p found d b d' ne h =
      let real : (p == 0) ≡ false = ground arith in
      let h0 = rw real at h in
      let (n, d1, a, h1) = and_then-done (node_at p d) _ h0 in
      let (test, d2, c, h2) = and_then-done (test_vec_clock n.clock (i + 1) d1) _ h1 in
      elim (Bool-cases test) [
        | inl yes' ↦
            let (q, d3, e, h3) = and_then-done (deliver_node env i p d2) _ (rw yes' at h2) in
            search_list-ne-done fuel i q true d3 b d'
              (deliver_node-ne-null i p d2 {q = q} {d' = d3} e) h3
        | inr no' ↦ search_list-ne-done fuel i p found d2 b d' ne (rw no' at h2)
      ]

  search_list-null :
      (fuel i : ℕ) (p : Ptr) (found : Bool) (d : NetData A)
      → p ≡ 0
      → search_list (suc fuel) env i p found d ≡ done found d
  unfolding search_list
  search_list-null fuel i p found d null = let e : (p == 0) ≡ true = ground arith in rw e

  search_list-done :
      (fuel i : ℕ) (p : Ptr) (found : Bool) (d : NetData A) (b : Bool) (d' : NetData A)
      → search_list fuel env i p found d ≡ done b d'
      → (p ≡ 0) × (b ≡ found) × (d' ≡ d)
  unfolding search_list
  search_list-done zero i p found d b d' h = cc
  search_list-done (suc fuel) i p found d b d' h = elim (Bool-cases (p == 0)) [
    | inl null ↦ let h' : done found d ≡ done b d' = rw null at h in (ground arith, cc, cc)
    | inr real ↦ absurd (search_list-ne-done (suc fuel) i p found d b d' (ground arith) h)
  ]

  search_lists-done :
      (fuel n i : ℕ) (found : Bool) (d : NetData A) (b : Bool) (d' : NetData A)
      → search_lists fuel env n i found d ≡ done b d'
      → Idle d.lcb_pending.lists i n × (b ≡ found) × (d' ≡ d)
  unfolding search_lists
  search_lists-done fuel zero i found d b d' h = (tt, cc, cc)
  search_lists-done fuel (suc n) i found d b d' h =
      let (l, d1, a, h1) = and_then-done (read_at d.lcb_pending.lists i d) _ h in
      let (found', d2, c, h2) = and_then-done (search_list fuel env i l.head found d1) _ h1 in
      let (null, same_found, same) = search_list-done fuel i l.head found d1 found' d2 c in
      let (idle, e, f) = search_lists-done fuel n (i + 1) found' d2 b d' h2 in
      let (at, same_d) = read_at-done d.lcb_pending.lists i d a in
      let unchanged : d2 ≡ d = same ∙ same_d in
      (
        (
          (l, at, null),
          subst (λ (x : NetData A). Idle x.lcb_pending.lists (i + 1) n) unchanged idle,
        ),
        e ∙ same_found,
        f ∙ unchanged,
      )

  search_lists-Idle :
      (fuel n i : ℕ) (found : Bool) (d : NetData A)
      → Idle d.lcb_pending.lists i n
      → search_lists (suc fuel) env n i found d ≡ done found d
  unfolding search_lists search_list
  search_lists-Idle fuel zero i found d idle = refl
  search_lists-Idle fuel (suc n) i found d ((l, at, null), idle) =
      and_then-step (read_at d.lcb_pending.lists i d) _ (read_at-found d.lcb_pending.lists i d at)
      ∙ and_then-step (search_list (suc fuel) env i l.head found d) _
          (search_list-null fuel i l.head found d null)
      ∙ search_lists-Idle fuel n (i + 1) found d idle

  -- `find_pending`, for any bound on its rounds, returns 0 or 1 exactly if no message waits in any
  -- list, and then it returns 0 and changes nothing. With a message in any list it returns an
  -- error, leaves its memory or never comes back; it never returns 1.
  pub find_pending_iff :
      (fuel : ℕ) (d : NetData A) (b : Bool) (d' : NetData A)
      → (find_pending (suc fuel) env d ≡ done b d')
        ↔ (Idle d.lcb_pending.lists 0 (u32 d.lcb_pending.num_proc) × (b ≡ false) × (d' ≡ d))
  unfolding find_pending
  find_pending_iff fuel d b d' = (
    search_lists-done (suc fuel) (u32 d.lcb_pending.num_proc) 0 false d b d',
    λ (idle, e, f). rw (e, f) (search_lists-Idle fuel (u32 d.lcb_pending.num_proc) 0 false d idle),
  )
