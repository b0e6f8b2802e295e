-- ===== src/Pending/Add.antt =====
-- `add_veclist` of src/pending.c, as an addition behind the last clock of a list.
use distributed_process.Base.{
  ℕ, ◌+◌, ◌*◌, ◌^◌, ◌<◌, ◌≡◌, ◌≢◌, ◌∙◌, refl, sym, ap, true, false, some, List, [], ◌∷◌, ◌++◌, ◌==◌,
  ltb, length, length-append, take, take-length, u64, pred32, get_elem?, get_elem?-past, set,
  Bool-cases, inl, inr, none, ◌-◌, ◌≤◌, arith, done, and_then-step, Env,
}
use distributed_process.Message.{VecClock, alloc_vector}
use distributed_process.Pending.{
  Ptr, VecNode, Chain, node_bytes, write, load, link_back, add_veclist, LcbPending, VecList,
  in_list, add_pending_lcb,
}
use distributed_process.Pending.Listed.{
  Cell, IsSeg, Apart, AllApart, IsSeg-last, IsSeg-append, write_same, write_other,
}

-- The list holds these cells, in this order.
pub record Holds (cells : List Cell) (c : Chain) : Type 0 where
  pub seg : IsSeg c.heap 0 c.list.head cells c.list.tail
  pub apart : AllApart cells
  pub size : c.list.num_elems ≡ length cells

Apart-sym :
    (q : Ptr) (clock : VecClock) (cs : List Cell)
    → Apart q cs
    → AllApart cs
    → AllApart (cs ++ (record { at = q; clock = clock } ∷ []))
Apart-sym q clock [] h a = (tt, tt)
Apart-sym q clock (c ∷ cs) (ne, h) (a, more) = (apart c cs a ne, Apart-sym q clock cs h more)
  where
    apart :
        (c : Cell) (cs : List Cell)
        → Apart c.at cs
        → q ≢ c.at
        → Apart c.at (cs ++ (record { at = q; clock = clock } ∷ []))
    apart c [] a ne = (λ e. ne (sym e), tt)
    apart c (d ∷ ds) a ne = (a.0, apart c ds a.1 ne)

pub load_found :
    (p : Ptr) (c : Chain) (n : VecNode) → p ≢ 0 → c.heap p ≡ some n → load p c ≡ done n c
load_found p c n ne e = let real : (p == 0) ≡ false = ground (arith, ne) in rw (real, e)

link_back_lem :
    (cells : List Cell) (c : Chain) (q : Ptr) (clock : VecClock)
    → Holds cells c
    → Apart q cells
    → q ≢ 0
    → length cells + 1 < 2 ^ 64
    → (c' : Chain) × (link_back q clock c ≡ done tt c')
      × Holds (cells ++ (record { at = q; clock = clock } ∷ [])) c'
      × ((p : Ptr) → p ≢ q → Apart p cells → c'.heap p ≡ c.heap p)
unfolding link_back
link_back_lem [] c q clock h fresh real room =
    let none_held : (c.list.num_elems == 0) ≡ true = ground (arith, h.size) in
    (
      record {
        heap = write c.heap q (some (record { clock = clock; next = 0; previous = 0 }));
        list = record { num_elems = 1; head = q; tail = q };
      },
      rw none_held,
      record {
        seg = (refl, real, 0, write_same c.heap q _, (refl, refl));
        apart = (tt, tt);
        size = refl;
      },
      λ p ne a. write_other c.heap q p _ ne,
    )
link_back_lem (d ∷ ds) c q clock h fresh real room =
    let some_held : (c.list.num_elems == 0) ≡ false = ground (arith, h.size) in
    let (n, found, end, ne, other) = IsSeg-last c.heap 0 c.list.head c.list.tail d ds h.seg in
    let new : VecNode = record { clock = clock; next = 0; previous = c.list.tail } in
    let c₁ : Chain = record c { heap = write c.heap q (some new) } in
    let there : c₁.heap c.list.tail ≡ some n =
      write_other c.heap q c.list.tail (some new) (λ e. other q fresh (sym e)) ∙ found in
    (
      record {
        heap = write c₁.heap c.list.tail (some (record n { next = q }));
        list = record { num_elems = u64 (c.list.num_elems + 1); head = c.list.head; tail = q };
      },
      rw some_held (and_then-step _ _ (load_found c.list.tail c₁ n ne there)),
      record {
        seg =
            IsSeg-append c.heap 0 c.list.head c.list.tail q clock n d ds h.seg h.apart fresh real
              found;
        apart = Apart-sym q clock (d ∷ ds) fresh h.apart;
        size =
            omega
              (arith, h.size, room, length-append (d ∷ ds) (record { at = q; clock = clock } ∷ []));
      },
      λ p ne' a. write_other c₁.heap c.list.tail p _ (other p a) ∙ write_other c.heap q p _ ne',
    )

-- `add_veclist` on a list that holds some clocks, with memory granted at an address where none of
-- its nodes stands, and with a clock that has an entry for each of its processes, returns 0, and
-- the list holds a copy of that clock behind the others, linked both ways. No node that is not of
-- the list is touched. The list has fewer than 2 ^ 64 - 1 nodes.
pub add_veclist_lem :
    (env : Env) (cells : List Cell) (c : Chain) (clock : VecClock)
    → Holds cells c
    → ((k : ℕ) → env.grants k ≡ true)
    → Apart env.address cells
    → env.address ≢ 0
    → length cells + 1 < 2 ^ 64
    → 0 < clock.num_proc
    → length clock.vector ≡ clock.num_proc
    → (c' : Chain) × (add_veclist env clock c ≡ done tt c')
      × Holds (cells ++ (record { at = env.address; clock = clock } ∷ [])) c'
      × ((p : Ptr) → p ≢ env.address → Apart p cells → c'.heap p ≡ c.heap p)
unfolding add_veclist alloc_vector
add_veclist_lem env cells c clock h grants fresh real room pos full =
    let filled : (length clock.vector == 0) ≡ false = ground (arith, full) in
    let whole : ltb (length clock.vector) clock.num_proc ≡ false = ground (arith, full) in
    let copy : take clock.num_proc clock.vector ≡ clock.vector =
      ap (λ k. take k clock.vector) (sym full) ∙ take-length clock.vector in
    let (c', e, holds, others) = link_back_lem cells c env.address clock h fresh real room in
    (c', rw (filled, grants node_bytes, grants (4 * clock.num_proc), whole, copy) e, holds, others)

-- `add_pending_lcb` for process `pid`, on the array of lists: the clock goes behind those that wait
-- in the list of that process, and the other lists are as they were.
pub add_pending_lcb_lem :
    (env : Env) (pid : ℕ) (clock : VecClock) (p : LcbPending) (l : VecList) (cells : List Cell)
    → 0 < pid
    → pid ≤ p.num_proc
    → pid < 2 ^ 32
    → get_elem? p.lists (pid - 1) ≡ some l
    → Holds cells (record { heap = p.heap; list = l })
    → ((k : ℕ) → env.grants k ≡ true)
    → Apart env.address cells
    → env.address ≢ 0
    → length cells + 1 < 2 ^ 64
    → 0 < clock.num_proc
    → length clock.vector ≡ clock.num_proc
    → (c : Chain) × (add_pending_lcb env pid clock p
        ≡ done tt (record p { lists = set p.lists (pid - 1) c.list; heap = c.heap }))
      × Holds (cells ++ (record { at = env.address; clock = clock } ∷ [])) c
      × ((q : Ptr) → q ≢ env.address → Apart q cells → c.heap q ≡ p.heap q)
unfolding add_pending_lcb
add_pending_lcb_lem env pid clock p l cells pos high small at h grants fresh real room some' full =
    let (c, e, holds, others) =
      add_veclist_lem env cells (record { heap = p.heap; list = l }) clock h grants fresh real room
        some' full in
    let there : (length p.lists == 0) ≡ false = elim (Bool-cases (length p.lists == 0)) [
      | inl null ↦
          let past : get_elem? p.lists (pid - 1) ≡ none =
            get_elem?-past p.lists (pid - 1) (ground arith) in
          absurd cc
      | inr some_list ↦ some_list
    ] in
    let known : ltb p.num_proc pid ≡ false = ground arith in
    let index : pred32 pid ≡ pid - 1 = omega arith in
    (
      c,
      rw (there, known, index, in_list, at, e)
          (ap (λ i. done tt (record p { lists = set p.lists i c.list; heap = c.heap })) index),
      holds,
      others,
    )
