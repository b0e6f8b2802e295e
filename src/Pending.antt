-- ===== src/Pending.antt =====
-- src/pending.c, the messages that wait for causal delivery: for each process a doubly linked list
-- of vector clocks. Nodes stand at addresses of a heap; 0 is the null pointer.
pub mod Remove
pub mod Listed
pub mod Add
pub mod Free
use distributed_process.Base.{
  ℕ, zero, suc, ◌+◌, ◌-◌, ◌*◌, ◌^◌, ◌%◌, Bool, true, false, Option, none, some, List, [], length,
  get_elem?, set, replicate, ltb, ◌==◌, if◌then◌else◌, pred32, pred64, u64, error_memory,
  error_pointer, error_pid, done, err, fault, hang, Prog, Ok, and_then, ◌>>=◌, ◌>>◌, pure, raise,
  gets, modify, reject, Env,
}
use distributed_process.Message.{VecClock, no_clock, alloc_vector, destroy_vector}

abbrev pub Ptr : Type 0
Ptr = ℕ

-- `vec_node_t`.
pub record VecNode : Type 0 where
  pub clock : VecClock
  pub next : Ptr
  pub previous : Ptr

abbrev pub Heap : Type 0
Heap = Ptr → Option VecNode

-- `vec_list_t`.
pub record VecList : Type 0 where
  pub num_elems : ℕ
  pub head : Ptr
  pub tail : Ptr

abbrev pub empty_list : VecList
empty_list = record { num_elems = 0; head = 0; tail = 0 }

-- One list, and the heap that its nodes are in.
pub record Chain : Type 0 where
  pub heap : Heap
  pub list : VecList

-- `sizeof(vec_node_t)` and `sizeof(vec_list_t)`.
abbrev pub node_bytes : ℕ
node_bytes = 72

abbrev pub list_bytes : ℕ
list_bytes = 24

abbrev pub write : Heap → Ptr → Option VecNode → Heap
write h p c a = if a == p then c else h a

-- `*p`, a fault at the null pointer and at an address where no node is allocated.
abbrev pub load : Ptr → Prog Chain VecNode
load p c = if p == 0 then fault else elim (c.heap p) [ none ↦ fault | some n ↦ done n c ]

abbrev store : Ptr → Option VecNode → Prog Chain Ok
store p n = modify (λ c. record c { heap = write c.heap p n })

abbrev set_list : VecList → Prog Chain Ok
set_list l = modify (λ c. record c { list = l })

pub init_veclist : Prog VecList Ok
init_veclist l = done tt empty_list

-- The node is linked in behind the last one.
pub link_back : Ptr → VecClock → Prog Chain Ok
link_back p clock c =
    if c.list.num_elems == 0
    then (do
      store p (some (record { clock = clock; next = 0; previous = 0 }))
      set_list (record { num_elems = 1; head = p; tail = p }))
        c
    else (do
      store p (some (record { clock = clock; next = 0; previous = c.list.tail }))
      last ← load c.list.tail
      store c.list.tail (some (record last { next = p }))
      set_list (record { num_elems = u64 (c.list.num_elems + 1); head = c.list.head; tail = p }))
        c

-- A failure to copy the clock leaves the node allocated and in no list.
pub add_veclist : Env → VecClock → Prog Chain Ok
add_veclist env clock c =
    if length clock.vector == 0
    then err error_pointer c
    else if env.grants node_bytes
    then elim (alloc_vector env clock.num_proc clock.vector no_clock) [
      | done _ copy ↦ link_back env.address copy c
      | err e copy ↦ err e (record c {
        heap = write c.heap env.address (some (record { clock = copy; next = 0; previous = 0 }));
      })
      | fault ↦ fault
      | hang ↦ hang
    ]
    else err error_memory c

-- What comes before the node in its list is made to skip it.
pub unlink_front : Ptr → VecNode → Prog Chain Ok
unlink_front p n c =
    if c.list.head == p
    then done tt (record c { list = record (c.list) { head = n.next } })
    else (do before ← load n.previous; store n.previous (some (record before { next = n.next }))) c

-- What comes behind it, likewise.
pub unlink_back : Ptr → VecNode → Prog Chain Ok
unlink_back p n c =
    if c.list.tail == p
    then done tt (record c { list = record (c.list) { tail = n.previous } })
    else (do after ← load n.next; store n.next (some (record after { previous = n.previous }))) c

pub remove_veclist : Ptr → Prog Chain Ok
unfolding unlink_front unlink_back
remove_veclist p = do
  reject (p == 0) error_pointer
  n ← load p
  reject (length n.clock.vector == 0) error_pointer
  unlink_front p n
  unlink_back p n
  modify (λ c. record c {
    list = record (c.list) { num_elems = u64 (c.list.num_elems + (2 ^ 64 - 1)) };
    heap = write c.heap p none;
  })

-- `while(ptr != NULL)` around the removal of the first node, at most `fuel` rounds.
pub free_nodes : ℕ → Ptr → Prog Chain Ok
free_nodes zero p c = hang
free_nodes (suc fuel) p c =
    if p == 0
    then done tt c
    else and_then (remove_veclist p c) (λ _ c'. free_nodes fuel c'.list.head c')

pub free_veclist : ℕ → Prog Chain Ok
unfolding free_nodes remove_veclist
free_veclist fuel c =
    and_then (free_nodes fuel c.list.head c)
      (λ _. modify (λ c. record c { list = record (c.list) { head = 0; tail = 0 } }))

-- `lcb_pending_t`; a null `lists` is the empty list. The heap stands beside the lists.
pub record LcbPending : Type 0 where
  pub num_proc : ℕ
  pub lists : List VecList
  pub heap : Heap

unfoldable pub init_pending_lcb : Env → ℕ → Prog LcbPending Ok
init_pending_lcb env num_proc p =
    if env.grants (list_bytes * num_proc)
    then done tt (record p { lists = replicate num_proc empty_list; num_proc = num_proc })
    else err error_memory (record p { lists = [] })

-- The pointer to the freed block is left as it is; nothing stands behind it.
unfoldable pub destroy_pending_lcb : Prog LcbPending Ok
destroy_pending_lcb p =
    if length p.lists == 0
    then err error_memory p
    else done tt (record p { lists = []; num_proc = 0 })

-- A function on `pending->lists[i]`.
abbrev pub in_list : {A : Type 0} → ℕ → Prog Chain A → Prog LcbPending A
in_list i m p = elim (get_elem? p.lists i) [
  | none ↦ fault
  | some l ↦ elim (m (record { heap = p.heap; list = l })) [
    | done a c ↦ done a (record p { lists = set p.lists i c.list; heap = c.heap })
    | err e c ↦ err e (record p { lists = set p.lists i c.list; heap = c.heap })
    | fault ↦ fault
    | hang ↦ hang
  ]
]

pub add_pending_lcb : Env → ℕ → VecClock → Prog LcbPending Ok
add_pending_lcb env pid clock p =
    if length p.lists == 0
    then err error_pointer p
    else if ltb p.num_proc pid
    then err error_pid p
    else in_list (pred32 pid) (add_veclist env clock) p
