-- ===== src/Process/Release/Freed.antt =====
-- What `free_data` of src/da_proc.c releases.
use distributed_process.Base.{
  ℕ, ◌≡◌, inl, inr, ◌∙◌, refl, sym, ap, subst, Bool, false, not, ◌&&◌, ◌||◌, length, ◌==◌, OnSome,
  Option-cases, done, and_then-step,
}
use distributed_process.Process.{
  Block, book_addresses, book_struct, dependency_lists, dependency_struct, queue_elems, ack_entries,
  urb_values, log_buffer, log_stream, delivered_entries, urback_entries, pending_lists,
  clock_vector, sender_threads, pid_list, Process, mark_freed, same_block,
}
use distributed_process.Process.Release.{free_matrix, free_addr_book, free_data}
use distributed_process.Process.Release.Held.{
  has_lists, has_pids, held, is_released, not-not, or-false,
}
use distributed_process.Process.Release.Lists.{Unlisted, free_matrix_lem}
use distributed_process.Process.Release.Parts.{marked, emptied, free_parts_lem}

-- What `free_addr_book` leaves.
record Booked {A : Type 0} (p p' : Process A) : Type 0 where
  pub addresses : p'.freed book_addresses ≡ held p book_addresses
  pub struct : p'.freed book_struct ≡ held p book_struct
  pub others :
      (b : Block)
      → same_block b book_addresses ≡ false
      → same_block b book_struct ≡ false
      → p'.freed b ≡ p.freed b
  pub kept : p' ≡ record p { freed = p'.freed }

module _ {A : Type 0} (p : Process A) (unused : (b : Block) → p.freed b ≡ false) where
  free_addr_book_lem : (p' : Process A) × (free_addr_book p ≡ done tt p') × Booked p p'
  unfolding free_addr_book
  free_addr_book_lem = elim (Option-cases p.net.address_book) [
    | inl e ↦ (
      p,
      rw e refl,
      record {
        addresses = rw e (unused book_addresses);
        struct = rw e (unused book_struct);
        others = λ b h k. refl;
        kept = refl;
      },
    )
    | inr (a, e) ↦ (
      mark_freed book_struct false (mark_freed book_addresses false p),
      rw e (rw (unused book_addresses) (rw (unused book_struct) refl)),
      record {
        addresses = rw e refl;
        struct = rw e refl;
        others = λ b h k. rw (h, k) refl;
        kept = refl;
      },
    )
  ]

pub record Released {A : Type 0} (p p' : Process A) : Type 0 where
  pub blocks : (b : Block) → p'.freed b ≡ (is_released b && held p b)
  pub senders : p'.senders ≡ p.senders
  pub receiver : p'.receiver ≡ p.receiver
  pub sockets : p'.sockets ≡ p.sockets
  pub log : p'.net.logdata ≡ p.net.logdata
  pub nodes : p'.net.lcb_pending.heap ≡ p.net.lcb_pending.heap

or_clean : {a b c : Bool} → a ≡ c → b ≡ false → (a || b) ≡ c
or_clean {a} {b} {c} h k = rw (h, k) (or-false c)

module _ {A : Type 0} (p q r : Process A) (unused : (b : Block) → p.freed b ≡ false)
    (k : Booked p q) (u : Unlisted q.net.dependencies q r) where
  as_before : r ≡ record p { net = record (p.net) { dependencies = u.pointer }; freed = r.freed }
  as_before =
      u.kept
      ∙ ap {A = Process A} {B = Process A}
          (λ t. record t { net = record (t.net) { dependencies = u.pointer }; freed = r.freed })
          k.kept

  clean :
      (b : Block)
      → same_block b book_addresses ≡ false
      → same_block b book_struct ≡ false
      → same_block b dependency_lists ≡ false
      → ((i : ℕ) → same_block b (pid_list i) ≡ false)
      → r.freed b ≡ false
  clean b x y z w = u.others b z w ∙ k.others b x y ∙ unused b

  marked-blocks : (b : Block) → (marked r).freed b ≡ (is_released b && held p b)
  marked-blocks book_addresses = u.others book_addresses refl (λ i. refl) ∙ k.addresses
  marked-blocks book_struct = u.others book_struct refl (λ i. refl) ∙ k.struct
  marked-blocks dependency_lists = u.lists ∙ ap (λ t. has_lists t.net.dependencies) k.kept
  marked-blocks dependency_struct = clean dependency_struct refl refl refl (λ i. refl)
  marked-blocks queue_elems =
      or_clean (ap (λ t. not (length t.net.task_q.elems == 0)) as_before)
        (clean queue_elems refl refl refl (λ i. refl))
  marked-blocks ack_entries =
      or_clean (ap (λ t. not (length t.net.pl_acks.table.entries == 0)) as_before)
        (clean ack_entries refl refl refl (λ i. refl))
  marked-blocks urb_values =
      or_clean (ap (λ t. not (length t.net.urb_table.values == 0)) as_before)
        (clean urb_values refl refl refl (λ i. refl))
  marked-blocks log_buffer =
      or_clean (ap (λ t. not (length t.net.logdata.buffer == 0)) as_before)
        (clean log_buffer refl refl refl (λ i. refl))
  marked-blocks log_stream =
      or_clean (ap (λ t. not (not t.log_open)) as_before ∙ not-not p.log_open)
        (clean log_stream refl refl refl (λ i. refl))
  marked-blocks delivered_entries =
      or_clean (ap (λ t. not (length t.net.pl_delivered.entries == 0)) as_before)
        (clean delivered_entries refl refl refl (λ i. refl))
  marked-blocks urback_entries =
      or_clean (ap (λ t. not (length t.net.urbacks.entries == 0)) as_before)
        (clean urback_entries refl refl refl (λ i. refl))
  marked-blocks pending_lists =
      or_clean (ap (λ t. not (length t.net.lcb_pending.lists == 0)) as_before)
        (clean pending_lists refl refl refl (λ i. refl))
  marked-blocks clock_vector =
      or_clean (ap (λ t. not (length t.net.vector_clock.vector == 0)) as_before)
        (clean clock_vector refl refl refl (λ i. refl))
  marked-blocks sender_threads = clean sender_threads refl refl refl (λ i. refl)
  marked-blocks (pid_list i) = u.pids i ∙ ap (λ t. has_pids t.net.dependencies i) k.kept

-- On a process that has released no block, whose matrix, if there is one, has a list for each of its
-- processes, `free_data` returns: of the blocks that `Block` names it releases each, and no null
-- pointer, once, but for the array of the sender threads and the structure of the matrix, which stay.
-- It releases none of the nodes of messages that wait; the threads, the sockets and the log are as
-- before.
pub free_data_lem :
    {A : Type 0} (p : Process A)
    → ((b : Block) → p.freed b ≡ false)
    → OnSome (λ m. length m.dep_lists ≡ m.num_proc) p.net.dependencies
    → (p' : Process A) × (free_data p ≡ done tt p') × Released p p'
unfolding free_data
free_data_lem p unused sized =
    let (q, run, k) = free_addr_book_lem p unused in
    let net : p.net ≡ q.net = ap (λ t. t.net) (sym k.kept) in
    let (r, run', u) =
      free_matrix_lem q (k.others dependency_lists refl refl ∙ unused dependency_lists)
        (λ i. k.others (pid_list i) refl refl ∙ unused (pid_list i)) q.net.dependencies refl
        (subst (λ d. OnSome (λ m. length m.dep_lists ≡ m.num_proc) d.dependencies) net sized) in
    let free = clean p q r unused k u in
    let (l, run'', nodes) =
      free_parts_lem r (free log_buffer refl refl refl (λ i. refl))
        (free log_stream refl refl refl (λ i. refl))
        (free delivered_entries refl refl refl (λ i. refl))
        (free urback_entries refl refl refl (λ i. refl))
        (free pending_lists refl refl refl (λ i. refl))
        (free clock_vector refl refl refl (λ i. refl)) in
    let before = as_before p q r unused k u in
    (
      record (marked r) { net = emptied r l },
      and_then-step (free_addr_book p) _ run
          ∙ and_then-step (free_matrix q.net.dependencies q) _ run'
          ∙ run'',
      record {
        blocks = marked-blocks p q r unused k u;
        senders = ap (λ t. t.senders) before;
        receiver = ap (λ t. t.receiver) before;
        sockets = ap (λ t. t.sockets) before;
        log = ap (λ t. t.net.logdata) before;
        nodes = nodes ∙ ap (λ t. t.net.lcb_pending.heap) before;
      },
    )
