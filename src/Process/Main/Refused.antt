-- ===== src/Process/Main/Refused.antt =====
-- A start that the system refuses: the error paths of `init_data` and `main` in src/da_proc.c.
use distributed_process.Base.{
  ℕ, suc, ◌+◌, ◌*◌, ◌<◌, ◌≡◌, ◌∙◌, refl, sym, ap, subst, true, false, some, ◌∷◌, ◌++◌, tabulate,
  length, OnSome, done, err, error_bind, error_thread, ErrorCode, Prog, Ok, and_then-step,
  and_then-stop,
}
use distributed_process.Node.{NetData}
use distributed_process.Node.Parser.Rendered.{membership_text}
use distributed_process.Process.{running, Block, queue_elems, Process}
use distributed_process.Process.Threads.{thread_bytes, init_receiver, init_senders}
use distributed_process.Process.Threads.Spawned.{
  opened, spawned, with_sockets, init_senders-no_thread,
}
use distributed_process.Process.Threads.Listening.{
  listening, init_receiver_lem, init_receiver-no_bind,
}
use distributed_process.Process.Release.{free_data}
use distributed_process.Process.Release.Freed.{Released, free_data_lem}
use distributed_process.Process.Main.{num_sender_threads, run_main}
use distributed_process.Process.Main.Booted.{
  prepared, Given, arguments, boot, IsSound, own_address, Prepares, init_data-Prepares,
}

has_matrix :
    {A B : Type 0} {g : Given A B} {p : Process A} (d : NetData A)
    → Prepares g p d
    → OnSome (λ m. length m.dep_lists ≡ m.num_proc) d.dependencies
has_matrix d t =
    let c = t.parsed.configured in
    subst (OnSome (λ m. length m.dep_lists ≡ m.num_proc)) (sym c.pointer) c.valid.sized

module _ {A B : Type 0} (g : Given A B) (meanwhile : NetData A → NetData A) where
  -- `main`, with the log's file opened.
  abbrev pub main_of : Prog (Process A) Ok
  main_of =
      run_main g.blank g.aton g.address_of g.env g.system true meanwhile (arguments g)
        (some (membership_text g.members))

  run_main_err :
      (p q r : Process A) (e : ErrorCode)
      → boot g p ≡ err e q
      → free_data q ≡ done tt r
      → main_of p ≡ err e r
  unfolding run_main
  run_main_err p q r e refused freed = rw (refused, run_main) (rw freed refl)

  module _ (p : Process A) (sound : IsSound g p) (unused : (b : Block) → p.freed b ≡ false) where
    -- On a sound start, with no block released before, where everything is granted but the address of
    -- the receiver, which is in use: `main` returns ERROR_BIND, no thread has been created, and of the
    -- blocks that `Block` names each is released once, but for the structure of the matrix; the socket stays
    -- open.
    pub main-no_bind :
        g.system.receiver_socket ≡ some g.fd
        → g.system.binds ≡ false
        → (d : NetData A) × Prepares g p d
          × ((r : Process A) × (main_of p ≡ err error_bind r)
              × Released
                  (record (prepared d p) { receiver_fd = g.fd; sockets = g.fd ∷ p.sockets })
                  r)
    main-no_bind socket binds =
        let (d, t) = init_data-Prepares g p sound in
        let start = prepared d p in
        let q : Process A = record start { receiver_fd = g.fd; sockets = g.fd ∷ p.sockets } in
        let (r, run, c) = free_data_lem q unused (has_matrix d t) in
        let refused =
          t.run
          ∙ and_then-stop (init_receiver g.env g.system start) _ (
              init_receiver-no_bind g.env g.system start (own_address g) g.fd sound.mutexes
                t.address socket binds) in
        (d, t, (r, run_main_err p q r error_bind refused run, c))

    -- On a sound start, with no block released before, where everything is granted but the sender
    -- thread of index `k`: `main` returns ERROR_THREAD, and on its way has released the ring of the
    -- queue, while the receiver and the first `k` senders run.
    pub main-no_thread :
        (k m : ℕ)
        → k + suc m ≡ num_sender_threads
        → g.system.receiver_socket ≡ some g.fd
        → g.system.binds ≡ true
        → g.system.receiver_starts ≡ true
        → ((j : ℕ) → g.system.socket j ≡ some (g.fds j))
        → ((j : ℕ) → j < k → g.system.starts j ≡ true)
        → g.system.starts k ≡ false
        → (r : Process A) × (main_of p ≡ err error_thread r)
          × (r.receiver ≡ running)
          × (r.senders ≡ tabulate (spawned g.fds) 0 k ++ tabulate (opened g.fds) k (suc m))
          × (r.freed queue_elems ≡ true)
    main-no_thread k m ten socket binds receiver sockets starts refused =
        let (d, t) = init_data-Prepares g p sound in
        let start = prepared d p in
        let up = listening g.fd (own_address g) start in
        let q : Process A = record up {
          senders = tabulate (spawned g.fds) 0 k ++ tabulate (opened g.fds) k (suc m);
          sockets = with_sockets g.fds (k + suc m) up.sockets;
        } in
        let (r, run, c) = free_data_lem q unused (has_matrix d t) in
        let stopped =
          t.run
          ∙ and_then-step (init_receiver g.env g.system start) _ (
              init_receiver_lem g.env g.system start (own_address g) g.fd sound.mutexes t.address
                socket binds receiver)
          ∙ ap (λ n. init_senders g.env g.system n up) (sym ten)
          ∙ init_senders-no_thread g.env g.system g.fds up k m
              (sound.grants (thread_bytes * (k + suc m))) (λ j b. sockets j) starts refused in
        (
          r,
          run_main_err p q r error_thread stopped run,
          c.receiver,
          c.senders,
          c.blocks queue_elems,
        )
