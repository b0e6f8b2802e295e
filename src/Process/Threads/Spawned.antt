-- ===== src/Process/Threads/Spawned.antt =====
-- The set-up of the sender threads in src/sender.c.
use distributed_process.Base.{
  ℕ, zero, suc, ◌+◌, ◌*◌, ◌<◌, ◌≡◌, ◌∙◌, refl, sym, ap, true, false, some, none, List, [], ◌∷◌,
  ◌++◌, length, replicate, length-replicate, length-tabulate, ap₂, tabulate, append-nil, arith,
  done, err, error_socket, error_thread, and_then-step, and_then-stop, Env,
}
use distributed_process.Process.{absent, running, SenderThread, sender_threads, Process, mark_freed}
use distributed_process.Process.Threads.Each.{
  pushed, pushed-same, Makes, for_each-prefix, for_each_stop,
}
use distributed_process.Process.Threads.{
  System, blank_thread, thread_bytes, for_each, open_socket, setup_sockets, start_thread,
  setup_threads, init_senders,
}

replicate-append :
    {A : Type 0} (a : A) (k m : ℕ) → replicate (k + m) a ≡ replicate k a ++ replicate m a
replicate-append a zero m = ap (λ n. replicate n a) (omega arith)
replicate-append a (suc k) m =
    let e : suc k + m ≡ suc (k + m) = omega arith in
    ap (λ n. replicate n a) e ∙ ap (λ l. a ∷ l) (replicate-append a k m)

tabulate-append :
    {A : Type 0} (f : ℕ → A) (i k m : ℕ)
    → tabulate f i (k + m) ≡ tabulate f i k ++ tabulate f (i + k) m
tabulate-append f i zero m = ap₂ (λ n j. tabulate f j n) (omega arith) (omega arith)
tabulate-append f i (suc k) m =
    let e : suc k + m ≡ suc (k + m) = omega arith in
    let j : suc i + k ≡ i + suc k = omega arith in
    ap (tabulate f i) e
    ∙ ap (λ l. f i ∷ l) (tabulate-append f (suc i) k m)
    ∙ ap (λ n. f i ∷ (tabulate f (suc i) k ++ tabulate f n m)) j

-- A sender with its socket, before its thread runs and after.
abbrev pub opened : (ℕ → ℕ) → ℕ → SenderThread
opened fds i = record { thread = absent; idx = i; socket_fd = fds i }

abbrev pub spawned : (ℕ → ℕ) → ℕ → SenderThread
spawned fds i = record { thread = running; idx = i; socket_fd = fds i }

-- The open sockets after those of the first `k` senders.
abbrev pub with_sockets : (ℕ → ℕ) → ℕ → List ℕ → List ℕ
with_sockets fds k l = pushed (λ j l. fds j ∷ l) 0 k l

module _ (A : Type 0) (s : System) (fds : ℕ → ℕ) where
  open_socket-Makes :
      (i k : ℕ)
      → ((j : ℕ) → j < i + k → s.socket j ≡ some (fds j))
      → Makes {A = A}
          (open_socket s)
          (λ j l. fds j ∷ l)
          i
          (replicate k blank_thread)
          (tabulate (opened fds) i k)
  open_socket-Makes i zero h = tt
  open_socket-Makes i (suc k) h = (
    λ p. rw (h i (omega arith), open_socket) refl,
    open_socket-Makes (suc i) k (λ j b. h j (omega arith)),
  )

  start_thread-Makes :
      (i k : ℕ)
      → ((j : ℕ) → j < i + k → s.starts j ≡ true)
      → Makes {A = A}
          (start_thread s)
          (λ j l. l)
          i
          (tabulate (opened fds) i k)
          (tabulate (spawned fds) i k)
  start_thread-Makes i zero h = tt
  start_thread-Makes i (suc k) h =
      (λ p. rw (h i (omega arith)) refl, start_thread-Makes (suc i) k (λ j b. h j (omega arith)))

module _ {A : Type 0} (s : System) (fds : ℕ → ℕ) where
  -- The first `k` threads of `k + m`.
  setup_threads-prefix :
      (p : Process A) (k m : ℕ)
      → p.senders ≡ tabulate (opened fds) 0 (k + m)
      → ((j : ℕ) → j < k → s.starts j ≡ true)
      → setup_threads s (k + m) p
        ≡ for_each
            (start_thread s)
            k
            m
            (record p { senders = tabulate (spawned fds) 0 k ++ tabulate (opened fds) k m })
  unfolding setup_threads
  setup_threads-prefix p k m e starts =
      let size = length-tabulate (opened fds) 0 k in
      for_each-prefix (start_thread s) (λ j l. l) [] (tabulate (opened fds) 0 k)
        (tabulate (spawned fds) 0 k) (tabulate (opened fds) k m) 0 k (k + m) m p
        (e
          ∙ tabulate-append (opened fds) 0 k m
          ∙ ap (λ j. tabulate (opened fds) 0 k ++ tabulate (opened fds) j m) (omega arith))
        refl (omega (arith, size)) (omega (arith, size))
        (start_thread-Makes A s fds 0 k (λ j b. starts j (omega arith)))
      ∙ ap
          (λ l. for_each (start_thread s) k m (record p {
            senders = tabulate (spawned fds) 0 k ++ tabulate (opened fds) k m;
            sockets = l;
          }))
          (pushed-same 0 (length (tabulate (opened fds) 0 k)) p.sockets)

  setup_threads_all :
      (n : ℕ) (p : Process A)
      → p.senders ≡ tabulate (opened fds) 0 n
      → ((j : ℕ) → j < n → s.starts j ≡ true)
      → setup_threads s n p ≡ done tt (record p { senders = tabulate (spawned fds) 0 n })
  unfolding for_each
  setup_threads_all n p e starts =
      let whole : n + 0 ≡ n = omega arith in
      ap (λ k. setup_threads s k p) (sym whole)
      ∙ setup_threads-prefix p n 0 (e ∙ ap (tabulate (opened fds) 0) (sym whole)) starts
      ∙ ap (λ l. done tt (record p { senders = l })) (append-nil (tabulate (spawned fds) 0 n))

module _ {A : Type 0} (env : Env) (s : System) (fds : ℕ → ℕ) (p : Process A) where
  -- The first `k` sockets of `k + m`.
  setup_sockets-prefix :
      (k m : ℕ)
      → env.grants (thread_bytes * (k + m)) ≡ true
      → ((j : ℕ) → j < k → s.socket j ≡ some (fds j))
      → setup_sockets env s (k + m) p
        ≡ for_each (open_socket s) k m (record p {
          senders = tabulate (opened fds) 0 k ++ replicate m blank_thread;
          sockets = with_sockets fds k p.sockets;
        })
  unfolding setup_sockets
  setup_sockets-prefix k m grants sockets =
      let size = length-replicate k blank_thread in
      rw grants (
        for_each-prefix (open_socket s) (λ j l. fds j ∷ l) [] (replicate k blank_thread)
          (tabulate (opened fds) 0 k) (replicate m blank_thread) 0 k (k + m) m
          (record p { senders = replicate (k + m) blank_thread })
          (replicate-append blank_thread k m) refl (omega (arith, size)) (omega (arith, size))
          (open_socket-Makes A s fds 0 k (λ j b. sockets j (omega arith)))
        ∙ ap
            (λ n. for_each (open_socket s) k m (record p {
              senders = tabulate (opened fds) 0 k ++ replicate m blank_thread;
              sockets = pushed (λ j l. fds j ∷ l) 0 n p.sockets;
            }))
            size)

  -- All sockets.
  setup_sockets_all :
      (n : ℕ)
      → env.grants (thread_bytes * n) ≡ true
      → ((j : ℕ) → j < n → s.socket j ≡ some (fds j))
      → setup_sockets env s n p
        ≡ done tt (record p {
          senders = tabulate (opened fds) 0 n;
          sockets = with_sockets fds n p.sockets;
        })
  unfolding for_each
  setup_sockets_all n grants sockets =
      let whole : n + 0 ≡ n = omega arith in
      ap (λ k. setup_sockets env s k p) (sym whole)
      ∙ setup_sockets-prefix n 0 (rw whole grants) sockets
      ∙ ap (λ l. done tt (record p { senders = l; sockets = with_sockets fds n p.sockets }))
          (append-nil (tabulate (opened fds) 0 n))

  -- With memory for the array, and every socket and thread granted: `init_senders` returns 0, and the
  -- array holds a running thread for each index, with a socket of its own.
  pub init_senders_lem :
      (n : ℕ)
      → env.grants (thread_bytes * n) ≡ true
      → ((j : ℕ) → j < n → s.socket j ≡ some (fds j))
      → ((j : ℕ) → j < n → s.starts j ≡ true)
      → init_senders env s n p
        ≡ done tt (record p {
          senders = tabulate (spawned fds) 0 n;
          sockets = with_sockets fds n p.sockets;
        })
  unfolding init_senders for_each
  init_senders_lem n grants sockets starts =
      let q : Process A = record p {
        senders = tabulate (opened fds) 0 n;
        sockets = with_sockets fds n p.sockets;
      } in
      and_then-step (setup_sockets env s n p) _ (setup_sockets_all n grants sockets)
      ∙ setup_threads_all s fds n q refl starts

  -- Where the socket of index `k` is the first to be refused, `init_senders` returns ERROR_SOCKET; the
  -- array is released, and the sockets before that one stay open.
  pub init_senders-no_socket :
      (k m : ℕ)
      → env.grants (thread_bytes * (k + suc m)) ≡ true
      → ((j : ℕ) → j < k → s.socket j ≡ some (fds j))
      → s.socket k ≡ none
      → init_senders env s (k + suc m) p
        ≡ err error_socket (record (mark_freed sender_threads false p) {
          senders = [];
          sockets = with_sockets fds k p.sockets;
        })
  unfolding init_senders for_each
  init_senders-no_socket k m grants sockets refused =
      and_then-stop (setup_sockets env s (k + suc m) p) _ (
        setup_sockets-prefix k (suc m) grants sockets
        ∙ for_each_stop (open_socket s) (λ j l. l) (tabulate (opened fds) 0 k) blank_thread
            (replicate m blank_thread) k m _ _ error_socket refl (length-tabulate (opened fds) 0 k)
            (rw (refused, open_socket) refl))

  -- Where the thread of index `k` is the first to be refused, `init_senders` returns ERROR_THREAD, and
  -- those before it run.
  pub init_senders-no_thread :
      (k m : ℕ)
      → env.grants (thread_bytes * (k + suc m)) ≡ true
      → ((j : ℕ) → j < k + suc m → s.socket j ≡ some (fds j))
      → ((j : ℕ) → j < k → s.starts j ≡ true)
      → s.starts k ≡ false
      → init_senders env s (k + suc m) p
        ≡ err error_thread (record p {
          senders = tabulate (spawned fds) 0 k ++ tabulate (opened fds) k (suc m);
          sockets = with_sockets fds (k + suc m) p.sockets;
        })
  unfolding init_senders for_each
  init_senders-no_thread k m grants sockets starts refused =
      let n = k + suc m in
      let q : Process A = record p {
        senders = tabulate (opened fds) 0 n;
        sockets = with_sockets fds n p.sockets;
      } in
      and_then-step (setup_sockets env s n p) _ (setup_sockets_all n grants sockets)
      ∙ setup_threads-prefix s fds q k (suc m) refl starts
      ∙ for_each_stop (start_thread s) (λ j l. l) (tabulate (spawned fds) 0 k) (opened fds k)
          (tabulate (opened fds) (suc k) m) k m _ _ error_thread refl
          (length-tabulate (spawned fds) 0 k) (rw (refused, start_thread) refl)
