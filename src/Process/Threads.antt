-- ===== src/Process/Threads.antt =====
-- The threads and sockets of a process: the set-up and the end of the sender threads in src/sender.c,
-- and of the receiver thread in src/receiver.c.
pub mod Each
pub mod Spawned
pub mod Ended
pub mod Listening
use distributed_process.Base.{
  ℕ, zero, suc, ◌+◌, ◌*◌, Bool, true, false, Option, none, some, List, [], ◌∷◌, get_elem?, set,
  replicate, if◌then◌else◌, error_memory, error_socket, error_mutex, error_bind, error_thread,
  Outcome, done, err, fault, hang, Prog, Ok, and_then, ◌>>=◌, ◌>>◌, pure, raise, modify, reject,
  lock, not, Env,
}
use distributed_process.AddrBook.{get_addr}
use distributed_process.Node.{NetData, in_book, in_log}
use distributed_process.Process.{
  Thread, absent, running, ended, joined, SenderThread, sender_threads, Process, in_net, mark_freed,
}

-- What the system answers: the descriptors that `socket` gives, `none` where it fails, for the
-- receiver and for the sender of each index; whether `bind` and `pthread_create` succeed; whether the
-- receiver can be cancelled.
pub record System : Type 0 where
  pub receiver_socket : Option ℕ
  pub binds : Bool
  pub receiver_starts : Bool
  pub socket : ℕ → Option ℕ
  pub starts : ℕ → Bool
  pub cancels : Bool

-- `sizeof(sender_thread_t)`.
abbrev pub thread_bytes : ℕ
thread_bytes = 32

abbrev pub blank_thread : SenderThread
blank_thread = record { thread = absent; idx = 0; socket_fd = 0 }

module _ {A : Type 0} where
  -- A loop over `data->senders[i]`, `n` rounds from `i` on, that ends with the first error.
  pub for_each : (ℕ → SenderThread → Prog (Process A) SenderThread) → ℕ → ℕ → Prog (Process A) Ok
  for_each body i zero p = done tt p
  for_each body i (suc n) p = elim (get_elem? p.senders i) [
    | none ↦ fault
    | some t ↦ elim (body i t p) [
      | done t' q ↦ for_each body (i + 1) n (record q { senders = set q.senders i t' })
      | err e q ↦ err e q
      | fault ↦ fault
      | hang ↦ hang
    ]
  ]

  -- Where `socket` fails the array is released, and the sockets before it stay open.
  abbrev pub open_socket : System → ℕ → SenderThread → Prog (Process A) SenderThread
  open_socket s i t p = elim (s.socket i) [
    | none ↦ err error_socket (record (mark_freed sender_threads false p) { senders = [] })
    | some fd ↦ done (record t { idx = i; socket_fd = fd }) (record p { sockets = fd ∷ p.sockets })
  ]

  pub setup_sockets : Env → System → ℕ → Prog (Process A) Ok
  unfolding for_each
  setup_sockets env s num_senders p =
      if env.grants (thread_bytes * num_senders)
      then for_each (open_socket s) 0 num_senders
          (record p { senders = replicate num_senders blank_thread })
      else err error_memory (record p { senders = [] })

  abbrev pub start_thread : System → ℕ → SenderThread → Prog (Process A) SenderThread
  start_thread s i t p =
      if s.starts i then done (record t { thread = running }) p else err error_thread p

  pub setup_threads : System → ℕ → Prog (Process A) Ok
  unfolding for_each
  setup_threads s num_senders = for_each (start_thread s) 0 num_senders

  unfoldable pub init_senders : Env → System → ℕ → Prog (Process A) Ok
  unfolding setup_sockets setup_threads
  init_senders env s num_senders = do setup_sockets env s num_senders; setup_threads s num_senders

  -- `pthread_cancel`; of what was never created, or is joined, nothing is defined.
  abbrev pub cancel : ℕ → SenderThread → Prog (Process A) SenderThread
  cancel i t p = elim t.thread [
    | absent ↦ fault
    | running ↦ done (record t { thread = ended }) p
    | ended ↦ done t p
    | joined ↦ fault
  ]

  -- `pthread_join` waits for the end of the thread.
  abbrev pub join : ℕ → SenderThread → Prog (Process A) SenderThread
  join i t p = elim t.thread [
    | absent ↦ fault
    | running ↦ hang
    | ended ↦ done (record t { thread = joined }) p
    | joined ↦ fault
  ]

  unfoldable pub terminate_senders : ℕ → Prog (Process A) Ok
  unfolding for_each
  terminate_senders num_senders = do for_each cancel 0 num_senders; for_each join 0 num_senders

  -- `data->receiver_fd`.
  abbrev pub take_socket : Option ℕ → Prog (Process A) Ok
  take_socket none = raise error_socket
  take_socket (some fd) = modify (λ p. record p { receiver_fd = fd; sockets = fd ∷ p.sockets })

  unfoldable pub init_receiver : Env → System → Prog (Process A) Ok
  init_receiver env s = do
    reject (not env.mutexes) error_mutex
    receiver_addr ← in_net (λ d. in_book (get_addr d.self_pid) d)
    take_socket s.receiver_socket
    reject (not s.binds) error_bind
    modify (λ p. record p { bound = some receiver_addr })
    reject (not s.receiver_starts) error_thread
    modify (λ p. record p { receiver = running })

  -- Where the receiver cannot be cancelled, the mutex of the log stays held.
  unfoldable pub terminate_receiver : System → Prog (Process A) Ok
  terminate_receiver s = do
    in_net (in_log (lock (λ l. l.locked) (λ l. record l { locked = true })))
    λ p. elim p.receiver [
      | running ↦ if s.cancels then done tt (record p { receiver = joined }) else err error_thread p
      | _ ↦ fault
    ]
    in_net (in_log (modify (λ l. record l { locked = false })))
