-- ===== src/Process/Threads/Listening.antt =====
-- The set-up of the receiver thread in src/receiver.c.
use distributed_process.Base.{
  ℕ, ◌≡◌, ◌∙◌, refl, ap, true, false, some, ◌∷◌, done, err, error_bind, put_back, and_then-step,
  Env,
}
use distributed_process.AddrBook.{get_addr}
use distributed_process.Node.{in_book}
use distributed_process.Process.{running, Process, in_net}
use distributed_process.Process.Threads.{System, init_receiver}

-- The receiver thread runs, and its socket is bound at `addr`.
abbrev pub listening : {A : Type 0} → ℕ → A → Process A → Process A
listening fd addr p = record p {
  receiver = running;
  receiver_fd = fd;
  bound = some addr;
  sockets = fd ∷ p.sockets;
}

own_address :
    {A : Type 0} (p : Process A) (addr : A)
    → get_addr p.net.self_pid p.net.address_book ≡ done addr p.net.address_book
    → in_net (λ d. in_book (get_addr d.self_pid) d) p ≡ done addr p
own_address p addr known =
    ap
      (λ o.
        put_back (λ d. record p { net = d })
          (put_back (λ b. record (p.net) { address_book = b }) o))
      known

pub init_receiver_lem :
    {A : Type 0} (env : Env) (s : System) (p : Process A) (addr : A) (fd : ℕ)
    → env.mutexes ≡ true
    → get_addr p.net.self_pid p.net.address_book ≡ done addr p.net.address_book
    → s.receiver_socket ≡ some fd
    → s.binds ≡ true
    → s.receiver_starts ≡ true
    → init_receiver env s p ≡ done tt (listening fd addr p)
unfolding init_receiver
init_receiver_lem env s p addr fd mutexes known socket binds starts =
    rw mutexes (and_then-step _ _ (own_address p addr known) ∙ rw (socket, binds, starts) refl)

-- Where the address is taken by another socket, that of the receiver stays open.
pub init_receiver-no_bind :
    {A : Type 0} (env : Env) (s : System) (p : Process A) (addr : A) (fd : ℕ)
    → env.mutexes ≡ true
    → get_addr p.net.self_pid p.net.address_book ≡ done addr p.net.address_book
    → s.receiver_socket ≡ some fd
    → s.binds ≡ false
    → init_receiver env s p
      ≡ err error_bind (record p { receiver_fd = fd; sockets = fd ∷ p.sockets })
unfolding init_receiver
init_receiver-no_bind env s p addr fd mutexes known socket binds =
    rw mutexes (and_then-step _ _ (own_address p addr known) ∙ rw (socket, binds) refl)
