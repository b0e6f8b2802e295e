-- ===== src/Process/Main/Booted.antt =====
-- From the membership file to a process that runs: `init_data` of src/da_proc.c, and `stop` right after
-- it.
use distributed_process.Base.{
  ℕ, ◌*◌, ◌^◌, ◌<◌, ◌≡◌, ◌∙◌, refl, sym, ap, subst, true, false, Option, some, List, ◌∷◌, tabulate,
  Every-Has, Has, arith, done, and_then-step, put_back, ◌>>◌, Prog, Ok, Env,
}
use distributed_process.AddrBook.{get_addr}
use distributed_process.Log.{decimal}
use distributed_process.Node.{NetData}
use distributed_process.Node.Start.{init_parts}
use distributed_process.Node.Start.Parts.{IsSmall}
use distributed_process.Node.Start.Started.{Started, started, started-Started, steps}
use distributed_process.Node.Parser.{parse_membership_args}
use distributed_process.Node.Parser.Rendered.{
  AddressLine, Membership, membership_text, IsMembership,
}
use distributed_process.Node.Parser.Configured.{Parsed, parse_membership_args-Parsed}
use distributed_process.Process.{running, Process, in_net}
use distributed_process.Process.Threads.{System, thread_bytes, init_receiver, init_senders}
use distributed_process.Process.Threads.Spawned.{spawned, with_sockets, init_senders_lem}
use distributed_process.Process.Threads.Listening.{listening, init_receiver_lem}
use distributed_process.Process.Main.{num_sender_threads, init_data}

-- Before its threads, a process with every part set up.
abbrev pub prepared : {A : Type 0} → NetData A → Process A → Process A
prepared d p = record p { net = started d; log_open = true }

-- A start: what the system gives, the membership file, the arguments, the line of the file that is the
-- process's own, and the descriptors that it gets.
pub record Given (A B : Type 0) : Type 0 where
  pub blank : A
  pub aton : List ℕ → Option B
  pub address_of : B → ℕ → A
  pub env : Env
  pub system : System
  pub size : ℕ
  pub members : Membership B
  pub name : List ℕ
  pub path : List ℕ
  pub more : List (List ℕ)
  pub self : ℕ
  pub num : ℕ
  pub own : AddressLine B
  pub fd : ℕ
  pub fds : ℕ → ℕ

-- `argv`.
abbrev pub arguments : {A B : Type 0} → Given A B → List (List ℕ)
arguments g = g.name ∷ decimal g.self ∷ g.path ∷ decimal g.num ∷ g.more

abbrev pub boot : {A B : Type 0} → Given A B → Prog (Process A) Ok
boot g =
    init_data g.blank g.aton g.address_of g.env g.system true (arguments g)
      (some (membership_text g.members))

-- The file is well-formed and has a line for the process, whose id has one digit; the number of
-- messages has at most 31 bits, and the tables' sizes are an `unsigned int`. Memory and mutexes are
-- granted, and the log's mutex is free.
pub record IsSound {A B : Type 0} (g : Given A B) (p : Process A) : Type 0 where
  pub grants : (k : ℕ) → g.env.grants k ≡ true
  pub mutexes : g.env.mutexes ≡ true
  pub file : IsMembership g.aton g.size g.members
  pub small : IsSmall g.size
  pub free : p.net.logdata.locked ≡ false
  pub there : Has g.own g.members.addresses
  pub mine : g.own.pid ≡ g.self
  pub positive : 0 < g.self
  pub digit : g.self < 10
  pub some_messages : 0 < g.num
  pub few_messages : g.num < 2 ^ 31

-- Every socket and thread is granted.
pub record GrantsThreads {A B : Type 0} (g : Given A B) : Type 0 where
  pub receiver_socket : g.system.receiver_socket ≡ some g.fd
  pub binds : g.system.binds ≡ true
  pub receiver_starts : g.system.receiver_starts ≡ true
  pub socket : (j : ℕ) → g.system.socket j ≡ some (g.fds j)
  pub starts : (j : ℕ) → g.system.starts j ≡ true

-- The address that the file gives the process.
abbrev pub own_address : {A B : Type 0} → Given A B → A
own_address g = g.address_of g.own.ipv4 g.own.port

module _ {A B : Type 0} (g : Given A B) (p : Process A) where
  -- The parser and the set-up of the parts succeed, and what the receiver asks the address book for
  -- is the address of the process's own line.
  pub record Prepares (d : NetData A) : Type 0 where
    pub parsed : Parsed g.address_of g.members g.self g.num p.net d
    pub parts : Started d (started d)
    pub address :
        get_addr (started d).self_pid (started d).address_book
        ≡ done (own_address g) (started d).address_book
    pub run :
        boot g p
        ≡ (init_receiver g.env g.system >> init_senders g.env g.system num_sender_threads)
            (prepared d p)

  parsed-Prepares :
      IsSound g p
      → (d : NetData A)
      → parse_membership_args g.blank g.aton g.address_of g.env
          (arguments g)
          (some (membership_text g.members))
          p.net
        ≡ done tt d
      → Parsed g.address_of g.members g.self g.num p.net d
      → Prepares d
  unfolding init_data
  parsed-Prepares h d e q =
      let size : g.size ≡ d.num_proc = sym (q.num_proc ∙ h.file.addressed) in
      let small = subst IsSmall size h.small in
      let unlocked : d.logdata.locked ≡ false = ap (λ t. t.logdata.locked) q.kept ∙ h.free in
      let before : Process A = record p { net = d } in
      record {
        parsed = q;
        parts = started-Started d small unlocked;
        address =
            ap (λ k. get_addr k d.address_book) (q.self_pid ∙ sym h.mine)
            ∙ Every-Has _ g.own g.members.addresses q.addresses h.there;
        run =
            and_then-step
              (in_net
                (parse_membership_args g.blank g.aton g.address_of g.env (arguments g)
                  (some (membership_text g.members)))
                p)
              _ (ap (put_back (λ d. record p { net = d })) e)
            ∙ and_then-step (in_net (init_parts g.env true) before) _ (
                ap (put_back (λ d. record p { net = d }))
                  (steps d g.env h.grants h.mutexes small (omega (arith, q.self_pid, h.digit))));
      }

  pub init_data-Prepares : IsSound g p → (d : NetData A) × Prepares d
  init_data-Prepares h =
      let (d, e, q) =
        parse_membership_args-Parsed g.blank g.aton g.address_of g.env h.grants g.size g.members
          h.file p.net g.name g.path g.more g.self g.num h.positive (omega (arith, h.digit))
          h.some_messages h.few_messages in
      (d, parsed-Prepares h d e q)

  -- The state of a process that has come up.
  pub record IsUp (p' : Process A) : Type 0 where
    pub before : NetData A
    pub parsed : Parsed g.address_of g.members g.self g.num p.net before
    pub parts : Started before p'.net
    pub senders : p'.senders ≡ tabulate (spawned g.fds) 0 num_sender_threads
    pub receiver : p'.receiver ≡ running
    pub bound : p'.bound ≡ some (own_address g)
    pub sockets : p'.sockets ≡ with_sockets g.fds num_sender_threads (g.fd ∷ p.sockets)
    pub log_open : p'.log_open ≡ true
    pub freed : p'.freed ≡ p.freed

  -- For a well-formed file with a line for the own process, an id of one digit and a number of
  -- messages of at most 31 bits, tables whose sizes are an `unsigned int`, every call of the system
  -- granted and the log's mutex free: `init_data` returns 0. All that the file says is stored and every
  -- part is set up and empty; the receiver runs, with its socket bound at the address that the file
  -- gives the process, and ten senders run, each with a socket of its own.
  pub init_data-IsUp :
      IsSound g p → GrantsThreads g → (p' : Process A) × (boot g p ≡ done tt p') × IsUp p'
  init_data-IsUp h t =
      let (d, r) = init_data-Prepares h in
      let q = prepared d p in
      let q' = listening g.fd (own_address g) q in
      (
        record q' {
          senders = tabulate (spawned g.fds) 0 num_sender_threads;
          sockets = with_sockets g.fds num_sender_threads (g.fd ∷ p.sockets);
        },
        r.run
            ∙ and_then-step (init_receiver g.env g.system q) _ (
                init_receiver_lem g.env g.system q (own_address g) g.fd h.mutexes r.address
                  t.receiver_socket t.binds t.receiver_starts)
            ∙ init_senders_lem g.env g.system g.fds q' num_sender_threads
                (h.grants (thread_bytes * num_sender_threads)) (λ j b. t.socket j)
                (λ j b. t.starts j),
        record {
          before = d;
          parsed = r.parsed;
          parts = r.parts;
          senders = refl;
          receiver = refl;
          bound = refl;
          sockets = refl;
          log_open = refl;
          freed = refl;
        },
      )
