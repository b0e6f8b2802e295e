-- ===== src/Process/Main.antt =====
-- `init_data`, `stop` and `main` of src/da_proc.c. `A` is the system's `struct sockaddr_in` and `B`
-- its `struct in_addr`.
pub mod Stopped
pub mod Booted
pub mod Whole
pub mod Refused
use distributed_process.Base.{
  ℕ, Bool, true, Option, List, Outcome, done, err, fault, hang, Prog, Ok, and_then, ◌>>=◌, ◌>>◌,
  modify, ignore, Env, u32, ltb, if◌then◌else◌, ◌^◌,
}
use distributed_process.Log.{write_to_file}
use distributed_process.Node.{NetData, in_log}
use distributed_process.Node.Start.{init_parts}
use distributed_process.Node.Broadcast.{send_lcb}
use distributed_process.Node.Parser.{parse_membership_args}
use distributed_process.Process.{Process, in_net}
use distributed_process.Process.Threads.{
  System, init_receiver, init_senders, terminate_receiver, terminate_senders,
}
use distributed_process.Process.Release.{free_data}

abbrev pub num_sender_threads : ℕ
num_sender_threads = 10

-- A `size_t` where `send_lcb` takes an `int`, as its number of rounds: none where it is negative. The
-- largest `int`, for which `m + 1` has no value, is taken for its rounds.
abbrev as_int : ℕ → ℕ
as_int n = if ltb (u32 n) (2 ^ 31) then u32 n else 0

module _ {A B : Type 0} (blank : A) (aton : List ℕ → Option B) (address_of : B → ℕ → A) (env : Env)
    (s : System) where
  -- `opens` says whether `fopen` of the log succeeds; `argv` and `file` are as for the parser.
  unfoldable pub init_data : Bool → List (List ℕ) → Option (List ℕ) → Prog (Process A) Ok
  init_data opens argv file = do
    in_net (parse_membership_args blank aton address_of env argv file)
    in_net (init_parts env opens)
    modify (λ p. record p { log_open = true })
    init_receiver env s
    init_senders env s num_sender_threads

  -- `main`. Where it returns, `err` has the code. `done` is the process that has come to the last
  -- loop, which only waits. Before the start signal the threads run, `meanwhile`.
  unfoldable pub run_main :
      Bool → (NetData A → NetData A) → List (List ℕ) → Option (List ℕ) → Prog (Process A) Ok
  unfolding init_data
  run_main opens meanwhile argv file p = elim (init_data opens argv file p) [
    | done _ q ↦ (do in_net (modify meanwhile); in_net (λ d. send_lcb env (as_int d.num_msg) d)) q
    | err e q ↦ elim (free_data q) [
      | done _ r ↦ err e r
      | err _ r ↦ err e r
      | fault ↦ fault
      | hang ↦ hang
    ]
    | fault ↦ fault
    | hang ↦ hang
  ]

module _ {A : Type 0} where
  -- The handler of SIGTERM and SIGINT, up to `exit`. No error code is looked at.
  unfoldable pub stop : Env → System → Prog (Process A) Ok
  stop env s = do
    terminate_senders num_sender_threads
    λ p. ignore (terminate_receiver s p)
    λ p. ignore (in_net (in_log (write_to_file env)) p)
    free_data
