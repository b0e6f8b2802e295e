-- ===== src/Node/Run.antt =====
-- What the threads of a process of src/da_proc.c do, as sequences of steps in any order: rounds of
-- the receiver thread (src/receiver.c), rounds of the sender threads (src/sender.c), and rounds of
-- the loop of `send_lcb` (src/lcb.c).
pub mod Kept
pub mod Links
pub mod Logged
pub mod Once
use distributed_process.Base.{ℕ, ◌≡◌, Option, List, ErrorCode, done, err, Env}
use distributed_process.Message.{UrbMsg, Msg}
use distributed_process.Node.{NetData}
use distributed_process.Node.Broadcast.{send_loop}
use distributed_process.Node.Link.{receiver_round, sender_round}

-- Each step has its own answers of the system. While a sender thread sleeps between two datagrams,
-- the other threads run, `meanwhile`. The receiver thread and `main` end the process on an error, a
-- sender thread only itself.
pub data Run {A : Type 0} : NetData A → NetData A → Type 0 where
  rest : {d : NetData A} → Run d d
  receives :
      {d e f : NetData A} (fuel : ℕ) (env : Env) (junk : UrbMsg) (words : Option (List ℕ))
      (m m' : Msg)
      → Run d e
      → receiver_round fuel env junk words m e ≡ done m' f
      → Run d f
  sends :
      {d e f : NetData A} (env : Env) (meanwhile : ℕ → NetData A → NetData A)
      → Run d e
      → ((n : ℕ) (x : NetData A) → Run x (meanwhile n x))
      → sender_round env meanwhile e ≡ done tt f
      → Run d f
  gives_up :
      {d e f : NetData A} (env : Env) (meanwhile : ℕ → NetData A → NetData A) (code : ErrorCode)
      → Run d e
      → ((n : ℕ) (x : NetData A) → Run x (meanwhile n x))
      → sender_round env meanwhile e ≡ err code f
      → Run d f
  broadcasts :
      {d e f : NetData A} (env : Env) (n i : ℕ)
      → Run d e
      → send_loop env n i e ≡ done tt f
      → Run d f
