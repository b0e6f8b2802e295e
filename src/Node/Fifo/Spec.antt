-- ===== src/Node/Fifo/Spec.antt =====
-- What `deliver_fifo` of src/fifo.c finds, and what it is to leave.
use distributed_process.Base.{
  ℕ, zero, suc, ◌+◌, ◌*◌, ◌^◌, ◌≤◌, ◌<◌, ◌≡◌, ◌≢◌, ◌&&◌, List, [], ◌++◌, ltb, leb, ◌==◌,
  if◌then◌else◌, arith,
}
use distributed_process.FifoTable.Access.{IsValid, waits, IsNext, count}
use distributed_process.Log.{line_max_length, delivery_line}
use distributed_process.Log.Written
use distributed_process.Log.Written.{WritesAll, Logged, written}
use distributed_process.Node.{NetData}
use distributed_process.Node.Broadcast.{seen_id_of}

-- Whether message `seq` of process `s` has come and waits.
abbrev pub come : {A : Type 0} → NetData A → ℕ → ℕ → ℕ
come d s seq = waits d.pending (seen_id_of d.num_proc seq s)

-- How many messages without a gap wait from message `seq` on, of at most `n`.
unfoldable pub streak : {A : Type 0} → NetData A → ℕ → ℕ → ℕ → ℕ
streak d s zero seq = 0
streak d s (suc n) seq =
    let more = streak d s n (seq + 1) in if come d s seq == 1 then suc more else 0

-- The lines of `k` deliveries from message `seq` on.
unfoldable pub lines : ℕ → ℕ → ℕ → List ℕ
lines s seq zero = []
lines s seq (suc k) = delivery_line s seq ++ lines s (seq + 1) k

-- What `deliver_fifo` finds, for a process `s` of which message `limit` has not come yet.
pub record IsReady {A : Type 0} (d : NetData A) (s limit : ℕ) : Type 0 where
  pub table : IsValid d.pending
  pub next : IsNext d.next
  pub rows : d.next.no_process ≡ d.num_proc
  pub low : 0 < s
  pub high : s ≤ d.num_proc
  pub digit : s < 10
  pub hundred : limit ≤ 100
  pub narrow : d.num_proc * limit < 2 ^ 32
  pub not_come : come d s limit ≢ 1
  pub log : Written.IsValid d.logdata
  pub line : line_max_length ≤ d.logdata.buf_max_size

-- What `k` deliveries from message `seq` on leave.
pub record Ran {A : Type 0} (d : NetData A) (s limit seq k : ℕ) (d' : NetData A) : Type 0 where
  pub ready : IsReady d' s limit
  pub log : written d'.logdata ≡ written d.logdata ++ lines s seq k
  pub next : count d'.next s ≡ count d.next s + k
  pub others : (p : ℕ) → 0 < p → p ≢ s → count d'.next p ≡ count d.next p
  pub come_after :
      (i : ℕ)
      → 0 < i
      → i ≤ limit
      → come d' s i ≡ (if leb seq i && ltb i (seq + k) then 0 else come d s i)
  pub other_marks :
      (j : ℕ)
      → ((i : ℕ) → seq ≤ i → i < seq + k → j ≢ seen_id_of d.num_proc i s)
      → waits d'.pending j ≡ waits d.pending j

pub times_le : (n a b : ℕ) → a ≤ b → n * a ≤ n * b
times_le n a b h = grind arith
