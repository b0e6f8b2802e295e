-- ===== src/FifoTable/Access.antt =====
-- Reads and writes inside the tables of src/fifo.c.
use native.Mathlib.Numerals.{add-one}
use distributed_process.Base.{
  ℕ, ◌+◌, ◌-◌, ◌^◌, ◌≤◌, ◌<◌, ◌≡◌, ◌∙◌, true, false, length, get_elem?, get_or, set, length-set,
  get_or-set_self, get_or-set_ne, get_elem?-eq-get_or, ltb, leb, ◌==◌, if◌then◌else◌, Bool-cases,
  inl, inr, u32, pred32, arith, some, done, read_at, read_at-found, and_then-step, Env,
}
use distributed_process.FifoTable.{
  PendingTable, max_size_pending, pending_until, store_pending, add_pending, get_pending, NextTable,
  get_next, incr_next,
}

pub record IsValid (t : PendingTable) : Type 0 where
  pub sized : length t.bol ≡ t.total_entries
  pub small : t.total_entries ≤ max_size_pending

-- What a read of a message gives: 0 outside the table.
abbrev pub waits : PendingTable → ℕ → ℕ
waits t i = if ltb i t.total_entries then get_or t.bol i 0 else 0

abbrev pub marked : PendingTable → ℕ → ℕ → PendingTable
marked t i x = record t { bol = set t.bol i x }

module _ {t : PendingTable} (v : IsValid t) (i : ℕ) where
  pub get_pending_lem : get_pending i t ≡ done (waits t i) t
  unfolding get_pending
  get_pending_lem = ground (arith, v, get_elem?-eq-get_or t.bol i 0)

  pub add_pending_lem :
      (env : Env) (x : ℕ) → i < t.total_entries → add_pending env i x t ≡ done tt (marked t i x)
  unfolding add_pending pending_until store_pending
  add_pending_lem env x inside =
      let accepted : ltb max_size_pending i ≡ false = ground (arith, v) in
      let fits : leb t.total_entries i ≡ false = ground arith in
      let there : ltb i (length t.bol) ≡ true = ground (arith, v) in
      rw (accepted, add-one, pending_until, fits, there)

  pub marked-IsValid : (x : ℕ) → IsValid (marked t i x)
  marked-IsValid x = record { sized = length-set t.bol i x ∙ v.sized; small = v.small }

  pub waits-marked :
      (x j : ℕ) → i < t.total_entries → waits (marked t i x) j ≡ (if j == i then x else waits t j)
  waits-marked x j inside =
      ground (arith, v, get_or-set_self t.bol i x 0, get_or-set_ne t.bol i j x 0)

pub record IsNext (t : NextTable) : Type 0 where
  pub sized : length t.entries ≡ t.no_process
  pub narrow : t.no_process < 2 ^ 32

-- How many messages of process `pid` were delivered.
abbrev pub count : NextTable → ℕ → ℕ
count t pid = get_or t.entries (pid - 1) 0

abbrev pub counted : NextTable → ℕ → NextTable
counted t pid = record t { entries = set t.entries (pid - 1) (u32 (count t pid + 1)) }

module _ {t : NextTable} (v : IsNext t) (pid : ℕ) (low : 0 < pid) (high : pid ≤ t.no_process) where
  at : pred32 pid ≡ pid - 1
  at = omega (arith, v.narrow)

  found : get_elem? t.entries (pid - 1) ≡ some (count t pid)
  found = get_elem?-eq-get_or t.entries (pid - 1) 0 (omega (arith, v.sized))

  pub get_next_lem : get_next pid t ≡ done (u32 (count t pid + 1)) t
  unfolding get_next
  get_next_lem =
      let ok : ltb t.no_process pid ≡ false = ground arith in
      rw (ok, at)
        (and_then-step (read_at t.entries (pid - 1) t) _
          (read_at-found t.entries (pid - 1) t found))

  pub incr_next_lem : incr_next pid t ≡ done tt (counted t pid)
  unfolding incr_next
  incr_next_lem =
      let ok : ltb t.no_process pid ≡ false = ground arith in
      rw (ok, at)
        (and_then-step (read_at t.entries (pid - 1) t) _
          (read_at-found t.entries (pid - 1) t found))

  pub counted-IsNext : IsNext (counted t pid)
  counted-IsNext = record {
    sized = length-set t.entries (pid - 1) (u32 (count t pid + 1)) ∙ v.sized;
    narrow = v.narrow;
  }

  pub count-counted :
      (p : ℕ)
      → 0 < p
      → count (counted t pid) p ≡ (if p == pid then u32 (count t pid + 1) else count t p)
  count-counted p pos = elim (Bool-cases (p == pid)) [
    | inl eq ↦
        let same : p ≡ pid = ground arith in
        rw (eq, same)
          (get_or-set_self t.entries (pid - 1) (u32 (count t pid + 1)) 0 (omega (arith, v.sized)))
    | inr ne ↦
        rw ne (get_or-set_ne t.entries (pid - 1) (p - 1) (u32 (count t pid + 1)) 0 (ground arith))
  ]
