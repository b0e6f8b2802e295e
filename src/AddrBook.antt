-- ===== src/AddrBook.antt =====
-- src/addrbook.c: the addresses of the processes, by their ids from 1 on. `A` is the system's
-- `struct sockaddr_in`, and `blank` the address whose bytes are all 0.
pub mod Access
use distributed_process.Base.{
  ℕ, ◌+◌, ◌*◌, ◌^◌, ◌%◌, Bool, true, false, Option, none, some, List, [], length, get_elem?, set,
  replicate, ltb, ◌==◌, if◌then◌else◌, u64, pred64, error_memory, error_pid, done, err, fault, Prog,
  Ok, Env,
}

-- `addr_book_t`; a null `addresses` is the empty list.
pub record AddrBook (A : Type 0) : Type 0 where
  pub num_proc : ℕ
  pub addresses : List A

-- `sizeof(addr_book_t)` and `sizeof(struct sockaddr_in)`.
abbrev pub book_bytes : ℕ
book_bytes = 16

abbrev pub address_bytes : ℕ
address_bytes = 16

module _ {A : Type 0} where
  -- `none` is the null pointer.
  pub alloc_addr_book : A → Env → ℕ → Option (AddrBook A)
  alloc_addr_book blank env num_entries =
      if num_entries == 0
      then none
      else if env.grants book_bytes
      then (if env.grants (address_bytes * num_entries)
          then some (record { num_proc = num_entries; addresses = replicate num_entries blank })
          else none)
      else none

  -- The state is the pointer that the caller passes.
  pub add_entry : ℕ → A → Prog (Option (AddrBook A)) Ok
  add_entry pid addr none = err error_memory none
  add_entry pid addr (some b) =
      if length b.addresses == 0
      then err error_memory (some b)
      else if ltb (u64 (b.num_proc + 1)) pid
      then err error_pid (some b)
      else if ltb (pred64 pid) (length b.addresses)
      then done tt (some (record b { addresses = set b.addresses (pred64 pid) addr }))
      else fault

  unfoldable pub get_addr : ℕ → Prog (Option (AddrBook A)) A
  get_addr pid none = err error_memory none
  get_addr pid (some b) =
      if length b.addresses == 0
      then err error_memory (some b)
      else if ltb (u64 (b.num_proc + 1)) pid
      then err error_pid (some b)
      else elim (get_elem? b.addresses (pred64 pid)) [ none ↦ fault | some a ↦ done a (some b) ]
