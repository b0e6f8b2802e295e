-- ===== src/AddrBook/Access.antt =====
-- Reads and writes of the address book of src/addrbook.c, for every process id.
use distributed_process.Base.{
  ℕ, ◌+◌, ◌-◌, ◌^◌, ◌≤◌, ◌<◌, ◌≡◌, ◌≢◌, ◌⊎◌, ◌∙◌, ap, inl, inr, true, false, some, length, get_or,
  set, length-set, get_or-set_self, get_or-set_ne, get_elem?-eq-get_or, get_elem?-past, ltb, ◌==◌,
  if◌then◌else◌, Bool-cases, u64, pred64, arith, error_pid, replicate, ◌*◌, done, err, fault, Env,
  Ends, refl, length-replicate, OnSome,
}
use distributed_process.AddrBook.{
  AddrBook, book_bytes, address_bytes, alloc_addr_book, add_entry, get_addr,
}

pub record IsValid {A : Type 0} (b : AddrBook A) : Type 0 where
  pub sized : length b.addresses ≡ b.num_proc
  pub positive : 0 < b.num_proc
  pub narrow : b.num_proc < 2 ^ 63

abbrev pub entered : {A : Type 0} → AddrBook A → ℕ → A → AddrBook A
entered b pid addr = record b { addresses = set b.addresses (pid - 1) addr }

module _ {A : Type 0} (b : AddrBook A) (pid : ℕ) (addr : A) (v : IsValid b) where
  pub entered-IsValid : IsValid (entered b pid addr)
  entered-IsValid = record {
    sized = length-set b.addresses (pid - 1) addr ∙ v.sized;
    positive = v.positive;
    narrow = v.narrow;
  }

  pub add_entry-entered :
      0 < pid → pid ≤ b.num_proc → add_entry pid addr (some b) ≡ done tt (some (entered b pid addr))
  unfolding add_entry
  add_entry-entered low high =
      let at : pred64 pid ≡ pid - 1 = omega (arith, v.narrow) in
      let there : (length b.addresses == 0) ≡ false = ground (arith, v) in
      let accepted : ltb (u64 (b.num_proc + 1)) pid ≡ false = ground (arith, v) in
      let inside : ltb (pid - 1) (length b.addresses) ≡ true = ground (arith, v) in
      rw (there, accepted, at, inside)

-- Where an allocation or an entry succeeds, the book has as many addresses as it should.
pub add_entry-sizes :
    {A : Type 0} (pid : ℕ) (addr : A) (b : AddrBook A)
    → Ends
        (λ u p.
          (b' : AddrBook A) × (p ≡ some b')
          × (b'.num_proc ≡ b.num_proc)
          × (length b'.addresses ≡ length b.addresses))
        (add_entry pid addr (some b))
unfolding add_entry
add_entry-sizes pid addr b = elim (Bool-cases (length b.addresses == 0)) [
  | inl e ↦ rw (e, add_entry) tt
  | inr e ↦ elim (Bool-cases (ltb (u64 (b.num_proc + 1)) pid)) [
    | inl e' ↦ rw (e, add_entry, e') tt
    | inr e' ↦ elim (Bool-cases (ltb (pred64 pid) (length b.addresses))) [
      | inl e'' ↦
          rw (e, add_entry, e', e'')
            (
              record b { addresses = set b.addresses (pred64 pid) addr },
              refl,
              refl,
              length-set b.addresses (pred64 pid) addr,
            )
      | inr e'' ↦ rw (e, add_entry, e', e'') tt
    ]
  ]
]

pub alloc_addr_book-sizes :
    {A : Type 0} (blank : A) (env : Env) (n : ℕ)
    → OnSome
        (λ (b : AddrBook A). (b.num_proc ≡ n) × (length b.addresses ≡ n))
        (alloc_addr_book blank env n)
unfolding alloc_addr_book
alloc_addr_book-sizes blank env n = elim (Bool-cases (n == 0)) [
  | inl e ↦ rw (e, alloc_addr_book) tt
  | inr e ↦ elim (Bool-cases (env.grants book_bytes)) [
    | inl e' ↦ elim (Bool-cases (env.grants (address_bytes * n))) [
      | inl e'' ↦ rw (e, alloc_addr_book, e', e'') (refl, length-replicate n blank)
      | inr e'' ↦ rw (e, alloc_addr_book, e', e'') tt
    ]
    | inr e' ↦ rw (e, alloc_addr_book, e') tt
  ]
]

module _ {A : Type 0} (blank : A) where
  pub alloc_addr_book-granted :
      (env : Env) (n : ℕ)
      → ((k : ℕ) → env.grants k ≡ true)
      → 0 < n
      → alloc_addr_book blank env n ≡ some (record { num_proc = n; addresses = replicate n blank })
  unfolding alloc_addr_book
  alloc_addr_book-granted env n grants pos =
      let some_proc : (n == 0) ≡ false = ground arith in
      rw (some_proc, grants book_bytes, grants (address_bytes * n))

  -- The address of process `pid`.
  abbrev pub address : AddrBook A → ℕ → A
  address b pid = get_or b.addresses (pid - 1) blank

  -- A read of the address of a process of the book returns it.
  pub get_addr_lem :
      (b : AddrBook A) (pid : ℕ)
      → IsValid b
      → 0 < pid
      → pid ≤ b.num_proc
      → get_addr pid (some b) ≡ done (address b pid) (some b)
  unfolding get_addr
  get_addr_lem b pid v low high =
      let at : pred64 pid ≡ pid - 1 = omega (arith, v.narrow) in
      let there : (length b.addresses == 0) ≡ false = ground (arith, v) in
      let accepted : ltb (u64 (b.num_proc + 1)) pid ≡ false = ground (arith, v) in
      rw (
        there,
        accepted,
        at,
        get_elem?-eq-get_or b.addresses (pid - 1) blank (omega (arith, v.sized)),
      )

  -- In a valid book, under the id 0, and under the id that follows the last process, `get_addr`
  -- reads outside the array; above that it returns ERROR_PID.
  pub get_addr_outside :
      (b : AddrBook A) (pid : ℕ)
      → IsValid b
      → (pid ≡ 0) ⊎ (b.num_proc < pid)
      → pid < 2 ^ 64
      → get_addr pid (some b) ≡ (if ltb (b.num_proc + 1) pid then err error_pid (some b) else fault)
  unfolding get_addr
  get_addr_outside b pid v out wide =
      let there : (length b.addresses == 0) ≡ false = ground (arith, v) in
      let bound : u64 (b.num_proc + 1) ≡ b.num_proc + 1 = omega (arith, v.narrow) in
      elim (Bool-cases (ltb (b.num_proc + 1) pid)) [
        | inl large ↦ rw (there, bound, large)
        | inr small ↦
            rw (
              there,
              bound,
              small,
              get_elem?-past b.addresses (pred64 pid) (ground (arith, v, out)),
            )
      ]

  -- What an entry for `pid` leaves: every other address is as before.
  pub record Entered (b : AddrBook A) (pid : ℕ) (addr : A) (b' : AddrBook A) : Type 0 where
    pub valid : IsValid b'
    pub here : get_addr pid (some b') ≡ done addr (some b')
    pub elsewhere : (i : ℕ) → 0 < i → i ≢ pid → address b' i ≡ address b i

  -- In a valid book the address that `add_entry` stores for one of its processes is the one that
  -- `get_addr` then returns, and the addresses of the other processes stay.
  pub add_entry_lem :
      (b : AddrBook A) (pid : ℕ) (addr : A)
      → IsValid b
      → 0 < pid
      → pid ≤ b.num_proc
      → (b' : AddrBook A) × (add_entry pid addr (some b) ≡ done tt (some b'))
        × Entered b pid addr b'
  add_entry_lem b pid addr v low high =
      let valid = entered-IsValid b pid addr v in
      (
        entered b pid addr,
        add_entry-entered b pid addr v low high,
        record {
          valid = valid;
          here =
              get_addr_lem (entered b pid addr) pid valid low high
              ∙ ap (λ a. done a (some (entered b pid addr)))
                  (get_or-set_self b.addresses (pid - 1) addr blank (omega (arith, v.sized)));
          elsewhere = λ i pos ne.
              get_or-set_ne b.addresses (pid - 1) (i - 1) addr blank (λ e. ne (omega (arith, e)));
        },
      )
