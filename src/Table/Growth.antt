-- ===== src/Table/Growth.antt =====
-- The well-formed tables of src/plink.c, and one doubling of such a table.
use distributed_process.Base.{
  ℕ, ◌+◌, ◌-◌, ◌*◌, ◌^◌, ◌≤◌, ◌<◌, ◌≡◌, true, get_or, ltb, if◌then◌else◌, arith, length, ◌∙◌, ap,
  replicate, length-replicate, u32, realloc, memset, length-realloc, length-memset,
  get_or-memset_before, get_or-memset_from, get_or-realloc_before, sym, get_or-replicate,
  get_or-realloc_from, clear_low, done, Env, get_elem?-eq-get_or,
}
use distributed_process.Table.{
  UidTable, max_size, table_size, init_table_uid, table_read_entry, grow,
}

-- The block is as long as the table says, and the table is not empty.
pub record IsValid (t : UidTable) : Type 0 where
  pub sized : length t.entries ≡ t.total_entries
  pub positive : 0 < t.total_entries

-- What a read of `mid` gives: 0 outside the table.
abbrev pub value : UidTable → ℕ → ℕ
value t mid = if ltb mid t.total_entries then get_or t.entries mid 0 else 0

-- A read of a valid table is in bounds, and changes nothing.
pub read_lem : {t : UidTable} (mid : ℕ) → IsValid t → table_read_entry mid t ≡ done (value t mid) t
unfolding table_read_entry
read_lem {t} mid v = ground (arith, get_elem?-eq-get_or t.entries mid 0)

-- The table that one round of the loop leaves.
abbrev pub grown : Env → UidTable → UidTable
grown env t = record {
  no_msgs = u32 (t.no_msgs * 2);
  no_process = t.no_process;
  total_entries = t.total_entries * 2;
  entries =
      memset t.total_entries t.total_entries (realloc env.junk t.entries (t.total_entries * 2));
}

module _ (env : Env) {t : UidTable} (v : IsValid t) where
  pub grow_lem :
      t.total_entries ≤ max_size
      → env.grants (4 * (t.total_entries * 2)) ≡ true
      → grow env t ≡ done tt (grown env t)
  unfolding grow
  grow_lem small granted =
      let wide : u32 (t.total_entries * 2) ≡ t.total_entries * 2 = omega arith in
      let bytes : u32 (t.total_entries * 2 + 2 ^ 32 - t.total_entries) ≡ t.total_entries =
        omega arith in
      rw (wide, granted, bytes)

  pub grown-IsValid : IsValid (grown env t)
  grown-IsValid =
      let wide = length-realloc env.junk t.entries (t.total_entries * 2) in
      record {
        sized =
            length-memset t.total_entries t.total_entries
              (realloc env.junk t.entries (t.total_entries * 2)) (omega (arith, wide, v))
            ∙ wide;
        positive = omega (arith, v.positive);
      }

  -- What was in the table stays.
  pub value-grown_old : (i : ℕ) → i < t.total_entries → value (grown env t) i ≡ value t i
  value-grown_old i h =
      let old = t.total_entries in
      ground (
        arith,
        v,
        length-realloc env.junk t.entries (old * 2),
        get_or-memset_before old old (realloc env.junk t.entries (old * 2)) i,
        get_or-realloc_before env.junk t.entries (old * 2) i,
      )

  -- In a valid table that has grown a new entry holds what the memory held, less the bytes that
  -- `memset` clears: as many bytes as there are new entries, so a quarter of the new part.
  pub value-grown_new :
      (k : ℕ)
      → k < t.total_entries
      → value (grown env t) (t.total_entries + k)
        ≡ clear_low (t.total_entries - 4 * k) (env.junk (t.total_entries + k))
  value-grown_new k h =
      let old = t.total_entries in
      let fresh : get_or (realloc env.junk t.entries (old * 2)) (old + k) 0 ≡ env.junk (old + k) =
        ap (λ n. get_or (realloc env.junk t.entries (old * 2)) (n + k) 0) (sym v.sized)
        ∙ get_or-realloc_from env.junk t.entries (old * 2) k (omega (arith, v.sized))
        ∙ ap (λ n. env.junk (n + k)) v.sized in
      let inside : ltb (old + k) (old * 2) ≡ true = ground arith in
      rw inside (
        get_or-memset_from old old (realloc env.junk t.entries (old * 2)) k
          (omega (arith, length-realloc env.junk t.entries (old * 2)))
        ∙ ap (clear_low (old - 4 * k)) fresh)

-- A table that `init_table_uid` makes is valid and holds only 0, if it has an entry.
pub init-IsValid :
    (env : Env) (no_msgs no_process : ℕ) (t : UidTable)
    → env.grants (4 * table_size no_msgs no_process) ≡ true
    → 0 < table_size no_msgs no_process
    → (t' : UidTable) × (init_table_uid env no_msgs no_process t ≡ done tt t')
      × IsValid t'
      × ((i : ℕ) → value t' i ≡ 0)
unfolding init_table_uid
init-IsValid env no_msgs no_process t granted pos = (
  record {
    no_msgs = no_msgs;
    no_process = no_process;
    total_entries = table_size no_msgs no_process;
    entries = replicate (table_size no_msgs no_process) 0;
  },
  rw granted,
  record { sized = length-replicate (table_size no_msgs no_process) 0; positive = pos },
  λ i. ground (arith, get_or-replicate {A = ℕ} (table_size no_msgs no_process) i 0),
)
