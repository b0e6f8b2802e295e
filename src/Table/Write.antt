-- ===== src/Table/Write.antt =====
-- `table_write_entry` of src/plink.c: its loop, and what it leaves.
use distributed_process.Base.{
  ℕ, zero, suc, ◌∙◌, false, ◌+◌, ◌*◌, ◌≤◌, ◌<◌, ◌≡◌, refl, ◌≢◌, inl, inr, true, set, ltb, leb, ◌==◌,
  if◌then◌else◌, arith, length, length-set, get_or-set_self, get_or-set_ne, Bool-cases, done, err,
  error_table, Env,
}
use distributed_process.Table.{UidTable, max_size, grow_until, store_entry, table_write_entry}
use distributed_process.Table.Growth.{
  IsValid, value, grown, grow_lem, grown-IsValid, value-grown_old,
}

-- The allocator grants what a table that may still grow can ask for.
abbrev pub Grants : Env → Type 0
Grants env = (n : ℕ) → n ≤ 8 * max_size → env.grants n ≡ true

-- What the loop leaves behind, from `t` and for the index `mid`.
pub record Grew (t : UidTable) (mid : ℕ) (t' : UidTable) : Type 0 where
  pub valid : IsValid t'
  pub room : mid < t'.total_entries
  pub larger : t.total_entries ≤ t'.total_entries
  pub kept : (i : ℕ) → i < t.total_entries → value t' i ≡ value t i

module _ (env : Env) (grants : Grants env) where
  pub grow_until_lem :
      (fuel mid : ℕ) (t : UidTable)
      → IsValid t
      → mid ≤ max_size
      → mid + 1 < fuel + t.total_entries
      → 0 < fuel
      → (t' : UidTable) × (grow_until fuel env mid t ≡ done tt t') × Grew t mid t'
  unfolding grow_until
  grow_until_lem zero mid t v small enough f = absurd (omega arith)
  grow_until_lem (suc fuel) mid t v small enough f = elim (Bool-cases (leb t.total_entries mid)) [
    | inl full ↦
        let short : t.total_entries ≤ mid = ground arith in
        let (t', e, g) =
          grow_until_lem fuel mid (grown env t) (grown-IsValid env v) small
            (omega (arith, v.positive)) (omega (arith, v.positive)) in
        (
          t',
          rw (full, grow_lem env v (omega arith) (grants _ (omega arith))) e,
          record {
            valid = g.valid;
            room = g.room;
            larger = omega (arith, g.larger);
            kept = λ i h. g.kept i (omega arith) ∙ value-grown_old env v i h;
          },
        )
    | inr fits ↦ (
      t,
      rw fits,
      record { valid = v; room = ground arith; larger = omega arith; kept = λ i h. refl },
    )
  ]

store-IsValid :
    {t : UidTable} (mid x : ℕ) → IsValid t → IsValid (record t { entries = set t.entries mid x })
store-IsValid {t} mid x v = record {
  sized = length-set t.entries mid x ∙ v.sized;
  positive = v.positive;
}

value-store :
    {t : UidTable} (mid x i : ℕ)
    → IsValid t
    → mid < t.total_entries
    → value (record t { entries = set t.entries mid x }) i ≡ (if i == mid then x else value t i)
value-store {t} mid x i v h =
    ground (arith, v, get_or-set_self t.entries mid x 0, get_or-set_ne t.entries mid i x 0)

-- What `table_write_entry` leaves behind.
pub record Wrote (t : UidTable) (mid x : ℕ) (t' : UidTable) : Type 0 where
  pub valid : IsValid t'
  pub larger : t.total_entries ≤ t'.total_entries
  pub written : value t' mid ≡ x
  pub kept : (i : ℕ) → i < t.total_entries → i ≢ mid → value t' i ≡ value t i

-- The entry that is stored in a table that has grown.
pub stored-Wrote :
    {t g : UidTable} (mid x : ℕ)
    → Grew t mid g
    → Wrote t mid x (record g { entries = set g.entries mid x })
stored-Wrote {t} {g} mid x grew = record {
  valid = store-IsValid mid x grew.valid;
  larger = grew.larger;
  written = ground (arith, value-store mid x mid grew.valid grew.room);
  kept = λ i h ne. ground (arith, value-store mid x i grew.valid grew.room, grew.kept i h, ne);
}

-- For an id up to `MAX_SIZE`, on a valid table and with memory granted, the loop of
-- `table_write_entry` ends, no access leaves the table, 0 is returned, the entry reads back, the
-- other entries that the table had are unchanged, and the table stays valid and does not shrink.
pub write_lem :
    (env : Env) (t : UidTable) (mid x : ℕ)
    → Grants env
    → IsValid t
    → mid ≤ max_size
    → (t' : UidTable) × (table_write_entry env mid x t ≡ done tt t') × Wrote t mid x t'
unfolding table_write_entry store_entry
write_lem env t mid x grants v small =
    let (g, e, grew) =
      grow_until_lem env grants (mid + 1) mid t v small (omega (arith, v.positive)) (omega arith) in
    let accepted : ltb max_size mid ≡ false = ground arith in
    let inside : ltb mid (length g.entries) ≡ true = ground (arith, grew.valid, grew.room) in
    (record g { entries = set g.entries mid x }, rw (accepted, e, inside), stored-Wrote mid x grew)

-- An id above `MAX_SIZE` is refused, and the table is left as it was.
pub write_refused :
    (env : Env) (t : UidTable) (mid x : ℕ)
    → max_size < mid
    → table_write_entry env mid x t ≡ err error_table t
unfolding table_write_entry
write_refused env t mid x h = let large : ltb max_size mid ≡ true = ground arith in rw large
