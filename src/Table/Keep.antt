-- ===== src/Table/Keep.antt =====
-- `table_write_entry` of src/plink.c, whatever the allocator grants: what it leaves where it
-- returns 0.
use distributed_process.Base.{
  ℕ, zero, suc, ◌∙◌, ◌≤◌, ◌<◌, ◌≡◌, ◌≢◌, inl, inr, true, ltb, leb, ◌==◌, arith, length, subst, sym,
  u32, Bool-cases, Ends, Ends-map, Ends-and_then, Env, ◌+◌, ◌*◌, refl,
}
use distributed_process.Table.{UidTable, max_size, grow, grow_until, store_entry, table_write_entry}
use distributed_process.Table.Growth.{
  IsValid, value, grown, grow_lem, grown-IsValid, value-grown_old,
}
use distributed_process.Table.Write.{Grew, Wrote, stored-Wrote}

-- The table is valid and has an entry other than 0 at `i`.
abbrev pub Holds : ℕ → UidTable → Type 0
Holds i t = IsValid t × (value t i ≢ 0)

module _ (env : Env) where
  grow-grown :
      (t : UidTable)
      → IsValid t
      → t.total_entries ≤ max_size
      → Ends (λ u t'. t' ≡ grown env t) (grow env t)
  unfolding grow
  grow-grown t v small = elim (Bool-cases (env.grants (4 * (t.total_entries * 2)))) [
    | inl granted ↦ subst (Ends _) (sym (grow_lem env v small granted)) refl
    | inr refused ↦
        let wide : u32 (t.total_entries * 2) ≡ t.total_entries * 2 = omega arith in
        rw (wide, refused) tt
  ]

  grow_until-Grew :
      (fuel mid : ℕ) (t : UidTable)
      → IsValid t
      → mid ≤ max_size
      → Ends (λ u t'. Grew t mid t') (grow_until fuel env mid t)
  unfolding grow_until
  grow_until-Grew zero mid t v small = tt
  grow_until-Grew (suc fuel) mid t v small = elim (Bool-cases (leb t.total_entries mid)) [
    | inl full ↦
        let short : t.total_entries ≤ mid = ground arith in
        rw full (
          Ends-and_then _ _ (grow env t) _ (grow-grown t v (omega arith)) (λ u t' same.
            subst (λ x. Ends (λ u y. Grew t mid y) (grow_until fuel env mid x)) (sym same)
              (Ends-map _ _ (grow_until fuel env mid (grown env t))
                (λ u y g. record {
                  valid = g.valid;
                  room = g.room;
                  larger = omega (arith, g.larger);
                  kept = λ i h. g.kept i (omega arith) ∙ value-grown_old env v i h;
                })
                (grow_until-Grew fuel mid (grown env t) (grown-IsValid env v) small))))
    | inr fits ↦
        rw fits
          (record { valid = v; room = ground arith; larger = omega arith; kept = λ i h. refl })
  ]

  pub write-Wrote :
      (mid x : ℕ) (t : UidTable)
      → IsValid t
      → Ends (λ u t'. Wrote t mid x t') (table_write_entry env mid x t)
  unfolding table_write_entry store_entry
  write-Wrote mid x t v = elim (Bool-cases (ltb max_size mid)) [
    | inl large ↦ rw large tt
    | inr small ↦ rw small (
        Ends-and_then _ _ (grow_until (mid + 1) env mid t) _
          (grow_until-Grew (mid + 1) mid t v (ground arith))
          (λ u g grew.
            let inside : ltb mid (length g.entries) ≡ true =
              ground (arith, grew.valid, grew.room) in
            rw inside (stored-Wrote mid x grew)))
  ]

-- A 1 that is written keeps the entries that are not 0, and is one.
pub Wrote-Holds : {t t' : UidTable} (i mid : ℕ) → Wrote t mid 1 t' → Holds i t → Holds i t'
Wrote-Holds {t} {t'} i mid w (v, some') = (
  w.valid,
  elim (Bool-cases (i == mid)) [
    | inl e ↦
        let same : i ≡ mid = ground arith in
        subst (λ k. value t' k ≢ 0) (sym same) (λ z. absurd (omega (arith, w.written, z)))
    | inr e ↦
        let inside : i < t.total_entries = ground arith in ground (arith, w.kept i inside, some')
  ],
)

pub Wrote-new : {t t' : UidTable} (mid : ℕ) → Wrote t mid 1 t' → Holds mid t'
Wrote-new mid w = (w.valid, λ z. absurd (omega (arith, w.written, z)))
