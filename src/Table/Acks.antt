-- ===== src/Table/Acks.antt =====
-- The table of acknowledgements of src/plink.c, under its mutex.
use distributed_process.Base.{
  ℕ, ◌≤◌, ◌≡◌, ◌∙◌, refl, sym, subst, true, false, done, lock-free, Ends, Ends-map, Ends-put_back,
  Env, Ok,
}
use distributed_process.Table.{
  UidTable, AckTable, max_size, is_ack, set_ack, is_delivered, set_delivered, table_write_entry,
}
use distributed_process.Table.Growth.{IsValid, value, read_lem}
use distributed_process.Table.Write.{Grants, Wrote, write_lem}
use distributed_process.Table.Keep.{write-Wrote}

-- The table is valid, and its mutex is free.
pub record IsFree (a : AckTable) : Type 0 where
  pub free : a.locked ≡ false
  pub valid : IsValid a.table

pub is_ack_lem : (a : AckTable) (mid : ℕ) → IsFree a → is_ack mid a ≡ done (value a.table mid) a
unfolding is_ack
is_ack_lem a mid v =
    lock-free (λ a. a.locked) (λ a. record a { locked = true }) _ a v.free
    ∙ rw (read_lem mid v.valid) (λ i. done (value a.table mid) (record a { locked = sym v.free i }))

pub set_ack_lem :
    (env : Env) (a : AckTable) (mid : ℕ)
    → Grants env
    → IsFree a
    → mid ≤ max_size
    → (a' : AckTable) × (set_ack env mid a ≡ done tt a') × IsFree a' × Wrote a.table mid 1 a'.table
unfolding set_ack
set_ack_lem env a mid grants v small =
    let (t', e, wrote) = write_lem env a.table mid 1 grants v.valid small in
    (
      record { table = t'; locked = false },
      lock-free (λ a. a.locked) (λ a. record a { locked = true }) _ a v.free ∙ rw e,
      record { free = refl; valid = wrote.valid },
      wrote,
    )

pub is_delivered_lem :
    {t : UidTable} (mid : ℕ) → IsValid t → is_delivered mid t ≡ done (value t mid) t
unfolding is_delivered
is_delivered_lem mid v = read_lem mid v

-- What the calls leave where they return 0, whatever the allocator grants.
pub set_ack-Wrote :
    (env : Env) (mid : ℕ) (a : AckTable)
    → IsFree a
    → Ends (λ u x. (x.locked ≡ false) × Wrote a.table mid 1 x.table) (set_ack env mid a)
unfolding set_ack
set_ack-Wrote env mid a v =
    let R : Ok → AckTable → Type 0 = λ u x. (x.locked ≡ false) × Wrote a.table mid 1 x.table in
    subst (Ends R) (sym (lock-free (λ a. a.locked) (λ a. record a { locked = true }) _ a v.free)) (
      Ends-put_back R (λ a. record a { locked = false }) _
        (Ends-put_back (λ u x. R u (record x { locked = false }))
          (λ t. record { table = t; locked = true }) (table_write_entry env mid 1 a.table)
          (Ends-map _ _ (table_write_entry env mid 1 a.table) (λ u t w. (refl, w))
            (write-Wrote env mid 1 a.table v.valid))))

pub set_delivered-Wrote :
    (env : Env) (mid : ℕ) (t : UidTable)
    → IsValid t
    → Ends (λ u x. Wrote t mid 1 x) (set_delivered env mid t)
unfolding set_delivered
set_delivered-Wrote env mid t v = write-Wrote env mid 1 t v
