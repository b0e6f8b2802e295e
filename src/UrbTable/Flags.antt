-- ===== src/UrbTable/Flags.antt =====
-- The flags of src/urb.c: what the four functions on `urb_table_t` do, inside the table and past
-- it.
use distributed_process.Base.{
  ℕ, suc, ◌+◌, ◌-◌, ◌*◌, ◌^◌, ◌≤◌, ◌<◌, ◌≡◌, ◌∙◌, refl, ◌≢◌, inl, inr, Bool-cases, true, false,
  length, get_or, set, ltb, leb, if◌then◌else◌, u32, arith, length-set, get_or-set_self,
  get_or-set_ne, get_elem?-eq-get_or, error_memory, error_table, done, err, fault, Env, [], Prog,
  Ok, sym, and_then,
}
use native.Mathlib.Numerals.{add-one}
use distributed_process.UrbTable.{
  UrbEntry, entry, UrbTable, max_size_urb, realloc_table, grow_until, update_entry, is_seen_urb,
  is_delivered_urb, add_seen_urb, add_delivered_urb,
}

pub record IsValid (t : UrbTable) : Type 0 where
  pub sized : length t.values ≡ t.total_entries
  pub positive : 0 < t.total_entries
  pub small : t.total_entries < 2 ^ 32

-- The entry of a message: both flags are 0 outside the table.
abbrev pub flags : UrbTable → ℕ → UrbEntry
flags t i = if ltb i t.total_entries then get_or t.values i (entry 0 0) else entry 0 0

module _ {t : UrbTable} (v : IsValid t) (i : ℕ) where
  pub is_seen_lem : is_seen_urb i t ≡ done (flags t i).seen t
  unfolding is_seen_urb
  is_seen_lem = ground (arith, v, get_elem?-eq-get_or t.values i (entry 0 0))

  pub is_delivered_lem : is_delivered_urb i t ≡ done (flags t i).delivered t
  unfolding is_delivered_urb
  is_delivered_lem = ground (arith, v, get_elem?-eq-get_or t.values i (entry 0 0))

-- What a change of the entry `i` by `f` leaves: the entries elsewhere are as before.
pub record Changed (t : UrbTable) (i : ℕ) (f : UrbEntry → UrbEntry) (t' : UrbTable) : Type 0 where
  pub valid : IsValid t'
  pub size : t'.total_entries ≡ t.total_entries
  pub rows : t'.no_process ≡ t.no_process
  pub here : flags t' i ≡ f (flags t i)
  pub elsewhere : (j : ℕ) → j ≢ i → flags t' j ≡ flags t j

updated : UrbTable → ℕ → (UrbEntry → UrbEntry) → UrbTable
updated t i f = record t { values = set t.values i (f (get_or t.values i (entry 0 0))) }

module _ {t : UrbTable} (v : IsValid t) (i : ℕ) (f : UrbEntry → UrbEntry)
    (inside : i < t.total_entries) where
  update_lem : update_entry i f t ≡ done tt (updated t i f)
  unfolding update_entry updated
  update_lem =
      rw (get_elem?-eq-get_or t.values i (entry 0 0) (omega (arith, v.sized)), update_entry)

  updated-Changed : Changed t i f (updated t i f)
  unfolding updated
  updated-Changed =
      let x = f (get_or t.values i (entry 0 0)) in
      let here : ltb i t.total_entries ≡ true = ground arith in
      record {
        valid = record {
          sized = length-set t.values i x ∙ v.sized;
          positive = v.positive;
          small = v.small;
        };
        size = refl;
        rows = refl;
        here = rw here (get_or-set_self t.values i x (entry 0 0) (omega (arith, v.sized)));
        elsewhere = λ j ne. rw (get_or-set_ne t.values i j x (entry 0 0) (λ e. ne (sym e)));
      }

-- Past the end of a table that is not empty the growth writes outside its block.
realloc_table-fault :
    (env : Env) {t : UrbTable}
    → IsValid t
    → env.grants (u32 (t.total_entries * 2)) ≡ true
    → realloc_table env t ≡ fault
unfolding realloc_table
realloc_table-fault env {t} v granted =
    let old = t.total_entries in
    let outside : leb (8 * old + u32 (u32 (old * 2) + 2 ^ 32 - old)) (u32 (old * 2)) ≡ false =
      ground (arith, v) in
    rw (granted, outside)

grow_until-past :
    (n : ℕ) (env : Env) {t : UrbTable} (i : ℕ) (k : Ok → Prog UrbTable Ok)
    → IsValid t
    → t.total_entries ≤ i
    → and_then (grow_until (suc n) env i t) k ≡ (
        if env.grants (u32 (t.total_entries * 2))
        then fault
        else err error_memory (record t { values = [] }))
unfolding grow_until realloc_table
grow_until-past n env {t} i k v past =
    let full : leb t.total_entries i ≡ true = ground arith in
    elim (Bool-cases (env.grants (u32 (t.total_entries * 2)))) [
      | inl granted ↦ rw (full, realloc_table-fault env v granted) (rw granted)
      | inr refused ↦ rw (full, refused)
    ]

-- The flag that the two writers set.
pub data Flag : Type 0 where
  as_seen as_delivered : Flag

abbrev pub raise_flag : Flag → UrbEntry → UrbEntry
raise_flag as_seen e = record e { seen = 1 }
raise_flag as_delivered e = record e { delivered = 1 }

abbrev pub add : Flag → Env → ℕ → Prog UrbTable Ok
add as_seen = add_seen_urb
add as_delivered = add_delivered_urb

-- Inside a valid table, for an id up to `MAX_SIZE_URB`, `add_seen_urb` and `add_delivered_urb` return
-- 0, set their own flag of that one message to 1, and change no other flag.
pub add_inside :
    (flag : Flag) (env : Env) (t : UrbTable) (i : ℕ)
    → IsValid t
    → i < t.total_entries
    → i ≤ max_size_urb
    → (t' : UrbTable) × (add flag env i t ≡ done tt t') × Changed t i (raise_flag flag) t'
unfolding add_seen_urb add_delivered_urb
add_inside as_seen env t i v inside small =
    let accepted : ltb max_size_urb i ≡ false = ground arith in
    let fits : leb t.total_entries i ≡ false = ground arith in
    (
      updated t i (raise_flag as_seen),
      rw (accepted, add-one, grow_until, fits) (update_lem v i (raise_flag as_seen) inside),
      updated-Changed v i (raise_flag as_seen) inside,
    )
add_inside as_delivered env t i v inside small =
    let accepted : ltb max_size_urb i ≡ false = ground arith in
    let fits : leb t.total_entries i ≡ false = ground arith in
    (
      updated t i (raise_flag as_delivered),
      rw (accepted, add-one, grow_until, fits) (update_lem v i (raise_flag as_delivered) inside),
      updated-Changed v i (raise_flag as_delivered) inside,
    )

-- Past the end of a valid table, up to the limit, neither returns 0: the call writes outside its
-- memory if the allocation is granted, and returns ERROR_MEMORY with the table lost if it is not.
-- Past the limit both return ERROR_TABLE and change nothing.
pub add_outside :
    (flag : Flag) (env : Env) (t : UrbTable) (i : ℕ)
    → IsValid t
    → t.total_entries ≤ i
    → add flag env i t ≡ (
        if ltb max_size_urb i
        then err error_table t
        else if env.grants (u32 (t.total_entries * 2))
        then fault
        else err error_memory (record t { values = [] }))
unfolding add_seen_urb add_delivered_urb
add_outside as_seen env t i v past = elim (Bool-cases (ltb max_size_urb i)) [
  | inl large ↦ rw large
  | inr small ↦ rw (small, add-one) (grow_until-past i env i _ v past)
]
add_outside as_delivered env t i v past = elim (Bool-cases (ltb max_size_urb i)) [
  | inl large ↦ rw large
  | inr small ↦ rw (small, add-one) (grow_until-past i env i _ v past)
]
