-- ===== src/Node/Broadcast/Quorum.antt =====
-- `can_deliver` of src/urb.c, and majorities.
use distributed_process.Base.{
  ℕ, zero, suc, ◌+◌, ◌-◌, ◌*◌, ◌/◌, ◌^◌, ◌≤◌, ◌<◌, ◌≡◌, ◌↔◌, ◌∙◌, ap, subst, inl, inr, Bool, true,
  false, some, List, length, get_or, get_elem?-eq-get_or, if◌then◌else◌, ◌==◌, ◌&&◌, ltb, leb,
  Bool-cases, arith, u32, done,
}
use native.Mathlib.Nat.{mul_comm, zero-add}
use distributed_process.Table.{UidTable}
use distributed_process.Table.Growth.{IsValid}
use distributed_process.Node.Broadcast.{count_acks, can_deliver}

-- How many of the `n` entries from `i` on are 1.
unfoldable pub ones : List ℕ → ℕ → ℕ → ℕ
ones entries zero i = 0
ones entries (suc n) i = (if get_or entries i 0 == 1 then 1 else 0) + ones entries n (i + 1)

-- How many processes have acknowledged the message.
unfoldable pub acks : UidTable → ℕ → ℕ
unfolding ones
acks t seen_id = ones t.entries t.no_process (t.no_process * seen_id)

count_acks-ones :
    (entries : List ℕ) (n i counter : ℕ)
    → i + n ≤ length entries
    → i + n < 2 ^ 31
    → count_acks entries n i counter ≡ some (counter + ones entries n i)
unfolding count_acks ones
count_acks-ones entries zero i counter h k = ap some (omega arith)
count_acks-ones entries (suc n) i counter h k =
    let below : ltb i (2 ^ 31) ≡ true = ground arith in
    elim (Bool-cases (get_or entries i 0 == 1)) [
      | inl one ↦
          rw (get_elem?-eq-get_or entries i 0 (omega arith), count_acks, one, below)
            (count_acks-ones entries n (i + 1) (counter + 1) (omega arith) (omega arith)
              ∙ ap some (omega arith))
      | inr other ↦
          rw (get_elem?-eq-get_or entries i 0 (omega arith), count_acks, other, below)
            (count_acks-ones entries n (i + 1) counter (omega arith) (omega arith)
              ∙ ap some (omega arith))
    ]

-- On a valid table, for a message whose row ends below 2 ^ 31, `can_deliver` reads inside the table
-- and changes nothing. It answers 1 exactly if more than half of the processes have acknowledged
-- the message and the row of the message ends before the end of the table: the message whose row is
-- the last of the table is never delivered.
pub can_deliver_lem :
    (t : UidTable) (seen_id : ℕ)
    → IsValid t
    → t.no_process * seen_id + t.no_process < 2 ^ 31
    → (b : Bool) × (can_deliver seen_id t ≡ done b t)
      × ((b ≡ true) ↔ (
          (t.no_process * seen_id + t.no_process < t.total_entries)
          × (t.no_process < 2 * acks t seen_id)))
unfolding can_deliver acks
can_deliver_lem t seen_id v narrow =
    let n = t.no_process in
    let last : u32 (n * seen_id + n) ≡ n * seen_id + n = omega arith in
    let first : u32 (seen_id * n) ≡ n * seen_id = omega (arith, mul_comm seen_id n) in
    let same : u32 (seen_id * n + n) - n * seen_id ≡ n = omega (arith, mul_comm seen_id n) in
    let c = ones t.entries n (n * seen_id) in
    elim (Bool-cases (leb t.total_entries (n * seen_id + n))) [
      | inl past ↦ (false, rw (last, past), ground arith)
      | inr inside ↦ (
        ltb (n / 2) c,
        rw (last, inside, first, same)
            (rw (count_acks-ones t.entries n (n * seen_id) 0 (ground (arith, v)) narrow, zero-add)),
        ground arith,
      )
    ]

both_left :
    (xs ys : List ℕ) (i j : ℕ)
    → ((get_or xs i 0 == 1) && (get_or ys j 0 == 1)) ≡ true
    → get_or xs (i + 0) 0 ≡ 1
both_left xs ys i j h = ap (λ k. get_or xs k 0) {y = i} (omega arith) ∙ ground (arith, h)

both_right :
    (xs ys : List ℕ) (i j : ℕ)
    → ((get_or xs i 0 == 1) && (get_or ys j 0 == 1)) ≡ true
    → get_or ys (j + 0) 0 ≡ 1
both_right xs ys i j h = ap (λ k. get_or ys k 0) {y = j} (omega arith) ∙ ground (arith, h)

shift : (xs : List ℕ) (i k : ℕ) → get_or xs (i + 1 + k) 0 ≡ 1 → get_or xs (i + suc k) 0 ≡ 1
shift xs i k h = ap (λ j. get_or xs j 0) (omega arith) ∙ h

less :
    (xs ys : List ℕ) (n i j : ℕ)
    → ((get_or xs i 0 == 1) && (get_or ys j 0 == 1)) ≡ false
    → suc n < ones xs (suc n) i + ones ys (suc n) j
    → n < ones xs n (i + 1) + ones ys n (j + 1)
unfolding ones
less xs ys n i j h k = ground arith

-- Among `n` places of which more than half are 1 in each of two tables one place is 1 in both.
meet :
    (xs ys : List ℕ) (n i j : ℕ)
    → n < ones xs n i + ones ys n j
    → (k : ℕ) × (k < n) × (get_or xs (i + k) 0 ≡ 1) × (get_or ys (j + k) 0 ≡ 1)
unfolding ones
meet xs ys zero i j h = absurd (omega arith)
meet xs ys (suc n) i j h = elim (Bool-cases ((get_or xs i 0 == 1) && (get_or ys j 0 == 1))) [
  | inl both ↦ (0, omega arith, both_left xs ys i j both, both_right xs ys i j both)
  | inr other ↦
      let (k, below, x, y) = meet xs ys n (i + 1) (j + 1) (less xs ys n i j other h) in
      (suc k, omega arith, shift xs i k x, shift ys j k y)
]

majority :
    (t : UidTable) (a : ℕ)
    → IsValid t
    → t.no_process * a + t.no_process < 2 ^ 31
    → can_deliver a t ≡ done true t
    → t.no_process < 2 * acks t a
majority t a v narrow e =
    let (b, result, iff) = can_deliver_lem t a v narrow in let yes : b ≡ true = cc in (iff.0 yes).1

-- Where `can_deliver` accepts a message on one valid table and a message on another, for the same
-- number of processes and with rows that end below 2 ^ 31, some process has acknowledged both: two
-- processes that deliver have a process in common that has seen what they deliver.
pub quorum_intersection :
    (t u : UidTable) (a b : ℕ)
    → IsValid t
    → IsValid u
    → u.no_process ≡ t.no_process
    → t.no_process * a + t.no_process < 2 ^ 31
    → t.no_process * b + t.no_process < 2 ^ 31
    → can_deliver a t ≡ done true t
    → can_deliver b u ≡ done true u
    → (p : ℕ) × (p < t.no_process)
      × (get_or t.entries (t.no_process * a + p) 0 ≡ 1)
      × (get_or u.entries (t.no_process * b + p) 0 ≡ 1)
unfolding acks
quorum_intersection t u a b v w same narrow narrow' x y =
    let left = majority t a v narrow x in
    let right = majority u b w (ground (arith, same)) y in
    let moved = subst (λ k. k < 2 * ones u.entries k (k * b)) same right in
    meet t.entries u.entries t.no_process (t.no_process * a) (t.no_process * b)
      (omega (arith, left, moved))
