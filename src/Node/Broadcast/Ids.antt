-- ===== src/Node/Broadcast/Ids.antt =====
-- The ids of src/urb.c and src/beb.c: of messages, and of a message and a process.
use distributed_process.Base.{
  ℕ, ◌+◌, ◌-◌, ◌*◌, ◌^◌, ◌≤◌, ◌<◌, ◌≡◌, ◌∙◌, sym, ap, arith, u32, pred32,
}
use native.Mathlib.Decide.{dec_lt}
use distributed_process.Node.Broadcast.{seen_id_of, row_id}

less_row : (n a b a' b' : ℕ) → a < a' → b < n → n * a + b < n * a' + b'
less_row n a b a' b' h k = grind arith

-- A quotient and a remainder are unique.
row_injective : (n a b a' b' : ℕ) → b < n → b' < n → n * a + b ≡ n * a' + b' → (a ≡ a') × (b ≡ b')
row_injective n a b a' b' h h' e = elim (dec_lt a a') [
  | yes less ↦ absurd (omega (arith, less_row n a b a' b' less h, e))
  | no ge ↦ elim (dec_lt a' a) [
    | yes less ↦ absurd (omega (arith, less_row n a' b' a b less h', e))
    | no le ↦ let same : a ≡ a' = omega arith in (same, omega (arith, e, ap (λ k. n * k) same))
  ]
]

times_pred : (n k : ℕ) → 0 < k → n * (k - 1) + n ≡ n * k
times_pred n k h =
    let step : n * ((k - 1) + 1) ≡ n * (k - 1) + n = grind arith in
    sym step ∙ ap (λ j. n * j) (omega arith)

-- Without overflow an id is what the arithmetic says.
pub seen_id_lem :
    (n seq p : ℕ)
    → 0 < seq
    → 0 < p
    → p ≤ n
    → n * seq < 2 ^ 32
    → seq < 2 ^ 32
    → seen_id_of n seq p ≡ n * (seq - 1) + (p - 1)
seen_id_lem n seq p s low high narrow small =
    let at : pred32 seq ≡ seq - 1 = omega arith in
    let less = times_pred n seq s in
    ap (λ k. u32 (n * k + p + (2 ^ 32 - 1))) at ∙ omega (arith, less)

pub row_id_lem :
    (n id p : ℕ) → 0 < p → p ≤ n → n * id + n < 2 ^ 32 → row_id n id p ≡ n * id + (p - 1)
row_id_lem n id p low high narrow = omega arith

-- For sequence numbers from 1 and senders from 1 to the number of processes, and as long as the ids
-- do not exceed an `unsigned int`, two messages with the same URB id have the same sequence number
-- and the same original sender.
pub seen_id_injective :
    (n seq p seq' p' : ℕ)
    → 0 < seq
    → 0 < seq'
    → 0 < p
    → 0 < p'
    → p ≤ n
    → p' ≤ n
    → n * seq < 2 ^ 32
    → n * seq' < 2 ^ 32
    → seq < 2 ^ 32
    → seq' < 2 ^ 32
    → seen_id_of n seq p ≡ seen_id_of n seq' p'
    → (seq ≡ seq') × (p ≡ p')
seen_id_injective n seq p seq' p' s s' low low' high high' a b c d e =
    let same =
      sym (seen_id_lem n seq p s low high a c) ∙ e ∙ seen_id_lem n seq' p' s' low' high' b d in
    let (q, r) =
      row_injective n (seq - 1) (p - 1) (seq' - 1) (p' - 1) (omega arith) (omega arith) same in
    (omega (arith, q), omega (arith, r))

-- For processes from 1 to the number of processes, and as long as the ids do not exceed an
-- `unsigned int`, two equal ids of a message and a process, as the `mid` that names a message and
-- its relay or the `ackid` that names a message and its receiver, are of the same message and
-- process.
pub row_id_injective :
    (n id p id' p' : ℕ)
    → 0 < p
    → 0 < p'
    → p ≤ n
    → p' ≤ n
    → n * id + n < 2 ^ 32
    → n * id' + n < 2 ^ 32
    → row_id n id p ≡ row_id n id' p'
    → (id ≡ id') × (p ≡ p')
row_id_injective n id p id' p' low low' high high' a b e =
    let same = sym (row_id_lem n id p low high a) ∙ e ∙ row_id_lem n id' p' low' high' b in
    let (q, r) = row_injective n id (p - 1) id' (p' - 1) (omega arith) (omega arith) same in
    (q, omega (arith, r))
