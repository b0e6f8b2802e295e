-- ===== src/Queue/Ring.antt =====
-- The ring of src/mqueue.c as the list of the tasks that wait, oldest first, and its invariant.
use native.Mathlib.Nat.{mod-eq_of_lt, mod-eq-sub-mod, mod-add-mod, mod-lt, add-zero}
use native.Mathlib.Decide.{dec_lt}
use distributed_process.Base.{
  ℕ, suc, ◌+◌, ◌-◌, ◌%◌, ◌^◌, ◌≤◌, ◌<◌, ◌≡◌, ◌≢◌, ◌∙◌, sym, ap, ap₂, false, List, [], ◌∷◌, ◌++◌,
  length, get_or, set, tabulate, tabulate_congr, tabulate-snoc, tabulate-shift, get_or-set_self,
  get_or-set_ne, arith,
}
use distributed_process.Queue.{Queue}

-- The slot `k` behind `h`, going round at `size`.
abbrev pub slot : ℕ → ℕ → ℕ → ℕ
slot size h k = (h + k) % size

-- The two forms of a slot less than one round away.
slot-low : (size h k : ℕ) → h + k < size → slot size h k ≡ h + k
slot-low size h k b = mod-eq_of_lt b

pub slot-zero : (size h : ℕ) → h < size → slot size h 0 ≡ h
slot-zero size h b = slot-low size h 0 (omega arith) ∙ add-zero h

slot-high : (size h k : ℕ) → h < size → k ≤ size → size ≤ h + k → slot size h k ≡ h + k - size
slot-high size h k b c d = omega (
  arith,
  mod-eq-sub-mod {n = h + k} {m = size} d,
  mod-eq_of_lt {n = h + k - size} {m = size} (omega arith),
)

pub slot-suc : (size h k : ℕ) → slot size h (suc k) ≡ slot size (slot size h k) 1
slot-suc size h k = ap (λ n. n % size) (omega arith) ∙ sym (mod-add-mod (h + k) size 1)

pub slot-next : (size h k : ℕ) → slot size h (suc k) ≡ slot size (slot size h 1) k
slot-next size h k = ap (λ n. n % size) (omega arith) ∙ sym (mod-add-mod (h + 1) size k)

pub slot-start : (size k : ℕ) → k < size → slot size 0 k ≡ k
slot-start size k b = slot-low size 0 k (omega arith) ∙ omega arith

-- Different slots less than one round apart.
pub slot-ne : (size h k n : ℕ) → h < size → k < n → n < size → slot size h n ≢ slot size h k
slot-ne size h k n b c d = elim (dec_lt (h + n) size) [
  | yes low ↦ omega (arith, slot-low size h n low, slot-low size h k (omega arith))
  | no high ↦ elim (dec_lt (h + k) size) [
    | yes low ↦
        omega (arith, slot-high size h n b (omega arith) (omega arith), slot-low size h k low)
    | no high' ↦ omega (
      arith,
      slot-high size h n b (omega arith) (omega arith),
      slot-high size h k b (omega arith) (omega arith),
    )
  ]
]

module _ {A : Type 0} (blank : A) where
  -- The `n` tasks from `front` on, in a ring of `size` slots.
  abbrev pub window : List A → ℕ → ℕ → ℕ → List A
  window xs size front n = tabulate (λ k. get_or xs (slot size front k) blank) 0 n

  -- The tasks that wait, oldest first.
  abbrev pub contents : Queue A → List A
  contents q = window q.elems q.qsize q.front q.no_elem

  -- A write just past a window adds its task at the end.
  pub window-set :
      (xs : List A) (size front n : ℕ) (x : A)
      → length xs ≡ size
      → front < size
      → n < size
      → window (set xs (slot size front n) x) size front (suc n)
        ≡ window xs size front n ++ (x ∷ [])
  window-set xs size front n x sized b c =
      let at = slot size front n in
      tabulate-snoc (λ k. get_or (set xs at x) (slot size front k) blank) 0 n
      ∙ ap₂ (λ s (t : A). s ++ (t ∷ []))
          (tabulate_congr (λ k. get_or (set xs at x) (slot size front k) blank)
            (λ k. get_or xs (slot size front k) blank) 0 n
            (λ k _ below.
              get_or-set_ne xs at (slot size front k) x blank
                (slot-ne size front k n b (omega arith) c)))
          (ap (λ k. get_or (set xs at x) (slot size front k) blank) (omega arith)
            ∙ get_or-set_self xs at x blank
                (omega (arith, mod-lt (front + n) {m = size} (omega arith))))

  -- Without its first task a window starts one slot further.
  pub window-suc :
      (xs : List A) (size front n : ℕ)
      → front < size
      → window xs size front (suc n) ≡ get_or xs front blank ∷ window xs size (slot size front 1) n
  window-suc xs size front n b = ap₂ ◌∷◌ (ap (λ k. get_or xs k blank) (slot-zero size front b)) (
      tabulate-shift (λ k. get_or xs (slot size front k) blank) 0 n
      ∙ tabulate_congr (λ k. get_or xs (slot size front (suc k)) blank)
          (λ k. get_or xs (slot size (slot size front 1) k) blank) 0 n
          (λ k _ _. ap (λ m. get_or xs m blank) (slot-next size front k)))

-- What every call finds and leaves: the indices lie in the ring, `back` stands behind the last
-- task, no `unsigned int` wraps, and the mutex is free.
pub record IsValid {A : Type 0} (q : Queue A) : Type 0 where
  pub sized : length q.elems ≡ q.qsize
  pub front_in : q.front < q.qsize
  pub bounded : q.no_elem ≤ q.qsize
  pub narrow : q.qsize < 2 ^ 31
  pub behind : q.back ≡ slot q.qsize q.front q.no_elem
  pub free : q.locked ≡ false
