-- ===== src/Dependencies/Query.antt =====
-- `depends_on` of src/dependencies.c, against the lists of a matrix.
use distributed_process.Base.{
  ℕ, zero, suc, ◌≤◌, ◌<◌, ◌≡◌, ◌↔◌, refl, inl, inr, Bool, true, false, some, List, [], ◌∷◌, length,
  get_or, leb, ◌==◌, if◌then◌else◌, Bool-cases, arith, error_args, done, err,
}
use distributed_process.Dependencies.{Dependencies, has_pid, list_has, depends_on}
use distributed_process.Dependencies.Access.{IsValid, list_of, get_dependencies_lem, list_of-found}

-- `pid` stands at some place of the list.
abbrev pub IsListed : List ℕ → ℕ → Type 0
IsListed pids pid = (k : ℕ) × (k < length pids) × (get_or pids k 0 ≡ pid)

IsListed-behind :
    (p to : ℕ) (pids : List ℕ) → (p == to) ≡ false → IsListed (p ∷ pids) to → IsListed pids to
IsListed-behind p to pids other (zero, low, at) = absurd (ground (arith, other, at))
IsListed-behind p to pids other (suc k, low, at) = (k, omega (arith, low), at)

has_pid_lem :
    (pids : List ℕ) (to : ℕ)
    → (b : Bool) × (has_pid pids to (length pids) ≡ some b) × ((b ≡ true) ↔ IsListed pids to)
unfolding has_pid
has_pid_lem [] to = (false, refl, ((λ e. absurd cc), (λ (k, low, e). absurd (omega (arith, low)))))
has_pid_lem (p ∷ pids) to = elim (Bool-cases (p == to)) [
  | inl here ↦ (true, rw here, ((λ e. (0, omega arith, ground (arith, here))), (λ h. refl)))
  | inr other ↦
      let (b, e, iff) = has_pid_lem pids to in
      (
        b,
        rw other e,
        (
          λ h. let (k, low, at) = iff.0 h in (suc k, omega (arith, low), at),
          λ h. iff.1 (IsListed-behind p to pids other h),
        ),
      )
]

-- For a process below the last of a valid matrix, with a whole list, `depends_on` changes nothing
-- and answers 1 exactly if the other process stands in that list. Asked about the last process it
-- returns ERROR_ARGS, whatever its list holds.
pub depends_on_lem :
    (d : Dependencies) (from to : ℕ) (pids : List ℕ)
    → IsValid d
    → 0 < from
    → from ≤ d.num_proc
    → (list_of d from).pid_list ≡ some pids
    → (list_of d from).list_len ≡ length pids
    → (b : Bool) × (depends_on from to (some d)
        ≡ (if from == d.num_proc then err error_args (some d) else done b (some d)))
      × ((b ≡ true) ↔ IsListed pids to)
unfolding depends_on list_has
depends_on_lem d from to pids v low high list whole =
    let (b, e, iff) = has_pid_lem pids to in
    let there : (length d.dep_lists == 0) ≡ false = ground (arith, v) in
    (
      b,
      elim (Bool-cases (from == d.num_proc)) [
        | inl last ↦ let past : leb d.num_proc from ≡ true = ground arith in rw (there, past, last)
        | inr inner ↦
            let below : leb d.num_proc from ≡ false = ground arith in
            rw (
              there,
              below,
              inner,
              get_dependencies_lem v from low high,
              list_of-found v from low high,
              list,
              list_has,
              whole,
              e,
            )
      ],
      iff,
    )
