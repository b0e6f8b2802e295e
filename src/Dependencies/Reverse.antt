-- ===== src/Dependencies/Reverse.antt =====
-- `alloc_reverse_dependencies` of src/dependencies.c, and the process with id 0.
use distributed_process.Base.{
  ℕ, zero, suc, ◌*◌, ◌<◌, ◌≡◌, true, false, some, List, [], length, get_elem?-past, ltb, leb, ◌==◌,
  pred64, arith, fault, Env, replicate,
}
use distributed_process.Dependencies.{
  Dependencies, struct_bytes, get_dependencies, list_has, depends_on, alloc_dependencies,
  dependents, reverse_lists, alloc_reverse_dependencies, no_list,
}
use distributed_process.Dependencies.Access.{IsValid}

-- Asked about process 0, `depends_on` reads in front of the array of lists.
pub depends_on-zero : (d : Dependencies) (to : ℕ) → IsValid d → depends_on 0 to (some d) ≡ fault
unfolding depends_on get_dependencies list_has
depends_on-zero d to v =
    let there : (length d.dep_lists == 0) ≡ false = ground (arith, v) in
    let accepted : leb d.num_proc 0 ≡ false = ground (arith, v) in
    let pass : ltb d.num_proc 0 ≡ false = ground (arith, v) in
    rw (there, accepted, pass, get_elem?-past d.dep_lists (pred64 0) (omega (arith, v)))

dependents-fault :
    (n from : ℕ) (tmp : List ℕ) (d : Dependencies)
    → IsValid d
    → dependents (suc n) 0 from tmp (some d) ≡ fault
unfolding dependents
dependents-fault n from tmp d v = rw (depends_on-zero d from v, dependents)

reverse_lists-fault :
    (env : Env) (n m : ℕ) (new d : Dependencies)
    → IsValid d
    → 0 < n
    → 0 < m
    → reverse_lists env n m 0 new (some d) ≡ fault
unfolding reverse_lists
reverse_lists-fault env zero m new d v a b = absurd (omega arith)
reverse_lists-fault env (suc n) zero new d v a b = absurd (omega arith)
reverse_lists-fault env (suc n) (suc m) new d v a b =
    rw (dependents-fault n 0 [] d v, reverse_lists)

alloc_dependencies-granted :
    (env : Env) (n : ℕ)
    → 0 < n
    → env.grants struct_bytes ≡ true
    → env.grants (struct_bytes * n) ≡ true
    → alloc_dependencies env n ≡ some (record { dep_lists = replicate n no_list; num_proc = n })
unfolding alloc_dependencies
alloc_dependencies-granted env n h a b =
    let more : (n == 0) ≡ false = ground arith in rw (a, b, more)

-- For no valid matrix does `alloc_reverse_dependencies` give the reverse: once its allocations are
-- granted it reads in front of the array of lists, in the first round of its first loop.
pub alloc_reverse-fault :
    (env : Env) (d : Dependencies)
    → IsValid d
    → env.grants struct_bytes ≡ true
    → env.grants (struct_bytes * d.num_proc) ≡ true
    → alloc_reverse_dependencies env (some d) ≡ fault
unfolding alloc_reverse_dependencies
alloc_reverse-fault env d v g h = rw (
  alloc_dependencies-granted env d.num_proc v.positive g h,
  alloc_reverse_dependencies,
  reverse_lists-fault env d.num_proc d.num_proc
      (record { dep_lists = replicate d.num_proc no_list; num_proc = d.num_proc }) d v v.positive
      v.positive,
)
