-- ===== src/Dependencies.antt =====
-- src/dependencies.c: for each process the list of the processes that it depends on, and the
-- reverse of such a matrix.
pub mod Access
pub mod Keep
pub mod Reverse
pub mod Query
use distributed_process.Base.{
  ℕ, zero, suc, ◌+◌, ◌*◌, ◌^◌, ◌%◌, Bool, true, false, Option, none, some, List, [], ◌∷◌, ◌++◌,
  length, get_elem?, set, take, replicate, ltb, leb, ◌==◌, if◌then◌else◌, pred64, error_memory,
  error_args, done, err, fault, hang, Prog, Ok, and_then, Env,
}

-- `dependency_list_t`; `none` is a null `pid_list`.
pub record DependencyList : Type 0 where
  pub pid_list : Option (List ℕ)
  pub list_len : ℕ

abbrev pub no_list : DependencyList
no_list = record { pid_list = none; list_len = 0 }

-- `dependencies_t`; a null `dep_lists` is the empty list.
pub record Dependencies : Type 0 where
  pub dep_lists : List DependencyList
  pub num_proc : ℕ

abbrev pub Pointer : Type 0
Pointer = Option Dependencies

-- `sizeof` of the two structures and of `size_t`.
abbrev pub struct_bytes : ℕ
struct_bytes = 16

abbrev pub word_bytes : ℕ
word_bytes = 8

-- `&(dependencies->dep_lists[from-1])` is given by its index, `none` is NULL. Nothing is read yet,
-- so for `from` 0 the index is the last of `size_t`, in front of the array.
unfoldable pub get_dependencies : Pointer → ℕ → Option ℕ
get_dependencies none from = none
get_dependencies (some d) from =
    if length d.dep_lists == 0
    then none
    else if ltb d.num_proc from
    then none
    else some (pred64 from)

-- The loop over `pid_list[i]`, `n` rounds; `none` is a read outside the list.
pub has_pid : List ℕ → ℕ → ℕ → Option Bool
has_pid pids to zero = some false
has_pid [] to (suc n) = none
has_pid (p ∷ pids) to (suc n) = let more = has_pid pids to n in if p == to then some true else more

-- What `depends_on` reads behind the pointer that it is given.
pub list_has : Option DependencyList → ℕ → Prog Pointer Bool
list_has none to p = fault
list_has (some l) to p = elim l.pid_list [
  | none ↦ done false p
  | some pids ↦ elim (has_pid pids to l.list_len) [ none ↦ fault | some b ↦ done b p ]
]

-- The state is the pointer that the caller passes; `true` is 1.
pub depends_on : ℕ → ℕ → Prog Pointer Bool
depends_on from to none = err error_args none
depends_on from to (some d) =
    if length d.dep_lists == 0
    then err error_args (some d)
    else if leb d.num_proc from
    then err error_args (some d)
    else elim (get_dependencies (some d) from) [
      | none ↦ err error_memory (some d)
      | some i ↦ list_has (get_elem? d.dep_lists i) to (some d)
    ]

pub alloc_dependencies : Env → ℕ → Pointer
alloc_dependencies env num_proc =
    if env.grants struct_bytes
    then (if env.grants (struct_bytes * num_proc)
        then (if num_proc == 0
            then none
            else some (record { dep_lists = replicate num_proc no_list; num_proc = num_proc }))
        else none)
    else none

-- The loop over `to`, `n` rounds; the result is `tmp_pids`, or `none` where an error makes the
-- function return NULL.
pub dependents : ℕ → ℕ → ℕ → List ℕ → Prog Pointer (Option (List ℕ))
dependents zero to from tmp p = done (some tmp) p
dependents (suc n) to from tmp p = elim (depends_on to from p) [
  | done true p' ↦ dependents n (to + 1) from (tmp ++ (to ∷ [])) p'
  | done false p' ↦ dependents n (to + 1) from tmp p'
  | err e p' ↦ done none p'
  | fault ↦ fault
  | hang ↦ hang
]

-- The copy of `tmp_pids` to the list of `from`; `some none` is NULL.
pub store_dependents : Env → Dependencies → ℕ → List ℕ → Option Pointer
store_dependents env new from tmp = elim (get_dependencies (some new) from) [
  | none ↦ some none
  | some i ↦
      if ltb i (length new.dep_lists)
      then some (
          if env.grants (word_bytes * length tmp)
          then some (record new {
            dep_lists = set new.dep_lists i (record { pid_list = some tmp; list_len = length tmp });
          })
          else none)
      else none
]

-- The loop over `from`, `n` rounds; the result is the new matrix, `none` for NULL.
pub reverse_lists : Env → ℕ → ℕ → ℕ → Dependencies → Prog Pointer Pointer
reverse_lists env num_proc zero from new p = done (some new) p
reverse_lists env num_proc (suc n) from new p = elim (dependents num_proc 0 from [] p) [
  | done (some tmp) p' ↦ elim (store_dependents env new from tmp) [
    | none ↦ fault
    | some none ↦ done none p'
    | some (some new') ↦ reverse_lists env num_proc n (from + 1) new' p'
  ]
  | done none p' ↦ done none p'
  | err e p' ↦ err e p'
  | fault ↦ fault
  | hang ↦ hang
]

pub alloc_reverse_dependencies : Env → Prog Pointer Pointer
alloc_reverse_dependencies env none = done none none
alloc_reverse_dependencies env (some d) = elim (alloc_dependencies env d.num_proc) [
  | none ↦ done none (some d)
  | some new ↦ reverse_lists env d.num_proc d.num_proc 0 new (some d)
]

-- `pids` is what `pid_list` points to, `none` for NULL, and `len` is `pid_list_len`.
pub set_dependencies : Env → ℕ → Option (List ℕ) → ℕ → Prog Pointer Ok
set_dependencies env from pids len none = err error_memory none
set_dependencies env from none len (some d) = err error_memory (some d)
set_dependencies env from (some pids) len (some d) = elim (get_dependencies (some d) from) [
  | none ↦ err error_memory (some d)
  | some i ↦ elim (get_elem? d.dep_lists i) [
    | none ↦ fault
    | some old ↦
        if len == 0
        then done tt
            (some (record d { dep_lists = set d.dep_lists i (record old { list_len = 0 }) }))
        else if env.grants (word_bytes * len)
        then (if ltb (length pids) len
            then fault
            else done tt (
                some (record d {
                  dep_lists =
                      set d.dep_lists i
                        (record { pid_list = some (take len pids); list_len = len });
                })))
        else err error_memory
            (some (record d { dep_lists = set d.dep_lists i (record old { pid_list = none }) }))
  ]
]
