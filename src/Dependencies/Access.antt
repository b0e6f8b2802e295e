-- ===== src/Dependencies/Access.antt =====
-- The lists of a matrix of src/dependencies.c, by the process ids from 1 on.
use distributed_process.Base.{
  ℕ, ◌-◌, ◌*◌, ◌^◌, ◌≤◌, ◌<◌, ◌≡◌, ◌≢◌, ◌∙◌, true, false, some, List, [], ◌∷◌, length, get_elem?,
  get_or, set, length-set, take-length, get_or-set_self, get_or-set_ne, get_elem?-eq-get_or, ltb,
  ◌==◌, pred64, arith, done, replicate, Env,
}
use distributed_process.Dependencies.{
  DependencyList, no_list, Dependencies, struct_bytes, word_bytes, alloc_dependencies,
  get_dependencies, set_dependencies,
}

-- A list is as long as it says.
abbrev pub IsList : DependencyList → Type 0
IsList l = (pids : List ℕ) → l.pid_list ≡ some pids → length pids ≡ l.list_len

pub record IsValid (d : Dependencies) : Type 0 where
  pub sized : length d.dep_lists ≡ d.num_proc
  pub positive : 0 < d.num_proc
  pub narrow : d.num_proc < 2 ^ 63

-- The list of process `pid`.
abbrev pub list_of : Dependencies → ℕ → DependencyList
list_of d pid = get_or d.dep_lists (pid - 1) no_list

pub alloc_dependencies-granted :
    (env : Env) (n : ℕ)
    → ((k : ℕ) → env.grants k ≡ true)
    → 0 < n
    → alloc_dependencies env n ≡ some (record { dep_lists = replicate n no_list; num_proc = n })
unfolding alloc_dependencies
alloc_dependencies-granted env n grants pos =
    let some_proc : (n == 0) ≡ false = ground arith in
    rw (grants struct_bytes, grants (struct_bytes * n), some_proc)

-- What an assignment makes of a list: of an empty one only the length changes.
abbrev pub assigned_list : List ℕ → DependencyList → DependencyList
assigned_list [] old = record old { list_len = 0 }
assigned_list (p ∷ ps) old = record { pid_list = some (p ∷ ps); list_len = length (p ∷ ps) }

abbrev pub assigned : Dependencies → ℕ → List ℕ → Dependencies
assigned d pid pids = record d {
  dep_lists = set d.dep_lists (pid - 1) (assigned_list pids (list_of d pid));
}

pub assigned-IsValid :
    (d : Dependencies) (pid : ℕ) (pids : List ℕ) → IsValid d → IsValid (assigned d pid pids)
assigned-IsValid d pid pids v = record {
  sized = length-set d.dep_lists (pid - 1) (assigned_list pids (list_of d pid)) ∙ v.sized;
  positive = v.positive;
  narrow = v.narrow;
}

module _ {d : Dependencies} (v : IsValid d) (pid : ℕ) (low : 0 < pid)
    (high : pid ≤ d.num_proc) where
  pub get_dependencies_lem : get_dependencies (some d) pid ≡ some (pid - 1)
  unfolding get_dependencies
  get_dependencies_lem =
      let at : pred64 pid ≡ pid - 1 = omega (arith, v.narrow) in
      let there : (length d.dep_lists == 0) ≡ false = ground (arith, v) in
      let accepted : ltb d.num_proc pid ≡ false = ground arith in rw (there, accepted, at)

  pub list_of-found : get_elem? d.dep_lists (pid - 1) ≡ some (list_of d pid)
  list_of-found = get_elem?-eq-get_or d.dep_lists (pid - 1) no_list (omega (arith, v.sized))

  pub set_dependencies-assigned :
      (env : Env) (pids : List ℕ)
      → env.grants (word_bytes * length pids) ≡ true
      → set_dependencies env pid (some pids) (length pids) (some d)
        ≡ done tt (some (assigned d pid pids))
  unfolding set_dependencies
  set_dependencies-assigned env [] granted =
      rw (get_dependencies_lem, list_of-found, set_dependencies)
  set_dependencies-assigned env (p ∷ ps) granted =
      let more : (length (p ∷ ps) == 0) ≡ false = ground arith in
      let whole : ltb (length (p ∷ ps)) (length (p ∷ ps)) ≡ false = ground arith in
      rw (
        get_dependencies_lem,
        list_of-found,
        set_dependencies,
        more,
        granted,
        whole,
        take-length (p ∷ ps),
      )

  -- What `set_dependencies` leaves.
  pub record Assigned (pids : List ℕ) (d' : Dependencies) : Type 0 where
    pub valid : IsValid d'
    pub here : list_of d' pid ≡ record { pid_list = some pids; list_len = length pids }
    pub elsewhere : (i : ℕ) → 0 < i → i ≢ pid → list_of d' i ≡ list_of d i

  -- For a process of a valid matrix and a list that is not empty, `set_dependencies` returns 0 and
  -- makes a copy of that list the list of the process, if memory is granted; no other list changes.
  pub set_dependencies_lem :
      (env : Env) (pids : List ℕ)
      → 0 < length pids
      → env.grants (word_bytes * length pids) ≡ true
      → (d' : Dependencies) × (set_dependencies env pid (some pids) (length pids) (some d)
          ≡ done tt (some d'))
        × Assigned pids d'
  set_dependencies_lem env [] some_pids granted = absurd (omega arith)
  set_dependencies_lem env (p ∷ ps) some_pids granted =
      let l : DependencyList = assigned_list (p ∷ ps) (list_of d pid) in
      (
        assigned d pid (p ∷ ps),
        set_dependencies-assigned env (p ∷ ps) granted,
        record {
          valid = assigned-IsValid d pid (p ∷ ps) v;
          here = get_or-set_self d.dep_lists (pid - 1) l no_list (omega (arith, v.sized));
          elsewhere = λ i pos ne.
              get_or-set_ne d.dep_lists (pid - 1) (i - 1) l no_list (λ e. ne (omega (arith, e)));
        },
      )
