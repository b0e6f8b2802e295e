-- ===== src/Dependencies/Keep.antt =====
-- What allocations and assignments of src/dependencies.c keep, whatever ids they are given.
use distributed_process.Base.{
  ℕ, ◌*◌, ◌≡◌, ◌∙◌, refl, subst, sym, inl, inr, false, some, List, length, length-set, get_elem?,
  get_or, set, set-all, get_elem?-all, get_or-replicate, length-replicate, take-length, ltb, ◌==◌,
  Bool-cases, Option-cases, OnSome, arith, Ends, Env,
}
use distributed_process.Dependencies.{
  DependencyList, no_list, Dependencies, struct_bytes, word_bytes, alloc_dependencies,
  get_dependencies, set_dependencies,
}

module _ (Q : DependencyList → Type 0) where
  -- A matrix with a list for each of `n` processes, each of which satisfies `Q`.
  pub record IsTidy (n : ℕ) (d : Dependencies) : Type 0 where
    pub num_proc : d.num_proc ≡ n
    pub sized : length d.dep_lists ≡ n
    pub each : (i : ℕ) → Q (get_or d.dep_lists i no_list)

  pub alloc_dependencies-IsTidy :
      (env : Env) (n : ℕ) → Q no_list → OnSome (IsTidy n) (alloc_dependencies env n)
  unfolding alloc_dependencies
  alloc_dependencies-IsTidy env n q = elim (Bool-cases (env.grants struct_bytes)) [
    | inl e ↦ elim (Bool-cases (env.grants (struct_bytes * n))) [
      | inl e' ↦ elim (Bool-cases (n == 0)) [
        | inl e'' ↦ rw (e, e', e'') tt
        | inr e'' ↦
            rw (e, e', e'')
              (record {
                num_proc = refl;
                sized = length-replicate n no_list;
                each = λ i. subst Q (sym (get_or-replicate n i no_list)) q;
              })
      ]
      | inr e' ↦ rw (e, e') tt
    ]
    | inr e ↦ rw e tt
  ]

  module _ (env : Env) (pids : List ℕ) (n : ℕ) (d : Dependencies) (t : IsTidy n d)
      (new : Q (record { pid_list = some pids; list_len = length pids }))
      (emptied : (l : DependencyList) → Q l → Q (record l { list_len = 0 })) where
    set-IsTidy :
        (i : ℕ) (l : DependencyList) → Q l → IsTidy n (record d { dep_lists = set d.dep_lists i l })
    set-IsTidy i l q = record {
      num_proc = t.num_proc;
      sized = length-set d.dep_lists i l ∙ t.sized;
      each = set-all Q no_list d.dep_lists i l q t.each;
    }

    pub set_dependencies-IsTidy :
        (from : ℕ)
        → Ends
            (λ u p. (d' : Dependencies) × (p ≡ some d') × IsTidy n d')
            (set_dependencies env from (some pids) (length pids) (some d))
    unfolding set_dependencies
    set_dependencies-IsTidy from =
        let whole : ltb (length pids) (length pids) ≡ false = ground arith in
        elim (Option-cases (get_dependencies (some d) from)) [
          | inl e ↦ rw (e, set_dependencies) tt
          | inr (i, e) ↦ elim (Option-cases (get_elem? d.dep_lists i)) [
            | inl e' ↦ rw (e, set_dependencies, e') tt
            | inr (old, e') ↦ elim (Bool-cases (length pids == 0)) [
              | inl e'' ↦
                  rw (e, set_dependencies, e', e'')
                    (
                      _,
                      refl,
                      set-IsTidy i (record old { list_len = 0 })
                          (emptied old (get_elem?-all Q no_list d.dep_lists i old t.each e')),
                    )
              | inr e'' ↦ elim (Bool-cases (env.grants (word_bytes * length pids))) [
                | inl g ↦
                    rw (e, set_dependencies, e', e'', g, whole, take-length pids)
                      (_, refl, set-IsTidy i _ new)
                | inr g ↦ rw (e, set_dependencies, e', e'', g) tt
              ]
            ]
          ]
        ]
