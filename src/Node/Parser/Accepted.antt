-- ===== src/Node/Parser/Accepted.antt =====
-- What a process knows of the arguments and the file that src/parser.c has accepted, whatever they
-- hold.
use distributed_process.Base.{
  ℕ, ◌<◌, ◌≡◌, refl, sym, subst, inl, inr, Option, none, some, List, [], ◌∷◌, Option-cases, OnSome,
  arith, error_file, error_args, done, Ok, Prog, Env, and_then, Ends, Outcome, Ends-map, Ends-done,
  Ends-and_then, Ends-and_then_same,
}
use distributed_process.AddrBook.{AddrBook, alloc_addr_book}
use distributed_process.AddrBook.Access.{alloc_addr_book-sizes}
use distributed_process.Dependencies.{Dependencies, alloc_dependencies}
use distributed_process.Dependencies.Keep.{IsTidy, alloc_dependencies-IsTidy}
use distributed_process.Text.{fgets}
use distributed_process.Node.{NetData}
use distributed_process.Node.Parser.{
  line_bytes, new_book, new_dependencies, parse_address, parse_deps, open_file, parse_body,
  parse_membership_args,
}
use distributed_process.Node.Parser.Checks.{
  Kept, IsSized, Tidy, put_book, put_matrix, positive_number-Ends, parse_lines-Kept,
  parse_address-IsSized, parse_deps-Kept,
}

pub record IsAccepted {A : Type 0} (d d' : NetData A) : Type 0 where
  pub self_pid : 0 < d'.self_pid
  pub num_msg : 0 < d'.num_msg
  pub num_proc : 0 < d'.num_proc
  pub book : AddrBook A
  pub address_book : d'.address_book ≡ some book
  pub sized : IsSized d'.num_proc book
  pub matrix : Dependencies
  pub dependencies : d'.dependencies ≡ some matrix
  pub tidy : IsTidy Tidy d'.num_proc matrix
  pub kept : d' ≡ record d {
    self_pid = d'.self_pid;
    num_msg = d'.num_msg;
    num_proc = d'.num_proc;
    address_book = d'.address_book;
    dependencies = d'.dependencies;
  }

module _ {A B : Type 0} (blank : A) (aton : List ℕ → Option B) (address_of : B → ℕ → A)
    (env : Env) where
  new_book-Kept :
      (n : ℕ) (d : NetData A)
      → Ends (λ u d'. Kept (put_book d) (IsSized n) d') (new_book blank env n d)
  new_book-Kept n d = elim (Option-cases (alloc_addr_book blank env n)) [
    | inl e ↦ rw (new_book, e) tt
    | inr (b, e) ↦
        rw (new_book, e) (b, subst (OnSome (IsSized n)) e (alloc_addr_book-sizes blank env n), refl)
  ]

  new_dependencies-Kept :
      (d : NetData A)
      → Ends (λ u d'. Kept (put_matrix d) (IsTidy Tidy d.num_proc) d') (new_dependencies env d)
  new_dependencies-Kept d = elim (Option-cases (alloc_dependencies env d.num_proc)) [
    | inl e ↦ rw (new_dependencies, e) tt
    | inr (t, e) ↦
        rw (new_dependencies, e)
          (
            t,
            subst (OnSome (IsTidy Tidy d.num_proc)) e
                (alloc_dependencies-IsTidy Tidy env d.num_proc (omega arith, tt)),
            refl,
          )
  ]

  Ends-Kept :
      {T C D : Type 0} (put : T → NetData A) (P : T → Type 0) (R : D → NetData A → Type 0)
      (o : Outcome (NetData A) C) (k : C → Prog (NetData A) D)
      → Ends (λ c d. Kept put P d) o
      → ((c : C) (t : T) → P t → Ends R (k c (put t)))
      → Ends R (and_then o k)
  Ends-Kept put P R o k h f =
      Ends-and_then _ R o k h
        (λ c d kept. subst (λ d. Ends R (k c d)) (sym kept.2) (f c kept.0 kept.1))

  parse_body-Ends :
      (n : ℕ) (rest : List ℕ) (d : NetData A)
      → d.num_proc ≡ n
      → Ends
          (λ u d'.
            (b : AddrBook A) × (t : Dependencies) × IsSized n b
            × IsTidy Tidy n t
            × (d' ≡ record d { address_book = some b; dependencies = some t }))
          (parse_body blank aton address_of env n rest d)
  unfolding parse_body
  parse_body-Ends n rest d same =
      let R : Ok → NetData A → Type 0 = λ u d'.
        (b : AddrBook A) × (t : Dependencies) × IsSized n b
        × IsTidy Tidy n t
        × (d' ≡ record d { address_book = some b; dependencies = some t }) in
      Ends-Kept _ _ R _ _ (new_book-Kept n d) (λ u b s.
        Ends-Kept _ _ R _ _
          (parse_lines-Kept (put_book d) (IsSized n) (parse_address aton address_of)
            (parse_address-IsSized aton address_of n d) n rest b s)
          (λ file b s. Ends-Kept _ _ R _ _ (new_dependencies-Kept (put_book d b)) (λ u t tidy.
            Ends-Kept _ _ R _ _
              (parse_lines-Kept (put_matrix (put_book d b)) (IsTidy Tidy n) (parse_deps env n)
                (parse_deps-Kept env n (put_book d b)) n file t
                (subst (λ k. IsTidy Tidy k t) same tidy))
              (λ file' t tidy. (b, t, s, tidy, refl)))))

  open_file-Ends :
      (file : Option (List ℕ)) (d : NetData A)
      → Ends (λ line d'. Unit {0} × (d' ≡ d)) (open_file file d)
  open_file-Ends none d = tt
  open_file-Ends (some file) d = elim (Option-cases (fgets line_bytes file)) [
    | inl e ↦ rw (open_file, e) tt
    | inr (line, e) ↦ rw (open_file, e) (tt, refl)
  ]

  accepted :
      {d d' : NetData A} (self num n : ℕ)
      → 0 < self
      → 0 < num
      → 0 < n
      → (b : AddrBook A) × (t : Dependencies) × IsSized n b
        × IsTidy Tidy n t
        × (d' ≡ record d {
          self_pid = self;
          num_msg = num;
          num_proc = n;
          address_book = some b;
          dependencies = some t;
        })
      → IsAccepted d d'
  accepted {d = d} self num n self_pos num_pos n_pos (b, t, s, tidy, e) =
      subst (IsAccepted d) (sym e) (record {
        self_pid = self_pos;
        num_msg = num_pos;
        num_proc = n_pos;
        book = b;
        address_book = refl;
        sized = s;
        matrix = t;
        dependencies = refl;
        tidy = tidy;
        kept = refl;
      })

  parse_membership_args-Ends :
      (args : List (List ℕ)) (file : Option (List ℕ)) (d : NetData A)
      → Ends (λ u d'. IsAccepted d d') (parse_membership_args blank aton address_of env args file d)
  unfolding parse_membership_args
  parse_membership_args-Ends [] file d = tt
  parse_membership_args-Ends (a ∷ []) file d = tt
  parse_membership_args-Ends (a ∷ b ∷ []) file d = tt
  parse_membership_args-Ends (a ∷ b ∷ c ∷ []) file d = tt
  parse_membership_args-Ends (name ∷ pid_str ∷ path ∷ num_str ∷ more) file d =
      let R : Ok → NetData A → Type 0 = λ u d'. IsAccepted d d' in
      Ends-and_then_same _ R _ _ _ (positive_number-Ends error_args pid_str d) (λ self self_pos.
        Ends-and_then_same _ R _ _ _
          (positive_number-Ends error_args num_str (record d { self_pid = self }))
          (λ num num_pos.
            let d₁ : NetData A = record d { self_pid = self; num_msg = num } in
            Ends-and_then_same _ R _ _ _ (open_file-Ends file d₁) (λ first x.
              Ends-and_then_same _ R _ _ _ (positive_number-Ends error_file (first.0) d₁)
                (λ n n_pos.
                  let d₂ : NetData A = record d₁ { num_proc = n } in
                  Ends-map _ R _ (λ u d' k. accepted self num n self_pos num_pos n_pos k)
                    (parse_body-Ends n (first.1) d₂ refl)))))

  -- Whatever the arguments and the file hold, if the parser returns 0, then the process has a
  -- positive id, number of messages and number of processes, an address book with an entry for each
  -- process, and a matrix with a list for each, where no list is longer than what it points to and
  -- no id is 0; the rest of the process is as before.
  pub parse_membership_args-IsAccepted :
      (args : List (List ℕ)) (file : Option (List ℕ)) (d d' : NetData A)
      → parse_membership_args blank aton address_of env args file d ≡ done tt d'
      → IsAccepted d d'
  parse_membership_args-IsAccepted args file d d' e =
      Ends-done _ _ (parse_membership_args-Ends args file d) e
