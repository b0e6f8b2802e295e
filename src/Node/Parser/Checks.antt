-- ===== src/Node/Parser/Checks.antt =====
-- What src/parser.c has checked of each line that it accepts, whatever that line holds.
use distributed_process.Base.{
  ℕ, zero, suc, ◌^◌, ◌%◌, ◌≤◌, ◌<◌, ◌≡◌, ◌∙◌, refl, sym, ap, subst, inl, inr, Option, some, List,
  [], ◌∷◌, ◌++◌, length, ltb, ◌==◌, Bool-cases, arith, ErrorCode, error_file, Ok, Prog, Env, Ends,
  Ends-recode, Ends-and_then, Ends-and_then_same, Ends-map, Ends-put_back, Option-cases,
}
use distributed_process.AddrBook.{AddrBook, add_entry}
use distributed_process.AddrBook.Access.{add_entry-sizes}
use distributed_process.Dependencies.{DependencyList, Dependencies}
use distributed_process.Dependencies.Keep.{IsTidy, set_dependencies-IsTidy}
use distributed_process.Text.{atoi, tokens, fgets}
use distributed_process.Node.{NetData, in_book}
use distributed_process.Node.Clock.{block}
use distributed_process.Node.Clock.Deliverable.{All}
use distributed_process.Node.Parser.{
  is_newline, line_bytes, number, positive_number, read_deps, parse_deps, parse_address,
  parse_lines,
}

module _ {A : Type 0} where
  number-Ends : (t : List ℕ) (d : NetData A) → Ends (λ n d'. Unit {0} × (d' ≡ d)) (number t d)
  number-Ends t d = elim (Option-cases (atoi t)) [
    | inl e ↦ rw (number, e) tt
    | inr some_n ↦ rw (number, some_n.1) (tt, refl)
  ]

  pub positive_number-Ends :
      (e : ErrorCode) (t : List ℕ) (d : NetData A)
      → Ends (λ n d'. (0 < n) × (d' ≡ d)) (positive_number e t d)
  positive_number-Ends e t d = elim (Option-cases (atoi t)) [
    | inl e ↦ rw (positive_number, number, e) tt
    | inr (n, e) ↦ elim (Bool-cases (n == 0)) [
      | inl zero_n ↦ rw (positive_number, number, e, zero_n) tt
      | inr more ↦ rw (positive_number, number, e, more) (ground arith, refl)
    ]
  ]

-- A process whose part that `put` sets satisfies `P`.
abbrev pub Kept : {A T : Type 0} → (T → NetData A) → (T → Type 0) → NetData A → Type 0
Kept {T = T} put P d = (t : T) × P t × (d ≡ put t)

-- The loop over the lines keeps what each line keeps of the part that `put` sets.
module _ {A T : Type 0} (put : T → NetData A) (P : T → Type 0)
    (f : List (List ℕ) → Prog (NetData A) Ok) where
  pub parse_lines-Kept :
      ((ts : List (List ℕ)) (t : T) → P t → Ends (λ u d. Kept put P d) (f ts (put t)))
      → (n : ℕ) (file : List ℕ) (t : T) → P t
      → Ends (λ rest d. Kept put P d) (parse_lines f n file (put t))
  unfolding parse_lines
  parse_lines-Kept each zero file t p = (t, p, refl)
  parse_lines-Kept each (suc n) file t p = elim (Option-cases (fgets line_bytes file)) [
    | inl e ↦ rw (e, parse_lines) (t, p, refl)
    | inr (line, e) ↦
        rw (e, parse_lines)
          (Ends-and_then (λ u d. Kept put P d) (λ rest d. Kept put P d) _ _
            (each (tokens (line.0)) t p)
            (λ u d k.
              subst (λ d. Ends (λ rest d. Kept put P d) (parse_lines f n (line.1) d)) (sym k.2)
                (parse_lines-Kept each n (line.1) k.0 k.1)))
  ]

-- The address book.
abbrev pub IsSized : {A : Type 0} → ℕ → AddrBook A → Type 0
IsSized n b = (b.num_proc ≡ n) × (length b.addresses ≡ n)

abbrev pub put_book : {A : Type 0} → NetData A → AddrBook A → NetData A
put_book d b = record d { address_book = some b }

abbrev pub put_matrix : {A : Type 0} → NetData A → Dependencies → NetData A
put_matrix d t = record d { dependencies = some t }

module _ {A B : Type 0} (aton : List ℕ → Option B) (address_of : B → ℕ → A) (n : ℕ)
    (d : NetData A) where
  add_entry-IsSized :
      (pid : ℕ) (a : A) (b : AddrBook A)
      → IsSized n b
      → Ends (λ u d'. Kept (put_book d) (IsSized n) d') (in_book (add_entry pid a) (put_book d b))
  add_entry-IsSized pid a b s =
      Ends-put_back (λ u d'. Kept (put_book d) (IsSized n) d') (λ p. record d { address_book = p })
        _
        (Ends-map _ (λ u p. Kept (put_book d) (IsSized n) (record d { address_book = p })) _
          (λ u p k. (k.0, (k.2 ∙ s.0, k.3 ∙ s.1), ap (λ p. record d { address_book = p }) k.1))
          (add_entry-sizes pid a b))

  pub parse_address-IsSized :
      (ts : List (List ℕ)) (b : AddrBook A)
      → IsSized n b
      → Ends
          (λ u d'. Kept (put_book d) (IsSized n) d')
          (parse_address aton address_of ts (put_book d b))
  unfolding parse_address
  parse_address-IsSized [] b s = tt
  parse_address-IsSized (t ∷ []) b s = tt
  parse_address-IsSized (t ∷ t' ∷ []) b s = tt
  parse_address-IsSized (t ∷ t' ∷ t'' ∷ ts) b s =
      let R : Ok → NetData A → Type 0 = λ u d'. Kept (put_book d) (IsSized n) d' in
      Ends-and_then_same _ R _ _ _ (positive_number-Ends error_file t (put_book d b)) (λ pid pos.
        elim (Option-cases (aton t')) [
          | inl e ↦ rw e tt
          | inr (ip, e) ↦ rw e (
              Ends-and_then_same _ R _ _ _ (number-Ends t'' (put_book d b)) (λ port x.
                Ends-recode R error_file _
                  (add_entry-IsSized pid (address_of ip (port % 2 ^ 16)) b s)))
        ])

-- The dependencies: no list is longer than what it points to, and every id in it is positive.
abbrev pub Tidy : DependencyList → Type 0
Tidy l = (l.list_len ≤ length (block l.pid_list)) × All (λ p. 0 < p) (block l.pid_list)

All-append : (ps : List ℕ) (p : ℕ) → All (λ p. 0 < p) ps → 0 < p → All (λ p. 0 < p) (ps ++ (p ∷ []))
All-append [] p h pos = (pos, tt)
All-append (q ∷ qs) p h pos = (h.0, All-append qs p h.1 pos)

module _ {A : Type 0} where
  read_deps-Ends :
      (n : ℕ) (ts : List (List ℕ)) (buf : List ℕ) (d : NetData A)
      → All (λ p. 0 < p) buf
      → Ends (λ ps d'. All (λ p. 0 < p) ps × (d' ≡ d)) (read_deps n ts buf d)
  unfolding read_deps
  read_deps-Ends n [] buf d h = (h, refl)
  read_deps-Ends n (t ∷ ts) buf d h =
      let R : List ℕ → NetData A → Type 0 = λ ps d'. All (λ p. 0 < p) ps × (d' ≡ d) in
      Ends-and_then_same _ R d _ _ (number-Ends t d) (λ dep x. elim (Bool-cases (dep == 0)) [
        | inl e ↦ elim (Bool-cases (is_newline t)) [
          | inl e' ↦ rw (e, e') (read_deps-Ends n ts buf d h)
          | inr e' ↦ rw (e, e') tt
        ]
        | inr e ↦ elim (Bool-cases (ltb (length buf) n)) [
          | inl e' ↦
              rw (e, e')
                (read_deps-Ends n ts (buf ++ (dep ∷ [])) d (All-append buf dep h (ground arith)))
          | inr e' ↦ rw (e, e') tt
        ]
      ])

  module _ (env : Env) (n : ℕ) (d : NetData A) where
    pub parse_deps-Kept :
        (ts : List (List ℕ)) (t : Dependencies)
        → IsTidy Tidy n t
        → Ends
            (λ u d'. Kept (put_matrix d) (IsTidy Tidy n) d')
            (parse_deps env n ts (put_matrix d t))
    unfolding parse_deps
    parse_deps-Kept [] t tidy = tt
    parse_deps-Kept (s ∷ ts) t tidy =
        let R : Ok → NetData A → Type 0 = λ u d'. Kept (put_matrix d) (IsTidy Tidy n) d' in
        Ends-and_then_same _ R _ _ _ (positive_number-Ends error_file s (put_matrix d t))
          (λ source pos.
            Ends-and_then_same _ R _ _ _ (read_deps-Ends n ts [] (put_matrix d t) tt) (λ pids real.
              Ends-put_back R (λ p. record d { dependencies = p }) _
                (Ends-map _ (λ u p. R u (record d { dependencies = p })) _
                  (λ u p k. (k.0, k.2, ap (λ p. record d { dependencies = p }) k.1))
                  (set_dependencies-IsTidy Tidy env pids n t tidy (omega arith, real)
                    (λ l q. (omega arith, q.1)) source))))
