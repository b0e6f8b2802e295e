-- ===== src/Node/Parser/RoundTrip.antt =====
-- A well-formed membership file, as src/parser.c reads the whole of it.
use distributed_process.Base.{
  ℕ, ◌^◌, ◌<◌, ◌≡◌, ◌∙◌, refl, ap, true, Option, some, List, [], ◌∷◌, ◌++◌, replicate,
  length-replicate, arith, error_file, error_args, done, Env, and_then-step,
}
use distributed_process.AddrBook
use distributed_process.AddrBook.{AddrBook, alloc_addr_book, get_addr}
use distributed_process.AddrBook.Access.{
  entered, entered-IsValid, get_addr_lem, alloc_addr_book-granted,
}
use distributed_process.Dependencies
use distributed_process.Dependencies.{DependencyList, no_list, Dependencies, alloc_dependencies}
use distributed_process.Dependencies.Access.{
  assigned_list, assigned, assigned-IsValid, list_of, alloc_dependencies-granted,
}
use distributed_process.Log.{decimal}
use distributed_process.Log.Lines.{length-decimal_most}
use distributed_process.Text.Words.{Avoids-decimal, fgets-line}
use distributed_process.Node.{NetData}
use distributed_process.Node.Parser.{
  parse_address, parse_deps, parse_lines, open_file, parse_body, parse_membership_args,
}
use distributed_process.Node.Parser.Lines.{
  after_all, after_all-keeps, parse_lines-text, positive_number-decimal, positive_number-whole,
}
use distributed_process.Node.Parser.Steps.{parse_address-entered, parse_deps-assigned}
use distributed_process.Node.Parser.Rendered.{
  AddressLine, DependencyLine, address_text, dependency_text, lines_text, Membership,
  membership_text, IsAddressLine, IsDependencyLine, IsMembership,
}

module _ {A B : Type 0} (blank : A) (aton : List ℕ → Option B) (address_of : B → ℕ → A) (env : Env)
    (grants : (k : ℕ) → env.grants k ≡ true) (n : ℕ) (m : Membership B)
    (w : IsMembership aton n m) where
  abbrev pub enter : AddressLine B → AddrBook A → AddrBook A
  enter l b = entered b l.pid (address_of l.ipv4 l.port)

  abbrev pub assign : DependencyLine → Dependencies → Dependencies
  assign l t = assigned t l.source l.deps

  abbrev pub empty_book : AddrBook A
  empty_book = record { num_proc = n; addresses = replicate n blank }

  abbrev pub empty_matrix : Dependencies
  empty_matrix = record { dep_lists = replicate n no_list; num_proc = n }

  abbrev pub ValidBook : AddrBook A → Type 0
  ValidBook b = AddrBook.Access.IsValid b × (b.num_proc ≡ n)

  abbrev pub ValidMatrix : Dependencies → Type 0
  ValidMatrix t = Dependencies.Access.IsValid t × (t.num_proc ≡ n)

  -- What the lines make of an empty book and of an empty matrix.
  abbrev pub book : AddrBook A
  book = after_all enter m.addresses empty_book

  abbrev pub matrix : Dependencies
  matrix = after_all assign m.matrix empty_matrix

  enter-ValidBook :
      (l : AddressLine B) (b : AddrBook A)
      → IsAddressLine aton n l
      → ValidBook b
      → ValidBook (enter l b)
  enter-ValidBook l b g v = (entered-IsValid b l.pid (address_of l.ipv4 l.port) v.0, v.1)

  assign-ValidMatrix :
      (l : DependencyLine) (t : Dependencies)
      → IsDependencyLine n l
      → ValidMatrix t
      → ValidMatrix (assign l t)
  assign-ValidMatrix l t g v = (assigned-IsValid t l.source l.deps v.0, v.1)

  empty_book-ValidBook : ValidBook empty_book
  empty_book-ValidBook = (
    record {
      sized = length-replicate n blank;
      positive = w.positive;
      narrow = omega (arith, w.narrow);
    },
    refl,
  )

  empty_matrix-ValidMatrix : ValidMatrix empty_matrix
  empty_matrix-ValidMatrix = (
    record {
      sized = length-replicate n no_list;
      positive = w.positive;
      narrow = omega (arith, w.narrow);
    },
    refl,
  )

  pub book-ValidBook : ValidBook book
  book-ValidBook =
      after_all-keeps enter (IsAddressLine aton n) ValidBook m.addresses empty_book enter-ValidBook
        w.addresses empty_book-ValidBook

  pub matrix-ValidMatrix : ValidMatrix matrix
  matrix-ValidMatrix =
      after_all-keeps assign (IsDependencyLine n) ValidMatrix m.matrix empty_matrix
        assign-ValidMatrix w.matrix empty_matrix-ValidMatrix

  module _ (d : NetData A) where
    abbrev put_book : AddrBook A → NetData A
    put_book b = record d { address_book = some b }

    abbrev put_matrix : Dependencies → NetData A
    put_matrix t = record d { dependencies = some t }

    addresses_lem :
        (rest : List ℕ)
        → parse_lines
            (parse_address aton address_of)
            n
            (lines_text address_text m.addresses rest)
            (put_book empty_book)
          ≡ done rest (put_book book)
    addresses_lem rest =
        parse_lines-text (parse_address aton address_of) put_book address_text enter
          (IsAddressLine aton n) ValidBook (λ l g. g.fits)
          (λ l b g v. parse_address-entered aton address_of n w.narrow d l b g v) enter-ValidBook n
          m.addresses rest empty_book w.addressed w.addresses empty_book-ValidBook

    matrix_lem :
        parse_lines
          (parse_deps env n)
          n
          (lines_text dependency_text m.matrix [])
          (put_matrix empty_matrix)
        ≡ done [] (put_matrix matrix)
    matrix_lem =
        parse_lines-text (parse_deps env n) put_matrix dependency_text assign (IsDependencyLine n)
          ValidMatrix (λ l g. g.fits)
          (λ l t g v. parse_deps-assigned n w.narrow env grants d t v.0 v.1 l g) assign-ValidMatrix
          n m.matrix [] empty_matrix w.listed w.matrix empty_matrix-ValidMatrix

  abbrev body_text : List ℕ
  body_text = lines_text address_text m.addresses (lines_text dependency_text m.matrix [])

  -- The file behind its first line.
  parse_body-text :
      (d : NetData A)
      → parse_body blank aton address_of env n body_text (record d { num_proc = n })
        ≡ done tt (record d { num_proc = n; address_book = some book; dependencies = some matrix })
  unfolding parse_body
  parse_body-text d =
      let s : NetData A = record d { num_proc = n } in
      rw (alloc_addr_book-granted blank env n grants w.positive) (
        and_then-step _ _ (addresses_lem s (lines_text dependency_text m.matrix []))
        ∙ rw (alloc_dependencies-granted env n grants w.positive)
            (and_then-step _ _ (matrix_lem (record s { address_book = some book }))))

  open_file-text :
      (d : NetData A)
      → open_file (some (membership_text m)) d ≡ done (decimal n ++ (10 ∷ []), body_text) d
  open_file-text d =
      ap (λ k. open_file (some (decimal k ++ (10 ∷ body_text))) d) w.addressed
      ∙ rw (
        open_file,
        fgets-line 31 (decimal n) body_text (Avoids-decimal 10 n (omega arith))
            (Avoids-decimal 0 n (omega arith)) (omega (arith, length-decimal_most n)),
      )

  pub parse_membership_args-exact :
      (d : NetData A) (name path : List ℕ) (more : List (List ℕ)) (self num : ℕ)
      → 0 < self
      → self < 2 ^ 31
      → 0 < num
      → num < 2 ^ 31
      → parse_membership_args blank aton address_of env
          (name ∷ decimal self ∷ path ∷ decimal num ∷ more)
          (some (membership_text m))
          d
        ≡ done tt (record d {
          self_pid = self;
          num_msg = num;
          num_proc = n;
          address_book = some book;
          dependencies = some matrix;
        })
  unfolding parse_membership_args
  parse_membership_args-exact d name path more self num s_pos s_small n_pos n_small =
      let s : NetData A = record d { self_pid = self; num_msg = num } in
      and_then-step _ _ (positive_number-whole error_args self d s_pos s_small)
      ∙ and_then-step _ _
          (positive_number-whole error_args num (record d { self_pid = self }) n_pos n_small)
      ∙ and_then-step _ _ (open_file-text s)
      ∙ and_then-step _ _
          (positive_number-decimal error_file n (10 ∷ []) s w.positive w.narrow refl)
      ∙ parse_body-text s
