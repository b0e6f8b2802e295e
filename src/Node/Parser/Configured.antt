-- ===== src/Node/Parser/Configured.antt =====
-- What a process knows once src/parser.c has read a well-formed membership file.
use distributed_process.Base.{
  Every, Every-map, Every-both, Every-all, ℕ, ◌-◌, ◌^◌, ◌<◌, ◌≡◌, ◌∙◌, refl, sym, ap, subst, true,
  Option, some, List, [], ◌∷◌, length, replicate, length-replicate, get_or, get_or-replicate, arith,
  done, Env,
}
use distributed_process.AddrBook.{AddrBook, get_addr}
use distributed_process.AddrBook.Access.{address, get_addr_lem}
use distributed_process.Dependencies.{DependencyList, no_list, Dependencies}
use distributed_process.Dependencies.Access.{assigned_list, list_of}
use distributed_process.Log.{decimal}
use distributed_process.Node.{NetData}
use distributed_process.Node.Clock.{block}
use distributed_process.Node.Clock.Deliverable.{All, InRange, pids_of}
use distributed_process.Node.Start.Ready.{IsConfigured}
use distributed_process.Node.Parser.{parse_membership_args}
use distributed_process.Node.Parser.Lines.{after_all}
use distributed_process.Node.Parser.Rendered.{
  AddressLine, DependencyLine, Membership, membership_text, IsMembership,
}
use distributed_process.Node.Parser.RoundTrip.{
  enter, assign, empty_book, empty_matrix, book, matrix, book-ValidBook, matrix-ValidMatrix,
  parse_membership_args-exact,
}
use distributed_process.Node.Parser.Stores.{stores, stores-found, stores-all}

block-assigned_list : (ps : List ℕ) → block (assigned_list ps no_list).pid_list ≡ ps
block-assigned_list [] = refl
block-assigned_list (p ∷ ps) = refl

list_len-assigned_list : (ps : List ℕ) → length ps ≡ (assigned_list ps no_list).list_len
list_len-assigned_list [] = refl
list_len-assigned_list (p ∷ ps) = refl

-- What the arguments and the file tell.
pub record Parsed {A B : Type 0} (address_of : B → ℕ → A) (m : Membership B) (self num : ℕ)
    (d d' : NetData A) : Type 0 where
  pub self_pid : d'.self_pid ≡ self
  pub num_msg : d'.num_msg ≡ num
  pub num_proc : d'.num_proc ≡ length m.addresses
  pub addresses :
      Every
        (λ l. get_addr l.pid d'.address_book ≡ done (address_of l.ipv4 l.port) d'.address_book)
        m.addresses
  pub configured : IsConfigured d'
  pub lists : Every (λ l. pids_of configured.matrix l.source ≡ l.deps) m.matrix
  pub kept : d' ≡ record d {
    self_pid = d'.self_pid;
    num_msg = d'.num_msg;
    num_proc = d'.num_proc;
    address_book = d'.address_book;
    dependencies = d'.dependencies;
  }

module _ {A B : Type 0} (blank : A) (aton : List ℕ → Option B) (address_of : B → ℕ → A) (env : Env)
    (grants : (k : ℕ) → env.grants k ≡ true) (n : ℕ) (m : Membership B)
    (w : IsMembership aton n m) where
  abbrev given : AddressLine B → A → A
  given l old = address_of l.ipv4 l.port

  abbrev listed : DependencyLine → DependencyList → DependencyList
  listed l old = assigned_list l.deps old

  book-stores :
      (ls : List (AddressLine B)) (b : AddrBook A)
      → after_all (enter blank aton address_of env grants n m w) ls b
        ≡ record b { addresses = stores (λ l. l.pid) given blank ls b.addresses }
  book-stores [] b = refl
  book-stores (l ∷ ls) b = book-stores ls (enter blank aton address_of env grants n m w l b)

  matrix-stores :
      (ls : List DependencyLine) (t : Dependencies)
      → after_all (assign blank aton address_of env grants n m w) ls t
        ≡ record t { dep_lists = stores (λ l. l.source) listed no_list ls t.dep_lists }
  matrix-stores [] t = refl
  matrix-stores (l ∷ ls) t = matrix-stores ls (assign blank aton address_of env grants n m w l t)

  abbrev the_book : AddrBook A
  the_book = book blank aton address_of env grants n m w

  abbrev the_matrix : Dependencies
  the_matrix = matrix blank aton address_of env grants n m w

  -- The keys of the lines are in range and none of the lines is there yet.
  in_book : Every (λ l. InRange (length (replicate n blank)) l.pid) m.addresses
  in_book =
      Every-map (λ l g. subst (λ k. InRange k l.pid) (sym (length-replicate n blank)) g.real)
        m.addresses w.addresses

  in_matrix : Every (λ l. InRange (length (replicate n no_list)) l.source) m.matrix
  in_matrix =
      Every-map (λ l g. subst (λ k. InRange k l.source) (sym (length-replicate n no_list)) g.real)
        m.matrix w.matrix

  abbrev fresh : Every (λ l. get_or (replicate n no_list) (l.source - 1) no_list ≡ no_list) m.matrix
  fresh = Every-all (λ l. get_or-replicate n (l.source - 1) no_list) m.matrix

  book-found :
      Every
        (λ l. get_addr l.pid (some the_book) ≡ done (address_of l.ipv4 l.port) (some the_book))
        m.addresses
  book-found =
      let found =
        stores-found (λ l. l.pid) given blank m.addresses (replicate n blank) in_book w.owners
          (Every-all (λ l. get_or-replicate n (l.pid - 1) blank) m.addresses) in
      let v = book-ValidBook blank aton address_of env grants n m w in
      Every-map
        (λ l h.
          get_addr_lem blank the_book l.pid v.0 h.0.0
            (omega (arith, h.0.1, v.1, length-replicate n blank))
          ∙ ap (λ a. done a (some the_book))
              (ap (λ b. address blank b l.pid)
                  (book-stores m.addresses (empty_book blank aton address_of env grants n m w))
                ∙ h.1))
        m.addresses (Every-both _ _ m.addresses in_book found)

  matrix-found : Every (λ l. list_of the_matrix l.source ≡ assigned_list l.deps no_list) m.matrix
  matrix-found =
      Every-map
        (λ l h.
          ap (λ t. list_of t l.source)
            (matrix-stores m.matrix (empty_matrix blank aton address_of env grants n m w))
          ∙ h)
        m.matrix
        (stores-found (λ l. l.source) listed no_list m.matrix (replicate n no_list) in_matrix
          w.sources fresh)

  matrix-all :
      (Q : DependencyList → Type 0)
      → Q no_list
      → Every (λ l. Q (assigned_list l.deps no_list)) m.matrix
      → (pid : ℕ) → Q (list_of the_matrix pid)
  matrix-all Q base each pid =
      subst (λ t. Q (list_of t pid))
        (sym (matrix-stores m.matrix (empty_matrix blank aton address_of env grants n m w)))
        (stores-all (λ l. l.source) listed no_list Q m.matrix (replicate n no_list) in_matrix
          w.sources fresh each (λ i. subst Q (sym (get_or-replicate n i no_list)) base) (pid - 1))

  -- For a well-formed file of `n` processes, whose lines stand in any order, and for a process id
  -- and a number of messages of at most 31 bits, with every allocation granted: the parser returns
  -- 0, and has set the id, the number of messages and that of the processes, an address book that
  -- answers for each line's process with its address and port, and a matrix that the set-up
  -- accepts, where each process has the dependencies of its line; the rest of the process is as
  -- before.
  pub parse_membership_args-Parsed :
      (d : NetData A) (name path : List ℕ) (more : List (List ℕ)) (self num : ℕ)
      → 0 < self
      → self < 2 ^ 31
      → 0 < num
      → num < 2 ^ 31
      → (d' : NetData A) × (parse_membership_args blank aton address_of env
            (name ∷ decimal self ∷ path ∷ decimal num ∷ more)
            (some (membership_text m))
            d
          ≡ done tt d')
        × Parsed address_of m self num d d'
  parse_membership_args-Parsed d name path more self num s_pos s_small n_pos n_small =
      let v = matrix-ValidMatrix blank aton address_of env grants n m w in
      (
        record d {
          self_pid = self;
          num_msg = num;
          num_proc = n;
          address_book = some the_book;
          dependencies = some the_matrix;
        },
        parse_membership_args-exact blank aton address_of env grants n m w d name path more self num
            s_pos s_small n_pos n_small,
        record {
          self_pid = refl;
          num_msg = refl;
          num_proc = sym w.addressed;
          addresses = book-found;
          configured = record {
            matrix = the_matrix;
            pointer = refl;
            valid = v.0;
            same = v.1;
            whole = λ pid real.
                matrix-all (λ e. length (block e.pid_list) ≡ e.list_len) refl
                  (Every-all
                    (λ l. ap length (block-assigned_list l.deps) ∙ list_len-assigned_list l.deps)
                    m.matrix)
                  pid;
            ids = λ pid real.
                matrix-all (λ e. All (InRange n) (block e.pid_list)) tt
                  (Every-map
                    (λ l g. subst (All (InRange n)) (sym (block-assigned_list l.deps)) g.ids)
                    m.matrix w.matrix)
                  pid;
          };
          lists =
              Every-map (λ l e. ap (λ t. block (t.pid_list)) e ∙ block-assigned_list l.deps)
                m.matrix matrix-found;
          kept = refl;
        },
      )
