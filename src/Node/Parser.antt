-- ===== src/Node/Parser.antt =====
-- src/parser.c: a process is filled from the arguments and the membership file. `A` is the system's
-- `struct sockaddr_in` and `B` its `struct in_addr`.
pub mod Rendered
pub mod Stores
pub mod Lines
pub mod Steps
pub mod RoundTrip
pub mod Configured
pub mod Boot
pub mod Checks
pub mod Accepted
use distributed_process.Base.{
  ℕ, zero, suc, ◌+◌, ◌^◌, ◌%◌, Bool, true, false, Option, none, some, List, [], ◌∷◌, ◌++◌, length,
  ltb, ◌==◌, if◌then◌else◌, ErrorCode, error_memory, error_file, error_args, Prog, Ok, ◌>>=◌, ◌>>◌,
  pure, raise, crash, gets, modify, reject, recode, within, Env,
}
use distributed_process.AddrBook.{alloc_addr_book, add_entry}
use distributed_process.Dependencies.{Pointer, alloc_dependencies, set_dependencies}
use distributed_process.Text.{atoi, tokens, fgets}
use distributed_process.Node.{NetData, in_book}

-- What `fgets` takes at most: LINE_MAX_LENGTH, without the byte that ends the string.
abbrev pub line_bytes : ℕ
line_bytes = 31

-- The call of `strncmp`.
abbrev pub is_newline : List ℕ → Bool
is_newline [] = false
is_newline (c ∷ []) = c == b'\n'
is_newline (c ∷ c' ∷ cs) = false

module _ {A B : Type 0} where
  abbrev pub in_dependencies : Prog Pointer B → Prog (NetData A) B
  in_dependencies = within (λ d. d.dependencies) (λ d p. record d { dependencies = p })

module _ {A : Type 0} where
  -- `(size_t) atoi(s)`, a fault where C defines nothing.
  abbrev pub number : List ℕ → Prog (NetData A) ℕ
  number s = elim (atoi s) [ none ↦ crash | some n ↦ pure n ]

  -- `(size_t) atoi(s)`, where 0 is the error `e`.
  abbrev pub positive_number : ErrorCode → List ℕ → Prog (NetData A) ℕ
  positive_number e s = do n ← number s; reject (n == 0) e; pure n

  -- The loop over the tokens behind the first; `buf` is what `dep_pid_buf` holds, which has room
  -- for `num_proc` ids. The result is the whole of it.
  pub read_deps : ℕ → List (List ℕ) → List ℕ → Prog (NetData A) (List ℕ)
  read_deps num_proc [] buf = pure buf
  read_deps num_proc (t ∷ ts) buf = do
    dep_pid ← number t
    elim (dep_pid == 0) [
      | true ↦ elim (is_newline t) [ true ↦ read_deps num_proc ts buf | false ↦ raise error_file ]
      | false ↦ elim (ltb (length buf) num_proc) [
        | true ↦ read_deps num_proc ts (buf ++ (dep_pid ∷ []))
        | false ↦ crash
      ]
    ]

  -- One line of dependencies, as its tokens.
  pub parse_deps : Env → ℕ → List (List ℕ) → Prog (NetData A) Ok
  unfolding read_deps
  parse_deps env num_proc [] = raise error_file
  parse_deps env num_proc (source_pid_str ∷ ts) = do
    source_pid ← positive_number error_file source_pid_str
    dep_pid_buf ← read_deps num_proc ts []
    in_dependencies (set_dependencies env source_pid (some dep_pid_buf) (length dep_pid_buf))

module _ {A B : Type 0} where
  -- `inet_aton`, `none` where it returns 0.
  abbrev pub accept : Option B → Prog (NetData A) B
  accept none = raise error_file
  accept (some ipv4) = pure ipv4

  -- One line of the address book, as its tokens. `aton` is `inet_aton`, and `address_of` the
  -- `struct sockaddr_in` of an address and of a port that `htons` has yet to convert.
  pub parse_address : (List ℕ → Option B) → (B → ℕ → A) → List (List ℕ) → Prog (NetData A) Ok
  parse_address aton address_of [] = raise error_file
  parse_address aton address_of (pid_str ∷ []) = raise error_file
  parse_address aton address_of (pid_str ∷ ipv4_str ∷ []) = raise error_file
  parse_address aton address_of (pid_str ∷ ipv4_str ∷ port_str ∷ ts) = do
    pid ← positive_number error_file pid_str
    ipv4 ← accept (aton ipv4_str)
    port ← number port_str
    (λ d. recode error_file (in_book (add_entry pid (address_of ipv4 (port % 2 ^ 16))) d))

module _ {A : Type 0} where
  -- `while(line_counter < num_proc && fgets(line, …))` around the body `f`; the number counts the
  -- lines that are left. The result is the rest of the file.
  pub parse_lines : (List (List ℕ) → Prog (NetData A) Ok) → ℕ → List ℕ → Prog (NetData A) (List ℕ)
  parse_lines f zero file = pure file
  parse_lines f (suc n) file = elim (fgets line_bytes file) [
    | none ↦ pure file
    | some line ↦ f (tokens (line.0)) >> parse_lines f n (line.1)
  ]

  -- `fopen` of the file and `fgets` of its first line.
  abbrev pub open_file : Option (List ℕ) → Prog (NetData A) (List ℕ × List ℕ)
  open_file none = raise error_file
  open_file (some file) = elim (fgets line_bytes file) [
    | none ↦ raise error_file
    | some line ↦ pure line
  ]

  -- The calls that allocate store their pointer, and then test it.
  abbrev pub new_book : A → Env → ℕ → Prog (NetData A) Ok
  new_book blank env n = do
    let book = alloc_addr_book blank env n
    modify (λ d. record d { address_book = book })
    elim book [ none ↦ raise error_memory | some b ↦ pure tt ]

  abbrev pub new_dependencies : Env → Prog (NetData A) Ok
  new_dependencies env = do
    num_proc ← gets (λ d. d.num_proc)
    let matrix = alloc_dependencies env num_proc
    modify (λ d. record d { dependencies = matrix })
    elim matrix [ none ↦ raise error_memory | some m ↦ pure tt ]

module _ {A B : Type 0} (blank : A) (aton : List ℕ → Option B) (address_of : B → ℕ → A)
    (env : Env) where
  -- The membership file behind its first line.
  pub parse_body : ℕ → List ℕ → Prog (NetData A) Ok
  unfolding parse_address parse_deps parse_lines
  parse_body num_proc rest = do
    new_book blank env num_proc
    file ← parse_lines (parse_address aton address_of) num_proc rest
    new_dependencies env
    parse_lines (parse_deps env num_proc) num_proc file
    pure tt

  -- `argv` is the list of the arguments, `argc` its length, and the file what `fopen` of the second
  -- gives, `none` where it fails.
  pub parse_membership_args : List (List ℕ) → Option (List ℕ) → Prog (NetData A) Ok
  unfolding parse_body
  parse_membership_args (name ∷ pid_str ∷ path ∷ num_str ∷ more) membership_file = do
    self_pid ← positive_number error_args pid_str
    modify (λ d. record d { self_pid = self_pid })
    num_msg ← positive_number error_args num_str
    modify (λ d. record d { num_msg = num_msg })
    first ← open_file membership_file
    num_proc ← positive_number error_file (first.0)
    modify (λ d. record d { num_proc = num_proc })
    parse_body num_proc (first.1)
  parse_membership_args args membership_file = raise error_args
