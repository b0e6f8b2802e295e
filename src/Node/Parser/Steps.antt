-- ===== src/Node/Parser/Steps.antt =====
-- One well-formed line of each kind, as src/parser.c reads it.
use distributed_process.Base.{
  ℕ, ◌+◌, ◌*◌, ◌^◌, ◌%◌, ◌≤◌, ◌<◌, ◌≡◌, ◌∙◌, refl, ap, true, false, Option, some, List, [], ◌∷◌,
  ◌++◌, append_assoc, length, length-append, ltb, ◌==◌, arith, error_file, done, Env, and_then-step,
  put_back,
}
use distributed_process.AddrBook
use distributed_process.AddrBook.{AddrBook}
use distributed_process.AddrBook.Access.{entered, entered-IsValid, add_entry-entered}
use distributed_process.Dependencies
use distributed_process.Dependencies.{Dependencies, word_bytes}
use distributed_process.Dependencies.Access.{assigned, assigned-IsValid, set_dependencies-assigned}
use distributed_process.Log.{decimal}
use distributed_process.Text.{tokens}
use distributed_process.Text.Numbers.{decimal-filled}
use distributed_process.Text.Words.{Avoids-append, Avoids-decimal, tokens-space, tokens-end}
use distributed_process.Node.{NetData}
use distributed_process.Node.Clock.Deliverable.{All, InRange}
use distributed_process.Node.Parser.{positive_number, parse_address, read_deps, parse_deps}
use distributed_process.Node.Parser.Lines.{
  positive_number-decimal, positive_number-whole, number-decimal, number_tokens, tokens-numbers,
  append-filled,
}
use distributed_process.Node.Parser.Rendered.{
  AddressLine, DependencyLine, address_text, dependency_text, IsAddressLine, IsDependencyLine,
}

module _ {A B : Type 0} (aton : List ℕ → Option B) (address_of : B → ℕ → A) (n : ℕ)
    (narrow : n < 2 ^ 31) where
  tokens-address :
      (l : AddressLine B)
      → IsAddressLine aton n l
      → tokens (address_text l ++ (10 ∷ []))
        ≡ decimal l.pid ∷ l.ip ∷ (decimal l.port ++ (10 ∷ [])) ∷ []
  tokens-address l g =
      ap tokens (
        append_assoc (decimal l.pid) (32 ∷ (l.ip ++ (32 ∷ decimal l.port))) (10 ∷ [])
        ∙ ap (λ t. decimal l.pid ++ (32 ∷ t)) (append_assoc l.ip (32 ∷ decimal l.port) (10 ∷ [])))
      ∙ tokens-space (decimal l.pid) (l.ip ++ (32 ∷ (decimal l.port ++ (10 ∷ []))))
          (Avoids-decimal 32 l.pid (omega arith)) (decimal-filled l.pid)
      ∙ ap (λ t. decimal l.pid ∷ t)
          (tokens-space l.ip (decimal l.port ++ (10 ∷ [])) g.word g.filled
            ∙ ap (λ t. l.ip ∷ t)
                (tokens-end (decimal l.port ++ (10 ∷ []))
                  (Avoids-append 32 (decimal l.port) (10 ∷ [])
                    (Avoids-decimal 32 l.port (omega arith)) (refl, tt))
                  (append-filled (decimal l.port) (10 ∷ []) (decimal-filled l.port))))

  -- A line of the address book enters its address.
  pub parse_address-entered :
      (d : NetData A) (l : AddressLine B) (b : AddrBook A)
      → IsAddressLine aton n l
      → AddrBook.Access.IsValid b × (b.num_proc ≡ n)
      → parse_address aton address_of
          (tokens (address_text l ++ (10 ∷ [])))
          (record d { address_book = some b })
        ≡ done tt (record d { address_book = some (entered b l.pid (address_of l.ipv4 l.port)) })
  unfolding parse_address
  parse_address-entered d l b g (v, same) =
      let s : NetData A = record d { address_book = some b } in
      let port : l.port % 2 ^ 16 ≡ l.port = omega (arith, g.narrow) in
      let pid : positive_number error_file (decimal l.pid) s ≡ done l.pid s =
        positive_number-whole error_file l.pid s g.real.0 (omega (arith, g.real.1)) in
      ap (λ ts. parse_address aton address_of ts s) (tokens-address l g)
      ∙ and_then-step _ _ pid
      ∙ rw (g.accepted) (
          and_then-step _ _ (number-decimal l.port (10 ∷ []) s (omega (arith, g.narrow)) refl)
          ∙ rw (
            port,
            add_entry-entered b l.pid (address_of l.ipv4 l.port) v g.real.0
                (omega (arith, same, g.real.1)),
          ))

module _ {A : Type 0} (n : ℕ) (narrow : n < 2 ^ 31) where
  -- The numbers of a line behind its first.
  read_deps-numbers :
      (d : NetData A) (p : ℕ) (ps buf : List ℕ)
      → All (InRange n) (p ∷ ps)
      → length buf + length (p ∷ ps) ≤ n
      → read_deps n (number_tokens p ps) buf d ≡ done (buf ++ (p ∷ ps)) d
  unfolding read_deps
  read_deps-numbers d p [] buf real room =
      let more : (p == 0) ≡ false = ground (arith, real) in
      let inside : ltb (length buf) n ≡ true = ground arith in
      and_then-step _ _ (number-decimal p (10 ∷ []) d (omega (arith, real)) refl)
      ∙ rw (more, inside)
  read_deps-numbers d p (q ∷ qs) buf real room =
      let more : (p == 0) ≡ false = ground (arith, real.0) in
      let inside : ltb (length buf) n ≡ true = ground arith in
      and_then-step _ _ (number-decimal p [] d (omega (arith, real.0)) tt)
      ∙ rw (more, inside)
          (read_deps-numbers d q qs (buf ++ (p ∷ [])) real.1
              (omega (arith, length-append buf (p ∷ [])))
            ∙ ap (λ t. done t d) (append_assoc buf (p ∷ []) (q ∷ qs)))

  -- A line of dependencies makes them the list of its process.
  module _ (env : Env) (grants : (k : ℕ) → env.grants k ≡ true) (d : NetData A) (m : Dependencies)
      (valid : Dependencies.Access.IsValid m) (same : m.num_proc ≡ n) where
    abbrev before : NetData A
    before = record d { dependencies = some m }

    abbrev behind : ℕ → List ℕ → NetData A
    behind source deps = record d { dependencies = some (assigned m source deps) }

    parse_deps-numbers :
        (source : ℕ) (deps : List ℕ)
        → InRange n source
        → All (InRange n) deps
        → length deps ≤ n
        → parse_deps env n (number_tokens source deps) before ≡ done tt (behind source deps)
    unfolding parse_deps read_deps
    parse_deps-numbers source [] real ids few =
        and_then-step _ _ (
          positive_number-decimal error_file source (10 ∷ []) before real.0 (omega (arith, real.1))
            refl)
        ∙ ap (put_back (λ p. record d { dependencies = p })) (
            set_dependencies-assigned valid source real.0 (omega (arith, real.1, same)) env []
              (grants (word_bytes * 0)))
    parse_deps-numbers source (q ∷ qs) real ids few =
        and_then-step _ _
          (positive_number-decimal error_file source [] before real.0 (omega (arith, real.1)) tt)
        ∙ and_then-step _ _ (read_deps-numbers before q qs [] ids (omega arith))
        ∙ ap (put_back (λ p. record d { dependencies = p })) (
            set_dependencies-assigned valid source real.0 (omega (arith, real.1, same)) env (q ∷ qs)
              (grants (word_bytes * length (q ∷ qs))))

    pub parse_deps-assigned :
        (l : DependencyLine)
        → IsDependencyLine n l
        → parse_deps env n (tokens (dependency_text l ++ (10 ∷ []))) before
          ≡ done tt (behind l.source l.deps)
    parse_deps-assigned l g =
        ap (λ ts. parse_deps env n ts before) (tokens-numbers l.source l.deps)
        ∙ parse_deps-numbers l.source l.deps g.real g.ids g.few
