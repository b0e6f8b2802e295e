-- ===== src/Tests/Books.antt =====
-- Runs of src/addrbook.c and src/dependencies.c.
use distributed_process.Base.{ℕ, ◌≡◌, refl, arith, some, [], ◌∷◌, done}
use distributed_process.AddrBook.{AddrBook, add_entry}
use distributed_process.AddrBook.Access
use distributed_process.AddrBook.Access.{Entered, add_entry_lem, get_addr_outside}
use distributed_process.Dependencies.{Dependencies, set_dependencies}
use distributed_process.Dependencies.Access as Lists
use distributed_process.Dependencies.Access.{Assigned, set_dependencies_lem}
use distributed_process.Dependencies.{depends_on}
use distributed_process.Dependencies.Query.{IsListed, depends_on_lem}
use distributed_process.Base.{Bool, true, ◌↔◌}
use distributed_process.Tests.Samples.{generous, book, matrix}

book-IsValid : Access.IsValid book
book-IsValid = record { sized = refl; positive = omega arith; narrow = omega arith }

matrix-IsValid : Lists.IsValid matrix
matrix-IsValid = record { sized = refl; positive = omega arith; narrow = omega arith }

add_entry_lem_example :
    (b' : AddrBook ℕ) × (add_entry 2 103 (some book) ≡ done tt (some b')) × Entered 0 book 2 103 b'
add_entry_lem_example = add_entry_lem 0 book 2 103 book-IsValid (omega arith) (omega arith)

set_dependencies_lem_example :
    (d' : Dependencies) × (set_dependencies generous 2 (some (2 ∷ [])) 1 (some matrix)
      ≡ done tt (some d'))
    × Assigned matrix-IsValid 2 (omega arith) (omega arith) (2 ∷ []) d'
set_dependencies_lem_example =
    set_dependencies_lem matrix-IsValid 2 (omega arith) (omega arith) generous (2 ∷ [])
      (omega arith) refl

depends_on_lem_example :
    (b : Bool) × (depends_on 1 2 (some matrix) ≡ done b (some matrix))
    × ((b ≡ true) ↔ IsListed (1 ∷ []) 2)
depends_on_lem_example =
    depends_on_lem matrix 1 2 (1 ∷ []) matrix-IsValid (omega arith) (omega arith) refl refl
