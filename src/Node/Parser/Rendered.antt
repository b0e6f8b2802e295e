-- ===== src/Node/Parser/Rendered.antt =====
-- The text of a membership file, as src/parser.c reads it: the number of processes, a line for the
-- address of each, and a line for the dependencies of each.
use distributed_process.Base.{
  Every, ℕ, ◌^◌, ◌≤◌, ◌<◌, ◌≡◌, ◌≢◌, Option, some, List, [], ◌∷◌, ◌++◌, length,
}
use distributed_process.Log.{decimal}
use distributed_process.Text.Words.{Avoids}
use distributed_process.Node.Clock.Deliverable.{All, InRange}

-- `ip` is the text of `ipv4`.
pub record AddressLine (B : Type 0) : Type 0 where
  pub pid : ℕ
  pub ip : List ℕ
  pub ipv4 : B
  pub port : ℕ

pub record DependencyLine : Type 0 where
  pub source : ℕ
  pub deps : List ℕ

abbrev pub address_text : {B : Type 0} → AddressLine B → List ℕ
address_text l = decimal l.pid ++ (b' ' ∷ (l.ip ++ (b' ' ∷ decimal l.port)))

-- The words behind the first.
abbrev pub deps_text : List ℕ → List ℕ
deps_text [] = []
deps_text (p ∷ ps) = b' ' ∷ (decimal p ++ deps_text ps)

abbrev pub dependency_text : DependencyLine → List ℕ
dependency_text l = decimal l.source ++ deps_text l.deps

-- Each line with its newline, in front of what follows.
abbrev pub lines_text : {L : Type 0} → (L → List ℕ) → List L → List ℕ → List ℕ
lines_text text [] rest = rest
lines_text text (l ∷ ls) rest = text l ++ (b'\n' ∷ lines_text text ls rest)

pub record Membership (B : Type 0) : Type 0 where
  pub addresses : List (AddressLine B)
  pub matrix : List DependencyLine

abbrev pub membership_text : {B : Type 0} → Membership B → List ℕ
membership_text m =
    decimal (length m.addresses)
    ++ (b'\n' ∷ lines_text address_text m.addresses (lines_text dependency_text m.matrix []))

-- A line that `fgets` reads whole.
pub record Fits (l : List ℕ) : Type 0 where
  pub lines : Avoids 10 l
  pub nuls : Avoids 0 l
  pub short : length l < 31

-- No two lines have one key.
abbrev pub DistinctBy : {L : Type 0} → (L → ℕ) → List L → Type 0
DistinctBy key [] = Unit
DistinctBy key (l ∷ ls) = Every (λ l'. key l ≢ key l') ls × DistinctBy key ls

pub record IsAddressLine {B : Type 0} (aton : List ℕ → Option B) (n : ℕ) (l : AddressLine B)
    : Type 0 where
  pub fits : Fits (address_text l)
  pub real : InRange n l.pid
  pub word : Avoids 32 l.ip
  pub filled : l.ip ≢ []
  pub accepted : aton l.ip ≡ some l.ipv4
  pub narrow : l.port < 2 ^ 16

pub record IsDependencyLine (n : ℕ) (l : DependencyLine) : Type 0 where
  pub fits : Fits (dependency_text l)
  pub real : InRange n l.source
  pub ids : All (InRange n) l.deps
  pub few : length l.deps ≤ n

-- `n` processes, each with one line of either kind, under conditions on the lines.
pub record IsMembership {B : Type 0} (aton : List ℕ → Option B) (n : ℕ) (m : Membership B)
    : Type 0 where
  pub positive : 0 < n
  pub narrow : n < 2 ^ 31
  pub addressed : length m.addresses ≡ n
  pub listed : length m.matrix ≡ n
  pub addresses : Every (IsAddressLine aton n) m.addresses
  pub matrix : Every (IsDependencyLine n) m.matrix
  pub owners : DistinctBy (λ l. l.pid) m.addresses
  pub sources : DistinctBy (λ l. l.source) m.matrix
