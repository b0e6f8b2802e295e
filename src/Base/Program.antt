-- ===== src/Base/Program.antt =====
-- What a C function does: it returns a value, or an error code, or accesses memory that it does not
-- own, or never returns. The error codes are those of include/error.h.
use Prim.Native.Nat.{ℕ, zero, suc}
use mathlib.Core.Path.{◌≡◌, refl}
use mathlib.Core.Bool.{Bool, true, false}
use mathlib.Core.Option.{none, some}
use mathlib.Core.List.{List, [], ◌∷◌}
use distributed_process.Base.Tests.{if◌then◌else◌}
use distributed_process.Base.Lists.{get_elem?}

-- `error_codes`. Every one of them is negative, so that `if(error)` and `if(error < 0)` agree.
pub data ErrorCode : Type 0 where
  error_memory error_queue error_addr_not_found error_socket error_send error_close : ErrorCode
  error_ack_lock error_lock error_pid error_bind error_thread error_network error_io : ErrorCode
  error_condition error_mutex error_file error_args error_table error_pointer : ErrorCode

-- `done` returns a value (0 where it is of type `Unit`), `err` a negative code; both leave a state.
-- `fault` is an access outside an object, or to a freed or null one, where C defines nothing;
-- `hang` is a loop without an end, or a wait for a mutex that no one will release.
pub data Outcome (S A : Type 0) : Type 0 where
  done : A → S → Outcome S A
  err : ErrorCode → S → Outcome S A
  fault : Outcome S A
  hang : Outcome S A

abbrev pub Prog : Type 0 → Type 0 → Type 0
Prog S A = S → Outcome S A

abbrev pub Ok : Type 0
Ok = Unit {0}

module _ {S A B : Type 0} where
  -- `error = m; if(error) return error; k`.
  abbrev pub and_then : Outcome S A → (A → Prog S B) → Outcome S B
  and_then (done a s) k = k a s
  and_then (err e s) k = err e s
  and_then fault k = fault
  and_then hang k = hang

  infixl 5 ◌>>=◌ ◌>>◌
  abbrev pub ◌>>=◌ : Prog S A → (A → Prog S B) → Prog S B
  m >>= k = λ s. and_then (m s) k

  abbrev pub ◌>>◌ : Prog S A → Prog S B → Prog S B
  m >> n = m >>= λ _. n

-- What a chain that returns a value has gone through.
pub and_then-done :
    {S A B : Type 0} (o : Outcome S A) (k : A → Prog S B) {b : B} {t : S}
    → and_then o k ≡ done b t
    → (a : A) × (s : S) × (o ≡ done a s) × (k a s ≡ done b t)
and_then-done (done a s) k h = (a, s, refl, h)
and_then-done (err e s) k h = cc
and_then-done fault k h = cc
and_then-done hang k h = cc

-- One step of a chain.
pub and_then-step :
    {S A B : Type 0} (o : Outcome S A) (k : A → Prog S B) {a : A} {s : S}
    → o ≡ done a s
    → and_then o k ≡ k a s
and_then-step o k e = rw e

-- A chain ends with the first error.
pub and_then-stop :
    {S A B : Type 0} (o : Outcome S A) (k : A → Prog S B) {e : ErrorCode} {s : S}
    → o ≡ err e s
    → and_then o k ≡ err e s
and_then-stop o k e = rw e

-- A step that changes nothing where the chain reaches it can be left out.
pub and_then-return :
    {S : Type 0} (o : Outcome S Ok) (k : Ok → Prog S Ok)
    → ((s : S) → o ≡ done tt s → k tt s ≡ done tt s)
    → and_then o k ≡ o
and_then-return (done a s) k h = h s refl
and_then-return (err e s) k h = refl
and_then-return fault k h = refl
and_then-return hang k h = refl

module _ {S A : Type 0} where
  abbrev pub pure : A → Prog S A
  pure a s = done a s

  abbrev pub raise : ErrorCode → Prog S A
  raise e s = err e s

  abbrev pub gets : (S → A) → Prog S A
  gets f s = done (f s) s

  abbrev pub crash : Prog S A
  crash s = fault

  abbrev pub diverge : Prog S A
  diverge s = hang

abbrev pub modify : {S : Type 0} → (S → S) → Prog S Ok
modify f s = done tt (f s)

-- `if(b) return e;`
abbrev pub reject : {S : Type 0} → Bool → ErrorCode → Prog S Ok
reject true e = raise e
reject false e = pure tt

-- `xs[i]`, a fault outside the array.
abbrev pub read_at : {S A : Type 0} → List A → ℕ → Prog S A
read_at xs i = elim (get_elem? xs i) [ none ↦ crash | some a ↦ pure a ]

-- `pthread_mutex_lock` on a mutex that a call before has left locked never returns.
abbrev pub lock : {S : Type 0} → (S → Bool) → (S → S) → Prog S Ok
lock held take s = if held s then hang else done tt (take s)

-- A free mutex is taken.
pub lock-free :
    {S A : Type 0} (held : S → Bool) (take : S → S) (m : Ok → Prog S A) (s : S)
    → held s ≡ false
    → (lock held take >>= m) s ≡ m tt (take s)
lock-free held take m s e = rw e

module _ {S T A : Type 0} where
  -- A function on a part of the state, given how that part is put back.
  abbrev pub put_back : (T → S) → Outcome T A → Outcome S A
  put_back f (done a t) = done a (f t)
  put_back f (err e t) = err e (f t)
  put_back f fault = fault
  put_back f hang = hang

  abbrev pub within : (S → T) → (S → T → S) → Prog T A → Prog S A
  within get put m s = put_back (put s) (m (get s))

-- What the C library and the system answer while a call runs: whether an allocation of so many
-- bytes is granted, at which address `malloc` puts a node, what memory that no one has written
-- holds at an index, whether `sendto` succeeds, how many of so many bytes `fwrite` takes, whether
-- `pthread_mutex_init` succeeds.
pub record Env : Type 0 where
  pub grants : ℕ → Bool
  pub address : ℕ
  pub junk : ℕ → ℕ
  pub sends : Bool
  pub writes : ℕ → ℕ
  pub mutexes : Bool

pub read_at-done :
    {S A : Type 0} (xs : List A) (i : ℕ) (s : S) {a : A} {t : S}
    → read_at xs i s ≡ done a t
    → (get_elem? xs i ≡ some a) × (t ≡ s)
read_at-done [] i s h = cc
read_at-done (x ∷ xs) zero s h = (cc, cc)
read_at-done (x ∷ xs) (suc i) s h = read_at-done xs i s h

pub read_at-found :
    {S A : Type 0} (xs : List A) (i : ℕ) (s : S) {a : A}
    → get_elem? xs i ≡ some a
    → read_at xs i s ≡ done a s
read_at-found [] i s e = cc
read_at-found (x ∷ xs) zero s e = cc
read_at-found (x ∷ xs) (suc i) s e = read_at-found xs i s e

pub put_back-done :
    {S T A : Type 0} (f : T → S) (o : Outcome T A) {a : A} {s : S}
    → put_back f o ≡ done a s
    → (t : T) × (o ≡ done a t) × (s ≡ f t)
put_back-done f (done b t) h = (t, cc, cc)
put_back-done f (err e t) h = cc
put_back-done f fault h = cc
put_back-done f hang h = cc

-- Every error of a part becomes `e`.
abbrev pub recode : {S A : Type 0} → ErrorCode → Outcome S A → Outcome S A
recode e (done a s) = done a s
recode e (err _ s) = err e s
recode e fault = fault
recode e hang = hang

-- The caller drops the error code.
abbrev pub ignore : {S : Type 0} → Outcome S Ok → Outcome S Ok
ignore (done a s) = done a s
ignore (err e s) = done tt s
ignore fault = fault
ignore hang = hang
