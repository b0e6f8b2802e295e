-- ===== src/Base/Hoare.antt =====
-- What holds of the states that a C function leaves: where it returns, and where it returns or
-- fails.
use mathlib.Core.Path.{◌≡◌, sym, subst}
use distributed_process.Base.Program.{
  ErrorCode, Outcome, done, err, fault, hang, Prog, and_then, put_back, recode,
}

module _ {S A : Type 0} where
  -- Where the function returns, the value and the state satisfy `Q`.
  abbrev pub Ends : (A → S → Type 0) → Outcome S A → Type 0
  Ends Q (done a s) = Q a s
  Ends Q (err e s) = Unit
  Ends Q fault = Unit
  Ends Q hang = Unit

  pub Ends-done :
      (Q : A → S → Type 0) (o : Outcome S A) {a : A} {s : S} → Ends Q o → o ≡ done a s → Q a s
  Ends-done Q o h e = subst (Ends Q) e h

  pub Ends-map :
      (Q R : A → S → Type 0) (o : Outcome S A)
      → ((a : A) (s : S) → Q a s → R a s)
      → Ends Q o
      → Ends R o
  Ends-map Q R (done a s) f h = f a s h
  Ends-map Q R (err e s) f h = tt
  Ends-map Q R fault f h = tt
  Ends-map Q R hang f h = tt

  pub Ends-recode :
      (Q : A → S → Type 0) (e : ErrorCode) (o : Outcome S A) → Ends Q o → Ends Q (recode e o)
  Ends-recode Q e (done a s) h = h
  Ends-recode Q e (err e' s) h = tt
  Ends-recode Q e fault h = tt
  Ends-recode Q e hang h = tt

-- What holds of every value and state.
pub Ends-all :
    {S A : Type 0} (Q : A → S → Type 0) (o : Outcome S A) → ((a : A) (s : S) → Q a s) → Ends Q o
Ends-all Q (done a s) h = h a s
Ends-all Q (err e s) h = tt
Ends-all Q fault h = tt
Ends-all Q hang h = tt

pub Ends-and_then :
    {S A B : Type 0} (Q : A → S → Type 0) (R : B → S → Type 0) (o : Outcome S A) (k : A → Prog S B)
    → Ends Q o
    → ((a : A) (s : S) → Q a s → Ends R (k a s))
    → Ends R (and_then o k)
Ends-and_then Q R (done a s) k h f = f a s h
Ends-and_then Q R (err e s) k h f = tt
Ends-and_then Q R fault k h f = tt
Ends-and_then Q R hang k h f = tt

-- A function that leaves the state as it is.
pub Ends-and_then_same :
    {S A B : Type 0} (P : A → Type 0) (R : B → S → Type 0) (s : S) (o : Outcome S A)
    (k : A → Prog S B)
    → Ends (λ a t. P a × (t ≡ s)) o
    → ((a : A) → P a → Ends R (k a s))
    → Ends R (and_then o k)
Ends-and_then_same P R s o k h f =
    Ends-and_then (λ a t. P a × (t ≡ s)) R o k h
      (λ a t e. subst (λ t. Ends R (k a t)) (sym (e.1)) (f a (e.0)))

pub Ends-put_back :
    {S T A : Type 0} (Q : A → S → Type 0) (f : T → S) (o : Outcome T A)
    → Ends (λ a t. Q a (f t)) o
    → Ends Q (put_back f o)
Ends-put_back Q f (done a t) h = h
Ends-put_back Q f (err e t) h = tt
Ends-put_back Q f fault h = tt
Ends-put_back Q f hang h = tt

-- A function on a part leaves what does not depend on that part.
pub Ends-part :
    {S T A : Type 0} (Q : S → Type 0) (f : T → S) (o : Outcome T A)
    → ((t : T) → Q (f t))
    → Ends (λ a s. Q s) (put_back f o)
Ends-part Q f (done a t) h = h t
Ends-part Q f (err e t) h = tt
Ends-part Q f fault h = tt
Ends-part Q f hang h = tt

pub Ends-chain :
    {S A B : Type 0} (Q : S → Type 0) (o : Outcome S A) (k : A → Prog S B)
    → Ends (λ a s. Q s) o
    → ((a : A) (s : S) → Q s → Ends (λ b s. Q s) (k a s))
    → Ends (λ b s. Q s) (and_then o k)
Ends-chain Q o k h f = Ends-and_then (λ a s. Q s) (λ b s. Q s) o k h f

-- Where the function returns or fails, the state satisfies `Q`.
module _ {S A : Type 0} (Q : S → Type 0) where
  abbrev pub Leaves : Outcome S A → Type 0
  Leaves (done a s) = Q s
  Leaves (err e s) = Q s
  Leaves fault = Unit
  Leaves hang = Unit

  pub Leaves-recode : (e : ErrorCode) (o : Outcome S A) → Leaves o → Leaves (recode e o)
  Leaves-recode e (done a s) h = h
  Leaves-recode e (err e' s) h = h
  Leaves-recode e fault h = tt
  Leaves-recode e hang h = tt

  pub Leaves-part :
      {T : Type 0} (f : T → S) (o : Outcome T A) → ((t : T) → Q (f t)) → Leaves (put_back f o)
  Leaves-part f (done a t) h = h t
  Leaves-part f (err e t) h = h t
  Leaves-part f fault h = tt
  Leaves-part f hang h = tt

  pub Leaves-Ends : (o : Outcome S A) → Leaves o → Ends (λ a s. Q s) o
  Leaves-Ends (done a s) h = h
  Leaves-Ends (err e s) h = tt
  Leaves-Ends fault h = tt
  Leaves-Ends hang h = tt

  pub Leaves-err : (o : Outcome S A) {e : ErrorCode} {s : S} → Leaves o → o ≡ err e s → Q s
  Leaves-err o h e = subst Leaves e h

pub Leaves-chain :
    {S A B : Type 0} (Q : S → Type 0) (o : Outcome S A) (k : A → Prog S B)
    → Leaves Q o
    → ((a : A) (s : S) → Q s → Leaves Q (k a s))
    → Leaves Q (and_then o k)
Leaves-chain Q (done a s) k h f = f a s h
Leaves-chain Q (err e s) k h f = h
Leaves-chain Q fault k h f = tt
Leaves-chain Q hang k h f = tt

pub Leaves-put_back :
    {S T A : Type 0} (Q : S → Type 0) (f : T → S) (o : Outcome T A)
    → Leaves (λ t. Q (f t)) o
    → Leaves Q (put_back f o)
Leaves-put_back Q f (done a t) h = h
Leaves-put_back Q f (err e t) h = h
Leaves-put_back Q f fault h = tt
Leaves-put_back Q f hang h = tt

-- What holds of every state.
pub Leaves-all : {S A : Type 0} (Q : S → Type 0) (o : Outcome S A) → ((s : S) → Q s) → Leaves Q o
Leaves-all Q (done a s) h = h s
Leaves-all Q (err e s) h = h s
Leaves-all Q fault h = tt
Leaves-all Q hang h = tt

pub Leaves-map :
    {S A : Type 0} (Q R : S → Type 0) (o : Outcome S A)
    → ((s : S) → Q s → R s)
    → Leaves Q o
    → Leaves R o
Leaves-map Q R (done a s) f h = f s h
Leaves-map Q R (err e s) f h = f s h
Leaves-map Q R fault f h = tt
Leaves-map Q R hang f h = tt
