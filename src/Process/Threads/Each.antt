-- ===== src/Process/Threads/Each.antt =====
-- What a loop over the sender threads of src/sender.c does, round by round.
use distributed_process.Base.{
  ℕ, zero, suc, ◌+◌, ◌≡◌, ◌∙◌, refl, sym, ap, some, List, [], ◌∷◌, ◌++◌, length, length-append,
  get_elem?, set, append_assoc, arith, done, err, ErrorCode, Prog,
}
use distributed_process.Process.{SenderThread, Process}
use distributed_process.Process.Threads.{for_each}

add-one : (i : ℕ) → i + 1 ≡ suc i
add-one i = omega arith

get_elem?-middle :
    {A : Type 0} (xs : List A) (y : A) (zs : List A)
    → get_elem? (xs ++ (y ∷ zs)) (length xs) ≡ some y
get_elem?-middle [] y zs = refl
get_elem?-middle (x ∷ xs) y zs = get_elem?-middle xs y zs

set-middle :
    {A : Type 0} (xs : List A) (y y' : A) (zs : List A)
    → set (xs ++ (y ∷ zs)) (length xs) y' ≡ (xs ++ (y' ∷ [])) ++ zs
set-middle [] y y' zs = refl
set-middle (x ∷ xs) y y' zs = ap (λ t. x ∷ t) (set-middle xs y y' zs)

-- The sockets that are open after `n` rounds from `i` on, each of which opens what `more` says.
abbrev pub pushed : (ℕ → List ℕ → List ℕ) → ℕ → ℕ → List ℕ → List ℕ
pushed more i zero l = l
pushed more i (suc n) l = pushed more (suc i) n (more i l)

pub pushed-same : (i n : ℕ) (l : List ℕ) → pushed (λ j l. l) i n l ≡ l
pushed-same i zero l = refl
pushed-same i (suc n) l = pushed-same (suc i) n l

module _ {A : Type 0} (body : ℕ → SenderThread → Prog (Process A) SenderThread)
    (more : ℕ → List ℕ → List ℕ) where
  -- The body makes of each element of one list that of the other.
  abbrev pub Makes : ℕ → List SenderThread → List SenderThread → Type 0
  Makes i [] [] = Unit
  Makes i [] (y ∷ ys) = ⊥
  Makes i (x ∷ xs) [] = ⊥
  Makes i (x ∷ xs) (y ∷ ys) =
      ((p : Process A) → body i x p ≡ done y (record p { sockets = more i p.sockets }))
      × Makes (suc i) xs ys

  for_each-step :
      (i n : ℕ) (x y : SenderThread) (p q : Process A)
      → get_elem? p.senders i ≡ some x
      → body i x p ≡ done y q
      → for_each body i (suc n) p
        ≡ for_each body (i + 1) n (record q { senders = set q.senders i y })
  unfolding for_each
  for_each-step i n x y p q e h = rw (e, for_each) (rw h refl)

  -- The round that fails.
  pub for_each_stop :
      (before : List SenderThread) (x : SenderThread) (rest : List SenderThread) (i n : ℕ)
      (p q : Process A) (e : ErrorCode)
      → p.senders ≡ before ++ (x ∷ rest)
      → length before ≡ i
      → body i x p ≡ err e q
      → for_each body i (suc n) p ≡ err e q
  unfolding for_each
  for_each_stop before x rest i n p q e found at h =
      let here : get_elem? p.senders i ≡ some x =
        ap (λ l. get_elem? l i) found
        ∙ ap (get_elem? (before ++ (x ∷ rest))) (sym at)
        ∙ get_elem?-middle before x rest in
      rw (here, for_each) (rw h refl)

  -- Rounds that succeed, before `m` others.
  pub for_each-prefix :
      (before xs ys rest : List SenderThread) (i j n m : ℕ) (p : Process A)
      → p.senders ≡ before ++ (xs ++ rest)
      → length before ≡ i
      → i + length xs ≡ j
      → length xs + m ≡ n
      → Makes i xs ys
      → for_each body i n p
        ≡ for_each body j m (record p {
          senders = before ++ (ys ++ rest);
          sockets = pushed more i (length xs) p.sockets;
        })
  for_each-prefix before [] [] rest i j n m p e at here left h =
      let start : i ≡ j = omega (arith, here) in
      let rounds : n ≡ m = omega (arith, left) in rw (start, rounds, ← e) refl
  for_each-prefix before [] (y ∷ ys) rest i j n m p e at here left h = elim h [ ]
  for_each-prefix before (x ∷ xs) [] rest i j n m p e at here left h = elim h [ ]
  for_each-prefix before (x ∷ xs) (y ∷ ys) rest i j n m p e at here left h =
      let rounds : suc (length xs + m) ≡ n = omega (arith, left) in
      let found : get_elem? p.senders i ≡ some x =
        ap (λ l. get_elem? l i) e
        ∙ ap (get_elem? (before ++ (x ∷ (xs ++ rest)))) (sym at)
        ∙ get_elem?-middle before x (xs ++ rest) in
      let q : Process A = record p { sockets = more i p.sockets } in
      let written : set p.senders i y ≡ (before ++ (y ∷ [])) ++ (xs ++ rest) =
        ap (λ l. set l i y) e
        ∙ ap (λ k. set (before ++ (x ∷ (xs ++ rest))) k y) (sym at)
        ∙ set-middle before x y (xs ++ rest) in
      let r : Process A = record q { senders = set q.senders i y } in
      ap (λ k. for_each body i k p) (sym rounds)
      ∙ for_each-step i (length xs + m) x y p q found (h.0 p)
      ∙ ap (λ k. for_each body k (length xs + m) r) (add-one i)
      ∙ for_each-prefix (before ++ (y ∷ [])) xs ys rest (suc i) j (length xs + m) m r written
          (omega (arith, at, length-append before (y ∷ []))) (omega (arith, here)) refl (h.1)
      ∙ ap
          (λ l. for_each body j m (record p {
            senders = l;
            sockets = pushed more (suc i) (length xs) (more i p.sockets);
          }))
          (append_assoc before (y ∷ []) (ys ++ rest))
