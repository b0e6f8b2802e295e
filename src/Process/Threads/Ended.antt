-- ===== src/Process/Threads/Ended.antt =====
-- The end of the sender threads of src/sender.c and of the receiver thread of src/receiver.c.
use distributed_process.Base.{
  Every, ℕ, suc, ◌+◌, ◌≡◌, ◌⊎◌, inl, inr, ◌∙◌, refl, sym, ap, ap₂, List, [], ◌∷◌, map, append-nil,
  length, arith, done, and_then-step,
}
use distributed_process.Process.{Thread, running, ended, joined, SenderThread, Process}
use distributed_process.Process.Threads.Each.{pushed-same, Makes, for_each-prefix}
use distributed_process.Process.Threads.{for_each, cancel, join, terminate_senders}

-- A thread that runs, or that has ended by itself.
abbrev pub IsLive : SenderThread → Type 0
IsLive t = (t.thread ≡ running) ⊎ (t.thread ≡ ended)

abbrev pub with_thread : Thread → List SenderThread → List SenderThread
with_thread state = map {A = SenderThread} {B = SenderThread} (λ t. record t { thread = state })

length-with_thread :
    (state : Thread) (ts : List SenderThread) → length (with_thread state ts) ≡ length ts
length-with_thread state [] = refl
length-with_thread state (t ∷ ts) = ap suc (length-with_thread state ts)

module _ (A : Type 0) where
  cancel-Makes :
      (i : ℕ) (ts : List SenderThread)
      → Every IsLive ts
      → Makes {A = A} cancel (λ j l. l) i ts (with_thread ended ts)
  cancel-Makes i [] h = tt
  cancel-Makes i (t ∷ ts) (inl e, hs) = (λ p. rw (e, cancel) refl, cancel-Makes (suc i) ts hs)
  cancel-Makes i (t ∷ ts) (inr e, hs) = (
    λ p. rw (e, cancel) (ap (λ x. done (record t { thread = x }) p) e),
    cancel-Makes (suc i) ts hs,
  )

  join-Makes :
      (i : ℕ) (ts : List SenderThread)
      → Makes {A = A} join (λ j l. l) i (with_thread ended ts) (with_thread joined ts)
  join-Makes i [] = tt
  join-Makes i (t ∷ ts) = (λ p. refl, join-Makes (suc i) ts)

-- Where each of the `n` sender threads runs or has ended by itself, `terminate_senders` returns, with
-- all of them joined.
pub terminate_senders_lem :
    {A : Type 0} (n : ℕ) (p : Process A)
    → length p.senders ≡ n
    → Every IsLive p.senders
    → terminate_senders n p ≡ done tt (record p { senders = with_thread joined p.senders })
unfolding terminate_senders for_each
terminate_senders_lem {A} n p size live =
    let ts = p.senders in
    let whole : (state : Thread) → length (with_thread state ts) + 0 ≡ n =
      λ state. omega (arith, length-with_thread state ts, size) in
    let q : Process A = record p { senders = with_thread ended ts } in
    and_then-step (for_each cancel 0 n p) _ (
      for_each-prefix cancel (λ j l. l) [] ts (with_thread ended ts) [] 0 n n 0 p
        (sym (append-nil ts)) refl (omega (arith, size)) (omega (arith, size))
        (cancel-Makes A 0 ts live)
      ∙ ap₂ (λ l k. done tt (record p { senders = l; sockets = k }))
          (append-nil (with_thread ended ts)) (pushed-same 0 (length ts) p.sockets))
    ∙ for_each-prefix join (λ j l. l) [] (with_thread ended ts) (with_thread joined ts) [] 0 n n 0 q
        (sym (append-nil (with_thread ended ts))) refl (omega (arith, whole ended))
        (omega (arith, whole ended)) (join-Makes A 0 ts)
    ∙ ap₂ (λ l k. done tt (record p { senders = l; sockets = k }))
        (append-nil (with_thread joined ts))
        (pushed-same 0 (length (with_thread ended ts)) p.sockets)
