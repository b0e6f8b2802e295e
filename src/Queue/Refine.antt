-- ===== src/Queue/Refine.antt =====
-- The growth of the queue of src/mqueue.c, against the list of its tasks.
use native.Mathlib.Nat.{mod-lt}
use distributed_process.Base.{
  ℕ, zero, suc, ◌+◌, ◌*◌, ◌%◌, ◌^◌, ◌≤◌, ◌<◌, ◌≡◌, ◌⊎◌, ◌∙◌, refl, inl, inr, sym, ap, true, false,
  some, List, length, get_elem?, get_or, set, replicate, tabulate_congr, length-set,
  length-replicate, get_or-set_self, get_or-set_ne, get_elem?-eq-get_or, ltb, ◌==◌, Bool-cases,
  arith, u32, done, Env,
}
use distributed_process.Queue.{Queue, task_bytes, copy_ring, realloc_queue}
use distributed_process.Queue.Ring.{slot, slot-start, slot-zero, slot-suc, contents, IsValid}

-- The queue with its mutex free: a call holds it while it works.
abbrev pub unlocked : {A : Type 0} → Queue A → Queue A
unlocked q = record q { locked = false }

module _ {A : Type 0} (blank : A) where
  -- What the copying loop leaves in the new ring: the tasks of the old one from slot 0 on.
  record Copied (old : List A) (size front i n : ℕ) (new new' : List A) : Type 0 where
    same_size : length new' ≡ length new
    before : (k : ℕ) → k < i → get_or new' k blank ≡ get_or new k blank
    moved : (k : ℕ) → i ≤ k → k < i + n → get_or new' k blank ≡ get_or old (slot size front k) blank

  copy_ring_lem :
      (old : List A) (size front index i n : ℕ) (new : List A)
      → length old ≡ size
      → front < size
      → size < 2 ^ 31
      → index ≡ slot size front i
      → i + n ≤ length new
      → (new' : List A) × (copy_ring blank old size index i n new ≡ some new')
        × Copied old size front i n new new'
  unfolding copy_ring
  copy_ring_lem old size front index i zero new sized b narrow at fits = (
    new,
    refl,
    record { same_size = refl; before = λ k h. refl; moved = λ k low high. absurd (omega arith) },
  )
  copy_ring_lem old size front index i (suc n) new sized b narrow at fits =
      let inside : index < size = omega (arith, mod-lt (front + i) {m = size} (omega arith)) in
      let x = get_or old index blank in
      let next : u32 (index + 1) % size ≡ slot size front (i + 1) =
        ap (λ k. k % size) (omega arith)
        ∙ ap (λ k. slot size k 1) at
        ∙ sym (slot-suc size front i)
        ∙ ap (slot size front) (omega arith) in
      let found : get_elem? old index ≡ some x =
        get_elem?-eq-get_or old index blank (omega arith) in
      let room : ltb i (length new) ≡ true = ground arith in
      let (new', e, c) =
        copy_ring_lem old size front (u32 (index + 1) % size) (i + 1) n (set new i x) sized b narrow
          next (omega (arith, length-set new i x)) in
      (
        new',
        rw (found, room, copy_ring) e,
        record {
          same_size = c.same_size ∙ length-set new i x;
          before = λ k h. c.before k (omega arith) ∙ get_or-set_ne new i k x blank (omega arith);
          moved = λ k low high. elim (Bool-cases (k == i)) [
            | inl eq ↦
                let here : k ≡ i = ground arith in
                ap (λ j. get_or new' j blank) here
                ∙ c.before i (omega arith)
                ∙ get_or-set_self new i x blank (omega arith)
                ∙ ap (λ j. get_or old j blank) (at ∙ ap (slot size front) (sym here))
            | inr ne ↦ c.moved k (ground arith) (omega arith)
          ];
        },
      )

  pub record HasRoom (q q' : Queue A) : Type 0 where
    pub valid : IsValid (unlocked q')
    pub room : q'.no_elem < q'.qsize
    pub same : contents blank q' ≡ contents blank q
    pub count : q'.no_elem ≡ q.no_elem
    pub growth : (q'.qsize ≡ q.qsize) ⊎ (q'.qsize ≡ q.no_elem * 2)

  pub realloc_queue_lem :
      (env : Env) (q : Queue A)
      → IsValid (unlocked q)
      → q.no_elem ≡ q.qsize
      → q.qsize < 2 ^ 30
      → env.grants (task_bytes * (q.qsize * 2)) ≡ true
      → (q' : Queue A) × (realloc_queue blank env q ≡ done tt q') × HasRoom q q'
  unfolding realloc_queue
  realloc_queue_lem env q v full narrow granted =
      let wide : u32 (q.qsize * 2) ≡ q.qsize * 2 = omega arith in
      let fresh = replicate (q.qsize * 2) blank in
      let fits = length-replicate (q.qsize * 2) blank in
      let (new', e, c) =
        copy_ring_lem q.elems q.qsize q.front q.front 0 q.no_elem fresh v.sized v.front_in v.narrow
          (sym (slot-zero q.qsize q.front v.front_in)) (omega (arith, fits)) in
      (
        record q { elems = new'; front = 0; back = q.no_elem; qsize = q.qsize * 2 },
        rw (wide, granted, e, wide),
        record {
          valid = record {
            sized = c.same_size ∙ fits;
            front_in = omega (arith, v.front_in);
            bounded = omega arith;
            narrow = omega arith;
            behind = sym (slot-start (q.qsize * 2) q.no_elem (omega (arith, v.front_in)));
            free = refl;
          };
          room = omega (arith, v.front_in);
          same =
              tabulate_congr (λ k. get_or new' (slot (q.qsize * 2) 0 k) blank)
                (λ k. get_or q.elems (slot q.qsize q.front k) blank) 0 q.no_elem
                (λ k low high.
                  ap (λ j. get_or new' j blank)
                    (slot-start (q.qsize * 2) k (omega (arith, v.front_in)))
                  ∙ c.moved k low high);
          count = refl;
          growth = inr (ap (λ k. k * 2) (sym full));
        },
      )
