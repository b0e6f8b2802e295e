-- ===== src/Tests/Queues.antt =====
-- Runs of src/mqueue.c.
use distributed_process.Base.{
  ℕ, ◌≡◌, refl, arith, none, some, [], ◌∷◌, error_memory, err, hang, Env,
}
use distributed_process.Queue.{
  Queue, enqueue, dequeue, take_front, queue_empty, copy_ring, realloc_queue, make_room,
  insert_back,
}
use distributed_process.Queue.Ring.{IsValid}
use distributed_process.Queue.Fifo.{enqueue_refused}
use distributed_process.Queue.Runs.{run, fifo, run_refines}
use distributed_process.Tests.Samples.{generous, refusing, ring, script}

ring-IsValid : IsValid ring
ring-IsValid = record {
  sized = refl;
  front_in = omega arith;
  bounded = omega arith;
  narrow = omega arith;
  behind = refl;
  free = refl;
}

run-ring : run 0 generous script ring ≡ some 7 ∷ some 8 ∷ some 9 ∷ some 10 ∷ none ∷ []
unfolding run enqueue dequeue take_front queue_empty copy_ring realloc_queue make_room insert_back
run-ring = refl

run_refines_example : run 0 generous script ring ≡ fifo script (7 ∷ 8 ∷ [])
run_refines_example =
    run_refines 0 generous script ring (λ n. refl) ring-IsValid (omega arith) (omega arith)

enqueue_refused_example :
    (q' : Queue ℕ) × (enqueue 0 refusing 9 ring ≡ err error_memory q')
    × (q'.elems ≡ [])
    × ((env' : Env) (y : ℕ) → enqueue 0 env' y q' ≡ hang)
    × (dequeue q' ≡ hang)
enqueue_refused_example = enqueue_refused 0 refusing ring 9 ring-IsValid refl refl
