-- ===== src/Message/RoundTrip.antt =====
-- The messages of src/layerzero.c, on the wire and back.
use distributed_process.Base.{
  ℕ, ◌+◌, ◌*◌, ◌≡◌, ◌≢◌, ◌∙◌, sym, ap, true, false, some, List, [], ◌∷◌, ◌++◌, length, take,
  take-length, tabulate, length-tabulate, ltb, ◌==◌, arith, done, Env,
}
use distributed_process.Message.{Msg, message_size, serialize, deserialize, num_static}

-- The reader gets the message `m` in place of the message `old` that it had: all but the part of
-- the FIFO layer, which is not sent.
abbrev pub received : ℕ → Msg → Msg → Msg
received num_proc m old = record m {
  urb_msg = record (m.urb_msg) {
    fifo_msg = old.urb_msg.fifo_msg;
    lcb_msg = record (m.urb_msg.lcb_msg) {
      vec_clock = record { num_proc = num_proc; vector = m.urb_msg.lcb_msg.vec_clock.vector };
    };
  };
}

module _ (env : Env) (num_proc : ℕ) (m old : Msg)
    (sending : env.grants (message_size num_proc) ≡ true) where
  -- With memory granted, an ordinary message whose clock has an entry for each process is read back
  -- with its ids, its senders, its type and its clock, whatever the reader's buffer held before.
  pub deserialize-serialize :
      (env' : Env)
      → m.mtype ≢ 1
      → length m.urb_msg.lcb_msg.vec_clock.vector ≡ num_proc
      → env'.grants (4 * num_proc) ≡ true
      → (buffer : List ℕ) × (serialize env num_proc m ≡ done buffer m)
        × (length buffer ≡ num_static + num_proc)
        × (deserialize env' (some buffer) num_proc old ≡ done tt (received num_proc m old))
  unfolding serialize deserialize
  deserialize-serialize env' ordinary full reading =
      let plain : (m.mtype == 1) ≡ false = ground arith in
      let vector = m.urb_msg.lcb_msg.vec_clock.vector in
      let whole : take num_proc vector ≡ vector =
        ap (λ n. take n vector) (sym full) ∙ take-length vector in
      let enough : ltb (length vector) num_proc ≡ false = ground arith in
      (
        m.mid ∷ m.ackid ∷ m.sender ∷ m.mtype ∷ m.urb_msg.mid ∷ m.urb_msg.seen_id
            ∷ m.urb_msg.lcb_msg.original_sender ∷ vector,
        rw (sending, plain, enough, whole),
        omega (arith, full),
        rw (plain, reading, enough, whole),
      )

  -- With memory granted, an acknowledgement is read back with its ids, its sender and its type, and
  -- leaves the reader's other fields as they were.
  pub deserialize-serialize_ack :
      (env' : Env)
      → m.mtype ≡ 1
      → (buffer : List ℕ) × (serialize env num_proc m ≡ done buffer m)
        × (length buffer ≡ num_static + num_proc)
        × (deserialize env' (some buffer) num_proc old
            ≡ done tt (record m { urb_msg = old.urb_msg }))
  unfolding serialize deserialize
  deserialize-serialize_ack env' ack =
      let is : (m.mtype == 1) ≡ true = ground arith in
      (
        (m.mid ∷ m.ackid ∷ m.sender ∷ m.mtype ∷ []) ++ tabulate env.junk 4 (3 + num_proc),
        rw (sending, is),
        omega (arith, length-tabulate env.junk 4 (3 + num_proc)),
        rw is,
      )
