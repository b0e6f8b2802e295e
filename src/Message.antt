-- ===== src/Message.antt =====
-- The messages of include/data.h, and their form on the wire in src/layerzero.c: an array of
-- `unsigned int`s.
pub mod RoundTrip
use distributed_process.Base.{
  ℕ, ◌+◌, ◌*◌, Bool, true, false, Option, none, some, List, [], ◌∷◌, ◌++◌, length, get_elem?, take,
  drop, replicate, tabulate, ltb, ◌==◌, if◌then◌else◌, error_memory, error_pointer, done, err,
  fault, hang, Prog, Ok, and_then, ◌>>=◌, ◌>>◌, pure, crash, raise, read_at, put_back, within, Env,
}

-- `vec_clock_t` in a message; a null `vector` is the empty list. Its mutex is never used.
pub record VecClock : Type 0 where
  pub num_proc : ℕ
  pub vector : List ℕ

pub record FifoMsg : Type 0 where
  pub sequence_num : ℕ
  pub original_sender : ℕ

pub record LcbMsg : Type 0 where
  pub vec_clock : VecClock
  pub original_sender : ℕ

pub record UrbMsg : Type 0 where
  pub lcb_msg : LcbMsg
  pub fifo_msg : FifoMsg
  pub seen_id : ℕ
  pub mid : ℕ

-- `msg_t`; `mtype` is 1 for an acknowledgement.
pub record Msg : Type 0 where
  pub urb_msg : UrbMsg
  pub mid : ℕ
  pub ackid : ℕ
  pub sender : ℕ
  pub mtype : ℕ

-- `queue_task_t`.
pub record Task : Type 0 where
  pub pid_dest : ℕ
  pub msg : Msg

abbrev pub no_clock : VecClock
no_clock = record { num_proc = 0; vector = [] }

abbrev pub blank_fifo : FifoMsg
blank_fifo = record { sequence_num = 0; original_sender = 0 }

abbrev pub blank_msg : Msg
blank_msg = record {
  urb_msg = record {
    lcb_msg = record { vec_clock = no_clock; original_sender = 0 };
    fifo_msg = blank_fifo;
    seen_id = 0;
    mid = 0;
  };
  mid = 0;
  ackid = 0;
  sender = 0;
  mtype = 0;
}

-- The task whose bytes are all 0.
abbrev pub blank_task : Task
blank_task = record { pid_dest = 0; msg = blank_msg }

-- `alloc_vector` of src/pending.c: a copy of the first `num_proc` of `values`.
unfoldable pub alloc_vector : Env → ℕ → List ℕ → Prog VecClock Ok
alloc_vector env num_proc values c =
    if env.grants (4 * num_proc)
    then (if ltb (length values) num_proc
        then fault
        else done tt (record { num_proc = num_proc; vector = take num_proc values }))
    else err error_memory (record { num_proc = num_proc; vector = [] })

-- `destroy_vector`; the pointer itself is left as it is.
pub destroy_vector : Prog VecClock Ok
destroy_vector c = if length c.vector == 0 then err error_pointer c else done tt c

abbrev pub num_static : ℕ
num_static = 7

abbrev pub num_fields : ℕ → ℕ
num_fields num_proc = num_static + num_proc

-- In bytes.
abbrev pub message_size : ℕ → ℕ
message_size num_proc = 4 * num_static + 4 * num_proc

-- The buffer as an array of `num_fields` numbers. `temp` is not initialised, so an acknowledgement
-- carries from its fifth field on what the memory held. The state is the message.
unfoldable pub serialize : Env → ℕ → Prog Msg (List ℕ)
serialize env num_proc m =
    if env.grants (message_size num_proc)
    then (if m.mtype == 1
        then done (head ++ tabulate env.junk 4 (3 + num_proc)) m
        else if ltb (length vector) num_proc
        then fault
        else done
            (head
              ++ (m.urb_msg.mid
                  ∷ m.urb_msg.seen_id
                  ∷ m.urb_msg.lcb_msg.original_sender
                  ∷ take num_proc vector))
            m)
    else err error_memory m
  where
    head : List ℕ
    head = m.mid ∷ m.ackid ∷ m.sender ∷ m.mtype ∷ []

    vector : List ℕ
    vector = m.urb_msg.lcb_msg.vec_clock.vector

-- The part that only an ordinary message has.
pub read_urb : Env → ℕ → List ℕ → Prog UrbMsg Ok
read_urb env num_proc buffer = do
  a ← read_at buffer 4
  b ← read_at buffer 5
  c ← read_at buffer 6
  λ u.
      put_back
        (λ (k : VecClock). record u {
          mid = a;
          seen_id = b;
          lcb_msg = record { vec_clock = k; original_sender = c };
        })
        (alloc_vector env num_proc (drop num_static buffer) u.lcb_msg.vec_clock)

-- The state is the message that is filled in; `none` is a null buffer.
unfoldable pub deserialize : Env → Option (List ℕ) → ℕ → Prog Msg Ok
unfolding read_urb alloc_vector
deserialize env none num_proc = raise error_pointer
deserialize env (some buffer) num_proc = do
  a ← read_at buffer 0
  b ← read_at buffer 1
  c ← read_at buffer 2
  d ← read_at buffer 3
  λ m.
      let m' = record m { mid = a; ackid = b; sender = c; mtype = d } in
      if d == 1
      then done tt m'
      else within (λ m. m.urb_msg) (λ m u. record m { urb_msg = u }) (read_urb env num_proc buffer)
          m'
