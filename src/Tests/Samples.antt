-- ===== src/Tests/Samples.antt =====
-- The inputs of the tests: a process of two, its tables, its queue and its log.
use distributed_process.Base.{ℕ, true, false, none, some, List, [], ◌∷◌, Env}
use distributed_process.Table.{UidTable}
use distributed_process.UrbTable.{UrbTable, entry}
use distributed_process.Queue.{Queue}
use distributed_process.Queue.Runs.{Op, put, get}
use distributed_process.Log.{LogData}
use distributed_process.AddrBook.{AddrBook}
use distributed_process.Dependencies.{Dependencies}
use distributed_process.Message.{VecClock, LcbMsg, Msg}
use distributed_process.Pending.{empty_list}
use distributed_process.Node.{NetData}

-- Every call of the system succeeds.
abbrev pub generous : Env
generous = record {
  grants = λ n. true;
  address = 5;
  junk = λ i. 4294967295;
  sends = true;
  writes = λ n. n;
  mutexes = true;
}

-- Every call of the system fails.
abbrev pub refusing : Env
refusing = record {
  grants = λ n. false;
  address = 5;
  junk = λ i. 4294967295;
  sends = false;
  writes = λ n. 0;
  mutexes = false;
}

-- 7, then 8, round the end of a ring that is full.
abbrev pub ring : Queue ℕ
ring = record { no_elem = 2; qsize = 2; front = 1; back = 1; elems = 8 ∷ 7 ∷ []; locked = false }

abbrev pub script : List (Op ℕ)
script = get ∷ put 9 ∷ put 10 ∷ get ∷ get ∷ get ∷ get ∷ []

-- Two processes, one message.
abbrev pub acks_table : UidTable
acks_table = record { no_msgs = 1; no_process = 2; total_entries = 4; entries = 1 ∷ 1 ∷ 1 ∷ 1 ∷ [] }

abbrev pub urb_flags : UrbTable
urb_flags = record {
  values = entry 1 0 ∷ entry 0 0 ∷ [];
  no_msgs = 1;
  no_process = 2;
  total_entries = 2;
}

-- `b 1` in a buffer of 8 bytes.
abbrev pub log_file : LogData
log_file = record {
  file = [];
  buffer = 98 ∷ 32 ∷ 49 ∷ 10 ∷ 0 ∷ 0 ∷ 0 ∷ 0 ∷ [];
  buf_current_size = 4;
  buf_max_size = 8;
  locked = false;
}

abbrev pub book : AddrBook ℕ
book = record { num_proc = 2; addresses = 101 ∷ 102 ∷ [] }

-- Process 1 depends on itself, and process 2 on both.
abbrev pub matrix : Dependencies
matrix = record {
  dep_lists =
      record { pid_list = some (1 ∷ []); list_len = 1 }
      ∷ record { pid_list = some (1 ∷ 2 ∷ []); list_len = 2 }
      ∷ [];
  num_proc = 2;
}

abbrev pub clock_of : ℕ → ℕ → VecClock
clock_of a b = record { num_proc = 2; vector = a ∷ b ∷ [] }

-- Process 1, which has delivered one message of its own.
abbrev pub process : NetData ℕ
process = record {
  address_book = some book;
  self_pid = 1;
  num_proc = 2;
  num_msg = 0;
  pl_acks = record { table = acks_table; locked = false };
  pl_delivered = acks_table;
  task_q = record { no_elem = 0; qsize = 0; front = 0; back = 0; elems = []; locked = false };
  pending = record { bol = 0 ∷ 0 ∷ 0 ∷ 0 ∷ []; no_msgs = 2; no_process = 2; total_entries = 4 };
  next = record { no_process = 2; entries = 0 ∷ 0 ∷ [] };
  urb_table = urb_flags;
  urbacks = acks_table;
  logdata = log_file;
  dependencies = some matrix;
  lcb_pending = record { num_proc = 2; lists = empty_list ∷ empty_list ∷ []; heap = λ p. none };
  vector_clock = clock_of 1 0;
  clock_locked = false;
  wire = [];
}

-- The same with one message of process 2 that waits.
abbrev pub waiting : NetData ℕ
waiting = record process {
  lcb_pending = record {
    num_proc = 2;
    lists = empty_list ∷ record { num_elems = 1; head = 5; tail = 5 } ∷ [];
    heap = λ p. some (record { clock = clock_of 1 1; next = 0; previous = 0 });
  };
}

-- The first message of process 2, and its second, which depends on the first.
abbrev pub first_msg : LcbMsg
first_msg = record { vec_clock = clock_of 1 0; original_sender = 2 }

abbrev pub second_msg : LcbMsg
second_msg = record { vec_clock = clock_of 1 1; original_sender = 2 }

abbrev pub msg_of_type : ℕ → Msg
msg_of_type mtype = record {
  urb_msg = record {
    lcb_msg = first_msg;
    fifo_msg = record { sequence_num = 1; original_sender = 2 };
    seen_id = 1;
    mid = 3;
  };
  mid = 3;
  ackid = 2;
  sender = 2;
  mtype = mtype;
}
