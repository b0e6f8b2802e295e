-- ===== src/Tests/Starts.antt =====
-- A process of two that starts and stops, and starts that the system refuses.
use distributed_process.Base.{
  ℕ, List, Every, inr, none, ◌==◌, ◌+◌, ◌≡◌, ◌<◌, refl, inl, true, false, some, [], ◌∷◌, ◌++◌,
  tabulate, arith, done, err, error_bind, error_thread,
}
use distributed_process.Node.{NetData}
use distributed_process.Process.{SenderThread, ended, absent, running, queue_elems, Process}
use distributed_process.Process.Threads.{System}
use distributed_process.Process.Threads.Ended.{IsLive}
use distributed_process.Base.{sym, subst, ◌∙◌}
use distributed_process.Table.{AckTable}
use distributed_process.Message.{Msg, blank_msg, deserialize}
use distributed_process.Node.Link.{receive_msg, deliver_pl, without_vector}
use distributed_process.Node.Link.Known.{Acked, deliver_pl-IsAcked, receiver_round_lem}
use distributed_process.Node.Run.{Run, rest, receives}
use distributed_process.Process.Threads.Spawned.{opened, spawned}
use distributed_process.Process.Release.{free_data}
use distributed_process.Process.Release.Freed.{Released, free_data_lem}
use distributed_process.Process.Main.{stop}
use distributed_process.Process.Main.Stopped.{Stopped, stop_lem}
use distributed_process.Process.Main.Booted.{
  Given, boot, IsSound, GrantsThreads, IsUp, prepared, Prepares, init_data-IsUp,
}
use distributed_process.Process.Main.Whole.{IsLive-spawned, boot_then_stop}
use distributed_process.Process.Main.Refused.{main_of, main-no_bind, main-no_thread}
use distributed_process.Tests.Samples.{generous, process}
use distributed_process.Tests.Files.{file, unset, aton, address_of, file-IsMembership}

-- The descriptors are 3 for the receiver, and 4 and more for the senders.
abbrev granting : System
granting = record {
  receiver_socket = some 3;
  binds = true;
  receiver_starts = true;
  socket = λ j. some (j + 4);
  starts = λ j. true;
  cancels = true;
}

abbrev given : System → Given (List ℕ) (List ℕ)
given s = record {
  blank = [];
  aton = aton;
  address_of = address_of;
  env = generous;
  system = s;
  size = 2;
  members = file;
  name = [];
  path = [];
  more = [];
  self = 1;
  num = 5;
  own = record { pid = 1; ip = b'a' ∷ []; ipv4 = b'a' ∷ []; port = 80 };
  fd = 3;
  fds = λ j. j + 4;
}

-- Before `main`: the global data of the program.
abbrev fresh : Process (List ℕ)
fresh = record {
  net = unset;
  senders = [];
  receiver = absent;
  receiver_fd = 0;
  bound = none;
  sockets = [];
  log_open = false;
  freed = λ b. false;
}

given-IsSound : (s : System) → IsSound (given s) fresh
given-IsSound s = record {
  grants = λ k. refl;
  mutexes = refl;
  file = file-IsMembership;
  small = record { positive = omega arith; narrow = omega arith };
  free = refl;
  there = inl refl;
  mine = refl;
  positive = omega arith;
  digit = omega arith;
  some_messages = omega arith;
  few_messages = omega arith;
}

granting-GrantsThreads : GrantsThreads (given granting)
granting-GrantsThreads = record {
  receiver_socket = refl;
  binds = refl;
  receiver_starts = refl;
  socket = λ j. refl;
  starts = λ j. refl;
}

init_data-IsUp_example :
    (p' : Process (List ℕ)) × (boot (given granting) fresh ≡ done tt p')
    × IsUp (given granting) fresh p'
init_data-IsUp_example =
    init_data-IsUp (given granting) fresh (given-IsSound granting) granting-GrantsThreads

-- The first sender has ended by itself.
abbrev process_up : Process (List ℕ)
process_up =
    (init_data-IsUp (given granting) fresh (given-IsSound granting) granting-GrantsThreads).0

abbrev one_ended : List SenderThread
one_ended = record { thread = ended; idx = 0; socket_fd = 4 } ∷ tabulate (spawned (λ j. j + 4)) 1 9

nine-IsLive : Every IsLive (tabulate (spawned (λ j. j + 4)) 1 9)
nine-IsLive = IsLive-spawned (λ j. j + 4) 1 9

-- An acknowledgement of message 2 comes to the process that is up, and is entered.
abbrev ack_words : List ℕ
ack_words = 3 ∷ 2 ∷ 2 ∷ 1 ∷ []

abbrev ack_2 : Msg
ack_2 = record blank_msg { mid = 3; ackid = 2; sender = 2; mtype = 1 }

is_up : IsUp (given granting) fresh process_up
is_up = (init_data-IsUp (given granting) fresh (given-IsSound granting) granting-GrantsThreads).2

two_processes : process_up.net.num_proc ≡ 2
two_processes = is_up.parts.same_num_proc ∙ is_up.parsed.num_proc

read_2 : receive_msg generous (some ack_words) 2 blank_msg ≡ done tt ack_2
unfolding receive_msg deserialize
read_2 = refl

ack_entered :
    (a : AckTable) × (deliver_pl 1 generous blank_msg.urb_msg ack_2 process_up.net
      ≡ done tt (record (process_up.net) { pl_acks = a }))
    × Acked 2 a
ack_entered =
    deliver_pl-IsAcked generous 1 blank_msg.urb_msg ack_2 process_up.net (λ n h. refl)
      is_up.parts.acks refl (omega arith)

abbrev with_ack : NetData (List ℕ)
with_ack = record (process_up.net) { pl_acks = ack_entered.0 }

ack-Run : Run process_up.net with_ack
ack-Run =
    receives 1 generous blank_msg.urb_msg (some ack_words) blank_msg (without_vector ack_2) rest (
      receiver_round_lem 1 generous blank_msg.urb_msg (some ack_words) blank_msg ack_2
        process_up.net with_ack
        (subst (λ n. receive_msg generous (some ack_words) n blank_msg ≡ done tt ack_2)
          (sym two_processes) read_2)
        ack_entered.1)

boot_then_stop_example :
    (end : Process (List ℕ)) × (stop generous granting
        (record process_up { net = with_ack; senders = one_ended })
      ≡ done tt end)
    × Stopped true (record process_up { net = with_ack; senders = one_ended }) end
boot_then_stop_example =
    boot_then_stop (given granting) fresh process_up with_ack one_ended (given-IsSound granting)
      granting-GrantsThreads (λ n. refl) (λ b. refl)
      (init_data-IsUp (given granting) fresh (given-IsSound granting) granting-GrantsThreads).1
      ack-Run refl (inr refl, nine-IsLive)

-- Process 1 of the samples, with its threads.
abbrev busy : Process ℕ
busy = record {
  net = process;
  senders = tabulate (spawned (λ j. j + 4)) 0 10;
  receiver = running;
  receiver_fd = 3;
  bound = some 101;
  sockets = 3 ∷ [];
  log_open = true;
  freed = λ b. false;
}

free_data_lem_example : (p' : Process ℕ) × (free_data busy ≡ done tt p') × Released busy p'
free_data_lem_example = free_data_lem busy (λ b. refl) refl

stop_lem_example :
    (p' : Process ℕ) × (stop generous granting busy ≡ done tt p') × Stopped true busy p'
stop_lem_example =
    stop_lem generous granting busy (λ n. refl) refl (IsLive-spawned (λ j. j + 4) 0 10) refl
      (record { sized = refl; fits = omega arith; narrow = omega arith; free = refl }) refl
      (λ b. refl)

-- The port is in use.
abbrev taken : System
taken = record granting { binds = false }

main-no_bind_example :
    (d : NetData (List ℕ)) × Prepares (given taken) fresh d
    × ((r : Process (List ℕ)) × (main_of (given taken) (λ x. x) fresh ≡ err error_bind r)
        × Released (record (prepared d fresh) { receiver_fd = 3; sockets = 3 ∷ [] }) r)
main-no_bind_example =
    main-no_bind (given taken) (λ x. x) fresh (given-IsSound taken) (λ b. refl) refl refl

-- The first sender thread is the last that can be created.
abbrev crowded : System
crowded = record granting { starts = λ j. j == 0 }

first_only : (j : ℕ) → j < 1 → (j == 0) ≡ true
first_only j h = ground arith

main-no_thread_example :
    (r : Process (List ℕ)) × (main_of (given crowded) (λ x. x) fresh ≡ err error_thread r)
    × (r.receiver ≡ running)
    × (r.senders ≡ tabulate (spawned (λ j. j + 4)) 0 1 ++ tabulate (opened (λ j. j + 4)) 1 9)
    × (r.freed queue_elems ≡ true)
main-no_thread_example =
    main-no_thread (given crowded) (λ x. x) fresh (given-IsSound crowded) (λ b. refl) 1 8
      (omega arith) refl refl refl (λ j. refl) first_only refl
