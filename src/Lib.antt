-- ===== src/Lib.antt =====
-- A process of a distributed system that broadcasts messages in localized causal order, over UDP.
--
-- The layers, from the top: localized causal broadcast (src/lcb.c, src/pending.c), uniform reliable
-- broadcast (src/urb.c), best-effort broadcast (src/beb.c), perfect links (src/plink.c), fair-loss
-- links (src/flink.c) and datagrams (src/layerzero.c). A broadcast goes down to `send_beb`, which puts
-- one task for each other process on a queue (src/mqueue.c). The sender threads (src/sender.c) take
-- tasks from it and send them until they are acknowledged; the receiver thread (src/receiver.c) reads
-- datagrams and passes them up from `deliver_pl` to `deliver_lcb`. A log (src/log.c) receives a line
-- for each start of a broadcast and for each delivery.
--
-- Which file models which part. A function of the program is a definition of the same name.
--   Base          what the modules share: words, lists, blocks of memory and, in Base/Program, what a
--                 C function does
--   Table         the tables of ids of src/plink.c, in the perfect link and the broadcast
--   UrbTable      the table of flags of src/urb.c
--   Queue         src/mqueue.c
--   Log           src/log.c, and the line that src/urb.c logs
--   AddrBook      src/addrbook.c
--   Dependencies  src/dependencies.c
--   Message       the messages of include/data.h, and their form on the wire in src/layerzero.c
--   FifoTable     the tables of src/fifo.c
--   Text          what src/parser.c uses of `fgets`, `strtok` and `atoi`
--   Pending       the lists of messages that wait, in src/pending.c
--   Node          `net_data_t` of include/data.h, with the layers on it: Clock and Causal
--                 (src/pending.c, src/lcb.c), Broadcast (src/beb.c, src/urb.c), Link (src/plink.c,
--                 src/flink.c, src/layerzero.c, src/receiver.c, src/sender.c), Fifo (src/fifo.c), Parser
--                 (src/parser.c), Start, the set-up of the parts in src/da_proc.c, and Run, the
--                 rounds of all threads in any order
--   Process       a process with its threads, sockets and memory: Threads, their creation and end
--                 (src/sender.c, src/receiver.c), Release, the functions that only release memory,
--                 and Main, `init_data`, `stop` and `main` of src/da_proc.c
--   Tests         runs on small inputs
--
-- A C function is a function from the state that it finds to an `Outcome`: a value or an error code
-- and the state that it leaves, or `fault` where it accesses memory that it does not own, or `hang`
-- where it never comes back. Memory that the code indexes is a list, with a `fault` outside it; the
-- nodes of the linked lists stand in a heap by their addresses. A mutex is a flag, and locking one
-- that a failed call has left held is a `hang`. What the system answers is a parameter, `Env`: whether
-- memory is granted, what fresh memory holds, how many bytes `fwrite` takes, whether `sendto`
-- succeeds; and, for the set-up of threads and sockets, `System`. A block that was released is marked
-- in the process, and releasing it again through a pointer that was left is a `fault`. An `unsigned int` is a natural number taken modulo 2 ^ 32 after each operation that may
-- exceed it, and a `size_t` modulo 2 ^ 64.
--
-- Bounds. The loops that grow a table have one round of fuel for each entry up to the index that is
-- written, and one more, which is enough because a table that is not empty doubles. The loops of
-- `find_pending`, and the loop around its calls, have a fuel that the caller gives; what is stated of
-- them holds for each fuel from one round on. `%u` has ten digits of fuel, enough for 32
-- bits, and `%zu` twenty, enough for 64.
--
-- The loop of `deliver_fifo` has a fuel that the caller gives, and one round for each message of the
-- sender up to one that has not come, and one more, are enough. The loops of the parser read at most
-- one line for each process.
--
-- The parser reads the bytes of the file that `fopen` gives. `inet_aton` is a parameter, and so is what
-- makes a `struct sockaddr_in` of its answer and of a port.
--
-- Not modelled: threads and their interleaving below one round of their loops (a round is one step of
-- `Run`, and what others do while `send_pl` sleeps is a run); the handler `start` of src/da_proc.c and
-- the wait that it ends, in which the threads run; what sockets do below their calls; the release of the clocks of tasks and messages (the free at the
-- end of `send_beb` and of a round of the receiver), which are values and not blocks; and the stub
-- src/causal.c, which is not built.
pub mod Base
pub mod Table
pub mod Node
pub mod Process
pub mod Pending
pub mod Message
pub mod Dependencies
pub mod AddrBook
pub mod Log
pub mod Queue
pub mod UrbTable
pub mod FifoTable
pub mod Text
pub mod Tests
