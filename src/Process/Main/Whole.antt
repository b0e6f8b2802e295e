-- ===== src/Process/Main/Whole.antt =====
-- A process from its membership file to its end: `init_data`, the threads, and `stop` of
-- src/da_proc.c.
use distributed_process.Base.{
  ℕ, zero, suc, ◌≡◌, ◌∙◌, refl, sym, ap, subst, false, inl, some, [], length, tabulate, Every,
  OnSome, List, Outcome, Ok, done,
}
use distributed_process.Log.Written.{WritesAll}
use distributed_process.Process.{Block, SenderThread, Process}
use distributed_process.Process.Threads.Spawned.{spawned}
use distributed_process.Process.Threads.Ended.{IsLive}
use distributed_process.Process.Main.{num_sender_threads, stop}
use distributed_process.Process.Main.Stopped.{Stopped, stop_lem}
use distributed_process.Node.{NetData}
use distributed_process.Node.Run.{Run}
use distributed_process.Node.Run.Kept.{Run-Keeps}
use distributed_process.Node.Run.Logged.{IsLogging, IsLogging-Respects}
use distributed_process.Process.Main.Booted.{
  Given, boot, IsSound, GrantsThreads, IsUp, init_data-IsUp,
}

pub IsLive-spawned : (fds : ℕ → ℕ) (i k : ℕ) → Every IsLive (tabulate (spawned fds) i k)
IsLive-spawned fds i zero = tt
IsLive-spawned fds i (suc k) = (inl refl, IsLive-spawned fds (suc i) k)

done-state : {S : Type 0} {s t : S} → ◌≡◌ {A = Outcome S Ok} (done tt s) (done tt t) → s ≡ t
done-state e = cc

-- For a well-formed file with a line for the own process, an id of one digit and a number of messages
-- of at most 31 bits, tables whose sizes are an `unsigned int`, every call of the system granted,
-- `fwrite` taking what it is given, the log's mutex free and no block released before: `init_data` and
-- then the handler `stop` return. The process comes up in between. At its end the ten senders are
-- joined, and the receiver, if it can be cancelled; the output file is empty; and of the blocks that
-- `Block` names each is released once, but for the array of the senders and the structure of the matrix.
pub start_stop :
    {A B : Type 0} (g : Given A B) (p : Process A)
    → IsSound g p
    → GrantsThreads g
    → WritesAll g.env
    → ((b : Block) → p.freed b ≡ false)
    → (up end : Process A) × (boot g p ≡ done tt up)
      × IsUp g p up
      × (stop g.env g.system up ≡ done tt end)
      × Stopped g.system.cancels up end
      × (end.net.logdata.file ≡ [])
start_stop g p h t all unused =
    let (up, run, u) = init_data-IsUp g p h t in
    let c = u.parsed.configured in
    let matrix : up.net.dependencies ≡ some c.matrix = u.parts.same_dependencies ∙ c.pointer in
    let (end, run', v) =
      stop_lem g.env g.system up all (ap length u.senders)
        (subst (Every IsLive) (sym u.senders) (IsLive-spawned g.fds 0 num_sender_threads))
        u.receiver u.parts.log
        (subst (OnSome (λ m. length m.dep_lists ≡ m.num_proc)) (sym matrix) c.valid.sized)
        (λ b. ap (λ f. f b) u.freed ∙ unused b) in
    (up, end, run, u, run', v, v.file ∙ u.parts.nothing_logged)

-- For a start as that of `init_data-IsUp`, with `fwrite` taking what it is given and no block released
-- before, once `init_data` has returned, and after any run of the threads, that is any sequence of
-- rounds that have come to their end, in which a sender may have ended by itself, the handler `stop`
-- returns. The senders are joined, and the receiver, if it can be cancelled; every line that was logged
-- is in the output file; and of the blocks that `Block` names each is released once, but for the array
-- of the senders and the structure of the matrix. None of the nodes of messages that wait is released.
pub boot_then_stop :
    {A B : Type 0} (g : Given A B) (p up : Process A) (d : NetData A) (senders : List SenderThread)
    → IsSound g p
    → GrantsThreads g
    → WritesAll g.env
    → ((b : Block) → p.freed b ≡ false)
    → boot g p ≡ done tt up
    → Run up.net d
    → length senders ≡ num_sender_threads
    → Every IsLive senders
    → (end : Process A) × (stop g.env g.system (record up { net = d; senders = senders })
        ≡ done tt end)
      × Stopped g.system.cancels (record up { net = d; senders = senders }) end
boot_then_stop g p up d senders h t all unused booted r ten live =
    let (up', run, u') = init_data-IsUp g p h t in
    let same : up' ≡ up = done-state (sym run ∙ booted) in
    let u = subst (IsUp g p) same u' in
    let c = u.parsed.configured in
    let m = some c.matrix in
    let k =
      Run-Keeps (IsLogging m) (IsLogging-Respects m) r
        (record { valid = u.parts.log; matrix = u.parts.same_dependencies ∙ c.pointer }) in
    stop_lem g.env g.system (record up { net = d; senders = senders }) all ten live u.receiver
      k.valid (subst (OnSome (λ m. length m.dep_lists ≡ m.num_proc)) (sym k.matrix) c.valid.sized)
      (λ b. ap (λ f. f b) u.freed ∙ unused b)
