-- ===== src/Log.antt =====
-- src/log.c, and `log_urb_broadcast` of src/urb.c: lines are collected in a buffer, which goes to
-- the output file when the next line does not fit. Text is a list of bytes.
pub mod Lines
pub mod Written
pub mod Kept
use distributed_process.Base.{
  ℕ, zero, suc, ◌+◌, ◌-◌, ◌*◌, ◌/◌, ◌%◌, ◌^◌, Bool, true, false, List, [], ◌∷◌, ◌++◌, length, take,
  drop, replicate, ltb, leb, ◌==◌, if◌then◌else◌, u64, error_memory, error_io, done, err, fault,
  hang, Prog, Ok, and_then, ◌>>=◌, ◌>>◌, pure, lock, Env,
}
use Prim.Native.Nat.{min}

-- `log_data_t`, with whether its mutex is held, and with the bytes that the file has received.
pub record LogData : Type 0 where
  pub buf_max_size : ℕ
  pub buf_current_size : ℕ
  pub buffer : List ℕ
  pub file : List ℕ
  pub locked : Bool

-- The buffer of `init_log_data`; `opens` says whether `fopen` succeeds.
unfoldable pub init_log_data : Env → Bool → ℕ → Prog LogData Ok
init_log_data env opens buf_max_size l =
    if env.grants buf_max_size
    then (if opens
        then done tt (record l {
          buf_max_size = buf_max_size;
          buf_current_size = 0;
          buffer = replicate buf_max_size 0;
          file = [];
        })
        else err error_io (record l { buffer = replicate buf_max_size 0 }))
    else err error_memory (record l { buffer = [] })

-- `fwrite` answers with the number of bytes that it took, and 0 counts as a failure, also where
-- there was nothing to write.
unfoldable pub write_to_file : Env → Prog LogData Ok
write_to_file env l =
    if ltb (length l.buffer) l.buf_current_size
    then fault
    else let taken = min (env.writes l.buf_current_size) l.buf_current_size in
      if taken == 0
      then err error_io l
      else if ltb (length l.buffer) l.buf_max_size
      then fault
      else done tt (record l {
        file = l.file ++ take taken l.buffer;
        buffer = replicate l.buf_max_size 0 ++ drop l.buf_max_size l.buffer;
        buf_current_size = 0;
      })

-- `if(size + logdata->buf_current_size > logdata->buf_max_size)`.
unfoldable pub flush_if_full : Env → ℕ → Prog LogData Ok
flush_if_full env size l =
    if ltb l.buf_max_size (u64 (size + l.buf_current_size)) then write_to_file env l else done tt l

-- The `memcpy` of the line to the end of what the buffer holds, and the release of the mutex.
unfoldable pub append_line : List ℕ → Prog LogData Ok
append_line line l =
    if ltb (length l.buffer) (l.buf_current_size + length line)
    then fault
    else done tt (record l {
      buffer =
          take l.buf_current_size l.buffer
          ++ line
          ++ drop (l.buf_current_size + length line) l.buffer;
      buf_current_size = u64 (l.buf_current_size + length line);
      locked = false;
    })

-- The line comes with its size. An error returns with the mutex held.
unfoldable pub write_log : Env → List ℕ → Prog LogData Ok
write_log env line = do
  lock (λ l. l.locked) (λ l. record l { locked = true })
  flush_if_full env (length line)
  append_line line

-- The text of `%u`: at most `fuel` digits, and 10 are enough for an `unsigned int`.
unfoldable pub digits : ℕ → ℕ → List ℕ
digits zero n = []
digits (suc fuel) n =
    let more = digits fuel (n / 10) in
    if ltb n 10 then (b'0' + n) ∷ [] else more ++ ((b'0' + n % 10) ∷ [])

unfoldable pub decimal : ℕ → List ℕ
unfolding digits
decimal n = digits 10 n

-- include/layers.h, for a line of the log with the 0 behind it.
abbrev pub line_max_length : ℕ
line_max_length = 8

-- `sprintf` into `line`, and `write_log` of what it has written.
unfoldable pub print_line : Env → List ℕ → Prog LogData Ok
print_line env text l =
    if ltb line_max_length (length text + 1) then fault else write_log env text l

abbrev pub delivery_line : ℕ → ℕ → List ℕ
delivery_line pid snr = b'd' ∷ b' ' ∷ (decimal pid ++ (b' ' ∷ (decimal snr ++ (b'\n' ∷ []))))

abbrev pub broadcast_line : ℕ → List ℕ
broadcast_line snr = b'b' ∷ b' ' ∷ (decimal snr ++ (b'\n' ∷ []))

unfoldable pub log_deliver : Env → ℕ → ℕ → Prog LogData Ok
log_deliver env pid snr = print_line env (delivery_line pid snr)

unfoldable pub log_urb_broadcast : Env → ℕ → Prog LogData Ok
log_urb_broadcast env snr = print_line env (broadcast_line snr)
