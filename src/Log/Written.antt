-- ===== src/Log/Written.antt =====
-- What has been logged: in the file of src/log.c, and behind it in the buffer.
use Prim.Native.Nat.{min}
use distributed_process.Base.{
  ℕ, ◌+◌, ◌^◌, ◌≤◌, ◌<◌, ◌≡◌, ◌∙◌, refl, inl, inr, sym, ap, true, false, List, ◌++◌, append-nil,
  append_assoc, length, take, drop, replicate, length-append, length-replicate, length-take,
  length-drop, take-append_left, ltb, ◌==◌, Bool-cases, arith, u64, error_io, done, err, hang,
  ignore, Env,
}
use distributed_process.Log.{LogData, write_to_file, flush_if_full, append_line, write_log}

-- The buffer has its size, what it holds fits, and the mutex is free.
pub record IsValid (l : LogData) : Type 0 where
  pub sized : length l.buffer ≡ l.buf_max_size
  pub fits : l.buf_current_size ≤ l.buf_max_size
  pub narrow : l.buf_max_size < 2 ^ 63
  pub free : l.locked ≡ false

-- All bytes that were logged, in order.
abbrev pub written : LogData → List ℕ
written l = l.file ++ take l.buf_current_size l.buffer

abbrev pub unlocked : LogData → LogData
unlocked l = record l { locked = false }

-- `fwrite` takes all that it is given.
abbrev pub WritesAll : Env → Type 0
WritesAll env = (n : ℕ) → env.writes n ≡ n

-- The buffer of `l` at its end.
abbrev flushed : LogData → LogData
flushed l = record l {
  file = l.file ++ take l.buf_current_size l.buffer;
  buffer = replicate l.buf_max_size 0 ++ drop l.buf_max_size l.buffer;
  buf_current_size = 0;
}

module _ (env : Env) (all : WritesAll env) (l : LogData) (v : IsValid (unlocked l)) where
  write_to_file-flushed : 0 < l.buf_current_size → write_to_file env l ≡ done tt (flushed l)
  unfolding write_to_file
  write_to_file-flushed some_held =
      let held : ltb (length l.buffer) l.buf_current_size ≡ false = ground (arith, v) in
      let whole : ltb (length l.buffer) l.buf_max_size ≡ false = ground (arith, v) in
      let taken : min l.buf_current_size l.buf_current_size ≡ l.buf_current_size = omega arith in
      let some_taken : (l.buf_current_size == 0) ≡ false = ground arith in
      rw (held, all l.buf_current_size, taken, some_taken, whole)

  flushed-IsValid : IsValid (unlocked (flushed l))
  flushed-IsValid = record {
    sized =
        length-append (replicate l.buf_max_size 0) (drop l.buf_max_size l.buffer)
        ∙ omega (
          arith,
          length-replicate {A = ℕ} l.buf_max_size 0,
          length-drop l.buf_max_size l.buffer,
          v.sized,
        );
    fits = omega arith;
    narrow = v.narrow;
    free = refl;
  }

  -- What the buffer holds goes to the file; where it holds nothing, the error is dropped.
  pub write_to_file-ignore :
      (l' : LogData) × (ignore (write_to_file env l) ≡ done tt l')
      × (l'.file ≡ written l)
      × (length l'.buffer ≡ length l.buffer)
  unfolding write_to_file
  write_to_file-ignore = elim (Bool-cases (l.buf_current_size == 0)) [
    | inl empty ↦
        let none_held : l.buf_current_size ≡ 0 = ground arith in
        let held : ltb (length l.buffer) l.buf_current_size ≡ false = ground (arith, none_held) in
        let taken : (min l.buf_current_size l.buf_current_size == 0) ≡ true =
          ap (λ n. min n n == 0) none_held in
        let nothing : write_to_file env l ≡ err error_io l =
          rw (held, all l.buf_current_size, taken) in
        (
          l,
          ap ignore nothing,
          sym (ap (λ n. l.file ++ take n l.buffer) none_held ∙ append-nil l.file),
          refl,
        )
    | inr some_held ↦ (
      flushed l,
      ap ignore (write_to_file-flushed (ground arith)),
      refl,
      flushed-IsValid.sized ∙ sym v.sized,
    )
  ]

-- The log with `line` behind what the buffer holds.
abbrev pub appended : LogData → List ℕ → LogData
appended l line = record l {
  buffer =
      take l.buf_current_size l.buffer ++ line ++ drop (l.buf_current_size + length line) l.buffer;
  buf_current_size = l.buf_current_size + length line;
  locked = false;
}

pub append_line_lem :
    (l : LogData) (line : List ℕ)
    → IsValid (unlocked l)
    → l.buf_current_size + length line ≤ l.buf_max_size
    → (append_line line l ≡ done tt (appended l line))
      × IsValid (appended l line)
      × (written (appended l line) ≡ written l ++ line)
unfolding append_line
append_line_lem l line v room =
    let n = l.buf_current_size in
    let inside : ltb (length l.buffer) (n + length line) ≡ false = ground (arith, v) in
    let narrow : u64 (n + length line) ≡ n + length line = omega (arith, v.narrow) in
    let front = take n l.buffer in
    let back = drop (n + length line) l.buffer in
    let len : length front ≡ n = length-take n l.buffer (omega (arith, v.sized)) in
    (
      rw (inside, narrow),
      record {
        sized =
            length-append (front ++ line) back
            ∙ omega (
              arith,
              length-append front line,
              len,
              length-drop (n + length line) l.buffer,
              v.sized,
            );
        fits = room;
        narrow = v.narrow;
        free = refl;
      },
      ap (λ t. l.file ++ t)
            (take-append_left (n + length line) (front ++ line) back
              (omega (arith, length-append front line, len)))
          ∙ sym (append_assoc l.file front line),
    )

-- What one call of `write_log` leaves.
pub record Logged (l : LogData) (line : List ℕ) (l' : LogData) : Type 0 where
  pub valid : IsValid l'
  pub text : written l' ≡ written l ++ line
  pub size : l'.buf_max_size ≡ l.buf_max_size

module _ (env : Env) (l : LogData) (line : List ℕ) (v : IsValid l) where
  held : LogData
  held = record l { locked = true }

  held-IsValid : IsValid (unlocked held)
  unfolding held
  held-IsValid = record { sized = v.sized; fits = v.fits; narrow = v.narrow; free = refl }

  -- In a valid log a line that is no longer than the buffer is logged behind all that was logged
  -- before, and none of that is lost: `write_log` returns 0, with the mutex free, if `fwrite` takes
  -- what it is given.
  pub write_log_lem :
      WritesAll env
      → length line ≤ l.buf_max_size
      → (l' : LogData) × (write_log env line l ≡ done tt l') × Logged l line l'
  unfolding write_log flush_if_full held
  write_log_lem all short =
      let narrow : u64 (length line + l.buf_current_size) ≡ length line + l.buf_current_size =
        omega (arith, v.fits, v.narrow) in
      elim (Bool-cases (ltb l.buf_max_size (length line + l.buf_current_size))) [
        | inl full ↦
            let some_held : 0 < l.buf_current_size = ground arith in
            let (e, valid, text) =
              append_line_lem (flushed held) line (flushed-IsValid env all held held-IsValid)
                (omega arith) in
            (
              appended (flushed held) line,
              rw (v.free, narrow, full, write_to_file-flushed env all held held-IsValid some_held)
                  e,
              record {
                valid = valid;
                text = text ∙ ap (λ t. t ++ line) (append-nil _);
                size = refl;
              },
            )
        | inr space ↦
            let (e, valid, text) = append_line_lem held line held-IsValid (ground arith) in
            (
              appended held line,
              rw (v.free, narrow, space) e,
              record { valid = valid; text = text; size = refl },
            )
      ]

  -- Where a line, no longer than the buffer of a valid log, does not fit behind what the buffer
  -- holds and `fwrite` takes nothing, `write_log` returns ERROR_IO with its mutex held, and no
  -- later call of `write_log` returns.
  pub write_log_refused :
      env.writes l.buf_current_size ≡ 0
      → l.buf_max_size < length line + l.buf_current_size
      → length line ≤ l.buf_max_size
      → (l' : LogData) × (write_log env line l ≡ err error_io l')
        × ((env' : Env) (line' : List ℕ) → write_log env' line' l' ≡ hang)
  unfolding write_log flush_if_full write_to_file held
  write_log_refused nothing full short =
      let narrow : u64 (length line + l.buf_current_size) ≡ length line + l.buf_current_size =
        omega (arith, v.fits, v.narrow) in
      let over : ltb l.buf_max_size (length line + l.buf_current_size) ≡ true = ground arith in
      let inside : ltb (length l.buffer) l.buf_current_size ≡ false = ground (arith, v) in
      let none_taken : min 0 l.buf_current_size ≡ 0 = omega arith in
      (held, rw (v.free, narrow, over, inside, nothing, none_taken), λ env' line'. refl)
