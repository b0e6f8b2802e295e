-- ===== src/Log/Kept.antt =====
-- The calls of src/log.c keep the log valid, whatever `fwrite` takes.
use distributed_process.Base.{
  ℕ, ◌+◌, ◌∙◌, refl, inl, inr, true, List, ◌++◌, length, drop, replicate, length-append,
  length-replicate, length-drop, ltb, tests, subst, sym, u64, Ends-and_then, ◌==◌, Bool-cases,
  arith, Ends, Env,
}
use Prim.Native.Nat.{min}
use distributed_process.Log.{
  LogData, line_max_length, write_to_file, flush_if_full, append_line, write_log, print_line,
}
use distributed_process.Log.Written.{IsValid, unlocked, append_line_lem}

-- Valid but for the mutex.
abbrev IsWhole : LogData → Type 0
IsWhole l = IsValid (unlocked l)

emptied-IsWhole :
    (l : LogData) (file : List ℕ)
    → IsWhole l
    → IsWhole (record l {
      file = file;
      buffer = replicate l.buf_max_size 0 ++ drop l.buf_max_size l.buffer;
      buf_current_size = 0;
    })
emptied-IsWhole l file v = record {
  sized =
      length-append (replicate l.buf_max_size 0) (drop l.buf_max_size l.buffer)
      ∙ omega (
        arith,
        length-replicate {A = ℕ} l.buf_max_size 0,
        length-drop l.buf_max_size l.buffer,
        v.sized,
      );
  fits = omega arith;
  narrow = v.narrow;
  free = refl;
}

write_to_file-IsWhole :
    (env : Env) (l : LogData) → IsWhole l → Ends (λ u l'. IsWhole l') (write_to_file env l)
unfolding write_to_file
write_to_file-IsWhole env l v = elim (Bool-cases (ltb (length l.buffer) l.buf_current_size)) [
  | inl out ↦ rw out tt
  | inr within ↦ elim (Bool-cases (min (env.writes l.buf_current_size) l.buf_current_size == 0)) [
    | inl none_taken ↦ rw (within, none_taken) tt
    | inr taken ↦ elim (Bool-cases (ltb (length l.buffer) l.buf_max_size)) [
      | inl short ↦ rw (within, taken, short) tt
      | inr long ↦ rw (within, taken, long) (emptied-IsWhole l _ v)
    ]
  ]
]

flush_if_full-IsWhole :
    (env : Env) (size : ℕ) (l : LogData)
    → IsWhole l
    → Ends (λ u l'. IsWhole l') (flush_if_full env size l)
unfolding flush_if_full
flush_if_full-IsWhole env size l v =
    elim (Bool-cases (ltb l.buf_max_size (u64 (size + l.buf_current_size)))) [
      | inl full ↦ rw full (write_to_file-IsWhole env l v)
      | inr space ↦ rw space v
    ]

append_line-IsValid :
    (line : List ℕ) (l : LogData) → IsWhole l → Ends (λ u l'. IsValid l') (append_line line l)
unfolding append_line
append_line-IsValid line l v =
    elim (Bool-cases (ltb (length l.buffer) (l.buf_current_size + length line))) [
      | inl out ↦ rw (append_line, out) tt
      | inr room ↦
          let (e, valid, _) = append_line_lem l line v (omega (tests, room, v.sized)) in
          subst (Ends (λ u l'. IsValid l')) (sym e) valid
    ]

write_log-IsValid :
    (env : Env) (line : List ℕ) (l : LogData)
    → IsValid l
    → Ends (λ u l'. IsValid l') (write_log env line l)
unfolding write_log
write_log-IsValid env line l v =
    let held : LogData = record l { locked = true } in
    let whole : IsWhole held = record {
      sized = v.sized;
      fits = v.fits;
      narrow = v.narrow;
      free = refl;
    } in
    rw (v.free) (
      Ends-and_then (λ u l'. IsWhole l') (λ u l'. IsValid l') (flush_if_full env (length line) held)
        _ (flush_if_full-IsWhole env (length line) held whole)
        (λ u l' w. append_line-IsValid line l' w))

-- Where `print_line` returns, the log is valid again.
pub print_line-IsValid :
    (env : Env) (text : List ℕ) (l : LogData)
    → IsValid l
    → Ends (λ u l'. IsValid l') (print_line env text l)
unfolding print_line
print_line-IsValid env text l v = elim (Bool-cases (ltb line_max_length (length text + 1))) [
  | inl long ↦ rw long tt
  | inr fits ↦ rw fits (write_log-IsValid env text l v)
]
