-- ===== src/Log/Lines.antt =====
-- The lines of the log of src/log.c and src/urb.c, and the 8 bytes that the code has for one.
use distributed_process.Base.{
  ℕ, zero, suc, ◌+◌, ◌/◌, ◌%◌, ◌≤◌, ◌<◌, ◌≡◌, true, false, List, [], ◌∷◌, ◌++◌, length,
  length-append, ltb, if◌then◌else◌, arith, fault, done, Env,
}
use distributed_process.Log.{
  LogData, digits, decimal, line_max_length, print_line, delivery_line, broadcast_line, log_deliver,
  log_urb_broadcast,
}
use distributed_process.Log.Written.{IsValid, WritesAll, Logged, write_log_lem}

-- The number of digits of `n`, up to 10.
length-digits :
    (fuel n : ℕ)
    → length (digits (suc fuel) n) ≡ (if ltb n 10 then 1 else length (digits fuel (n / 10)) + 1)
unfolding digits
length-digits fuel n = ground (arith, length-append (digits fuel (n / 10)) ((b'0' + n % 10) ∷ []))

length-digits_pos : (fuel n : ℕ) → 0 < length (digits (suc fuel) n)
length-digits_pos fuel n = ground (arith, length-digits fuel n)

-- One digit below 10, two below 100, at least three from 100 on, four below 10000.
pub length-decimal_one : (n : ℕ) → n < 10 → length (decimal n) ≡ 1
unfolding decimal
length-decimal_one n h = ground (arith, length-digits 9 n)

pub length-decimal_pos : (n : ℕ) → 0 < length (decimal n)
unfolding decimal
length-decimal_pos n = length-digits_pos 9 n

length-digits_most : (fuel n : ℕ) → length (digits fuel n) ≤ fuel
unfolding digits
length-digits_most zero n = omega arith
length-digits_most (suc fuel) n = ground (
  arith,
  length-append (digits fuel (n / 10)) ((b'0' + n % 10) ∷ []),
  length-digits_most fuel (n / 10),
)

pub length-decimal_most : (n : ℕ) → length (decimal n) ≤ 10
unfolding decimal
length-decimal_most n = length-digits_most 10 n

pub length-decimal_two : (n : ℕ) → n < 100 → length (decimal n) ≤ 2
unfolding decimal
length-decimal_two n h = ground (arith, length-digits 9 n, length-digits 8 (n / 10))

pub length-decimal_three : (n : ℕ) → 100 ≤ n → 3 ≤ length (decimal n)
unfolding decimal
length-decimal_three n h =
    ground (arith, length-digits 9 n, length-digits 8 (n / 10), length-digits_pos 7 (n / 10 / 10))

pub length-decimal_four : (n : ℕ) → n < 10000 → length (decimal n) ≤ 4
unfolding decimal
length-decimal_four n h = ground (
  arith,
  length-digits 9 n,
  length-digits 8 (n / 10),
  length-digits 7 (n / 10 / 10),
  length-digits 6 (n / 10 / 10 / 10),
)

pub length-decimal_five : (n : ℕ) → 10000 ≤ n → 5 ≤ length (decimal n)
unfolding decimal
length-decimal_five n h = ground (
  arith,
  length-digits 9 n,
  length-digits 8 (n / 10),
  length-digits 7 (n / 10 / 10),
  length-digits 6 (n / 10 / 10 / 10),
  length-digits_pos 5 (n / 10 / 10 / 10 / 10),
)

length-delivery_line :
    (pid snr : ℕ) → length (delivery_line pid snr) ≡ length (decimal pid) + length (decimal snr) + 4
length-delivery_line pid snr = omega (
  arith,
  length-append (decimal pid) (b' ' ∷ (decimal snr ++ (b'\n' ∷ []))),
  length-append {A = ℕ} (decimal snr) (b'\n' ∷ []),
)

length-broadcast_line : (snr : ℕ) → length (broadcast_line snr) ≡ length (decimal snr) + 3
length-broadcast_line snr = omega (arith, length-append {A = ℕ} (decimal snr) (b'\n' ∷ []))

module _ (env : Env) (l : LogData) (text : List ℕ) where
  print_line-fits :
      IsValid l
      → WritesAll env
      → line_max_length ≤ l.buf_max_size
      → length text < line_max_length
      → (l' : LogData) × (print_line env text l ≡ done tt l') × Logged l text l'
  unfolding print_line
  print_line-fits v all big short =
      let ok : ltb line_max_length (length text + 1) ≡ false = ground arith in
      rw ok (write_log_lem env l text v all (omega arith))

  print_line-fault : line_max_length ≤ length text → print_line env text l ≡ fault
  unfolding print_line
  print_line-fault long =
      let over : ltb line_max_length (length text + 1) ≡ true = ground arith in rw over

module _ (env : Env) (l : LogData) (v : IsValid l) (all : WritesAll env)
    (big : line_max_length ≤ l.buf_max_size) where
  -- A delivery is logged as `d pid snr` where the two numbers have three digits together, as a
  -- sender below 10 with a sequence number below 100.
  pub log_deliver_lem :
      (pid snr : ℕ)
      → length (decimal pid) + length (decimal snr) ≤ 3
      → (l' : LogData) × (log_deliver env pid snr l ≡ done tt l')
        × Logged l (delivery_line pid snr) l'
  unfolding log_deliver
  log_deliver_lem pid snr few =
      print_line-fits env l (delivery_line pid snr) v all big
        (omega (arith, length-delivery_line pid snr))

  -- The start of a broadcast is logged as `b snr` for a sequence number below 10000.
  pub log_urb_broadcast_lem :
      (snr : ℕ)
      → snr < 10000
      → (l' : LogData) × (log_urb_broadcast env snr l ≡ done tt l')
        × Logged l (broadcast_line snr) l'
  unfolding log_urb_broadcast
  log_urb_broadcast_lem snr few =
      print_line-fits env l (broadcast_line snr) v all big
        (omega (arith, length-broadcast_line snr, length-decimal_four snr few))

-- The 8 bytes of `line` are too few for a delivery whose sequence number is 100 or more, whatever
-- the sender: `sprintf` writes past the end of the array.
pub log_deliver-overflow :
    (env : Env) (l : LogData) (pid snr : ℕ) → 100 ≤ snr → log_deliver env pid snr l ≡ fault
unfolding log_deliver
log_deliver-overflow env l pid snr h = print_line-fault env l (delivery_line pid snr) (
    omega (arith, length-delivery_line pid snr, length-decimal_pos pid, length-decimal_three snr h))

-- The start of a broadcast whose sequence number is 10000 or more does not fit either.
pub log_urb_broadcast-overflow :
    (env : Env) (l : LogData) (snr : ℕ) → 10000 ≤ snr → log_urb_broadcast env snr l ≡ fault
unfolding log_urb_broadcast
log_urb_broadcast-overflow env l snr h =
    print_line-fault env l (broadcast_line snr)
      (omega (arith, length-broadcast_line snr, length-decimal_five snr h))
