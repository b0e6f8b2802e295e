-- ===== src/Tests/Lines.antt =====
-- Runs of src/log.c.
use distributed_process.Base.{
  ℕ, ◌≡◌, refl, arith, List, [], ◌∷◌, error_io, done, err, fault, hang, Env,
}
use distributed_process.Log.{LogData, write_log, decimal, digits, delivery_line, log_deliver}
use distributed_process.Log.Written.{IsValid, Logged, write_log_lem, write_log_refused}
use distributed_process.Log.Lines.{log_deliver-overflow}
use distributed_process.Tests.Samples.{generous, refusing, log_file}

log_file-IsValid : IsValid log_file
log_file-IsValid = record { sized = refl; fits = omega arith; narrow = omega arith; free = refl }

-- `d 2 1` does not fit behind `b 1`.
abbrev line : List ℕ
line = 100 ∷ 32 ∷ 50 ∷ 32 ∷ 49 ∷ 10 ∷ []

delivery_line-line : delivery_line 2 1 ≡ line
unfolding decimal digits
delivery_line-line = refl

write_log_lem_example :
    (l' : LogData) × (write_log generous line log_file ≡ done tt l') × Logged log_file line l'
write_log_lem_example =
    write_log_lem generous log_file line log_file-IsValid (λ n. refl) (omega arith)

write_log_refused_example :
    (l' : LogData) × (write_log refusing line log_file ≡ err error_io l')
    × ((env' : Env) (line' : List ℕ) → write_log env' line' l' ≡ hang)
write_log_refused_example =
    write_log_refused refusing log_file line log_file-IsValid refl (omega arith) (omega arith)

log_deliver-overflow_example : log_deliver generous 2 100 log_file ≡ fault
log_deliver-overflow_example = log_deliver-overflow generous log_file 2 100 (omega arith)
