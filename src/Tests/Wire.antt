-- ===== src/Tests/Wire.antt =====
-- Runs of src/layerzero.c.
use distributed_process.Base.{ℕ, ◌+◌, ◌≡◌, refl, arith, some, List, length, done}
use distributed_process.Message.{num_static, serialize, deserialize, blank_msg}
use distributed_process.Message.RoundTrip.{
  received, deserialize-serialize, deserialize-serialize_ack,
}
use distributed_process.Tests.Samples.{generous, msg_of_type}

deserialize-serialize_example :
    (buffer : List ℕ) × (serialize generous 2 (msg_of_type 0) ≡ done buffer (msg_of_type 0))
    × (length buffer ≡ num_static + 2)
    × (deserialize generous (some buffer) 2 blank_msg
        ≡ done tt (received 2 (msg_of_type 0) blank_msg))
deserialize-serialize_example =
    deserialize-serialize generous 2 (msg_of_type 0) blank_msg refl generous (λ e. omega (arith, e))
      refl refl

deserialize-serialize_ack_example :
    (buffer : List ℕ) × (serialize generous 2 (msg_of_type 1) ≡ done buffer (msg_of_type 1))
    × (length buffer ≡ num_static + 2)
    × (deserialize generous (some buffer) 2 blank_msg
        ≡ done tt (record (msg_of_type 1) { urb_msg = blank_msg.urb_msg }))
deserialize-serialize_ack_example =
    deserialize-serialize_ack generous 2 (msg_of_type 1) blank_msg refl generous refl
