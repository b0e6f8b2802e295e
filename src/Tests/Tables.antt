-- ===== src/Tests/Tables.antt =====
-- Runs of the tables of src/plink.c and src/urb.c, and of `can_deliver`.
use distributed_process.Base.{
  ℕ, ◌+◌, ◌*◌, ◌≡◌, ◌<◌, ◌↔◌, refl, arith, get_or, Bool, true, done, fault,
}
use distributed_process.Table.{UidTable, table_write_entry}
use distributed_process.Table.Growth
use distributed_process.Table.Growth.{value, grown, value-grown_new}
use distributed_process.Table.Write.{Wrote, write_lem}
use distributed_process.UrbTable.{UrbTable}
use distributed_process.UrbTable.Flags
use distributed_process.UrbTable.Flags.{
  Flag, as_seen, as_delivered, add, raise_flag, Changed, add_inside, add_outside,
}
use distributed_process.Node.Broadcast.{can_deliver, count_acks}
use distributed_process.Node.Broadcast.Ids.{seen_id_injective}
use distributed_process.Node.Broadcast.Quorum.{acks, can_deliver_lem, quorum_intersection}
use distributed_process.Tests.Samples.{generous, acks_table, urb_flags}

acks_table-IsValid : Growth.IsValid acks_table
acks_table-IsValid = record { sized = refl; positive = omega arith }

urb_flags-IsValid : Flags.IsValid urb_flags
urb_flags-IsValid = record { sized = refl; positive = omega arith; small = omega arith }

write_lem_example :
    (t' : UidTable) × (table_write_entry generous 9 1 acks_table ≡ done tt t')
    × Wrote acks_table 9 1 t'
write_lem_example = write_lem generous acks_table 9 1 (λ n h. refl) acks_table-IsValid (omega arith)

add_inside_example :
    (t' : UrbTable) × (add as_delivered generous 1 urb_flags ≡ done tt t')
    × Changed urb_flags 1 (raise_flag as_delivered) t'
add_inside_example =
    add_inside as_delivered generous urb_flags 1 urb_flags-IsValid (omega arith) (omega arith)

add_outside_example : add as_seen generous 2 urb_flags ≡ fault
add_outside_example = add_outside as_seen generous urb_flags 2 urb_flags-IsValid (omega arith)

can_deliver_lem_example :
    (b : Bool) × (can_deliver 1 acks_table ≡ done b acks_table)
    × ((b ≡ true) ↔ ((2 * 1 + 2 < 4) × (2 < 2 * acks acks_table 1)))
can_deliver_lem_example = can_deliver_lem acks_table 1 acks_table-IsValid (omega arith)

accepted : can_deliver 0 acks_table ≡ done true acks_table
unfolding can_deliver count_acks
accepted = refl

quorum_intersection_example :
    (p : ℕ) × (p < 2)
    × (get_or acks_table.entries (2 * 0 + p) 0 ≡ 1)
    × (get_or acks_table.entries (2 * 0 + p) 0 ≡ 1)
quorum_intersection_example =
    quorum_intersection acks_table acks_table 0 0 acks_table-IsValid acks_table-IsValid refl
      (omega arith) (omega arith) accepted accepted

seen_id_injective_example : (◌≡◌ {A = ℕ} 2 2) × (◌≡◌ {A = ℕ} 1 1)
seen_id_injective_example =
    seen_id_injective 3 2 1 2 1 (omega arith) (omega arith) (omega arith) (omega arith)
      (omega arith) (omega arith) (omega arith) (omega arith) (omega arith) (omega arith) refl
