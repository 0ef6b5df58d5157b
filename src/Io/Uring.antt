-- ===== src/Io/Uring.antt =====
-- hammam/src/io/uring.rs: the loop that drains the submission queue. `fuel` bounds its rounds;
-- `none` is a loop that ran out.
pub mod Drain
use pindos.Base.{
  ℕ, zero, suc, ◌+◌, ◌-◌, ◌%◌, ◌^◌, Bool, true, false, Option, none, some, List, [], ◌∷◌, ℤ, neg,
  pos, negsuc, is_negative, length, get_elem?, set, ltb, leb, ◌==◌, if◌then◌else◌, bit_and,
}
use pindos.Io.Entry.{SqEntry, CqEntry, new_cqe, op_read, op_write, op_nop, op_fsync}
use pindos.Io.Ring.{RingHeader, len, is_empty, is_full, index, push, pop}

-- The reads and writes of files are not implemented yet: `execute_read` and `execute_write`.
pub execute_read : SqEntry → ℤ
execute_read sqe = pos 0

pub execute_write : SqEntry → ℤ
execute_write sqe = pos sqe.len

pub execute_sqe : SqEntry → ℤ
execute_sqe sqe =
    if sqe.opcode == op_read
    then execute_read sqe
    else if sqe.opcode == op_write
    then execute_write sqe
    else if sqe.opcode == op_nop
    then pos 0
    else if sqe.opcode == op_fsync
    then pos 0
    else neg 22

-- The completion is written where the queue has room, and dropped where it has none.
pub complete : RingHeader → List CqEntry → CqEntry → RingHeader × List CqEntry
complete cq cq_entries cqe =
    if is_full cq
    then (cq, cq_entries)
    else (let (cq', cq_pos) = push cq in
        let cq_idx = index cq' cq_pos in
        (cq', if ltb cq_idx (length cq_entries) then set cq_entries cq_idx cqe else cq_entries))

pub process_sq :
    ℕ
    → RingHeader
    → List SqEntry
    → RingHeader
    → List CqEntry
    → Option (RingHeader × RingHeader × List CqEntry)
process_sq zero sq sq_entries cq cq_entries = none
process_sq (suc fuel) sq sq_entries cq cq_entries =
    if is_empty sq
    then some (sq, cq, cq_entries)
    else (let (sq', sq_pos) = pop sq in
        elim (get_elem? sq_entries (index sq' sq_pos)) [
          | none ↦ some (sq', cq, cq_entries)
          | some sqe ↦
              let (cq', cq_entries') =
                complete cq cq_entries (new_cqe sqe.user_data (execute_sqe sqe)) in
              process_sq fuel sq' sq_entries cq' cq_entries'
        ])
