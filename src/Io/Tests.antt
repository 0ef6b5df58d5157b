-- ===== src/Io/Tests.antt =====
-- The rings on queues of two entries.
use pindos.Base.{◌≡◌, refl, List, [], ◌∷◌, some, pos, arith}
use pindos.Io.Entry.{SqEntry, CqEntry, write_sqe, read_sqe, new_cqe}
use pindos.Io.Ring.{RingHeader}
use pindos.Io.Uring.{process_sq}
use pindos.Io.Uring.Drain.{Drained, process_sq-Drained}

-- Two entries are queued.
abbrev sq : RingHeader
sq = record { head = 1; tail = 3; mask = 1; entries = 2 }

abbrev cq : RingHeader
cq = record { head = 0; tail = 1; mask = 1; entries = 2 }

abbrev sq_entries : List SqEntry
sq_entries = write_sqe (pos 3) 64 10 0 42 ∷ read_sqe (pos 3) 64 10 0 43 ∷ []

abbrev cq_entries : List CqEntry
cq_entries = new_cqe 1 (pos 0) ∷ new_cqe 2 (pos 0) ∷ []

process_sq-Drained_example :
    (sq' : RingHeader) × (cq' : RingHeader) × (cq_entries' : List CqEntry) × (process_sq 3 sq
        sq_entries cq cq_entries
      ≡ some (sq', cq', cq_entries'))
    × Drained 1 sq sq_entries cq cq_entries sq' cq' cq_entries'
process_sq-Drained_example =
    process_sq-Drained 3 1 1 sq sq_entries cq cq_entries (omega arith) (omega arith) (omega arith)
      (record { size = refl; masks = refl; head_u32 = omega arith; tail_u32 = omega arith })
      (record { size = refl; masks = refl; head_u32 = omega arith; tail_u32 = omega arith })
      (omega arith) (omega arith)
