-- ===== src/Io/Entry.antt =====
-- hammam/src/io/uring.rs: the entries of the submission and completion queues.
use pindos.Base.{ℕ, List, [], ◌∷◌, ℤ, pos, negsuc}

abbrev pub op_read : ℕ
op_read = 0

abbrev pub op_write : ℕ
op_write = 1

abbrev pub op_nop : ℕ
op_nop = 2

abbrev pub op_fsync : ℕ
op_fsync = 3

pub record SqEntry : Type 0 where
  pub opcode : ℕ
  pub flags : ℕ
  pub ioprio : ℕ
  pub fd : ℤ
  pub off : ℕ
  pub addr : ℕ
  pub len : ℕ
  pub rw_flags : ℤ
  pub user_data : ℕ
  pub pad : List ℕ

abbrev pub new_sqe : SqEntry
new_sqe = record {
  opcode = 0;
  flags = 0;
  ioprio = 0;
  fd = negsuc 0;
  off = 0;
  addr = 0;
  len = 0;
  rw_flags = pos 0;
  user_data = 0;
  pad = 0 ∷ 0 ∷ 0 ∷ 0 ∷ 0 ∷ 0 ∷ 0 ∷ 0 ∷ [];
}

abbrev pub read_sqe : ℤ → ℕ → ℕ → ℕ → ℕ → SqEntry
read_sqe fd addr len offset user_data = record new_sqe {
  opcode = op_read;
  fd = fd;
  addr = addr;
  len = len;
  off = offset;
  user_data = user_data;
}

abbrev pub write_sqe : ℤ → ℕ → ℕ → ℕ → ℕ → SqEntry
write_sqe fd addr len offset user_data = record new_sqe {
  opcode = op_write;
  fd = fd;
  addr = addr;
  len = len;
  off = offset;
  user_data = user_data;
}

pub record CqEntry : Type 0 where
  pub user_data : ℕ
  pub result : ℤ
  pub flags : ℕ
  pub pad : ℕ

abbrev pub new_cqe : ℕ → ℤ → CqEntry
new_cqe user_data result = record { user_data = user_data; result = result; flags = 0; pad = 0 }
