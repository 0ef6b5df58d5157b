-- ===== src/Io.antt =====
-- hammam/src/io: the submission and completion rings.
pub mod Entry
pub mod Ring
pub mod Uring
pub mod Tests
