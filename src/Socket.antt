-- ===== src/Socket.antt =====
-- What the kernel answers to read and write on a socket that does not block.
use lexidb.Base.{ℕ, List}

-- What a read answers: bytes, at least one and at most as many as there is room for, the end of the
-- connection, EAGAIN, or another error.
pub data ReadAnswer : Type 0 where
  received : List ℕ → ReadAnswer
  closed would_block read_failed : ReadAnswer
