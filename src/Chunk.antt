-- ===== src/Chunk.antt =====
-- `Chunk` (src/r_exasol/connection/protocol/chunk.h), the buffer between the network and the
-- client, and the memory operations on such buffers. A buffer is the function from an index to its
-- byte: an access out of range is not stopped here, so that the bounds are theorems.
pub mod Memory
use r_exasol.Base.{ℕ, zero, suc, ◌+◌, List, [], ◌∷◌, ◌==◌, if◌then◌else◌}

abbrev pub Memory : Type 0
Memory = ℕ → ℕ

-- `MAX_HTTP_CHUNK_SIZE`
abbrev pub max_http_chunk_size : ℕ
max_http_chunk_size = 524288

-- `m[i] = v`
unfoldable pub put : Memory → ℕ → ℕ → Memory
put m i v j = if i == j then v else m j

-- Copies bytes to the addresses from `i` on, as `memcpy` and `recv` do.
unfoldable pub store : Memory → ℕ → List ℕ → Memory
store m i [] = m
store m i (b ∷ bs) = store (put m i b) (i + 1) bs

-- The `n` bytes from address `i` on.
unfoldable pub slice : Memory → ℕ → ℕ → List ℕ
slice m i zero = []
slice m i (suc n) = m i ∷ slice m (i + 1) n

pub record Chunk : Type 0 where
  pub chunk_len : ℕ
  pub chunk_pos : ℕ
  pub chunk_buf : Memory
  pub chunk_num : ℕ

-- `Chunk::reset`
unfoldable pub reset : Chunk → Chunk
reset c = record { chunk_len = 0; chunk_pos = 0; chunk_buf = λ _. 0; chunk_num = 0 }
