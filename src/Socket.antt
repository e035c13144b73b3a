-- ===== src/Socket.antt =====
-- The abstract class `Socket` (src/r_exasol/connection/socket/socket.h): its operations as an
-- interface over the socket's own state, and what its documentation promises of them.
pub mod Any
pub mod Stream
pub mod Loopback
use r_exasol.Base.{
  List, Option, drop, length, minus_one, pos, some, take, ℕ, ℤ, ◌++◌, ◌<◌, ◌^◌, ◌≡◌, ◌≢◌, ◌≤◌,
}

-- What `recv` stores in the buffer and returns: the count of the bytes, or -1 after it has
-- perhaps stored some.
pub data Received : Type 0 where
  got : List ℕ → Received
  lost : List ℕ → Received

abbrev pub stored : Received → List ℕ
stored (got bs) = bs
stored (lost bs) = bs

abbrev pub count : Received → ℤ
count (got bs) = pos (length bs)
count (lost bs) = minus_one

-- `send` returns -1 (`none`) or the number of bytes that it sent.
pub record SocketOps (S : Type 0) : Type 0 where
  pub recv : S → ℕ → Received × S
  pub send : S → List ℕ → Option ℕ × S
  pub shutdown_wr : S → S
  pub shutdown_rd_wr : S → S

module _ {S : Type 0} (io : SocketOps S) where
  -- `recv` never stores more than it was asked for.
  pub record IsBounded : Type 0 where
    pub recv_le : (s : S) (n : ℕ) → length (stored (io.recv s n).0) ≤ n

  -- `recv` blocks until the buffer is full, so it returns the next bytes of the stream if the
  -- stream has so many, and returns another count if it has not. This holds of the requests whose
  -- length is a positive `int`.
  pub record Streams : Type 0 where
    pub pending : S → List ℕ
    pub recv_all :
        (s : S) (n : ℕ)
        → 0 < n
        → n < 2 ^ 31
        → n ≤ length (pending s)
        → (io.recv s n).0 ≡ got (take n (pending s))
    pub recv_short :
        (s : S) (n : ℕ)
        → 0 < n
        → n < 2 ^ 31
        → length (pending s) < n
        → count (io.recv s n).0 ≢ pos n
    pub recv_rest :
        (s : S) (n : ℕ)
        → 0 < n
        → n < 2 ^ 31
        → n ≤ length (pending s)
        → pending (io.recv s n).1 ≡ drop n (pending s)

  -- A connection that takes whatever is sent, in one call less than 2 GiB.
  pub record Accepts : Type 0 where
    pub sent : S → List ℕ
    pub send_all : (s : S) (bs : List ℕ) → length bs < 2 ^ 31 → (io.send s bs).0 ≡ some (length bs)
    pub sent_send :
        (s : S) (bs : List ℕ) → length bs < 2 ^ 31 → sent (io.send s bs).1 ≡ sent s ++ bs
