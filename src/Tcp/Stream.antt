-- ===== src/Tcp/Stream.antt =====
-- The socket of the system as a blocking socket that accepts what is sent, on the system's promises.
use r_exasol.Base.{List, drop, length, pos, some, take, ℕ, ℤ, ◌++◌, ◌<◌, ◌≡◌, ◌≢◌, ◌≤◌}
use r_exasol.Socket.{Streams, Accepts, got, count}
use r_exasol.Tcp.{Kernel, recv, send, tcp_socket}

module _ {W : Type 0} (kernel : Kernel W) where
  -- A connection that stays: `recv` with MSG_WAITALL blocks until it has all bytes, or stores fewer at
  -- the end of the stream, and `send` on a blocking socket takes all bytes.
  pub record Network : Type 0 where
    pub incoming : W → ℤ → List ℕ
    pub outgoing : W → ℤ → List ℕ
    pub waits_all :
        (w : W) (fd : ℤ) (n : ℕ)
        → 0 < n
        → n ≤ length (incoming w fd)
        → (kernel.sys_recv w fd n).0 ≡ got (take n (incoming w fd))
    pub gets_less :
        (w : W) (fd : ℤ) (n : ℕ)
        → length (incoming w fd) < n
        → count (kernel.sys_recv w fd n).0 ≢ pos n
    pub moves_on :
        (w : W) (fd : ℤ) (n : ℕ)
        → 0 < n
        → n ≤ length (incoming w fd)
        → incoming (kernel.sys_recv w fd n).1 fd ≡ drop n (incoming w fd)
    pub takes_all : (w : W) (fd : ℤ) (bs : List ℕ) → (kernel.sys_send w fd bs).0 ≡ some (length bs)
    pub goes_out :
        (w : W) (fd : ℤ) (bs : List ℕ)
        → outgoing (kernel.sys_send w fd bs).1 fd ≡ outgoing w fd ++ bs

  module _ (net : Network) where
    unfoldable pub tcp_socket-Streams : Streams (tcp_socket kernel)
    unfolding tcp_socket recv
    tcp_socket-Streams = record {
      pending = λ s. net.incoming s.world s.descriptor;
      recv_all = λ s n h _ k. net.waits_all s.world s.descriptor n h k;
      recv_short = λ s n _ _ k. net.gets_less s.world s.descriptor n k;
      recv_rest = λ s n h _ k. net.moves_on s.world s.descriptor n h k;
    }

    unfoldable pub tcp_socket-Accepts : Accepts (tcp_socket kernel)
    unfolding tcp_socket send
    tcp_socket-Accepts = record {
      sent = λ s. net.outgoing s.world s.descriptor;
      send_all = λ s bs _. net.takes_all s.world s.descriptor bs;
      sent_send = λ s bs _. net.goes_out s.world s.descriptor bs;
    }
