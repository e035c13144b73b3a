-- ===== src/Socket/Any.antt =====
-- `std::shared_ptr<Socket>`: the calls go to the class of the object.
use r_exasol.Base.{
  List, Option, drop, length, pos, refl, some, take, ℕ, ◌++◌, ◌<◌, ◌^◌, ◌≡◌, ◌≢◌, ◌≤◌,
}
use r_exasol.Socket.{SocketOps, Accepts, Streams, Received, got, count}
use r_exasol.Tcp.{Kernel, SocketImpl}
use r_exasol.Tcp
use r_exasol.Tcp.Stream.{Network}
use r_exasol.Fill.Packets.{Packets}
use r_exasol.Ssl.{SslLibrary, SslSocket}
use r_exasol.Ssl
use r_exasol.Ssl.Stream.{WritesAll, ssl_socket-Accepts, ssl_pending, ssl_socket-Streams}

pub data AnySocket (W : Type 0) : Type 0 where
  plain : SocketImpl W → AnySocket W
  secure : SslSocket W → AnySocket W

abbrev pub world_of : {W : Type 0} → AnySocket W → W
world_of (plain s) = s.world
world_of (secure s) = s.world

-- The same object in another world.
abbrev pub in_world : {W : Type 0} → W → AnySocket W → AnySocket W
in_world w (plain s) = plain (record s { world = w })
in_world w (secure s) = secure (record s { world = w })

pub in_world-world_of : {W : Type 0} → (s : AnySocket W) → in_world (world_of s) s ≡ s
in_world-world_of (plain s) = refl
in_world-world_of (secure s) = refl

module _ {W : Type 0} (kernel : Kernel W) (lib : SslLibrary W) where
  unfoldable pub any_recv : AnySocket W → ℕ → Received × AnySocket W
  any_recv (plain s) n = let (r, s') = Tcp.recv kernel s n in (r, plain s')
  any_recv (secure s) n = let (r, s') = Ssl.recv kernel lib s n in (r, secure s')

  unfoldable pub any_send : AnySocket W → List ℕ → Option ℕ × AnySocket W
  any_send (plain s) bs = let (n, s') = Tcp.send kernel s bs in (n, plain s')
  any_send (secure s) bs = let (n, s') = Ssl.send kernel lib s bs in (n, secure s')

  unfoldable pub any_shutdown_wr : AnySocket W → AnySocket W
  any_shutdown_wr (plain s) = plain (Tcp.shutdown_wr kernel s)
  any_shutdown_wr (secure s) = secure (Ssl.shutdown_wr kernel lib s)

  unfoldable pub any_shutdown_rd_wr : AnySocket W → AnySocket W
  any_shutdown_rd_wr (plain s) = plain (Tcp.shutdown_rd_wr kernel s)
  any_shutdown_rd_wr (secure s) = secure (Ssl.shutdown_rd_wr kernel lib s)

  -- The destructor, which leaves the world.
  unfoldable pub any_destroy : AnySocket W → W
  unfolding Tcp.destroy Ssl.destroy
  any_destroy (plain s) = Tcp.destroy kernel s
  any_destroy (secure s) = Ssl.destroy kernel lib s

  unfoldable pub any_socket : SocketOps (AnySocket W)
  any_socket = record {
    recv = any_recv;
    send = any_send;
    shutdown_wr = any_shutdown_wr;
    shutdown_rd_wr = any_shutdown_rd_wr;
  }

  module _ (net : Network kernel) (p : (ssl : ℕ) → Packets (lib.ssl_read ssl)) where
    -- The bytes that are still to come.
    abbrev pub any_pending : AnySocket W → List ℕ
    any_pending (plain s) = net.incoming s.world s.descriptor
    any_pending (secure s) = ssl_pending kernel lib p s

    pub any_recv_all :
        (s : AnySocket W) (n : ℕ)
        → 0 < n
        → n < 2 ^ 31
        → n ≤ length (any_pending s)
        → (any_recv s n).0 ≡ got (take n (any_pending s))
    unfolding any_recv Tcp.recv Ssl.ssl_socket ssl_socket-Streams
    any_recv_all (plain s) n h b k = net.waits_all s.world s.descriptor n h k
    any_recv_all (secure s) n h b k = (ssl_socket-Streams kernel lib p).recv_all s n h b k

    pub any_recv_short :
        (s : AnySocket W) (n : ℕ)
        → 0 < n
        → n < 2 ^ 31
        → length (any_pending s) < n
        → count (any_recv s n).0 ≢ pos n
    unfolding any_recv Tcp.recv Ssl.ssl_socket ssl_socket-Streams
    any_recv_short (plain s) n h b k = net.gets_less s.world s.descriptor n k
    any_recv_short (secure s) n h b k = (ssl_socket-Streams kernel lib p).recv_short s n h b k

    pub any_recv_rest :
        (s : AnySocket W) (n : ℕ)
        → 0 < n
        → n < 2 ^ 31
        → n ≤ length (any_pending s)
        → any_pending (any_recv s n).1 ≡ drop n (any_pending s)
    unfolding any_recv Tcp.recv Ssl.ssl_socket ssl_socket-Streams
    any_recv_rest (plain s) n h b k = net.moves_on s.world s.descriptor n h k
    any_recv_rest (secure s) n h b k = (ssl_socket-Streams kernel lib p).recv_rest s n h b k

    -- A socket of either class is a stream.
    unfoldable pub any_socket-Streams : Streams any_socket
    unfolding any_socket
    any_socket-Streams = record {
      pending = any_pending;
      recv_all = any_recv_all;
      recv_short = any_recv_short;
      recv_rest = any_recv_rest;
    }

  module _ (net : Network kernel) (writes : WritesAll lib) where
    -- The bytes that went out.
    abbrev pub any_sent : AnySocket W → List ℕ
    any_sent (plain s) = net.outgoing s.world s.descriptor
    any_sent (secure s) = writes.written s.ssl s.world

    pub any_send_all :
        (s : AnySocket W) (bs : List ℕ) → length bs < 2 ^ 31 → (any_send s bs).0 ≡ some (length bs)
    unfolding any_send Tcp.send Ssl.ssl_socket ssl_socket-Accepts
    any_send_all (plain s) bs h = net.takes_all s.world s.descriptor bs
    any_send_all (secure s) bs h = (ssl_socket-Accepts kernel lib writes).send_all s bs h

    pub any_sent_send :
        (s : AnySocket W) (bs : List ℕ)
        → length bs < 2 ^ 31
        → any_sent (any_send s bs).1 ≡ any_sent s ++ bs
    unfolding any_send Tcp.send Ssl.ssl_socket ssl_socket-Accepts
    any_sent_send (plain s) bs h = net.goes_out s.world s.descriptor bs
    any_sent_send (secure s) bs h = (ssl_socket-Accepts kernel lib writes).sent_send s bs h

    -- A socket of either class takes what is sent.
    unfoldable pub any_socket-Accepts : Accepts any_socket
    unfolding any_socket
    any_socket-Accepts = record {
      sent = any_sent;
      send_all = any_send_all;
      sent_send = any_sent_send;
    }
