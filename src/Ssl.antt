-- ===== src/Ssl.antt =====
-- `SSLSocketImpl` (src/r_exasol/connection/socket/ssl_socket_impl.cpp), over OpenSSL's calls on a
-- connection, which are parameters, and those of the operating system. The mutex that the shutdowns
-- hold is left out: each of them is one step.
pub mod Stream
pub mod Shutdown
use r_exasol.Base.{
  Bool, List, Option, Result, [], err, false, if◌then◌else◌, is_neg, length, ltb, negsuc, none, ok,
  pos, some, to_int, true, ℕ, ℤ, ◌==◌, ◌^◌,
}
use r_exasol.Socket.{SocketOps, Received, got, lost, stored}
use r_exasol.Tcp.{Kernel, SocketImpl, How, shut_wr, shut_rd_wr, detach}
use r_exasol.Fill.{repeating_buffer_fill}
use r_exasol.Certificate.{CryptoLibrary, Certificate, CertificateException, call, apply}

-- A context and a connection are numbers. `ssl_read` and `ssl_write` take their length as an `int`.
pub record SslLibrary (W : Type 0) : Type 0 where
  pub load_error_strings : W → W
  pub add_ssl_algorithms : W → W
  pub ctx_new : W → ℕ × W
  pub ssl_new : ℕ → W → ℕ × W
  pub set_auto_retry : ℕ → W → W
  pub set_fd : ℕ → ℤ → W → W
  pub set_accept_state : ℕ → W → W
  pub get_fd : ℕ → W → ℤ
  pub ssl_read : ℕ → W → ℤ → Received × W
  pub ssl_write : ℕ → W → List ℕ → ℤ → Option ℕ × W
  pub ssl_shutdown : ℕ → W → ℤ × W
  pub ssl_free : ℕ → W → W
  pub ctx_free : ℕ → W → W
  pub err_free_strings : W → W

-- The certificate is only used by the constructor.
pub record SslSocket (W : Type 0) : Type 0 where
  pub world : W
  pub ctx : ℕ
  pub ssl : ℕ
  pub socket_closed : Bool

-- The result of `recv`: what was stored counts only where the whole buffer was filled.
abbrev pub whole_or_lost : Bool → List ℕ → Received
whole_or_lost success bs = if success then got bs else lost bs

abbrev pub is_nought : ℤ → Bool
is_nought (pos n) = n == 0
is_nought (negsuc n) = false

module _ {W : Type 0} (kernel : Kernel W) (lib : SslLibrary W) where
  unfoldable pub recv : SslSocket W → ℕ → Received × SslSocket W
  recv s len =
      if ltb len (2 ^ 63)
      then (elim (repeating_buffer_fill (lib.ssl_read s.ssl) len s.world) [
        | none ↦ (lost [], s)
        | some (success, bs, world) ↦ (whole_or_lost success bs, record s { world = world })
      ])
      else (lost [], s)

  unfoldable pub send : SslSocket W → List ℕ → Option ℕ × SslSocket W
  send s bs =
      let (n, world) = lib.ssl_write s.ssl s.world bs (to_int (length bs)) in
      (n, record s { world = world })

  -- The system's shutdown is called at most once for each socket.
  unfoldable pub close_socket : How → SslSocket W → SslSocket W
  close_socket how s =
      if s.socket_closed
      then s
      else if is_neg (lib.get_fd s.ssl s.world)
      then record s { socket_closed = true }
      else record s {
        world = kernel.sys_shutdown s.world (lib.get_fd s.ssl s.world) how;
        socket_closed = true;
      }

  unfoldable pub shutdown_wr : SslSocket W → SslSocket W
  unfolding close_socket
  shutdown_wr s = close_socket shut_wr (record s { world = (lib.ssl_shutdown s.ssl s.world).1 })

  unfoldable pub shutdown_rd_wr : SslSocket W → SslSocket W
  unfolding close_socket
  shutdown_rd_wr s =
      close_socket shut_rd_wr (record s { world = (lib.ssl_shutdown s.ssl s.world).1 })

  -- `SSLSocketImpl` as a `Socket`
  unfoldable pub ssl_socket : SocketOps (SslSocket W)
  ssl_socket = record {
    recv = recv;
    send = send;
    shutdown_wr = shutdown_wr;
    shutdown_rd_wr = shutdown_rd_wr;
  }

  -- The destructor: the first shutdown may have sent the notice only. `closeSocket` comes behind
  -- `SSL_free`, so that on a socket that was not shut down before, `SSL_get_fd` reads freed memory:
  -- nothing is known of its result then.
  unfoldable pub destroy : SslSocket W → W
  unfolding close_socket
  destroy s =
      let (ret, once) = lib.ssl_shutdown s.ssl s.world in
      let down = if is_nought ret then (lib.ssl_shutdown s.ssl once).1 else once in
      (close_socket shut_rd_wr (record s {
        world = lib.err_free_strings (lib.ctx_free s.ctx (lib.ssl_free s.ssl down));
      })).world

-- The constructor takes the descriptor of the socket that it gets. An exception leaves its context
-- allocated, and the descriptor where it was.
module _ {W : Type 0} (crypto : CryptoLibrary W) (lib : SslLibrary W) where
  -- What follows `apply`.
  unfoldable pub created :
      ℕ
      → SocketImpl W
      → Result CertificateException (Unit {0}) × W
      → Result CertificateException (SslSocket W) × SocketImpl W
  created ctx s (err e, w) = (err e, record s { world = w })
  created ctx s (ok _, w) =
      let (ssl, w1) = lib.ssl_new ctx w in
      let (fd, s1) = detach (record s { world = w1 }) in
      let w2 = lib.set_accept_state ssl (lib.set_fd ssl fd (lib.set_auto_retry ssl w1)) in
      (
        ok (record { world = w2; ctx = ctx; ssl = ssl; socket_closed = false }),
        record s1 { world = w2 },
      )

  unfoldable pub create :
      Certificate → SocketImpl W → Result CertificateException (SslSocket W) × SocketImpl W
  unfolding created
  create certificate s =
      let (ctx, w1) = lib.ctx_new (lib.add_ssl_algorithms (lib.load_error_strings s.world)) in
      created ctx s (apply crypto certificate ctx w1)
