-- ===== src/Tcp.antt =====
-- `SocketImpl` (src/r_exasol/connection/socket/socket_impl.cpp), a socket of the operating system,
-- whose calls are parameters. All state outside the program is one value, the world.
pub mod Connect
pub mod Stream
use r_exasol.Base.{
  List, Option, Try, [], err, if◌then◌else◌, is_neg, minus_one, not, ok, or_throw, pos, ℕ, ℤ, ◌-◌,
  ◌>>=◌, ◌>>◌, ◌∷◌,
}
use r_exasol.Socket.{SocketOps, Received}
use r_exasol.Answers.{Thrown, Piece, text, chars, number, connection_failure}

-- `SHUT_WR` and `SHUT_RDWR`
pub data How : Type 0 where
  shut_wr : How
  shut_rd_wr : How

-- The system's calls on a descriptor. A host's address is its bytes; `sys_connect` gets it with the
-- port.
pub record Kernel (W : Type 0) : Type 0 where
  pub sys_recv : W → ℤ → ℕ → Received × W
  pub sys_send : W → ℤ → List ℕ → Option ℕ × W
  pub sys_shutdown : W → ℤ → How → W
  pub sys_socket : W → ℤ × W
  pub gethostbyname : W → List ℕ → Option (List ℕ) × W
  pub sys_connect : W → ℤ → List ℕ → ℕ → ℤ × W
  pub errno : W → ℤ

pub record SocketImpl (W : Type 0) : Type 0 where
  pub world : W
  pub descriptor : ℤ

-- The constructor
unfoldable pub create : {W : Type 0} → W → SocketImpl W
create world = record { world = world; descriptor = minus_one }

unfoldable pub detach : {W : Type 0} → SocketImpl W → ℤ × SocketImpl W
detach s = (s.descriptor, record s { descriptor = minus_one })

module _ {W : Type 0} (kernel : Kernel W) where
  unfoldable pub recv : SocketImpl W → ℕ → Received × SocketImpl W
  recv s len =
      let (r, world) = kernel.sys_recv s.world s.descriptor len in (r, record s { world = world })

  unfoldable pub send : SocketImpl W → List ℕ → Option ℕ × SocketImpl W
  send s bs =
      let (n, world) = kernel.sys_send s.world s.descriptor bs in (n, record s { world = world })

  unfoldable pub shutdown_wr : SocketImpl W → SocketImpl W
  shutdown_wr s = record {
    world = kernel.sys_shutdown s.world s.descriptor shut_wr;
    descriptor = minus_one;
  }

  unfoldable pub shutdown_rd_wr : SocketImpl W → SocketImpl W
  shutdown_rd_wr s = record {
    world = kernel.sys_shutdown s.world s.descriptor shut_rd_wr;
    descriptor = minus_one;
  }

  -- `SocketImpl` as a `Socket`
  unfoldable pub tcp_socket : SocketOps (SocketImpl W)
  tcp_socket = record {
    recv = recv;
    send = send;
    shutdown_wr = shutdown_wr;
    shutdown_rd_wr = shutdown_rd_wr;
  }

  unfoldable pub open_descriptor : Try (SocketImpl W) Thrown (Unit {0})
  open_descriptor s =
      let (fd, world) = kernel.sys_socket s.world in
      let opened : SocketImpl W = record { world = world; descriptor = fd } in
      if is_neg fd
      then (
        err (
            connection_failure (
              text "Could not create socket: return value - "
              ∷ number fd
              ∷ text " errno - "
              ∷ number (kernel.errno world)
              ∷ [])),
        opened,
      )
      else (ok tt, opened)

  unfoldable pub find_host : List ℕ → Try (SocketImpl W) Thrown (List ℕ)
  find_host host s =
      let (server, world) = kernel.gethostbyname s.world host in
      or_throw server (connection_failure (text "No such host: " ∷ chars host ∷ []))
        (record s { world = world })

  unfoldable pub connect_to : List ℕ → ℕ → List ℕ → Try (SocketImpl W) Thrown (Unit {0})
  connect_to host port address s =
      let (connection, world) = kernel.sys_connect s.world s.descriptor address port in
      let s' = record s { world = world } in
      if is_neg connection
      then (
        err (
            connection_failure (
              text "Could not connect to "
              ∷ chars host
              ∷ text ":"
              ∷ number (pos port)
              ∷ text " return value:"
              ∷ number connection
              ∷ text " errno:"
              ∷ number (kernel.errno world)
              ∷ [])),
        s',
      )
      else (ok tt, s')

  -- The descriptor stays open where a later step fails.
  unfoldable pub connect : List ℕ → ℕ → Try (SocketImpl W) Thrown (Unit {0})
  unfolding open_descriptor find_host connect_to
  connect host port = do open_descriptor; address ← find_host host; connect_to host port address

  -- The destructor
  unfoldable pub destroy : SocketImpl W → W
  destroy s =
      if is_neg s.descriptor then s.world else kernel.sys_shutdown s.world s.descriptor shut_rd_wr
