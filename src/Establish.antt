-- ===== src/Establish.antt =====
-- `HttpConnectionEstablisher` and `HttpsConnectionEstablisher`
-- (src/r_exasol/connection/protocol/http/conn and https/conn): they open a socket and ask for the
-- address of the proxy. A socket that is not handed out is destroyed, on every way out.
pub mod Handover
pub mod Import
use r_exasol.Base.{List, Result, Try, [], err, false, not, ok, true, ℕ, ◌>>=◌, ◌>>◌, ◌∷◌}
use r_exasol.Answers.{Thrown, Piece, text, connection_exception, connection_failure}
use r_exasol.Tcp.{Kernel, SocketImpl, tcp_socket}
use r_exasol.Tcp
use r_exasol.MetaInfo.{HostInfo, read_meta_info}
use r_exasol.Certificate.{
  CryptoLibrary, Certificate, CertificateException, certificate_exception, certificate_field,
  is_valid,
}
use r_exasol.Ssl.{SslLibrary, SslSocket}
use r_exasol.Ssl

-- `ConnectionInfo`, of which the socket holds the world.
pub record Established (S : Type 0) : Type 0 where
  pub proxy : HostInfo
  pub socket : S

-- `ex.what()`
unfoldable pub what : CertificateException → List Piece
what (certificate_exception message) = text message ∷ []
what (certificate_field message field) = text message ∷ text field ∷ []

module _ {W : Type 0} (kernel : Kernel W) where
  -- Connects, and reads the address.
  unfoldable pub reach : List ℕ → ℕ → Try (SocketImpl W) Thrown HostInfo
  reach host port = do
    Tcp.connect kernel host port
    read_meta_info (tcp_socket kernel) (λ s. kernel.errno s.world) host port

  -- The result, or the exception with the world that the destructor leaves.
  unfoldable pub http_reached :
      Result Thrown HostInfo × SocketImpl W → Result (Thrown × W) (Established (SocketImpl W))
  http_reached (ok proxy, s) = ok (record { proxy = proxy; socket = s })
  http_reached (err e, s) = err (e, Tcp.destroy kernel s)

  unfoldable pub http_connect : List ℕ → ℕ → W → Result (Thrown × W) (Established (SocketImpl W))
  unfolding reach http_reached
  http_connect host port w = http_reached (reach host port (Tcp.create w))

  module _ (crypto : CryptoLibrary W) (lib : SslLibrary W) where
    -- What follows the constructor of the SSL socket; the local socket is destroyed last, and its
    -- destructor works on the world that the SSL socket then has.
    unfoldable pub https_secured :
        HostInfo
        → Result CertificateException (SslSocket W) × SocketImpl W
        → Result (Thrown × W) (Established (SslSocket W))
    unfolding what
    https_secured proxy (ok ssl, s) =
        ok (record { proxy = proxy; socket = record ssl { world = Tcp.destroy kernel s } })
    https_secured proxy (err e, s) = err (
      connection_failure (text "Error using certificate for connection:" ∷ what e),
      Tcp.destroy kernel s,
    )

    unfoldable pub https_reached :
        Certificate
        → Result Thrown HostInfo × SocketImpl W
        → Result (Thrown × W) (Established (SslSocket W))
    unfolding https_secured
    https_reached certificate (ok proxy, s) =
        https_secured proxy (Ssl.create crypto lib certificate s)
    https_reached certificate (err e, s) = err (e, Tcp.destroy kernel s)

    unfoldable pub https_connect :
        Certificate → List ℕ → ℕ → W → Result (Thrown × W) (Established (SslSocket W))
    unfolding reach https_reached
    https_connect certificate host port w = elim (is_valid certificate) [
      | false ↦ err (
        connection_exception "certificate has not been initialized.",
        Tcp.destroy kernel (Tcp.create w),
      )
      | true ↦ https_reached certificate (reach host port (Tcp.create w))
    ]
