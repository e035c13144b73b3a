-- ===== src/Establish/Handover.antt =====
-- The descriptor passes from the local socket to the SSL socket.
use mathlib.Core.Path.{subst}
use r_exasol.Base.{Result, err, ok, refl, ℕ, ◌≡◌}
use r_exasol.Tcp.{Kernel, SocketImpl, detach}
use r_exasol.Tcp
use r_exasol.MetaInfo.{HostInfo}
use r_exasol.Certificate.{CryptoLibrary, Certificate, CertificateException, apply}
use r_exasol.Ssl.{SslLibrary, SslSocket, created}
use r_exasol.Ssl
use r_exasol.Establish.{Established, https_secured}

same_success : {E A : Type 0} {x y : A} → ◌≡◌ {A = Result E A} (ok x) (ok y) → x ≡ y
same_success h = cc h

module _ {W : Type 0} (kernel : Kernel W) (crypto : CryptoLibrary W) (lib : SslLibrary W) where
  -- The SSL socket's world is the one after its constructor's last two calls, of which the first got
  -- the descriptor.
  abbrev pub HandedOver : SocketImpl W → Established (SslSocket W) → Type 0
  HandedOver s info =
      (w : W) × (info.socket.world
        ≡ lib.set_accept_state info.socket.ssl (lib.set_fd info.socket.ssl s.descriptor w))

  https_secured-created :
      (proxy : HostInfo) (ctx : ℕ) (s : SocketImpl W)
      (r : Result CertificateException (Unit {0}) × W)
      → (info : Established (SslSocket W))
      → https_secured kernel crypto lib proxy (created crypto lib ctx s r) ≡ ok info
      → HandedOver s info
  unfolding https_secured created detach Tcp.destroy
  https_secured-created proxy ctx s (ok _, w) info h =
      subst (HandedOver s) (same_success h) (_, refl)
  https_secured-created proxy ctx s (err e, w) info h = absurd (cc h)

  -- Where the https establisher secures a socket, the SSL socket is given that socket's descriptor,
  -- and the destructor of the local socket behind it does nothing: the descriptor is not shut down.
  pub https_secured-HandedOver :
      (proxy : HostInfo) (certificate : Certificate) (s : SocketImpl W)
      → (info : Established (SslSocket W))
      → https_secured kernel crypto lib proxy (Ssl.create crypto lib certificate s) ≡ ok info
      → HandedOver s info
  unfolding Ssl.create
  https_secured-HandedOver proxy certificate s info h =
      let (ctx, w) = lib.ctx_new (lib.add_ssl_algorithms (lib.load_error_strings s.world)) in
      https_secured-created proxy ctx s (apply crypto certificate ctx w) info h
