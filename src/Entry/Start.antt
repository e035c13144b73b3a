-- ===== src/Entry/Start.antt =====
-- What R finds after `asyncRODBCIOStart`: the proxy's address, or an error and a session that starts no
-- transfer.
use r_exasol.Base.{Bool, List, Result, err, false, none, ok, some, true, ℕ, ◌%◌, ◌≡◌}
use r_exasol.Certificate.{CertificateException}
use r_exasol.Controller.{Parts, ProtocolType, ConnectionInfo, not_established}
use r_exasol.Context.{raised, RSide, Context}
use r_exasol.Entry.{proxy_host, proxy_port, query_start}

module _ {W Es Sock Ex Re Wr Cn : Type 0} (parts : Parts W Es Sock Ex Re Wr)
    (r : RSide W Re Wr Cn) where
  -- What R finds, by the success of the start. The query that R starts later has a channel and a text.
  abbrev pub Started :
      ProtocolType
      → List ℕ
      → ℕ
      → ℕ
      → List ℕ
      → ℕ
      → W
      → Result CertificateException Bool
      → Context Cn Sock Ex Re Wr
      → W
      → Type 0
  Started p host port rodbc q writer later (ok true) c w =
      (es : Es) × (w0 : W) × (info : ConnectionInfo Sock) × (parts.establish es host (port % 65536)
          w0
        ≡ (ok info, w))
      × (proxy_host c ≡ some info.proxy_host)
      × (proxy_port c ≡ info.proxy_port)
      × (c.connection ≡ none)
  Started p host port rodbc q writer later (ok false) c w =
      query_start parts r (some rodbc) (some q) writer c later
      ≡ (raised, c, parts.on_error not_established later)
  Started p host port rodbc q writer later (err e) c w =
      (w0 : W) × (parts.create_establisher p w0 ≡ (err e, w))
