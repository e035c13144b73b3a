-- ===== src/Context/Init.antt =====
-- What `initConnection` leaves to R: the proxy's address, or a context that starts no transfer.
use r_exasol.Base.{
  Bool, List, Option, Result, ap, err, false, none, ok, pos, refl, some, true, ℕ, ℤ, ◌%◌, ◌∙◌, ◌≡◌,
}
use r_exasol.Certificate.{CertificateException}
use r_exasol.Executor.Impl.{SessionInfo}
use r_exasol.Controller.{Parts, Controller, ProtocolType, ConnectionInfo, not_established}
use r_exasol.Controller
use r_exasol.Controller.Connect.{Outcome, connect-Outcome}
use r_exasol.Context.{
  Returned, returned, raised, RSide, Context, init_destroyed, convert_protocol, destroy_connection,
  init_connection, init_connected, read_connected, write_connected, create_read_connection,
  create_write_connection, copy_host_name, copy_host_port,
}

module _ {W Es Sock Ex Re Wr Cn : Type 0} (parts : Parts W Es Sock Ex Re Wr)
    (r : RSide W Re Wr Cn) where
  -- What `initConnection` returns, by what comes of `connect`.
  abbrev pub outcome :
      Result CertificateException Bool
      → Context Cn Sock Ex Re Wr
      → W
      → Option (Returned ℤ × Context Cn Sock Ex Re Wr × W)
  outcome (ok true) c w = some (returned (pos 0), c, w)
  outcome (ok false) c w = some (raised, c, w)
  outcome (err e) c w = none

  -- The context after `initConnection`, by what comes of `connect`.
  abbrev pub Ready :
      ProtocolType
      → List ℕ
      → ℕ
      → SessionInfo
      → W
      → Result CertificateException Bool
      → Context Cn Sock Ex Re Wr
      → W
      → Type 0
  Ready p host port session later (ok true) c w =
      (es : Es) × (w0 : W) × (info : ConnectionInfo Sock) × (parts.establish es host (port % 65536)
          w0
        ≡ (ok info, w))
      × (copy_host_name c ≡ some info.proxy_host)
      × (copy_host_port c ≡ info.proxy_port)
      × (c.connection ≡ none)
  Ready p host port session later (ok false) c w =
      (create_read_connection parts r session c later
        ≡ (raised, c, parts.on_error not_established later))
      × (create_write_connection parts r session c later
          ≡ (raised, c, parts.on_error not_established later))
  Ready p host port session later (err e) c w =
      (w0 : W) × (parts.create_establisher p w0 ≡ (err e, w))

  outcome-Ready :
      (p : ProtocolType) (host : List ℕ) (port : ℕ) (session : SessionInfo) (later : W)
      (t : Result CertificateException Bool × Controller Sock Ex Re Wr × W)
      → Outcome parts p host (port % 65536) Controller.create session later t
      → (init_connected parts r t
          ≡ outcome t.0 (record { connection = none; controller = some t.1 }) t.2)
        × Ready p host port session later t.0
            (record { connection = none; controller = some t.1 })
            t.2
  unfolding copy_host_name copy_host_port create_read_connection create_write_connection
      init_connected
  outcome-Ready p host port session later (ok true, k, w) (es, w0, h, e) =
      (refl, (es, w0, k.info, h, refl, refl, refl))
  outcome-Ready p host port session later (ok false, k, w) (e, reads, writes) = (
    refl,
    (
      ap (read_connected parts r (record { connection = none; controller = some k })) reads
          ∙ unfold read_connected in refl,
      ap (write_connected parts r (record { connection = none; controller = some k })) writes
          ∙ unfold write_connected in refl,
    ),
  )
  outcome-Ready p host port session later (err e, k, w) (_, w0, h) = (refl, (w0, h))

  -- Where the old connection can be destroyed without an error and the protocol is known,
  -- `initConnection` returns 0, or raises the establisher's error, or an exception of the factory's
  -- certificate leaves it. With 0, an establisher has connected to that host and to the port cut to 16
  -- bits, `copyHostName` and `copyHostPort` give the proxy's address that it answered, and no object of
  -- an earlier connection is left. Behind an error, creating a connection for reading or for writing
  -- changes nothing and raises the error that there is no connection.
  pub init_connection-Ready :
      (host : List ℕ) (port : ℕ) (protocol : List ℕ) (c c0 : Context Cn Sock Ex Re Wr)
      (session : SessionInfo) (w w0 later : W) (p : ProtocolType) (d : ℤ)
      → destroy_connection parts r false c w ≡ some (returned d, c0, w0)
      → convert_protocol protocol ≡ some p
      → (out : Result CertificateException Bool) × (c' : Context Cn Sock Ex Re Wr) × (w' : W)
        × (init_connection parts r host port protocol c w ≡ outcome out c' w')
        × Ready p host port session later out c' w'
  unfolding init_connection init_destroyed
  init_connection-Ready host port protocol c c0 session w w0 later p d gone known =
      let out = Controller.connect parts p host (port % 65536) Controller.create w0 in
      let (returns, ready) = outcome-Ready p host port session later out (
        connect-Outcome parts p host (port % 65536) Controller.create session w0 later
          (unfold Controller.create in refl)) in
      (
        out.0,
        record { connection = none; controller = some out.1 },
        out.2,
        rw (gone, known, init_connection, init_destroyed) returns,
        ready,
      )
