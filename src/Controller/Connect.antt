-- ===== src/Controller/Connect.antt =====
-- What `connect` leaves, on each of its branches, and what a transfer then finds.
use r_exasol.Base.{
  Bool, List, Option, Result, ap, err, false, none, ok, refl, some, true, ℕ, ◌∙◌, ◌≡◌,
}
use r_exasol.Answers.{Thrown}
use r_exasol.Certificate.{CertificateException}
use r_exasol.Executor.Impl.{SessionInfo}
use r_exasol.Controller.{
  Parts, Controller, ConnectionInfo, ProtocolType, http, https, other, not_established,
  is_valid_protocol, established, connect_with, connect, start_reading, start_reading_over,
  start_writing, start_writing_over,
}

module _ {W Es Sock Ex Re Wr : Type 0} (parts : Parts W Es Sock Ex Re Wr) where
  -- The result of `connect`, and a world in which a transfer is started later.
  abbrev pub Outcome :
      ProtocolType
      → List ℕ
      → ℕ
      → Controller Sock Ex Re Wr
      → SessionInfo
      → W
      → Result CertificateException Bool × Controller Sock Ex Re Wr × W
      → Type 0
  Outcome p host port c session later (ok true, c', w') =
      (es : Es) × (w0 : W) × (parts.establish es host port w0 ≡ (ok c'.info, w'))
      × (c' ≡ record c { info = c'.info })
  Outcome p host port c session later (ok false, c', w') =
      (c' ≡ c)
      × (start_reading parts session c' later ≡ (none, c', parts.on_error not_established later))
      × (start_writing parts session c' later ≡ (none, c', parts.on_error not_established later))
  Outcome p host port c session later (err e, c', w') =
      (c' ≡ c) × (w0 : W) × (parts.create_establisher p w0 ≡ (err e, w'))

  nothing_starts :
      (session : SessionInfo) (c : Controller Sock Ex Re Wr) (w : W)
      → c.info.socket ≡ none
      → (c ≡ c)
        × (start_reading parts session c w ≡ (none, c, parts.on_error not_established w))
        × (start_writing parts session c w ≡ (none, c, parts.on_error not_established w))
  unfolding start_reading start_writing
  nothing_starts session c w e = (
    refl,
    ap (λ o. start_reading_over parts session o c w) e ∙ unfold start_reading_over in refl,
    ap (λ o. start_writing_over parts session o c w) e ∙ unfold start_writing_over in refl,
  )

  established-Outcome :
      (p : ProtocolType) (host : List ℕ) (port : ℕ) (session : SessionInfo) (re : Option Re)
      (wr : Option Wr) (ex : Option Ex) (proxy : List ℕ) (proxy_port : ℕ) (o : Option Sock)
      (es : Es) (w later : W) (r : Result Thrown (ConnectionInfo Sock) × W)
      → o ≡ none
      → parts.establish es host port w ≡ r
      → Outcome p host port
          (record {
            reader = re;
            writer = wr;
            executor = ex;
            info = record { proxy_host = proxy; proxy_port = proxy_port; socket = o };
          })
          session
          later
          (established parts
            (record {
              reader = re;
              writer = wr;
              executor = ex;
              info = record { proxy_host = proxy; proxy_port = proxy_port; socket = o };
            })
            r)
  unfolding established
  established-Outcome p host port session re wr ex proxy proxy_port (some s) es w later r e h =
      absurd (cc e)
  established-Outcome p host port session re wr ex proxy proxy_port none es w later (ok info, w') e
        h =
      (es, w, h, refl)
  established-Outcome p host port session re wr ex proxy proxy_port none es w later (err t, w') e
        h =
      nothing_starts session
        (record {
          reader = re;
          writer = wr;
          executor = ex;
          info = record { proxy_host = proxy; proxy_port = proxy_port; socket = none };
        })
        later refl

  connect_with-Outcome :
      (p : ProtocolType) (host : List ℕ) (port : ℕ) (session : SessionInfo)
      (c : Controller Sock Ex Re Wr) (later w : W)
      (made : Result CertificateException (Option Es) × W)
      → c.info.socket ≡ none
      → parts.create_establisher p w ≡ made
      → Outcome p host port c session later (connect_with parts host port c made)
  unfolding connect_with
  connect_with-Outcome p host port session c later w (err x, w') e h = (refl, w, h)
  connect_with-Outcome p host port session c later w (ok none, w') e h =
      nothing_starts session c later e
  connect_with-Outcome p host port session c later w (ok (some es), w') e h =
      established-Outcome p host port session c.reader c.writer c.executor c.info.proxy_host
        c.info.proxy_port c.info.socket es w' later (parts.establish es host port w') e refl

  -- On a controller without a socket, `connect` either returns true, where an establisher connected to
  -- that host and port and its answer is the controller's new connection and all else is as before; or
  -- it returns false and changes nothing, and then neither `startReading` nor `startWriting` starts
  -- anything, now or later: the error handler is told that there is no connection; or it lets out an
  -- exception of the factory for that protocol and changes nothing.
  pub connect-Outcome :
      (p : ProtocolType) (host : List ℕ) (port : ℕ) (c : Controller Sock Ex Re Wr)
      (session : SessionInfo) (w later : W)
      → c.info.socket ≡ none
      → Outcome p host port c session later (connect parts p host port c w)
  unfolding connect is_valid_protocol
  connect-Outcome http host port c session w later e =
      connect_with-Outcome http host port session c later w (parts.create_establisher http w) e refl
  connect-Outcome https host port c session w later e =
      connect_with-Outcome https host port session c later w (parts.create_establisher https w) e
        refl
  connect-Outcome (other n) host port c session w later e = nothing_starts session c later e
