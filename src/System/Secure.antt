-- ===== src/System/Secure.antt =====
-- A whole import over SSL: the certificate is made or there, the proxy's address comes in plain, and the
-- SSL socket takes the connection over.
use r_exasol.Base.{
  All, List, ap, codes, length, ok, pos, size_mod, some, true, ℕ, ◌%◌, ◌++◌, ◌+◌, ◌-◌, ◌<◌, ◌∙◌,
  ◌≡◌, ◌≤◌,
}
use r_exasol.Chunk.{Memory}
use r_exasol.Header.Consume.{IsLine, header_bytes}
use r_exasol.Tcp.{SocketImpl}
use r_exasol.Tcp
use r_exasol.Tcp.Stream.{Network}
use r_exasol.Fill.Packets.{Packets}
use r_exasol.MetaInfo.Answer.{Answer, IsAnswer, answer_bytes}
use r_exasol.Establish.{https_connect, https_reached, https_secured}
use r_exasol.Establish.Import.{after_request, answered_on, reach-answer}
use r_exasol.Certificate.{is_valid, Certificate, get_certificate}
use r_exasol.Certificate.Made.{Allocates, get_certificate-once}
use r_exasol.Ssl.{SslSocket}
use r_exasol.Ssl
use r_exasol.Socket.Any.{AnySocket, secure, any_pending}
use r_exasol.Reader.Line.{line_end}
use r_exasol.Reader.Decode.{Frame, IsFrame}
use r_exasol.Reader.Deliver.{wire_bytes, payloads}
use r_exasol.Reader.End.{IsLast}
use r_exasol.Reader.Session.{total}
use r_exasol.Factory.{create_connection_establisher, certified}
use r_exasol.Controller.{connect_with, established, is_valid_protocol}
use r_exasol.Controller
use r_exasol.Executor.Impl.{SessionInfo}
use r_exasol.RConnection.Hooks.{Hooks}
use r_exasol.Context.{
  returned, init_destroyed, empty, convert_protocol, same_text, shut_controller, destroy_connection,
  init_connection, init_connected,
}
use r_exasol.Entry.{io_start, c_init_connection}
use r_exasol.System.{Outside, Store, establisher_made, secure_connected, establish, system}
use r_exasol.System.Beside.{aside, beside_hooks}
use r_exasol.System.Session.{session_parts, session_side}
use r_exasol.System.Steps.{connected, linked_store}
use r_exasol.System.Import.{Serves, Imported, over-Imported}

module _ {W : Type 0} (o : Outside W) (warn : Store W → Store W) (net : Network o.kernel)
    (mem : Allocates o.crypto) where
  -- The socket that the establisher hands out.
  abbrev pub secured : SslSocket W → SocketImpl W → AnySocket W
  secured ssl s = secure (record ssl { world = Tcp.destroy o.kernel s })

  https_connect-secures :
      (host : List ℕ) (port : ℕ) (made : Certificate) (w : W) (s s' : SocketImpl W)
      (ssl : SslSocket W) (x : Answer) (rest : List ℕ)
      → is_valid made ≡ true
      → Tcp.connect o.kernel host port (Tcp.create w) ≡ (ok tt, s)
      → IsAnswer x
      → after_request o.kernel net s ≡ answer_bytes x ++ rest
      → Ssl.create o.crypto o.ssl made (answered_on o.kernel net s) ≡ (ok ssl, s')
      → https_connect o.kernel o.crypto o.ssl made host port w
        ≡ ok (record {
          proxy = record { host = x.host; port = x.port };
          socket = record ssl { world = Tcp.destroy o.kernel s' };
        })
  unfolding https_connect https_reached https_secured
  https_connect-secures host port made w s s' ssl x rest valid connects v q shakes =
      let (reached, _) = reach-answer o.kernel net host port w s x rest connects v q in
      rw (valid, reached, https_connect)
        (ap (https_secured o.kernel o.crypto o.ssl (record { host = x.host; port = x.port }))
          shakes)

  io_start-secures :
      (host : List ℕ) (port : ℕ) (st : Store W) (h : Hooks) (made stored : Certificate) (w : W)
      (s s' : SocketImpl W) (ssl : SslSocket W) (x : Answer) (rest : List ℕ)
      → get_certificate o.crypto st.certificate st.sys ≡ (ok made, stored, w)
      → Tcp.connect o.kernel host (port % 65536) (Tcp.create w) ≡ (ok tt, s)
      → IsAnswer x
      → after_request o.kernel net s ≡ answer_bytes x ++ rest
      → Ssl.create o.crypto o.ssl made (answered_on o.kernel net s) ≡ (ok ssl, s')
      → io_start
          (session_parts o warn)
          (session_side o warn)
          host
          port
          (codes "https")
          empty
          (st, h)
        ≡ some (
          returned (pos 0),
          connected x,
          (linked_store o warn (secured ssl s') (record st { certificate = stored }), h),
        )
  unfolding io_start c_init_connection init_connection init_connected init_destroyed
      destroy_connection shut_controller convert_protocol same_text Controller.connect connect_with
      is_valid_protocol established Controller.create session_parts beside_hooks system
      create_connection_establisher certified establisher_made establish secure_connected
  io_start-secures host port st h made stored w s s' ssl x rest got connects v q shakes =
      let parts = session_parts o warn in
      let side = session_side o warn in
      let (_, valid, _) =
        get_certificate-once o.crypto mem st.certificate made stored st.sys w got in
      let answers =
        https_connect-secures host (port % 65536) made w s s' ssl x rest valid connects v q
          shakes in
      ap
        (λ t. init_connected parts side (
          connect_with parts host (port % 65536) Controller.create
            (aside h (establisher_made o st (certified t)))))
        got
      ∙ ap
          (λ t. init_connected parts side (
            established parts Controller.create
              (aside h (secure_connected o (record st { sys = w; certificate = stored }) t))))
          answers

  module _ (p : (ssl : ℕ) → Packets (o.ssl.ssl_read ssl)) where
    -- Where the network, OpenSSL and ODBC keep their promises, there is a certificate, on the request
    -- the peer sends a well-formed answer, the SSL socket is made on that connection, and behind it
    -- OpenSSL hands out a header of well-formed lines, well-formed chunks and a chunk of size 0, in
    -- packets of any size, the calls of R on the whole library return what they return without SSL:
    -- `asyncRODBCIOStart` for https returns 0, reads of R's connection return the bytes of the chunks in
    -- order and then all that is left, `asyncRODBCQueryFinish` returns 0, and a read behind it nothing.
    pub query_secure-Imported :
        (host : List ℕ) (port : ℕ) (st : Store W) (h : Hooks) (session : SessionInfo)
        (made stored : Certificate) (w : W) (s s' : SocketImpl W) (ssl : SslSocket W) (x : Answer)
        (rest : List ℕ) (ls : List (List ℕ)) (fs : List Frame) (l after : List ℕ) (dest : Memory)
        (ns : List ℕ) (n : ℕ)
        → Serves o net p session
        → get_certificate o.crypto st.certificate st.sys ≡ (ok made, stored, w)
        → Tcp.connect o.kernel host (port % 65536) (Tcp.create w) ≡ (ok tt, s)
        → IsAnswer x
        → after_request o.kernel net s ≡ answer_bytes x ++ rest
        → Ssl.create o.crypto o.ssl made (answered_on o.kernel net s) ≡ (ok ssl, s')
        → any_pending o.kernel o.ssl net p (secured ssl s')
          ≡ header_bytes ls ++ (wire_bytes fs ++ (l ++ (line_end ++ after)))
        → All IsLine ls
        → All IsFrame fs
        → IsLast l
        → length (header_bytes ls) ≤ o.rounds
        → total ns ≤ length (payloads fs)
        → length (payloads fs) - total ns < n
        → total ns + n < size_mod
        → Imported o warn (codes "https") host port st h session x (payloads fs) dest ns n
    query_secure-Imported host port st h session made stored w s s' ssl x rest ls fs l after dest ns
          n serves got connects v q shakes pending header frames last f k d b =
        over-Imported o warn net p (codes "https") host port st (record st { certificate = stored })
          h session (secured ssl s') x ls fs l after dest ns n serves
          (io_start-secures host port st h made stored w s s' ssl x rest got connects v q shakes)
          pending header frames last f k d b
