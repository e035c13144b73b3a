-- ===== src/Tests/Wire.antt =====
-- A whole import over SSL, where OpenSSL hands out the bytes of the peer one by one.
use r_exasol.Base.{[], ap, arith, codes, false, minus_one, ok, pos, refl, some, ℕ, ◌++◌, ◌∷◌, ◌≡◌}
use r_exasol.Header.Consume.{header_bytes}
use r_exasol.Ssl.{SslLibrary, SslSocket, created}
use r_exasol.Ssl
use r_exasol.Certificate.{CryptoLibrary, Certificate, is_valid, get_certificate, apply}
use r_exasol.Certificate.Made.{Allocates}
use r_exasol.Tcp.{detach, SocketImpl}
use r_exasol.Tcp
use r_exasol.Fill.Packets.{Packets}
use r_exasol.Executor.{is_success}
use r_exasol.Socket.Any.{any_pending, in_world-world_of}
use r_exasol.Establish.Import.{answered_on}
use r_exasol.MetaInfo.Answer.{answer_bytes}
use r_exasol.System.{Outside}
use r_exasol.System.Import.{Serves, Imported}
use r_exasol.System.Secure.{query_secure-Imported}
use r_exasol.Tests.Import.{Line, memory_system, memory_system-Network, request, peer, connected_now}
use r_exasol.Tests.Transfer.{blank, frame, last_line, wire, frame-IsFrame, last_line-IsLast}
use r_exasol.Tests.Secure.{
  proxy, proxy-IsAnswer, byte_filler, one_of, one_of-some, one_of-le, one_of-there,
  byte_filler-fills, byte_filler-ends,
}
use r_exasol.Tests.System.{no_ssl, no_crypto, outside, at_first, no_hooks, session}

abbrev byte_ssl : SslLibrary Line
byte_ssl = record no_ssl {
  ssl_read =
      λ ssl w n. let (r, rest) = byte_filler w.incoming n in (r, record w { incoming = rest });
}

abbrev byte_ssl-Packets : (ssl : ℕ) → Packets (byte_ssl.ssl_read ssl)
byte_ssl-Packets ssl = record {
  pending = λ w. w.incoming;
  taken = λ w n. one_of w.incoming n;
  some_taken = λ w n h k. one_of-some w.incoming n h k;
  taken_le = λ w n. one_of-le w.incoming n;
  taken_there = λ w n. one_of-there w.incoming n;
  fills = λ w n h k. ap (λ r. r.0) (byte_filler-fills w.incoming n h k);
  later = λ w n h k. ap (λ r. r.1) (byte_filler-fills w.incoming n h k);
  ends = λ w n h. byte_filler-ends w.incoming n h;
}

abbrev good_crypto : CryptoLibrary Line
good_crypto = record no_crypto {
  pkey_new = λ w. (some 1, w);
  x509_new = λ w. (some 2, w);
  use_certificate = λ ctx x w. (pos 1, w);
  use_private_key = λ ctx key w. (pos 1, w);
}

good_crypto-Allocates : Allocates good_crypto
good_crypto-Allocates = record { pkey_there = λ w. refl; x509_there = λ w. refl }

abbrev encrypted : Outside Line
encrypted = record outside { ssl = byte_ssl; crypto = good_crypto }

abbrev certificate : Certificate
certificate = record { x509p = some 2; pkeyp = some 1 }

certificate_there :
    get_certificate good_crypto certificate peer ≡ (ok certificate, certificate, peer)
unfolding get_certificate is_valid
certificate_there = refl

-- What is left for OpenSSL.
abbrev handed_over : Line
handed_over = record {
  incoming = header_bytes request ++ wire;
  outgoing =
      (answered_on memory_system memory_system-Network
        (record { world = peer; descriptor = pos 3 })).world.outgoing;
}

abbrev ssl : SslSocket Line
ssl = record { world = handed_over; ctx = 1; ssl = 1; socket_closed = false }

shakes :
    Ssl.create good_crypto byte_ssl certificate (
      answered_on memory_system memory_system-Network (record { world = peer; descriptor = pos 3 }))
    ≡ (ok ssl, record { world = handed_over; descriptor = minus_one })
unfolding Ssl.create created apply detach Tcp.send Tcp.recv answer_bytes
shakes = refl

byte-Serves : Serves encrypted memory_system-Network byte_ssl-Packets session
unfolding is_success
byte-Serves = record {
  allocates = λ w. refl;
  apart = λ a.
      ap (any_pending memory_system byte_ssl memory_system-Network byte_ssl-Packets)
        (in_world-world_of a);
  succeeds = λ s w. refl;
}

query_secure-Imported_example :
    Imported encrypted
      (λ st. st)
      (codes "https")
      (codes "db")
      8563
      (record at_first { certificate = certificate })
      no_hooks
      session
      proxy
      (codes "abc")
      blank
      (1 ∷ 1 ∷ [])
      9
query_secure-Imported_example =
    query_secure-Imported encrypted (λ st. st) memory_system-Network good_crypto-Allocates
      byte_ssl-Packets (codes "db") 8563 (record at_first { certificate = certificate }) no_hooks
      session certificate certificate peer (record { world = peer; descriptor = pos 3 })
      (record { world = handed_over; descriptor = minus_one }) ssl proxy
      (header_bytes request ++ wire) request (frame ∷ []) last_line [] blank (1 ∷ 1 ∷ []) 9
      byte-Serves certificate_there connected_now proxy-IsAnswer (unfold Tcp.send in refl) shakes
      (unfold Tcp.destroy in refl) (omega arith) (frame-IsFrame, tt) last_line-IsLast (omega arith)
      (omega arith) (omega arith) (omega arith)
