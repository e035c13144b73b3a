-- ===== src/Tests/Import.antt =====
-- A system in memory, whose one connection has the bytes of the peer.
use r_exasol.Base.{
  List, [], ap, codes, drop, if◌then◌else◌, leb, length, le→leb, lt→leb_false, ok, pos, refl, some,
  take, ℕ, ◌++◌, ◌<◌, ◌∷◌, ◌≡◌, ◌≢◌, ◌≤◌,
}
use r_exasol.Socket.{Received, got, lost, count}
use r_exasol.Header.Consume.{header_bytes}
use r_exasol.Tcp.{Kernel, SocketImpl, tcp_socket, open_descriptor, find_host, connect_to}
use r_exasol.Tcp
use r_exasol.Tcp.Stream.{Network}
use r_exasol.MetaInfo.Answer.{answer_bytes}
use r_exasol.Tests.Transfer.{wire}
use r_exasol.Tests.Secure.{proxy}

-- What comes in, and what went out.
pub record Line : Type 0 where
  pub incoming : List ℕ
  pub outgoing : List ℕ

abbrev pub receive : Line → ℕ → Received × Line
receive w n =
    if leb n (length w.incoming)
    then (got (take n w.incoming), record w { incoming = drop n w.incoming })
    else (lost w.incoming, record w { incoming = [] })

abbrev pub memory_system : Kernel Line
memory_system = record {
  sys_recv = λ w fd n. receive w n;
  sys_send = λ w fd bs. (some (length bs), record w { outgoing = w.outgoing ++ bs });
  sys_shutdown = λ w fd how. w;
  sys_socket = λ w. (pos 3, w);
  gethostbyname = λ w host. (some (10 ∷ 0 ∷ 0 ∷ 7 ∷ []), w);
  sys_connect = λ w fd address port. (pos 0, w);
  errno = λ w. pos 0;
}

pub receive-all :
    (w : Line) (n : ℕ)
    → n ≤ length w.incoming
    → receive w n ≡ (got (take n w.incoming), record w { incoming = drop n w.incoming })
receive-all w n h = rw (le→leb n (length w.incoming) h) refl

pub receive-short : (w : Line) (n : ℕ) → length w.incoming < n → count (receive w n).0 ≢ pos n
receive-short w n h = rw (lt→leb_false n (length w.incoming) h) (λ e. absurd (cc e))

abbrev pub memory_system-Network : Network memory_system
memory_system-Network = record {
  incoming = λ w fd. w.incoming;
  outgoing = λ w fd. w.outgoing;
  waits_all = λ w fd n _ h. ap (λ r. r.0) (receive-all w n h);
  gets_less = λ w fd n h. receive-short w n h;
  moves_on = λ w fd n _ h. ap (λ r. r.1.incoming) (receive-all w n h);
  takes_all = λ w fd bs. refl;
  goes_out = λ w fd bs. refl;
}

abbrev pub request : List (List ℕ)
request = codes "PUT / HTTP/1.1" ∷ []

abbrev pub peer : Line
peer = record { incoming = answer_bytes proxy ++ (header_bytes request ++ wire); outgoing = [] }

pub connected_now :
    Tcp.connect memory_system (codes "db") 8563 (Tcp.create peer)
    ≡ (ok tt, record { world = peer; descriptor = pos 3 })
unfolding Tcp.connect Tcp.create open_descriptor find_host connect_to
connected_now = refl
