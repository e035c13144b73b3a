-- ===== src/Tests/Secure.antt =====
-- The sockets and the certificate at small inputs.
use r_exasol.Base.{
  Bool, List, [], ap, arith, codes, drop, false, length, lt_one, negsuc, ok, pos, refl, some, suc,
  take, true, zero, ℕ, ℤ, ◌++◌, ◌<◌, ◌∷◌, ◌≡◌, ◌≤◌,
}
use r_exasol.Socket.{Received, got, lost, stored, count}
use r_exasol.Socket.Loopback.{loopback, loopback-Streams, loopback-Accepts}
use r_exasol.Tcp.{
  detach, SocketImpl, Kernel, shut_rd_wr, create, connect, destroy, open_descriptor, find_host,
  connect_to,
}
use r_exasol.Tcp.Connect.{Connected, connect-Connected}
use r_exasol.MetaInfo.{HostInfo, proxy_header, read_meta_info}
use r_exasol.MetaInfo.Answer.{Answer, IsAnswer, answer_bytes, read_meta_info-answer}
use r_exasol.Fill.{repeating_buffer_fill}
use r_exasol.Fill.Whole.{IsFiller, repeating_buffer_fill-whole}
use r_exasol.Fill.Packets.{Packets, Enough, repeating_buffer_fill-Enough}
use r_exasol.Certificate.{
  apply, CryptoLibrary, Certificate, unmade, is_valid, get_certificate, mkcert, after_mkcert,
  fill_certificate, make_key, set_fields, set_names, set_extensions, add_name, add_ext,
}
use r_exasol.Certificate.Made.{get_certificate-once}
use r_exasol.Establish.{Established, https_secured}
use r_exasol.Establish.Handover.{HandedOver, https_secured-HandedOver}
use r_exasol.Ssl
use r_exasol.Ssl.{created, SslLibrary, SslSocket, recv}
use r_exasol.Ssl.Stream.{recv-whole}

-- A stream that gives a byte for each call.
abbrev pub byte_filler : List ℕ → ℤ → Received × List ℕ
byte_filler s (negsuc n) = (lost [], s)
byte_filler s (pos zero) = (lost [], s)
byte_filler [] (pos (suc n)) = (lost [], [])
byte_filler (b ∷ bs) (pos (suc n)) = (got (b ∷ []), bs)

byte_filler-IsFiller : IsFiller byte_filler
byte_filler-IsFiller = record { fill_le = le }
  where
    le : (t : List ℕ) (n : ℕ) → length (stored (byte_filler t (pos n)).0) ≤ n
    le t zero = omega arith
    le [] (suc n) = omega arith
    le (b ∷ bs) (suc n) = omega arith

abbrev pub one_of : List ℕ → ℕ → ℕ
one_of s zero = 0
one_of [] (suc n) = 0
one_of (b ∷ bs) (suc n) = 1

pub one_of-some : (t : List ℕ) (n : ℕ) → 0 < n → 0 < length t → 0 < one_of t n
one_of-some t zero h k = absurd (omega arith)
one_of-some [] (suc n) h k = absurd (omega arith)
one_of-some (b ∷ bs) (suc n) h k = omega arith

pub one_of-le : (t : List ℕ) (n : ℕ) → one_of t n ≤ n
one_of-le t zero = omega arith
one_of-le [] (suc n) = omega arith
one_of-le (b ∷ bs) (suc n) = omega arith

pub one_of-there : (t : List ℕ) (n : ℕ) → one_of t n ≤ length t
one_of-there t zero = omega arith
one_of-there [] (suc n) = omega arith
one_of-there (b ∷ bs) (suc n) = omega arith

pub byte_filler-fills :
    (t : List ℕ) (n : ℕ)
    → 0 < n
    → 0 < length t
    → byte_filler t (pos n) ≡ (got (take (one_of t n) t), drop (one_of t n) t)
byte_filler-fills t zero h k = absurd (omega arith)
byte_filler-fills [] (suc n) h k = absurd (omega arith)
byte_filler-fills (b ∷ bs) (suc n) h k = refl

pub byte_filler-ends :
    (t : List ℕ) (n : ℕ) → length t ≡ 0 → lt_one (count (byte_filler t (pos n)).0) ≡ true
byte_filler-ends t zero h = refl
byte_filler-ends [] (suc n) h = refl
byte_filler-ends (b ∷ bs) (suc n) h = absurd (omega arith)

abbrev byte_filler-Packets : Packets byte_filler
byte_filler-Packets = record {
  pending = λ t. t;
  taken = one_of;
  some_taken = one_of-some;
  taken_le = one_of-le;
  taken_there = one_of-there;
  fills = λ t n h k. ap (λ r. r.0) (byte_filler-fills t n h k);
  later = λ t n h k. ap (λ r. r.1) (byte_filler-fills t n h k);
  ends = byte_filler-ends;
}

repeating_buffer_fill-whole_example :
    (success : Bool) × (bytes : List ℕ) × (later : List ℕ) × (repeating_buffer_fill byte_filler 2
        (codes "abc")
      ≡ some (success, bytes, later))
    × (length bytes ≤ 2)
    × (success ≡ true → length bytes ≡ 2)
repeating_buffer_fill-whole_example =
    repeating_buffer_fill-whole byte_filler byte_filler-IsFiller 2 (codes "abc") (omega arith)

repeating_buffer_fill-Enough_example :
    Enough byte_filler byte_filler-Packets 0 2
      (codes "abc")
      (repeating_buffer_fill byte_filler 2 (codes "abc"))
repeating_buffer_fill-Enough_example =
    repeating_buffer_fill-Enough byte_filler byte_filler-Packets 2 (codes "abc") (omega arith)
      (omega arith) (omega arith)

abbrev kernel : Kernel (List ℕ)
kernel = record {
  sys_recv = λ w fd n. (lost [], w);
  sys_send = λ w fd bs. (some (length bs), w);
  sys_shutdown = λ w fd how. [];
  sys_socket = λ w. (pos 3, w);
  gethostbyname = λ w host. (some (127 ∷ 0 ∷ 0 ∷ 1 ∷ []), w);
  sys_connect = λ w fd address port. (pos 0, w);
  errno = λ w. pos 0;
}

connected :
    connect kernel (codes "db") 8563 (create [])
    ≡ (ok tt, record { world = []; descriptor = pos 3 })
unfolding connect create open_descriptor find_host connect_to
connected = refl

connect-Connected_example :
    Connected kernel (codes "db") 8563 (create []) (record { world = []; descriptor = pos 3 })
    × (destroy kernel (record { world = []; descriptor = pos 3 })
        ≡ kernel.sys_shutdown [] (pos 3) shut_rd_wr)
connect-Connected_example =
    connect-Connected kernel (codes "db") 8563 (create [])
      (record { world = []; descriptor = pos 3 }) connected

abbrev library : SslLibrary (List ℕ)
library = record {
  load_error_strings = λ w. w;
  add_ssl_algorithms = λ w. w;
  ctx_new = λ w. (1, w);
  ssl_new = λ ctx w. (2, w);
  set_auto_retry = λ ssl w. w;
  set_fd = λ ssl fd w. w;
  set_accept_state = λ ssl w. w;
  get_fd = λ ssl w. pos 3;
  ssl_read = λ ssl. byte_filler;
  ssl_write = λ ssl w bs n. (some (length bs), w);
  ssl_shutdown = λ ssl w. (pos 1, w);
  ssl_free = λ ssl w. w;
  ctx_free = λ ctx w. w;
  err_free_strings = λ w. w;
}

abbrev secure : SslSocket (List ℕ)
secure = record { world = codes "abc"; ctx = 1; ssl = 2; socket_closed = false }

recv-whole_example :
    (w : List ℕ) × (recv kernel library secure 2 ≡ (got (codes "ab"), record secure { world = w }))
    × (w ≡ codes "c")
recv-whole_example =
    recv-whole kernel library (λ _. byte_filler-Packets) secure 2 (omega arith) (omega arith)
      (omega arith)

abbrev pub proxy : Answer
proxy = record {
  v0 = 1;
  v1 = 0;
  v2 = 0;
  v3 = 0;
  port = 8563;
  upper = 0;
  uppermost = 0;
  host = codes "10.0.0.7";
  junk = 0 ∷ 0 ∷ 0 ∷ 0 ∷ 0 ∷ 0 ∷ 7 ∷ [];
}

pub proxy-IsAnswer : IsAnswer proxy
proxy-IsAnswer = record {
  port_fits = omega arith;
  is_text = (
    (λ e. omega (arith, e)),
    (
      (λ e. omega (arith, e)),
      (
        (λ e. omega (arith, e)),
        (
          (λ e. omega (arith, e)),
          (
            (λ e. omega (arith, e)),
            ((λ e. omega (arith, e)), ((λ e. omega (arith, e)), ((λ e. omega (arith, e)), tt))),
          ),
        ),
      ),
    ),
  );
  room = refl;
}

read_meta_info-answer_example :
    (s : List ℕ) × (read_meta_info loopback (λ _. pos 0) (codes "db") 8563 (answer_bytes proxy)
      ≡ (ok (record { host = codes "10.0.0.7"; port = 8563 }), s))
    × (s ≡ (loopback.recv (answer_bytes proxy ++ proxy_header) 24).1)
    × (s ≡ proxy_header)
read_meta_info-answer_example =
    read_meta_info-answer loopback (λ _. pos 0) loopback-Streams loopback-Accepts (codes "db") 8563
      (answer_bytes proxy) proxy proxy_header proxy-IsAnswer refl

abbrev crypto : CryptoLibrary (List ℕ)
crypto = record {
  pkey_new = λ w. (some 1, w);
  x509_new = λ w. (some 2, w);
  rsa_new = λ w. (some 3, w);
  bn_new = λ w. (some 4, w);
  bn_set_rsa_f4 = λ bn w. w;
  bn_free = λ bn w. w;
  rsa_generate_key = λ rsa bits bn w. (true, w);
  assign_rsa = λ pk rsa w. (true, w);
  set_version = λ x n w. w;
  set_serial = λ x n w. w;
  set_not_before = λ x n w. w;
  set_not_after = λ x n w. w;
  set_pubkey = λ x pk w. w;
  add_name_entry = λ x field kind bytes w. (pos 1, w);
  set_issuer_to_subject = λ x w. w;
  make_extension = λ x nid value w. (some 5, w);
  add_extension = λ x ex w. w;
  free_extension = λ ex w. w;
  sign_md5 = λ x pk w. (true, w);
  x509_free = λ x w. w;
  pkey_free = λ pk w. w;
  use_certificate = λ ctx x w. (pos 1, w);
  use_private_key = λ ctx pk w. (pos 1, w);
}

abbrev made : Certificate
made = record { x509p = some 2; pkeyp = some 1 }

made_now : get_certificate crypto unmade [] ≡ (ok made, made, [])
unfolding get_certificate is_valid mkcert after_mkcert fill_certificate make_key set_fields
    set_names set_extensions add_name add_ext
made_now = refl

get_certificate-once_example :
    (made ≡ made)
    × (is_valid made ≡ true)
    × ((v : List ℕ) → get_certificate crypto made v ≡ (ok made, made, v))
get_certificate-once_example =
    get_certificate-once crypto (record { pkey_there = λ w. refl; x509_there = λ w. refl }) unmade
      made made [] [] made_now

abbrev tcp : SocketImpl (List ℕ)
tcp = record { world = codes "x"; descriptor = pos 3 }

abbrev host_seven : HostInfo
host_seven = record { host = codes "10.0.0.7"; port = 8563 }

abbrev secured : Established (SslSocket (List ℕ))
secured = record {
  proxy = host_seven;
  socket = record { world = codes "x"; ctx = 1; ssl = 2; socket_closed = false };
}

secured_now :
    https_secured kernel crypto library host_seven (Ssl.create crypto library made tcp) ≡ ok secured
unfolding https_secured Ssl.create created detach apply destroy
secured_now = refl

https_secured-HandedOver_example : HandedOver kernel crypto library tcp secured
https_secured-HandedOver_example =
    https_secured-HandedOver kernel crypto library host_seven made tcp secured secured_now
