-- ===== src/Tests/System.antt =====
-- A whole import and a whole export by R's calls, over the system in memory.
use r_exasol.Base.{
  [], ap, arith, codes, false, length, minus_one, none, ok, pos, refl, some, ℕ, ◌++◌, ◌∷◌, ◌≡◌,
}
use r_exasol.Socket.{lost}
use r_exasol.Ssl.{SslLibrary}
use r_exasol.Certificate.{CryptoLibrary, unmade}
use r_exasol.Tcp
use r_exasol.Fill.Packets.{Packets}
use r_exasol.Executor.{is_success}
use r_exasol.Executor.Odbc.{Odbc, error_text}
use r_exasol.Executor.Impl.{SessionInfo}
use r_exasol.RConnection.Hooks.{Hooks, get_connection_hook}
use r_exasol.System.{Outside, Store}
use r_exasol.System.Export.{Exported, query-Exported}
use r_exasol.Ssl.Stream.{WritesAll}
use r_exasol.MetaInfo.Answer.{answer_bytes}
use r_exasol.Header.Consume.{header_bytes}
use r_exasol.Tcp.{open_descriptor, find_host, connect_to}
use r_exasol.System.Finish.{query_finish-reports}
use r_exasol.System.Close.{IsClear, closed}
use r_exasol.System.Session.{session_parts, session_side}
use r_exasol.System.Steps.{querying, importing, let_go}
use r_exasol.Socket.Any.{plain, any_pending, in_world-world_of}
use r_exasol.Entry.{query_finish}
use r_exasol.Context.{raised}
use r_exasol.Controller.{query_failed}
use r_exasol.Answers.{text, chars, number}
use r_exasol.System.Import.{Serves, Imported, query-Imported}
use r_exasol.Tests.Import.{Line, memory_system, memory_system-Network, request, peer, connected_now}
use r_exasol.Tests.Transfer.{
  letters, blank, fresh, frame, last_line, frame-IsFrame, last_line-IsLast,
}
use r_exasol.Tests.Secure.{proxy, proxy-IsAnswer}

-- A session without SSL has nothing of it.
abbrev pub no_ssl : SslLibrary Line
no_ssl = record {
  load_error_strings = λ w. w;
  add_ssl_algorithms = λ w. w;
  ctx_new = λ w. (1, w);
  ssl_new = λ ctx w. (1, w);
  set_auto_retry = λ ssl w. w;
  set_fd = λ ssl fd w. w;
  set_accept_state = λ ssl w. w;
  get_fd = λ ssl w. pos 3;
  ssl_read = λ ssl w n. (lost [], w);
  ssl_write = λ ssl w bs n. (some (length bs), record w { outgoing = w.outgoing ++ bs });
  ssl_shutdown = λ ssl w. (pos 1, w);
  ssl_free = λ ssl w. w;
  ctx_free = λ ctx w. w;
  err_free_strings = λ w. w;
}

abbrev pub no_ssl-Packets : (ssl : ℕ) → Packets (no_ssl.ssl_read ssl)
no_ssl-Packets ssl = record {
  pending = λ w. [];
  taken = λ w n. 0;
  some_taken = λ w n h k. k;
  taken_le = λ w n. omega arith;
  taken_there = λ w n. omega arith;
  fills = λ w n h k. absurd (omega arith);
  later = λ w n h k. refl;
  ends = λ w n h. refl;
}

abbrev pub no_crypto : CryptoLibrary Line
no_crypto = record {
  pkey_new = λ w. (none, w);
  x509_new = λ w. (none, w);
  rsa_new = λ w. (none, w);
  bn_new = λ w. (none, w);
  bn_set_rsa_f4 = λ bn w. w;
  bn_free = λ bn w. w;
  rsa_generate_key = λ rsa bits bn w. (false, w);
  assign_rsa = λ key rsa w. (false, w);
  set_version = λ x v w. w;
  set_serial = λ x n w. w;
  set_not_before = λ x s w. w;
  set_not_after = λ x s w. w;
  set_pubkey = λ x key w. w;
  add_name_entry = λ x field t value w. (pos 0, w);
  set_issuer_to_subject = λ x w. w;
  make_extension = λ x nid value w. (none, w);
  add_extension = λ x e w. w;
  free_extension = λ e w. w;
  sign_md5 = λ x key w. (false, w);
  x509_free = λ x w. w;
  pkey_free = λ key w. w;
  use_certificate = λ ctx x w. (pos 0, w);
  use_private_key = λ ctx key w. (pos 0, w);
}

abbrev pub good_driver : Odbc Line
good_driver = record {
  alloc_statement = λ c w. (pos 0, some 7, w);
  free_statement = λ s w. w;
  exec_direct = λ s q w. (pos 0, w);
  get_diag_rec = λ s w. (pos 0, record { sqlstate = []; native_error = pos 0; message = [] }, w);
}

abbrev pub outside : Outside Line
outside = record {
  kernel = memory_system;
  ssl = no_ssl;
  crypto = no_crypto;
  odbc = good_driver;
  handle = λ e w. w;
  rounds = 30;
  line = blank;
}

abbrev pub at_first : Store Line
at_first = record {
  sys = peer;
  socket = none;
  chunk = fresh;
  certificate = unmade;
  executor = none;
}

abbrev pub no_hooks : Hooks
no_hooks = record { priv = λ con. none; next = 0 }

abbrev pub session : SessionInfo
session = record { handle = 1; query = codes "IMPORT" }

good_driver-Serves : Serves outside memory_system-Network no_ssl-Packets session
unfolding is_success
good_driver-Serves = record {
  allocates = λ w. refl;
  apart = λ a.
      ap (any_pending memory_system no_ssl memory_system-Network no_ssl-Packets)
        (in_world-world_of a);
  succeeds = λ s w. refl;
}

query-Imported_example :
    Imported outside
      (λ st. st)
      (codes "http")
      (codes "db")
      8563
      at_first
      no_hooks
      session
      proxy
      (codes "abc")
      blank
      (1 ∷ 1 ∷ [])
      9
query-Imported_example =
    query-Imported outside (λ st. st) memory_system-Network no_ssl-Packets (codes "db") 8563
      at_first no_hooks session (record { world = peer; descriptor = pos 3 }) proxy request
      (frame ∷ []) last_line [] blank (1 ∷ 1 ∷ []) 9 good_driver-Serves connected_now proxy-IsAnswer
      (unfold Tcp.send in refl) (omega arith) (frame-IsFrame, tt) last_line-IsLast (omega arith)
      (omega arith) (omega arith) (omega arith)

no_ssl-WritesAll : WritesAll no_ssl
no_ssl-WritesAll = record {
  written = λ ssl w. w.outgoing;
  all = λ ssl w bs h. refl;
  goes_out = λ ssl w bs h. refl;
}

-- The peer of an export sends its header only.
abbrev listener : Line
listener = record { incoming = answer_bytes proxy ++ header_bytes request; outgoing = [] }

listening :
    Tcp.connect memory_system (codes "db") 8563 (Tcp.create listener)
    ≡ (ok tt, record { world = listener; descriptor = pos 3 })
unfolding Tcp.connect Tcp.create open_descriptor find_host connect_to
listening = refl

query-Exported_example :
    Exported outside
      (λ st. st)
      memory_system-Network
      no_ssl-WritesAll
      (codes "http")
      (codes "db")
      8563
      (record at_first { sys = listener })
      no_hooks
      session
      proxy
      (record { source = letters; size = 2 } ∷ record { source = letters; size = 1 } ∷ [])
query-Exported_example =
    query-Exported outside (λ st. st) memory_system-Network no_ssl-WritesAll no_ssl-Packets
      (codes "db") 8563 (record at_first { sys = listener }) no_hooks session
      (record { world = listener; descriptor = pos 3 }) proxy request []
      (record { source = letters; size = 2 } ∷ record { source = letters; size = 1 } ∷ [])
      good_driver-Serves listening proxy-IsAnswer (unfold Tcp.send in refl) (omega arith)
      (omega arith) (omega arith) (omega arith)

-- A query that the server refuses.
abbrev pub bad_driver : Odbc Line
bad_driver = record {
  alloc_statement = λ c w. (pos 0, some 7, w);
  free_statement = λ s w. w;
  exec_direct = λ s q w. (minus_one, w);
  get_diag_rec = λ s w. (
    pos 0,
    record { sqlstate = codes "42000"; native_error = pos 1; message = codes "syntax" },
    w,
  );
}

abbrev pub refusing : Outside Line
refusing = record outside { odbc = bad_driver }

abbrev pub in_transfer : Store Line
in_transfer = record at_first {
  socket = some (plain (record { world = peer; descriptor = pos 3 }));
  executor = some (querying session (some 7));
}

query_finish-reports_example :
    (w : Store Line × Hooks) × (query_finish
        (session_parts refusing (λ st. st))
        (session_side refusing (λ st. st))
        1
        (importing proxy (record { address = 0; conn = 0 }))
        (in_transfer, no_hooks)
      ≡ some (
        raised,
        record {
          connection = some (record { address = 0; conn = 0 });
          controller = some (let_go proxy);
        },
        (session_parts refusing (λ st. st)).on_error
            (query_failed (
              text "Could not execute SQL: '"
              ∷ chars (codes "42000")
              ∷ text "' "
              ∷ number (pos 1)
              ∷ text "' "
              ∷ chars (codes "syntax")
              ∷ text "'"
              ∷ []))
            w,
      ))
    × (get_connection_hook 0 w.1 ≡ none)
    × IsClear w.0
unfolding is_success error_text
query_finish-reports_example =
    query_finish-reports refusing (λ st. st) session (some 7) proxy
      (record { address = 0; conn = 0 }) (some tt) none in_transfer no_hooks minus_one
      (closed refusing in_transfer).sys refl refl refl
