-- ===== src/Tests/Shutdown.antt =====
-- The life of an SSL socket. The world is the number of the system's shutdowns.
use r_exasol.Base.{List, [], codes, false, length, none, pos, refl, some, true, ℕ, ◌+◌, ◌∷◌, ◌≡◌}
use r_exasol.Socket.{lost}
use r_exasol.Tcp.{Kernel}
use r_exasol.Ssl.{SslLibrary, SslSocket, destroy}
use r_exasol.Ssl.Shutdown.{
  Use, use_recv, use_send, use_shutdown_wr, use_shutdown_rd_wr, Counts, is_closing, has_closing,
  run_uses, destroy-run_uses,
}

abbrev counting : Kernel ℕ
counting = record {
  sys_recv = λ w fd n. (lost [], w);
  sys_send = λ w fd bs. (some (length bs), w);
  sys_shutdown = λ w fd how. w + 1;
  sys_socket = λ w. (pos 3, w);
  gethostbyname = λ w host. (none, w);
  sys_connect = λ w fd address port. (pos 0, w);
  errno = λ w. pos 0;
}

abbrev library : SslLibrary ℕ
library = record {
  load_error_strings = λ w. w;
  add_ssl_algorithms = λ w. w;
  ctx_new = λ w. (1, w);
  ssl_new = λ ctx w. (2, w);
  set_auto_retry = λ ssl w. w;
  set_fd = λ ssl fd w. w;
  set_accept_state = λ ssl w. w;
  get_fd = λ ssl w. pos 3;
  ssl_read = λ ssl w n. (lost [], w);
  ssl_write = λ ssl w bs n. (some (length bs), w);
  ssl_shutdown = λ ssl w. (pos 0, w);
  ssl_free = λ ssl w. w;
  ctx_free = λ ctx w. w;
  err_free_strings = λ w. w;
}

abbrev counting-Counts : Counts counting library
counting-Counts = record {
  calls = λ w. w;
  on_shutdown = λ w fd how. refl;
  on_read = λ ssl w n. refl;
  on_write = λ ssl w bs n. refl;
  on_ssl_shutdown = λ ssl w. refl;
  on_free = λ ssl ctx w. refl;
  is_alive = λ ssl w. true;
  fd_there = λ ssl w h. refl;
  read_alive = λ ssl w n h. h;
  write_alive = λ ssl w bs n h. h;
  ssl_shutdown_alive = λ ssl w h. h;
  shutdown_alive = λ ssl w fd how h. h;
}

abbrev uses : List Use
uses = use_recv 4 ∷ use_shutdown_wr ∷ use_send (codes "a") ∷ use_shutdown_rd_wr ∷ []

abbrev open_socket : SslSocket ℕ
open_socket = record { world = 7; ctx = 1; ssl = 2; socket_closed = false }

destroy-run_uses_example : destroy counting library (run_uses counting library uses open_socket) ≡ 8
unfolding has_closing is_closing
destroy-run_uses_example =
    destroy-run_uses counting library counting-Counts uses open_socket refl refl refl
