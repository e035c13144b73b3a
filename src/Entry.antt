-- ===== src/Entry.antt =====
-- The functions that R calls (src/exasol.c) and the C interface that they use (src/connection.cpp),
-- which forward to the one `ConnectionContext`. The conversions of R's values are left out: a number
-- is a number, a text its bytes, a null pointer `none`.
pub mod Start
pub mod Tracing
use r_exasol.Base.{Bool, List, Option, false, none, not, some, true, ℕ, ℤ, ◌==◌}
use r_exasol.Controller.{Parts}
use r_exasol.Executor.Impl.{SessionInfo}
use r_exasol.Context.{
  Returned, raised, RSide, Context, init_connection, destroy_connection, create_read_connection,
  create_write_connection, copy_host_name, copy_host_port,
}

-- `copyHostName` and `copyHostPort` of the C interface
unfoldable pub c_copy_host_name :
    {Cn Sock Ex Re Wr : Type 0} → Context Cn Sock Ex Re Wr → Option (List ℕ)
unfolding copy_host_name
c_copy_host_name c = copy_host_name c

unfoldable pub c_copy_host_port : {Cn Sock Ex Re Wr : Type 0} → Context Cn Sock Ex Re Wr → ℕ
unfolding copy_host_port
c_copy_host_port c = copy_host_port c

-- `asyncRODBCProxyHost`
unfoldable pub proxy_host : {Cn Sock Ex Re Wr : Type 0} → Context Cn Sock Ex Re Wr → Option (List ℕ)
unfolding c_copy_host_name
proxy_host c = c_copy_host_name c

-- `asyncRODBCProxyPort`
unfoldable pub proxy_port : {Cn Sock Ex Re Wr : Type 0} → Context Cn Sock Ex Re Wr → ℕ
unfolding c_copy_host_port
proxy_port c = c_copy_host_port c

module _ {W Es Sock Ex Re Wr Cn : Type 0} (parts : Parts W Es Sock Ex Re Wr)
    (r : RSide W Re Wr Cn) where
  -- `initConnection` of the C interface
  unfoldable pub c_init_connection :
      List ℕ
      → ℕ
      → List ℕ
      → Context Cn Sock Ex Re Wr
      → W
      → Option (Returned ℤ × Context Cn Sock Ex Re Wr × W)
  unfolding init_connection
  c_init_connection host port protocol c w = init_connection parts r host port protocol c w

  -- `destroyConnection` of the C interface: the check is asked for by 1 only.
  unfoldable pub c_destroy_connection :
      ℕ → Context Cn Sock Ex Re Wr → W → Option (Returned ℤ × Context Cn Sock Ex Re Wr × W)
  unfolding destroy_connection
  c_destroy_connection check_was_done c w = destroy_connection parts r (check_was_done == 1) c w

  -- `createReadConnection` and `createWriteConnection` of the C interface
  unfoldable pub c_create_connection :
      SessionInfo
      → Bool
      → Context Cn Sock Ex Re Wr
      → W
      → Returned (Option Cn) × Context Cn Sock Ex Re Wr × W
  unfolding create_read_connection create_write_connection
  c_create_connection session true c w = create_write_connection parts r session c w
  c_create_connection session false c w = create_read_connection parts r session c w

  -- `asyncRODBCIOStart`
  unfoldable pub io_start :
      List ℕ
      → ℕ
      → List ℕ
      → Context Cn Sock Ex Re Wr
      → W
      → Option (Returned ℤ × Context Cn Sock Ex Re Wr × W)
  unfolding c_init_connection
  io_start host port protocol c w = c_init_connection host port protocol c w

  -- `asyncRODBCQueryStart`, with the handle of the channel and the text of the query.
  unfoldable pub query_start :
      Option ℕ
      → Option (List ℕ)
      → ℕ
      → Context Cn Sock Ex Re Wr
      → W
      → Returned (Option Cn) × Context Cn Sock Ex Re Wr × W
  unfolding c_create_connection
  query_start none q writer c w = (raised, c, w)
  query_start (some rodbc) none writer c w = (raised, c, w)
  query_start (some rodbc) (some q) writer c w =
      c_create_connection (record { handle = rodbc; query = q }) (not (writer == 0)) c w

  -- `asyncRODBCQueryFinish`
  unfoldable pub query_finish :
      ℕ → Context Cn Sock Ex Re Wr → W → Option (Returned ℤ × Context Cn Sock Ex Re Wr × W)
  unfolding c_destroy_connection
  query_finish check_was_done c w = c_destroy_connection check_was_done c w
