-- ===== src/Lib.antt =====
-- The transfer of data between R and an Exasol database.
--
-- R reads or writes a table through a custom connection. The package opens a socket to the database,
-- plain or with SSL, asks it for the address of a proxy, runs an IMPORT or EXPORT statement over ODBC
-- on a background thread, and then plays an HTTP server on the socket: a header and chunked data come
-- in or go out. The parts, with the code that they are translated from (paths below src/r_exasol if
-- nothing else is said), and how they fit:
--
--   Socket      connection/socket/socket.h, the interface that all network code uses. Its promises are
--               the records IsBounded, Streams and Accepts. Socket/Loopback is the memory socket of
--               src/tests/test_reader_writer.cpp and satisfies them.
--   Chunk       connection/protocol/chunk.h, the buffer between the network and R.
--   Header      connection/protocol/common.cpp, readHttpHeader.
--   Hex         sscanf with "%x" by its documentation, which the reader uses.
--   Reader      connection/protocol/http/reader/http_chunk_reader.cpp. Bounds, Loop: bounds and
--               termination over any socket. Line, Decode, Deliver, Client, End: what it delivers of
--               a well-formed stream, up to its end; Session: a whole import; Chars: reads by the
--               byte against reads by the block.
--   Writer      connection/protocol/http/writer/http_chunk_writer.cpp. Invariant: bounds and
--               termination. Flush, Stream: what an accepting socket gets; Session: a whole export.
--   Answers     the answers of both, and the exceptions.
--   Fill        algorithm/repeating_buffer_fill.h; its children say what the loop returns, keeps and
--               reads of the packets.
--   Tcp         connection/socket/socket_impl.cpp over the system's calls, a record Kernel;
--               Tcp/Stream has what is relied on of them.
--   Ssl         connection/socket/ssl_socket_impl.cpp over OpenSSL's calls, a record SslLibrary;
--               Ssl/Stream shows that it is a socket that the reader and Header can use,
--               Ssl/Shutdown follows its life to the destructor.
--   Socket/Any  a std::shared_ptr<Socket>, whose calls go to the class of the object.
--   Certificate ssl/certificate.cpp and getCertificate of connection/connection_factory_impl.cpp;
--               Made and Leak: its success and its failure.
--   MetaInfo    connection/protocol/meta_info_reader.cpp, the address of the proxy.
--   Establish   connection/protocol/http/conn and https/conn, which chain these;
--               Establish/Import goes on to the end of the stream.
--   Controller  connection/connection_controller.cpp over the abstract classes that it uses, a record
--               Parts, with an error handler that returns. Connect, Start, Shutdown: its operations.
--               Keeps: what it leaves alone.
--   Executor    connection/async_executor/async_executor_impl.h with odbc/odbc_query_executor.cpp, as
--               steps of two threads; Executor/Odbc has the statement of the query, Executor/Impl
--               the operations with their effects and odbc/odbc_session_info_impl.cpp, which
--               Executor/Refine compares with the steps.
--   RConnection rconnection/r_reader_connection.cpp and r_writer_connection.cpp, the hooks that R
--               calls. Hooks has rconnection/connection_hook.h, the memory behind them.
--   Context     connection_context.cpp, the interface to R, over the controller. Its error handler,
--               exa::onError, calls the error of R, which does not return: what the jump leaves is the
--               state beside the result `raised`. Init, Destroy: what these leave. Uses, Ends, Hooked:
--               a session of R, and where the hooks point.
--   Entry       src/exasol.c and src/connection.cpp, which forward from R to the context;
--               Entry/Start: what R finds after a start; Entry/Tracing: the tracing.
--   Factory     connection/connection_factory_impl.cpp.
--   System      all of these put together: the Parts that the controller gets from the factory, the
--               establishers and odbc, over one Store; Beside adds the hooks, Session R's calls of its
--               connection through a hook. Steps, Importing and Exporting: the calls up to the start;
--               Reads and Writes: those of R's connection; Close, Report, Finish and Ends: the end.
--               Import and Export: the whole of a transfer, on a socket of either class; Secure: the
--               connection over SSL. The query of the background thread runs when the thread is waited for,
--               which is one of its possible orders.
--   Trace       debug_print/debug_printer.h, debug_printer.cpp and file_logger.cpp, over a file stream.
--   Base        what the files share: numbers, lists, results with a state. Tests: examples.
--
-- Conventions. A method is a function from the state of its object to its result and the new state;
-- an exception is an `err`, and the handlers are functions on the result. size_t, ssize_t, int and
-- char keep their widths (64, 64, 32 and 8 bits, two's complement, char signed), with the wrap-around
-- written out; char buffers are functions from an index to a byte, so that an access out of range is
-- not stopped by the model; no buffer has 2^63 bytes, so that the counts of pipe_read and fgetc do not
-- wrap. A weak pointer is an Option: what lock() gives.
--
-- Fuel. pipe_read and pipe_write go round at most once for each byte and twice more, since a round
-- that does not end takes or gives a byte; repeatingBufferFill takes one round more than the buffer
-- has bytes, since each call that does not end it stores a byte; readHttpHeader takes as many rounds
-- as the caller names, one more than the stream has bytes being enough; System is given `rounds` for it,
-- and the bytes of the header are enough.
--
-- Not modelled: the branches for Windows; mutexes, each operation being one step; the calls of the
-- tracing inside the other parts, which change nothing but the trace; debug_print/date.h, another
-- project's library that formats the time of a trace line; the table that registers the C functions
-- with R; the headers of src/r_exasol/external, which only include the system's; the R code.
pub mod Base
pub mod Socket
pub mod Chunk
pub mod Answers
pub mod Writer
pub mod Hex
pub mod Header
pub mod Reader
pub mod Fill
pub mod Tcp
pub mod MetaInfo
pub mod Certificate
pub mod Ssl
pub mod Controller
pub mod Executor
pub mod Establish
pub mod RConnection
pub mod Context
pub mod Entry
pub mod Factory
pub mod Trace
pub mod System
mod Tests
