-- ===== src/System/Session.antt =====
-- What R does with the whole library: its calls of the functions of src/exasol.c work on the context,
-- and its reads and writes go through the hook of a connection.
use r_exasol.Base.{List, Option, [], none, pos, some, ℕ, ℤ, ◌++◌, ◌∷◌}
use r_exasol.Chunk.{Memory, slice}
use r_exasol.Socket.Any.{AnySocket}
use r_exasol.Reader.{Reader, pipe_read, fgetc}
use r_exasol.Writer.{Writer, pipe_write, pipe_fflush}
use r_exasol.Writer.Session.{Piece}
use r_exasol.Factory.{Establisher}
use r_exasol.Controller.{Parts}
use r_exasol.Context.{Context, RSide}
use r_exasol.RConnection.Hooks.{RObject, Hooks, get_connection_hook, with_hooks}
use r_exasol.System.{Outside, Store, io, reader_of, put_reader, writer_of, put_writer, system}
use r_exasol.System.Beside.{beside_hooks}

-- The context of the whole library.
abbrev pub Session : Type 0
Session = Context RObject (Unit {0}) (Unit {0}) (Unit {0}) (Unit {0})

abbrev pub locked_reader : Session → Option (Unit {0})
locked_reader c = elim c.controller [ none ↦ none | some k ↦ k.reader ]

abbrev pub locked_writer : Session → Option (Unit {0})
locked_writer c = elim c.controller [ none ↦ none | some k ↦ k.writer ]

module _ {W : Type 0} (o : Outside W) (warn : Store W → Store W) where
  unfoldable pub session_parts :
      Parts (Store W × Hooks) Establisher (Unit {0}) (Unit {0}) (Unit {0}) (Unit {0})
  unfolding beside_hooks
  session_parts = beside_hooks (system o)

  unfoldable pub session_side : RSide (Store W × Hooks) (Unit {0}) (Unit {0}) RObject
  unfolding with_hooks
  session_side = with_hooks warn

  abbrev pub after_read :
      Store W × Hooks
      → Option (ℕ × Memory × Reader (AnySocket W))
      → Option (ℕ × Memory × (Store W × Hooks))
  after_read w none = none
  after_read w (some (n, dest, r)) = some (n, dest, (put_reader r w.0, w.1))

  -- The `read` of R's connection: `pipe_read` of r_reader_connection.cpp. A hook that is not null is the
  -- context's object, whose weak pointer is to the controller's reader.
  unfoldable pub session_read :
      ℕ → Memory → ℕ → ℕ → Session → Store W × Hooks → Option (ℕ × Memory × (Store W × Hooks))
  unfolding get_connection_hook pipe_read
  session_read con dest size nitems c w = elim (get_connection_hook con w.1) [
    | none ↦ some (0, dest, w)
    | some _ ↦ elim (locked_reader c) [
      | none ↦ some (0, dest, w)
      | some _ ↦ after_read w (pipe_read (io o) dest size nitems (reader_of w.0))
    ]
  ]

  -- Reads of the given lengths into the same buffer, and all that they copy to it.
  unfoldable pub session_reads :
      ℕ → Memory → List ℕ → Session → Store W × Hooks → Option (List ℕ × (Store W × Hooks))
  session_reads con dest [] c w = some ([], w)
  session_reads con dest (n ∷ ns) c w = elim (session_read con dest 1 n c w) [
    | none ↦ none
    | some (k, dest', w') ↦ elim (session_reads con dest' ns c w') [
      | none ↦ none
      | some (bs, w'') ↦ some (slice dest' 0 k ++ bs, w'')
    ]
  ]

  -- Its `fgetc`: `file_fgetc_internal`.
  unfoldable pub session_fgetc : ℕ → Session → Store W × Hooks → ℤ × (Store W × Hooks)
  unfolding get_connection_hook fgetc
  session_fgetc con c w = elim (get_connection_hook con w.1) [
    | none ↦ (pos 0, w)
    | some _ ↦ elim (locked_reader c) [
      | none ↦ (pos 0, w)
      | some _ ↦ let (n, r) = fgetc (io o) (reader_of w.0) in (n, (put_reader r w.0, w.1))
    ]
  ]

  abbrev pub after_write :
      Store W × Hooks → Option (ℕ × Writer (AnySocket W)) → Option (ℕ × (Store W × Hooks))
  after_write w none = none
  after_write w (some (n, r)) = some (n, (put_writer r w.0, w.1))

  -- The `write` of R's connection: `pipe_write` of r_writer_connection.cpp.
  unfoldable pub session_write :
      ℕ → Memory → ℕ → ℕ → Session → Store W × Hooks → Option (ℕ × (Store W × Hooks))
  unfolding get_connection_hook pipe_write
  session_write con src size nitems c w = elim (get_connection_hook con w.1) [
    | none ↦ some (0, w)
    | some _ ↦ elim (locked_writer c) [
      | none ↦ some (0, w)
      | some _ ↦ after_write w (pipe_write (io o) src size nitems (writer_of w.0))
    ]
  ]

  -- Its `fflush`.
  unfoldable pub session_fflush : ℕ → Session → Store W × Hooks → ℤ × (Store W × Hooks)
  unfolding get_connection_hook pipe_fflush
  session_fflush con c w = elim (get_connection_hook con w.1) [
    | none ↦ (pos 0, w)
    | some _ ↦ elim (locked_writer c) [
      | none ↦ (pos 0, w)
      | some _ ↦ let (n, r) = pipe_fflush (io o) (writer_of w.0) in (n, (put_writer r w.0, w.1))
    ]
  ]

  -- Writes of the given pieces, one by one.
  unfoldable pub session_writes :
      ℕ → List Piece → Session → Store W × Hooks → Option (Store W × Hooks)
  session_writes con [] c w = some w
  session_writes con (p ∷ ps) c w = elim (session_write con p.source 1 p.size c w) [
    | none ↦ none
    | some (_, w') ↦ session_writes con ps c w'
  ]
