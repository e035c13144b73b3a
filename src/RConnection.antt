-- ===== src/RConnection.antt =====
-- `RReaderConnection` and `RWriterConnection` (src/r_exasol/rconnection/r_reader_connection.cpp and
-- r_writer_connection.cpp), through which R calls the reader and the writer. The hook in R's own
-- connection is null or points to the weak pointer here, so that it is a flag.
pub mod Hooks
pub mod Release
use r_exasol.Base.{Bool, Option, false, if◌then◌else◌, none, pos, some, true, ℕ, ℤ}
use r_exasol.Socket.{SocketOps}
use r_exasol.Chunk.{Memory}
use r_exasol.Reader.{Reader}
use r_exasol.Reader
use r_exasol.Writer.{Writer}
use r_exasol.Writer

-- `A` is the reader or the writer; `target` is what `lock()` gives.
pub record RConnection (A : Type 0) : Type 0 where
  pub target : Option A
  pub hooked : Bool
  pub is_open : Bool
  pub blocking : Bool
  pub can_read : Bool
  pub can_write : Bool

-- The two classes
abbrev pub RReaderConnection : Type 0 → Type 0
RReaderConnection S = RConnection (Reader S)

abbrev pub RWriterConnection : Type 0 → Type 0
RWriterConnection S = RConnection (Writer S)

-- `create` of the reader's class
unfoldable pub create_reading : {S : Type 0} → Option (Reader S) → RReaderConnection S
create_reading r = record {
  target = r;
  hooked = true;
  is_open = true;
  blocking = true;
  can_read = true;
  can_write = false;
}

-- `create` of the writer's class
unfoldable pub create_writing : {S : Type 0} → Option (Writer S) → RWriterConnection S
create_writing w = record {
  target = w;
  hooked = true;
  is_open = true;
  blocking = true;
  can_read = false;
  can_write = true;
}

-- `release` of both
unfoldable pub release : {A : Type 0} → RConnection A → RConnection A
release c = record c { hooked = false }

-- The locked pointer behind the hook.
unfoldable pub locked : {A : Type 0} → RConnection A → Option A
locked c = if c.hooked then c.target else none

module _ {S : Type 0} (io : SocketOps S) where
  -- `pipe_read` of the reader's file
  unfoldable pub hook_read :
      Memory → ℕ → ℕ → RConnection (Reader S) → Option (ℕ × Memory × RConnection (Reader S))
  unfolding locked
  hook_read dest size nitems c = elim (locked c) [
    | none ↦ some (0, dest, c)
    | some r ↦ elim (Reader.pipe_read io dest size nitems r) [
      | none ↦ none
      | some (n, dest', r') ↦ some (n, dest', record c { target = some r' })
    ]
  ]

  -- `file_fgetc_internal`
  unfoldable pub hook_fgetc : RConnection (Reader S) → ℤ × RConnection (Reader S)
  unfolding locked
  hook_fgetc c = elim (locked c) [
    | none ↦ (pos 0, c)
    | some r ↦ let (n, r') = Reader.fgetc io r in (n, record c { target = some r' })
  ]

  -- `pipe_write` of the writer's file
  unfoldable pub hook_write :
      Memory → ℕ → ℕ → RConnection (Writer S) → Option (ℕ × RConnection (Writer S))
  unfolding locked
  hook_write src size nitems c = elim (locked c) [
    | none ↦ some (0, c)
    | some w ↦ elim (Writer.pipe_write io src size nitems w) [
      | none ↦ none
      | some (n, w') ↦ some (n, record c { target = some w' })
    ]
  ]

  -- `pipe_fflush` of the writer's file
  unfoldable pub hook_fflush : RConnection (Writer S) → ℤ × RConnection (Writer S)
  unfolding locked
  hook_fflush c = elim (locked c) [
    | none ↦ (pos 0, c)
    | some w ↦ let (n, w') = Writer.pipe_fflush io w in (n, record c { target = some w' })
  ]
