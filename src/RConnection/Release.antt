-- ===== src/RConnection/Release.antt =====
-- What R gets from a connection to a reader, and after its release.
use r_exasol.Base.{List, drop, length, pos, refl, size_mod, some, take, ℕ, ◌*◌, ◌<◌, ◌≡◌, ◌≤◌}
use r_exasol.Socket.{SocketOps, Streams}
use r_exasol.Chunk.{Memory, Chunk, slice}
use r_exasol.Reader.{Reader}
use r_exasol.Reader.Deliver.{Holds}
use r_exasol.Reader.Client.{pipe_read-delivers}
use r_exasol.RConnection.{create_reading, release, locked, hook_read, hook_fgetc}

module _ {S : Type 0} (io : SocketOps S) (st : Streams io) where
  -- On a stream of chunks that still holds `size * nitems` bytes, where `size` is not 0 and the
  -- product does not overflow, R's read on a connection returns `nitems`, copies the next bytes of
  -- the chunks, and keeps the connection to the rest of them. After a release it returns 0, and the
  -- function for a single byte returns the byte 0, not -1 for the end.
  pub hook_read-delivers :
      (dest : Memory) (size nitems : ℕ) (s : S) (c : Chunk) (tail bytes : List ℕ)
      → Holds io st s c tail bytes
      → 0 < size
      → size * nitems < size_mod
      → size * nitems ≤ length bytes
      → (dest' : Memory) × (r' : Reader S) × (s' : S) × (c' : Chunk) × (r'
          ≡ record { socket = some s'; chunk = c' })
        × (hook_read io dest size nitems
              (create_reading (some (record { socket = some s; chunk = c })))
            ≡ some (nitems, dest', create_reading (some r')))
        × (slice dest' 0 (size * nitems) ≡ take (size * nitems) bytes)
        × Holds io st s' c' tail (drop (size * nitems) bytes)
        × (hook_read io dest' size nitems (release (create_reading (some r')))
            ≡ some (0, dest', release (create_reading (some r'))))
        × (hook_fgetc io (release (create_reading (some r')))
            ≡ (pos 0, release (create_reading (some r'))))
  unfolding hook_read hook_fgetc create_reading release locked
  hook_read-delivers dest size nitems s c tail bytes v k b h =
      let (dest', s', c', read, copied, rest) =
        pipe_read-delivers io st dest size nitems s c tail bytes v k b h in
      (
        dest',
        record { socket = some s'; chunk = c' },
        s',
        c',
        refl,
        rw (read, hook_read) refl,
        copied,
        rest,
        refl,
        refl,
      )
