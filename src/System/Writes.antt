-- ===== src/System/Writes.antt =====
-- R's writes through the hook are the writes of the writer.
use r_exasol.Base.{List, Option, [], ap, none, refl, some, ℕ, ℤ, ◌∙◌, ◌∷◌, ◌≡◌}
use r_exasol.Chunk.{Memory, Chunk}
use r_exasol.Socket.Any.{AnySocket, in_world-world_of}
use r_exasol.Writer.{Writer, pipe_write, pipe_fflush}
use r_exasol.Writer.Session.{Piece, write_all}
use r_exasol.RConnection.Hooks.{Hooks, get_connection_hook}
use r_exasol.System.{Outside, Store, io, writer_of, put_writer}
use r_exasol.System.Session.{Session, locked_writer, session_write, session_fflush, session_writes}

pub writer_of-put_writer :
    {W : Type 0} (r : Writer (AnySocket W)) (st : Store W) → writer_of (put_writer r st) ≡ r
writer_of-put_writer r st = placed-back r.socket r.chunk st
  where
    placed-back :
        {W : Type 0} (s : Option (AnySocket W)) (c : Chunk) (st : Store W)
        → writer_of (put_writer (record { socket = s; chunk = c }) st)
          ≡ record { socket = s; chunk = c }
    placed-back none c st = refl
    placed-back (some s) c st =
        ap (λ x. record { socket = some x; chunk = c }) (in_world-world_of s)

module _ {W : Type 0} (o : Outside W) (warn : Store W → Store W) (con : ℕ) (address : ℕ)
    (c : Session) (h : Hooks) (hooked : get_connection_hook con h ≡ some address)
    (locked : locked_writer c ≡ some tt) where
  session_write-pipe_write :
      (src : Memory) (size nitems n : ℕ) (st : Store W) (r r' : Writer (AnySocket W))
      → writer_of st ≡ r
      → pipe_write (io o) src size nitems r ≡ some (n, r')
      → session_write o warn con src size nitems c (st, h) ≡ some (n, (put_writer r' st, h))
  unfolding session_write
  session_write-pipe_write src size nitems n st r r' e wrote =
      let now : pipe_write (io o) src size nitems (writer_of st) ≡ some (n, r') =
        ap (pipe_write (io o) src size nitems) e ∙ wrote in
      rw (hooked, locked, now, session_write) refl

  pub session_fflush-pipe_fflush :
      (n : ℤ) (st : Store W) (r r' : Writer (AnySocket W))
      → writer_of st ≡ r
      → pipe_fflush (io o) r ≡ (n, r')
      → session_fflush o warn con c (st, h) ≡ (n, (put_writer r' st, h))
  unfolding session_fflush
  session_fflush-pipe_fflush n st r r' e flushed =
      let now : pipe_fflush (io o) (writer_of st) ≡ (n, r') = ap (pipe_fflush (io o)) e ∙ flushed in
      rw (hooked, locked, session_fflush) (ap (λ t. (t.0, (put_writer t.1 st, h))) now)

  -- What writes leave in the store.
  pub record Left (ps : List Piece) (st : Store W) (r' : Writer (AnySocket W)) : Type 0 where
    pub store : Store W
    pub stops : session_writes o warn con ps c (st, h) ≡ some (store, h)
    pub writer : writer_of store ≡ r'
    pub same_executor : store.executor ≡ st.executor

  -- The rest of `write_all` behind its first write.
  abbrev continued : List Piece → Option (ℕ × Writer (AnySocket W)) → Option (Writer (AnySocket W))
  continued ps none = none
  continued ps (some (_, r)) = write_all (io o) ps r

  first-Left :
      (x : Piece) (ps : List Piece) (st : Store W) (r r' : Writer (AnySocket W))
      → writer_of st ≡ r
      → ((st1 : Store W) (r1 : Writer (AnySocket W))
          → writer_of st1 ≡ r1
          → write_all (io o) ps r1 ≡ some r'
          → Left ps st1 r')
      → (out : Option (ℕ × Writer (AnySocket W))) → pipe_write (io o) x.source 1 x.size r ≡ out
      → continued ps out ≡ some r'
      → Left (x ∷ ps) st r'
  unfolding session_writes
  first-Left x ps st r r' e others none q p = absurd (cc p)
  first-Left x ps st r r' e others (some (n, r1)) q p =
      let first = session_write-pipe_write x.source 1 x.size n st r r1 e q in
      let later = others (put_writer r1 st) r1 (writer_of-put_writer r1 st) p in
      record {
        store = later.store;
        stops = rw (first, session_writes) later.stops;
        writer = later.writer;
        same_executor = later.same_executor;
      }

  pub session_writes-Left :
      (ps : List Piece) (st : Store W) (r r' : Writer (AnySocket W))
      → writer_of st ≡ r
      → write_all (io o) ps r ≡ some r'
      → Left ps st r'
  unfolding session_writes write_all
  session_writes-Left [] st r r' e p = record {
    store = st;
    stops = refl;
    writer = e ∙ cc p;
    same_executor = refl;
  }
  session_writes-Left (x ∷ ps) st r r' e p =
      first-Left x ps st r r' e (λ st1 r1 e1 p1. session_writes-Left ps st1 r1 r' e1 p1)
        (pipe_write (io o) x.source 1 x.size r) refl p
