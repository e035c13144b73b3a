-- ===== src/System/Reads.antt =====
-- R's reads through the hook are the reads of the reader.
use r_exasol.Base.{List, Option, [], ap, none, refl, some, ℕ, ◌++◌, ◌∙◌, ◌∷◌, ◌≡◌}
use r_exasol.Chunk.{Memory, Chunk, slice}
use r_exasol.Socket.Any.{AnySocket, in_world-world_of}
use r_exasol.Reader.{Reader, pipe_read}
use r_exasol.Reader.Session.{read_pieces}
use r_exasol.RConnection.Hooks.{Hooks, get_connection_hook}
use r_exasol.System.{Outside, Store, io, reader_of, put_reader}
use r_exasol.System.Session.{Session, locked_reader, session_read, session_reads}

pub reader_of-put_reader :
    {W : Type 0} (r : Reader (AnySocket W)) (st : Store W) → reader_of (put_reader r st) ≡ r
reader_of-put_reader r st = placed-back r.socket r.chunk st
  where
    placed-back :
        {W : Type 0} (s : Option (AnySocket W)) (c : Chunk) (st : Store W)
        → reader_of (put_reader (record { socket = s; chunk = c }) st)
          ≡ record { socket = s; chunk = c }
    placed-back none c st = refl
    placed-back (some s) c st =
        ap (λ x. record { socket = some x; chunk = c }) (in_world-world_of s)

module _ {W : Type 0} (o : Outside W) (warn : Store W → Store W) where
  -- What the first of some reads and the others have done.
  record Parted (dest : Memory) (n : ℕ) (ns : List ℕ) (r r'' : Reader (AnySocket W)) (bs : List ℕ)
      : Type 0 where
    number : ℕ
    buffer : Memory
    between : Reader (AnySocket W)
    later : List ℕ
    first : pipe_read (io o) dest 1 n r ≡ some (number, buffer, between)
    others : read_pieces (io o) buffer ns between ≡ some (later, r'')
    together : slice buffer 0 number ++ later ≡ bs

  abbrev joined_to :
      ℕ → Memory → Option (List ℕ × Reader (AnySocket W)) → Option (List ℕ × Reader (AnySocket W))
  joined_to k dest none = none
  joined_to k dest (some (bs, r)) = some (slice dest 0 k ++ bs, r)

  abbrev continued :
      List ℕ → Option (ℕ × Memory × Reader (AnySocket W)) → Option (List ℕ × Reader (AnySocket W))
  continued ns none = none
  continued ns (some (k, dest, r)) = joined_to k dest (read_pieces (io o) dest ns r)

  others-Parted :
      (dest : Memory) (n : ℕ) (ns : List ℕ) (r r'' : Reader (AnySocket W)) (bs : List ℕ) (k : ℕ)
      (dest' : Memory) (r' : Reader (AnySocket W)) (out : Option (List ℕ × Reader (AnySocket W)))
      → pipe_read (io o) dest 1 n r ≡ some (k, dest', r')
      → read_pieces (io o) dest' ns r' ≡ out
      → joined_to k dest' out ≡ some (bs, r'')
      → Parted dest n ns r r'' bs
  others-Parted dest n ns r r'' bs k dest' r' none e f h = absurd (cc h)
  others-Parted dest n ns r r'' bs k dest' r' (some (later, r1)) e f h =
      let same : r1 ≡ r'' = cc h in
      record {
        number = k;
        buffer = dest';
        between = r';
        later = later;
        first = e;
        others = f ∙ ap (λ x. some (later, x)) same;
        together = cc h;
      }

  read_pieces-Parted :
      (dest : Memory) (n : ℕ) (ns : List ℕ) (r r'' : Reader (AnySocket W)) (bs : List ℕ)
      (out : Option (ℕ × Memory × Reader (AnySocket W)))
      → pipe_read (io o) dest 1 n r ≡ out
      → continued ns out ≡ some (bs, r'')
      → Parted dest n ns r r'' bs
  read_pieces-Parted dest n ns r r'' bs none e h = absurd (cc h)
  read_pieces-Parted dest n ns r r'' bs (some (k, dest', r')) e h =
      others-Parted dest n ns r r'' bs k dest' r' (read_pieces (io o) dest' ns r') e refl h

  module _ (con : ℕ) (address : ℕ) (c : Session) (h : Hooks)
      (hooked : get_connection_hook con h ≡ some address) (locked : locked_reader c ≡ some tt) where
    -- One read.
    pub session_read-pipe_read :
        (dest dest' : Memory) (size nitems n : ℕ) (st : Store W) (r r' : Reader (AnySocket W))
        → reader_of st ≡ r
        → pipe_read (io o) dest size nitems r ≡ some (n, dest', r')
        → session_read o warn con dest size nitems c (st, h)
          ≡ some (n, dest', (put_reader r' st, h))
    unfolding session_read
    session_read-pipe_read dest dest' size nitems n st r r' e read =
        let now : pipe_read (io o) dest size nitems (reader_of st) ≡ some (n, dest', r') =
          ap (pipe_read (io o) dest size nitems) e ∙ read in
        rw (hooked, locked, now, session_read) refl

    -- What reads leave in the store.
    pub record Left (dest : Memory) (ns : List ℕ) (bs : List ℕ) (st : Store W)
        (r' : Reader (AnySocket W)) : Type 0 where
      pub store : Store W
      pub stops : session_reads o warn con dest ns c (st, h) ≡ some (bs, (store, h))
      pub reader : reader_of store ≡ r'
      pub same_executor : store.executor ≡ st.executor

    pub session_reads-Left :
        (dest : Memory) (ns : List ℕ) (bs : List ℕ) (st : Store W) (r r' : Reader (AnySocket W))
        → reader_of st ≡ r
        → read_pieces (io o) dest ns r ≡ some (bs, r')
        → Left dest ns bs st r'
    unfolding session_reads read_pieces
    session_reads-Left dest [] bs st r r' e p =
        let none_read : [] ≡ bs = cc p in
        let same : r ≡ r' = cc p in
        record {
          store = st;
          stops = ap (λ l. some (l, (st, h))) none_read;
          reader = e ∙ same;
          same_executor = refl;
        }
    session_reads-Left dest (n ∷ ns) bs st r r' e p =
        let parted = read_pieces-Parted dest n ns r r' bs (pipe_read (io o) dest 1 n r) refl p in
        let st1 = put_reader parted.between st in
        let first =
          session_read-pipe_read dest parted.buffer 1 n parted.number st r parted.between e
            parted.first in
        let later =
          session_reads-Left parted.buffer ns parted.later st1 parted.between r'
            (reader_of-put_reader parted.between st) parted.others in
        record {
          store = later.store;
          stops =
              rw (first, session_reads) (rw later.stops refl)
              ∙ ap (λ l. some (l, (later.store, h))) parted.together;
          reader = later.reader;
          same_executor = later.same_executor;
        }
