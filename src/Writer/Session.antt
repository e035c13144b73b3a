-- ===== src/Writer/Session.antt =====
-- A whole export: R writes in pieces, and flushes at the end.
use native.Mathlib.Decide.{dec_lt}
use r_exasol.Base.{
  List, Option, [], ap, append-nil, append_assoc, arith, none, pos, refl, size_mod, some, sym, ℕ,
  ◌%◌, ◌*◌, ◌++◌, ◌+◌, ◌<◌, ◌∙◌, ◌∷◌, ◌≡◌, ◌≤◌,
}
use r_exasol.Socket.{SocketOps, Accepts}
use r_exasol.Chunk.{Memory, Chunk, max_http_chunk_size, slice, reset}
use r_exasol.Answers.{writer_ok_answer}
use r_exasol.Writer
use r_exasol.Writer.{Writer, pipe_write, pipe_fflush}
use r_exasol.Writer.Flush.{held_back, emptied}
use r_exasol.Writer.Stream.{pipe_write-Sent, pipe_fflush-stream}

-- What R hands to one `pipe_write`: bytes in its memory, and their number.
pub record Piece : Type 0 where
  pub source : Memory
  pub size : ℕ

abbrev pub piece_bytes : Piece → List ℕ
piece_bytes p = slice p.source 0 p.size

abbrev pub all_bytes : List Piece → List ℕ
all_bytes [] = []
all_bytes (p ∷ ps) = piece_bytes p ++ all_bytes ps

abbrev pub total : List Piece → ℕ
total [] = 0
total (p ∷ ps) = p.size + total ps

-- The chunks that the pieces may take.
abbrev pub cost : List Piece → ℕ
cost [] = 0
cost (p ∷ ps) = (p.size + 2) + cost ps

module _ {S : Type 0} (io : SocketOps S) where
  unfoldable pub write_all : List Piece → Writer S → Option (Writer S)
  write_all [] w = some w
  write_all (p ∷ ps) w = elim (pipe_write io p.source 1 p.size w) [
    | none ↦ none
    | some (r, w') ↦ write_all ps w'
  ]

  module _ (a : Accepts io) where
    -- What all pieces have done.
    record Written (ps : List Piece) (s : S) (c : Chunk) : Type 0 where
      socket : S
      chunk : Chunk
      stops :
          write_all ps (record { socket = some s; chunk = c })
          ≡ some (record { socket = some socket; chunk = chunk })
      stream : a.sent socket ++ held_back chunk ≡ (a.sent s ++ held_back c) ++ all_bytes ps
      within : chunk.chunk_len ≤ max_http_chunk_size
      filled : 0 < c.chunk_len + total ps → 0 < chunk.chunk_len

    next_piece :
        (p : Piece) (ps : List Piece) (w w' : Writer S) (r : ℕ)
        → pipe_write io p.source 1 p.size w ≡ some (r, w')
        → write_all (p ∷ ps) w ≡ write_all ps w'
    unfolding write_all
    next_piece p ps w w' r e = rw (e, write_all) refl

    write_all-Written :
        (ps : List Piece) (s : S) (c : Chunk)
        → c.chunk_len ≤ max_http_chunk_size
        → c.chunk_num + cost ps < size_mod
        → Written ps s c
    unfolding write_all
    write_all-Written [] s c v b = record {
      socket = s;
      chunk = c;
      stops = refl;
      stream = sym (append-nil _);
      within = v;
      filled = λ h. omega arith;
    }
    write_all-Written (p ∷ ps) s c v b =
        let len : 1 * p.size % size_mod ≡ p.size = omega arith in
        let one = pipe_write-Sent io a p.source 1 p.size s c v (omega (arith, len)) in
        let later =
          write_all-Written ps one.socket one.chunk one.valid (omega (arith, one.numbered, len)) in
        record {
          socket = later.socket;
          chunk = later.chunk;
          stops =
              next_piece p ps (record { socket = some s; chunk = c })
                (record { socket = some one.socket; chunk = one.chunk }) one.result one.stops
              ∙ later.stops;
          stream =
              later.stream
              ∙ ap (λ l. l ++ all_bytes ps)
                  (one.stream ∙ ap (λ n. (a.sent s ++ held_back c) ++ slice p.source 0 n) len)
              ∙ append_assoc (a.sent s ++ held_back c) (piece_bytes p) (all_bytes ps);
          within = later.within;
          filled = λ h. later.filled (elim (dec_lt 0 p.size) [
            | yes k ↦ let f = one.filled (omega (arith, len)) in omega (arith, f)
            | no k ↦ let f = one.idle (omega (arith, len)) in omega (arith, f)
          ]);
        }

    -- On an accepting socket, where the pieces that R writes have a byte and the counter of the chunks
    -- does not overflow, all writes and the flush at their end return, and the socket has then got the
    -- HTTP answer and behind it exactly the bytes of all pieces in their order, however they are cut.
    pub write_all-export :
        (ps : List Piece) (s : S) (c : Chunk)
        → 0 < total ps
        → cost ps < size_mod
        → (w w' : Writer S) × (s' : S) × (write_all ps (Writer.create (some s) c) ≡ some w)
          × (pipe_fflush io w ≡ (pos 0, w'))
          × (w'.socket ≡ some s')
          × (w'.chunk.chunk_len ≡ 0)
          × (a.sent s' ≡ a.sent s ++ (writer_ok_answer ++ all_bytes ps))
    unfolding Writer.create reset emptied slice
    write_all-export ps s c h b =
        let made = write_all-Written ps s (reset c) (omega arith) (omega arith) in
        let (s1, flushed, sent_now) =
          pipe_fflush-stream io a made.socket made.chunk
            (λ e. omega (arith, e, made.filled (omega arith))) made.within in
        (
          record { socket = some made.socket; chunk = made.chunk },
          record { socket = some s1; chunk = emptied made.chunk },
          s1,
          made.stops,
          flushed,
          refl,
          refl,
          sent_now
              ∙ made.stream
              ∙ ap (λ l. (a.sent s ++ l) ++ all_bytes ps) (append-nil writer_ok_answer)
              ∙ append_assoc (a.sent s) writer_ok_answer (all_bytes ps),
        )
