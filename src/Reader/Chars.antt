-- ===== src/Reader/Chars.antt =====
-- R may read byte by byte or in blocks: both give the same bytes.
use mathlib.Core.Path.{subst}
use r_exasol.Base.{
  List, [], ap, arith, char_to_int, drop, length, map, refl, size_mod, some, suc, sym, take, zero,
  ℕ, ℤ, ◌*◌, ◌<◌, ◌∙◌, ◌∷◌, ◌≡◌, ◌≤◌,
}
use r_exasol.Socket.{SocketOps, Streams}
use r_exasol.Chunk.{Memory, Chunk, slice}
use r_exasol.Reader.{Reader, pipe_read, fgetc}
use r_exasol.Reader.Deliver.{Holds}
use r_exasol.Reader.Client.{pipe_read-delivers, fgetc-delivers}

module _ {S : Type 0} (io : SocketOps S) where
  -- Calls of `fgetc`, and what they return.
  unfoldable pub read_chars : ℕ → Reader S → List ℤ × Reader S
  read_chars zero r = ([], r)
  read_chars (suc n) r =
      let (x, r') = fgetc io r in let (xs, r'') = read_chars n r' in (x ∷ xs, r'')

  module _ (st : Streams io) where
    one_more :
        (n : ℕ) (r r' r'' : Reader S) (x : ℤ) (xs : List ℤ)
        → fgetc io r ≡ (x, r')
        → read_chars n r' ≡ (xs, r'')
        → read_chars (suc n) r ≡ (x ∷ xs, r'')
    unfolding read_chars
    one_more n r r' r'' x xs e later =
        ap (λ (o : ℤ × Reader S). (o.0 ∷ (read_chars n o.1).0, (read_chars n o.1).1)) e
        ∙ ap (λ (o : List ℤ × Reader S). (x ∷ o.0, o.1)) later

    read_chars-delivers :
        (n : ℕ) (s : S) (c : Chunk) (tail bytes : List ℕ)
        → Holds io st s c tail bytes
        → n ≤ length bytes
        → (s' : S) × (c' : Chunk) × (read_chars n (record { socket = some s; chunk = c })
            ≡ (map char_to_int (take n bytes), record { socket = some s'; chunk = c' }))
          × Holds io st s' c' tail (drop n bytes)
    unfolding read_chars
    read_chars-delivers zero s c tail bytes v h = (s, c, refl, v)
    read_chars-delivers (suc n) s c tail [] v h = absurd (omega arith)
    read_chars-delivers (suc n) s c tail (b ∷ bytes) v h =
        let (s1, c1, now, v1) = fgetc-delivers io st s c tail b bytes v in
        let (s2, c2, later, v2) = read_chars-delivers n s1 c1 tail bytes v1 (omega arith) in
        (
          s2,
          c2,
          one_more n (record { socket = some s; chunk = c })
              (record { socket = some s1; chunk = c1 }) (record { socket = some s2; chunk = c2 })
              (char_to_int b) (map char_to_int (take n bytes)) now later,
          v2,
        )

    -- On a stream of chunks that still holds `n` bytes, where `n` fits a `size_t`, `n` calls of `fgetc`
    -- return exactly the bytes, as signed characters, that one `pipe_read` of `n` bytes copies, and
    -- both leave the same bytes to be read.
    pub read_chars-pipe_read :
        (n : ℕ) (dest : Memory) (s : S) (c : Chunk) (tail bytes : List ℕ)
        → Holds io st s c tail bytes
        → n < size_mod
        → n ≤ length bytes
        → (dest' : Memory) × (s1 s2 : S) × (c1 c2 : Chunk) × (pipe_read io dest 1 n
              (record { socket = some s; chunk = c })
            ≡ some (n, dest', record { socket = some s1; chunk = c1 }))
          × (read_chars n (record { socket = some s; chunk = c })
              ≡ (map char_to_int (slice dest' 0 n), record { socket = some s2; chunk = c2 }))
          × Holds io st s1 c1 tail (drop n bytes)
          × Holds io st s2 c2 tail (drop n bytes)
    read_chars-pipe_read n dest s c tail bytes v b h =
        let one : 1 * n ≡ n = omega arith in
        let (dest', s1, c1, read, copied, v1) =
          pipe_read-delivers io st dest 1 n s c tail bytes v (omega arith) (omega arith)
            (omega arith) in
        let (s2, c2, chars, v2) = read_chars-delivers n s c tail bytes v h in
        let same : slice dest' 0 n ≡ take n bytes =
          ap (slice dest' 0) (sym one) ∙ copied ∙ ap (λ k. take k bytes) one in
        (
          dest',
          s1,
          s2,
          c1,
          c2,
          read,
          chars
              ∙ ap (λ bs. (map char_to_int bs, record { socket = some s2; chunk = c2 })) (sym same),
          subst (λ k. Holds io st s1 c1 tail (drop k bytes)) one v1,
          v2,
        )
