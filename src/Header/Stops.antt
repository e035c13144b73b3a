-- ===== src/Header/Stops.antt =====
-- That `readHttpHeader` returns, and stays within its array.
use native.Mathlib.Decide.{dec_lt}
use r_exasol.Base.{
  Bool-cases, Option, Option-cases, Result, [], ap, arith, err, inl, inr, length, length-drop, ltb,
  ltb_false→le, ok, pos, refl, some, suc, zero, ℕ, ◌+◌, ◌<◌, ◌==◌, ◌∙◌, ◌∷◌, ◌≡◌, ◌≤◌,
}
use r_exasol.Socket.{SocketOps, Streams, Received, got, lost, count}
use r_exasol.Chunk.{Memory, put}
use r_exasol.Chunk.Memory.{put_ne}
use r_exasol.Answers.{Thrown, connection_exception}
use r_exasol.Header.{one_byte, ends_line, header_loop, read_http_header}

module _ {S : Type 0} (io : SocketOps S) (st : Streams io) where
  one_byte-count : (r : Received) (b : ℕ) → one_byte r ≡ some b → count r ≡ pos 1
  one_byte-count (got []) b e = cc
  one_byte-count (got (x ∷ [])) b e = refl
  one_byte-count (got (x ∷ y ∷ l)) b e = cc
  one_byte-count (lost l) b e = cc

  -- A byte that was read is gone from the stream.
  pending_falls :
      (s : S) (b : ℕ)
      → one_byte (io.recv s 1).0 ≡ some b
      → length (st.pending (io.recv s 1).1) < length (st.pending s)
  pending_falls s b e = elim (dec_lt 0 (length (st.pending s))) [
    | yes h ↦ omega (
      arith,
      ap length (st.recv_rest s 1 (omega arith) (omega arith) h),
      length-drop 1 (st.pending s),
    )
    | no h ↦ absurd (
        st.recv_short s 1 (omega arith) (omega arith) (omega arith)
          (one_byte-count (io.recv s 1).0 b e))
  ]

  -- The loop returns, and has written no cell behind the array.
  record Stops (line : Memory) (out : Option (Result Thrown (Unit {0}) × Memory × S)) : Type 0 where
    result : Result Thrown (Unit {0})
    array : Memory
    socket : S
    stops : out ≡ some (result, array, socket)
    in_array : (i : ℕ) → 4096 ≤ i → array i ≡ line i

  Stops-later :
      (line line' : Memory) (out : Option (Result Thrown (Unit {0}) × Memory × S))
      → ((i : ℕ) → 4096 ≤ i → line' i ≡ line i)
      → Stops line' out
      → Stops line out
  Stops-later line line' out k v = record {
    result = v.result;
    array = v.array;
    socket = v.socket;
    stops = v.stops;
    in_array = λ i h. v.in_array i h ∙ k i h;
  }

  stored_line-in_array :
      (line : Memory) (at b i : ℕ)
      → at ≤ 4094
      → 4096 ≤ i
      → put (put line at b) (at + 1) 0 i ≡ line i
  unfolding put
  stored_line-in_array line at b i h k = ground arith

  header_loop-Stops :
      (fuel at : ℕ) (line : Memory) (s : S)
      → length (st.pending s) < fuel
      → Stops line (header_loop io fuel at line s)
  unfolding header_loop
  header_loop-Stops zero at line s h = absurd (omega arith)
  header_loop-Stops (suc fuel) at line s h = elim (Bool-cases (ltb 4094 at)) [
    | inl t ↦
        rw (t, header_loop)
          (record {
            result = err (connection_exception "Could not read header, line too long.");
            array = line;
            socket = s;
            stops = refl;
            in_array = λ i k. refl;
          })
    | inr t ↦ elim (Option-cases (one_byte (io.recv s 1).0)) [
      | inl e ↦
          rw (t, e, header_loop)
            (record {
              result = err (connection_exception "Could not receive header");
              array = line;
              socket = (io.recv s 1).1;
              stops = refl;
              in_array = λ i k. refl;
            })
      | inr (b, e) ↦
          let line1 = put (put line at b) (at + 1) 0 in
          let falls = pending_falls s b e in
          let kept =
            λ (i : ℕ) (k : 4096 ≤ i). stored_line-in_array line at b i (ltb_false→le 4094 at t) k in
          elim (Bool-cases (ends_line line1 at b)) [
            | inr u ↦
                rw (t, e, u, header_loop)
                  (Stops-later line line1 _ kept
                    (header_loop-Stops fuel (at + 1) line1 (io.recv s 1).1 (omega arith)))
            | inl u ↦ elim (Bool-cases (at + 1 == 2)) [
              | inl v ↦
                  rw (t, e, u, v, header_loop)
                    (record {
                      result = ok tt;
                      array = line1;
                      socket = (io.recv s 1).1;
                      stops = refl;
                      in_array = kept;
                    })
              | inr v ↦
                  rw (t, e, u, v, header_loop)
                    (Stops-later line (put line1 0 0) _
                      (λ i k. put_ne line1 0 0 i (omega arith) ∙ kept i k)
                      (header_loop-Stops fuel 0 (put line1 0 0) (io.recv s 1).1 (omega arith)))
            ]
          ]
    ]
  ]

  -- `readHttpHeader` returns on every stream, with fuel for a byte more than the stream has, and
  -- writes only inside its array of 4096 bytes.
  pub read_http_header-stops :
      (fuel : ℕ) (line : Memory) (s : S)
      → length (st.pending s) < fuel
      → (result : Result Thrown (Unit {0})) × (line' : Memory) × (s' : S) × (read_http_header io
            fuel line s
          ≡ some (result, line', s'))
        × ((i : ℕ) → 4096 ≤ i → line' i ≡ line i)
  unfolding read_http_header
  read_http_header-stops fuel line s h =
      let v =
        Stops-later line (put line 0 0) _ (λ i k. put_ne line 0 0 i (omega arith))
          (header_loop-Stops fuel 0 (put line 0 0) s h) in
      (v.result, v.array, v.socket, v.stops, v.in_array)
