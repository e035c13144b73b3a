-- ===== src/Socket/Stream.antt =====
-- Reads from a stream whose next bytes are known.
use r_exasol.Base.{
  List, [], ap, arith, drop, drop-append, length, length-append, take, take-append, ℕ, ◌++◌, ◌<◌,
  ◌^◌, ◌∙◌, ◌∷◌, ◌≡◌, ◌≤◌,
}
use r_exasol.Socket.{SocketOps, Streams, got}

module _ {S : Type 0} (io : SocketOps S) (st : Streams io) where
  -- The next byte.
  pub recv_byte :
      (s : S) (b : ℕ) (rest : List ℕ)
      → st.pending s ≡ b ∷ rest
      → ((io.recv s 1).0 ≡ got (b ∷ [])) × (st.pending (io.recv s 1).1 ≡ rest)
  recv_byte s b rest e =
      let enough : 1 ≤ length (st.pending s) = rw e (omega arith) in
      (
        st.recv_all s 1 (omega arith) (omega arith) enough ∙ ap (λ l. got (take 1 l)) e,
        st.recv_rest s 1 (omega arith) (omega arith) enough ∙ ap (drop 1) e,
      )

  -- The next bytes, up to a known place.
  pub recv_bytes :
      (s : S) (n : ℕ) (bs rest : List ℕ)
      → st.pending s ≡ bs ++ rest
      → n ≡ length bs
      → 0 < n
      → n < 2 ^ 31
      → ((io.recv s n).0 ≡ got bs) × (st.pending (io.recv s n).1 ≡ rest)
  recv_bytes s n bs rest e len more fits =
      let enough : n ≤ length (st.pending s) = rw e (omega (arith, length-append bs rest)) in
      (
        st.recv_all s n more fits enough ∙ ap got (ap (take n) e ∙ take-append n bs rest len),
        st.recv_rest s n more fits enough ∙ ap (drop n) e ∙ drop-append n bs rest len,
      )
