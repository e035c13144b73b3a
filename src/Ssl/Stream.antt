-- ===== src/Ssl/Stream.antt =====
-- The SSL socket is a socket whose `recv` blocks until the buffer is full, which the reader relies on,
-- although OpenSSL returns after each of its packets.
use r_exasol.Base.{
  List, ap, arith, drop, if◌then◌else◌, length, ltb, lt→ltb, minus_one, negsuc, pos, refl, some,
  sym, take, to_int, ℕ, ◌%◌, ◌++◌, ◌-◌, ◌<◌, ◌^◌, ◌∙◌, ◌≡◌, ◌≢◌, ◌≤◌,
}
use r_exasol.Socket.{Streams, Accepts, got, count}
use r_exasol.Tcp.{Kernel}
use r_exasol.Fill.Packets.{Packets, repeating_buffer_fill-Enough, repeating_buffer_fill-Short}
use r_exasol.Ssl.{SslLibrary, SslSocket, recv, send, ssl_socket}

module _ {W : Type 0} (kernel : Kernel W) (lib : SslLibrary W)
    (p : (ssl : ℕ) → Packets (lib.ssl_read ssl)) where
  abbrev pub ssl_pending : SslSocket W → List ℕ
  ssl_pending s = (p s.ssl).pending s.world

  -- Where OpenSSL hands out the stream in packets of any size, and the stream has the bytes of a
  -- request whose length is a positive `int`, `recv` returns exactly the next bytes, and leaves the
  -- bytes behind them.
  pub recv-whole :
      (s : SslSocket W) (n : ℕ)
      → 0 < n
      → n < 2 ^ 31
      → n ≤ length (ssl_pending s)
      → (w : W) × (recv kernel lib s n ≡ (got (take n (ssl_pending s)), record s { world = w }))
        × (ssl_pending (record s { world = w }) ≡ drop n (ssl_pending s))
  unfolding recv
  recv-whole s n h b k =
      let e = repeating_buffer_fill-Enough (lib.ssl_read s.ssl) (p s.ssl) n s.world h b k in
      let z : n - 0 ≡ n = omega arith in
      (
        e.rest,
        rw (lt→ltb n (2 ^ 63) (omega arith), e.stops, z, recv) refl,
        e.left ∙ ap (λ i. drop i (ssl_pending s)) z,
      )

  -- Where the stream has fewer bytes than such a request, `recv` returns -1.
  pub recv-short :
      (s : SslSocket W) (n : ℕ)
      → 0 < n
      → n < 2 ^ 31
      → length (ssl_pending s) < n
      → count (recv kernel lib s n).0 ≡ minus_one
  unfolding recv
  recv-short s n h b k =
      let e = repeating_buffer_fill-Short (lib.ssl_read s.ssl) (p s.ssl) n s.world h b k in
      rw (lt→ltb n (2 ^ 63) (omega arith), e.stops, recv) refl

  pub ssl_socket-short :
      (s : SslSocket W) (n : ℕ)
      → 0 < n
      → n < 2 ^ 31
      → length (ssl_pending s) < n
      → count (recv kernel lib s n).0 ≢ pos n
  ssl_socket-short s n h b k e = absurd (cc (sym e ∙ recv-short s n h b k))

  -- So the reader and the header reader work over it.
  unfoldable pub ssl_socket-Streams : Streams (ssl_socket kernel lib)
  unfolding ssl_socket
  ssl_socket-Streams = record {
    pending = ssl_pending;
    recv_all = λ s n h b k. ap (λ r. r.0) (recv-whole s n h b k).1;
    recv_short = ssl_socket-short;
    recv_rest = λ s n h b k.
        let (w, e, later) = recv-whole s n h b k in ap (λ r. ssl_pending r.1) e ∙ later;
  }

-- `SSL_write` on a blocking connection takes all bytes, as many as an `int` can count.
pub record WritesAll {W : Type 0} (lib : SslLibrary W) : Type 0 where
  pub written : ℕ → W → List ℕ
  pub all :
      (ssl : ℕ) (w : W) (bs : List ℕ)
      → length bs < 2 ^ 31
      → (lib.ssl_write ssl w bs (pos (length bs))).0 ≡ some (length bs)
  pub goes_out :
      (ssl : ℕ) (w : W) (bs : List ℕ)
      → length bs < 2 ^ 31
      → written ssl (lib.ssl_write ssl w bs (pos (length bs))).1 ≡ written ssl w ++ bs

pub to_int-small : (n : ℕ) → n < 2 ^ 31 → to_int n ≡ pos n
to_int-small n h =
    let r : n % 2 ^ 32 ≡ n = omega arith in
    ap (λ k. if ltb k (2 ^ 31) then pos k else negsuc (2 ^ 32 - 1 - k)) r
    ∙ rw (lt→ltb n (2 ^ 31) h) refl

-- So the writer works over it.
unfoldable pub ssl_socket-Accepts :
    {W : Type 0} (kernel : Kernel W) (lib : SslLibrary W)
    → WritesAll lib
    → Accepts (ssl_socket kernel lib)
unfolding ssl_socket send
ssl_socket-Accepts kernel lib writes = record {
  sent = λ s. writes.written s.ssl s.world;
  send_all = λ s bs h.
      ap (λ n. (lib.ssl_write s.ssl s.world bs n).0) (to_int-small (length bs) h)
      ∙ writes.all s.ssl s.world bs h;
  sent_send = λ s bs h.
      ap (λ n. writes.written s.ssl (lib.ssl_write s.ssl s.world bs n).1)
        (to_int-small (length bs) h)
      ∙ writes.goes_out s.ssl s.world bs h;
}
