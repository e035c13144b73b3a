-- ===== src/Ssl/Shutdown.antt =====
-- The life of an SSL socket: whatever is done with it, its descriptor is shut down once.
use mathlib.Core.Path.{subst}
use r_exasol.Base.{
  Bool, Bool-cases, List, Option-cases, [], ap, arith, false, if◌then◌else◌, inl, inr, is_neg,
  length, ltb, refl, sym, to_int, true, ℕ, ℤ, ◌+◌, ◌^◌, ◌||◌, ◌∙◌, ◌∷◌, ◌≡◌, ◌⊎◌,
}
use r_exasol.Tcp.{Kernel, How, shut_wr, shut_rd_wr}
use r_exasol.Fill.{repeating_buffer_fill}
use r_exasol.Fill.Keeps.{After, repeating_buffer_fill-After}
use r_exasol.Ssl.{
  SslLibrary, SslSocket, recv, send, close_socket, shutdown_wr, shutdown_rd_wr, destroy, is_nought,
}

-- What is done with a socket.
pub data Use : Type 0 where
  use_recv : ℕ → Use
  use_send : List ℕ → Use
  use_shutdown_wr : Use
  use_shutdown_rd_wr : Use

module _ {W : Type 0} (kernel : Kernel W) (lib : SslLibrary W) where
  unfoldable pub run_use : Use → SslSocket W → SslSocket W
  run_use (use_recv n) s = (recv kernel lib s n).1
  run_use (use_send bs) s = (send kernel lib s bs).1
  run_use use_shutdown_wr s = shutdown_wr kernel lib s
  run_use use_shutdown_rd_wr s = shutdown_rd_wr kernel lib s

  unfoldable pub run_uses : List Use → SslSocket W → SslSocket W
  run_uses [] s = s
  run_uses (u ∷ us) s = run_uses us (run_use u s)

  unfoldable pub is_closing : Use → Bool
  is_closing (use_recv n) = false
  is_closing (use_send bs) = false
  is_closing use_shutdown_wr = true
  is_closing use_shutdown_rd_wr = true

  -- Whether the socket is shut down at all.
  unfoldable pub has_closing : List Use → Bool
  unfolding is_closing
  has_closing [] = false
  has_closing (u ∷ us) = is_closing u || has_closing us

  -- A count of the system's shutdowns, which OpenSSL does not call by itself, and the descriptor of a
  -- connection, which is there until `SSL_free`. Of `SSL_get_fd` behind that nothing is known.
  pub record Counts : Type 0 where
    pub calls : W → ℕ
    pub is_alive : ℕ → W → Bool
    pub on_shutdown :
        (w : W) (fd : ℤ) (how : How) → calls (kernel.sys_shutdown w fd how) ≡ calls w + 1
    pub on_read : (ssl : ℕ) (w : W) (n : ℤ) → calls (lib.ssl_read ssl w n).1 ≡ calls w
    pub on_write :
        (ssl : ℕ) (w : W) (bs : List ℕ) (n : ℤ) → calls (lib.ssl_write ssl w bs n).1 ≡ calls w
    pub on_ssl_shutdown : (ssl : ℕ) (w : W) → calls (lib.ssl_shutdown ssl w).1 ≡ calls w
    pub on_free :
        (ssl ctx : ℕ) (w : W)
        → calls (lib.err_free_strings (lib.ctx_free ctx (lib.ssl_free ssl w))) ≡ calls w
    pub fd_there : (ssl : ℕ) (w : W) → is_alive ssl w ≡ true → is_neg (lib.get_fd ssl w) ≡ false
    pub read_alive :
        (ssl : ℕ) (w : W) (n : ℤ)
        → is_alive ssl w ≡ true
        → is_alive ssl (lib.ssl_read ssl w n).1 ≡ true
    pub write_alive :
        (ssl : ℕ) (w : W) (bs : List ℕ) (n : ℤ)
        → is_alive ssl w ≡ true
        → is_alive ssl (lib.ssl_write ssl w bs n).1 ≡ true
    pub ssl_shutdown_alive :
        (ssl : ℕ) (w : W) → is_alive ssl w ≡ true → is_alive ssl (lib.ssl_shutdown ssl w).1 ≡ true
    pub shutdown_alive :
        (ssl : ℕ) (w : W) (fd : ℤ) (how : How)
        → is_alive ssl w ≡ true
        → is_alive ssl (kernel.sys_shutdown w fd how) ≡ true

  module _ (k : Counts) where
    abbrev closed_calls : Bool → ℕ
    closed_calls true = 1
    closed_calls false = 0

    -- The connection is there, and the socket has been shut down as often as its flag says, counted
    -- from `n`.
    abbrev Counted : ℕ → SslSocket W → Type 0
    Counted n s =
        (k.calls s.world ≡ n + closed_calls s.socket_closed) × (k.is_alive s.ssl s.world ≡ true)

    close_fields :
        (n : ℕ) (how : How) (w : W) (ctx ssl : ℕ) (closed : Bool)
        → Counted n (record { world = w; ctx = ctx; ssl = ssl; socket_closed = closed })
        → Counted n (
            close_socket kernel lib how
              (record { world = w; ctx = ctx; ssl = ssl; socket_closed = closed }))
          × ((close_socket kernel lib how
                (record { world = w; ctx = ctx; ssl = ssl; socket_closed = closed })).socket_closed
              ≡ true)
    unfolding close_socket
    close_fields n how w ctx ssl true h = (h, refl)
    close_fields n how w ctx ssl false (h, alive) = rw (k.fd_there ssl w alive) (
      (
        omega (arith, h, k.on_shutdown w (lib.get_fd ssl w) how),
        k.shutdown_alive ssl w (lib.get_fd ssl w) how alive,
      ),
      refl,
    )

    close_socket-Counted :
        (n : ℕ) (how : How) (s : SslSocket W)
        → Counted n s
        → Counted n (close_socket kernel lib how s)
          × ((close_socket kernel lib how s).socket_closed ≡ true)
    close_socket-Counted n how s h = close_fields n how s.world s.ctx s.ssl s.socket_closed h

    read_result :
        (n : ℕ) (s : SslSocket W) (len : ℕ) → Counted n s → Counted n (recv kernel lib s len).1
    unfolding recv
    read_result n s len h =
        let P : W → Type 0 =
          λ w. (k.calls w ≡ n + closed_calls s.socket_closed) × (k.is_alive s.ssl w ≡ true) in
        let keeps : (w : W) (i : ℤ) → P w → P (lib.ssl_read s.ssl w i).1 =
          λ w i e. (k.on_read s.ssl w i ∙ e.0, k.read_alive s.ssl w i e.1) in
        let kept = repeating_buffer_fill-After (lib.ssl_read s.ssl) P keeps len s.world h in
        elim (Bool-cases (ltb len (2 ^ 63))) [
          | inr t ↦ rw (t, recv) h
          | inl t ↦ elim (Option-cases (repeating_buffer_fill (lib.ssl_read s.ssl) len s.world)) [
            | inl e ↦ rw (t, e, recv) h
            | inr (out, e) ↦ rw (t, e, recv) (subst (After (lib.ssl_read s.ssl) P keeps) e kept)
          ]
        ]

    shut-Counted :
        (n : ℕ) (how : How) (s : SslSocket W)
        → Counted n s
        → Counted n
            (close_socket kernel lib how (record s { world = (lib.ssl_shutdown s.ssl s.world).1 }))
          × ((close_socket kernel lib how
                (record s { world = (lib.ssl_shutdown s.ssl s.world).1 })).socket_closed
              ≡ true)
    shut-Counted n how s (h, alive) =
        close_socket-Counted n how (record s { world = (lib.ssl_shutdown s.ssl s.world).1 })
          (k.on_ssl_shutdown s.ssl s.world ∙ h, k.ssl_shutdown_alive s.ssl s.world alive)

    run_use-Counted : (n : ℕ) (u : Use) (s : SslSocket W) → Counted n s → Counted n (run_use u s)
    unfolding run_use send shutdown_wr shutdown_rd_wr
    run_use-Counted n (use_recv len) s h = read_result n s len h
    run_use-Counted n (use_send bs) s (h, alive) = (
      k.on_write s.ssl s.world bs (to_int (length bs)) ∙ h,
      k.write_alive s.ssl s.world bs (to_int (length bs)) alive,
    )
    run_use-Counted n use_shutdown_wr s h = (shut-Counted n shut_wr s h).0
    run_use-Counted n use_shutdown_rd_wr s h = (shut-Counted n shut_rd_wr s h).0

    -- The flag stays.
    close_stays :
        (how : How) (w : W) (ctx ssl : ℕ) (closed : Bool)
        → closed ≡ true
        → (close_socket kernel lib how
            (record { world = w; ctx = ctx; ssl = ssl; socket_closed = closed })).socket_closed
          ≡ true
    unfolding close_socket
    close_stays how w ctx ssl true h = refl
    close_stays how w ctx ssl false h = absurd (cc h)

    recv_stays :
        (s : SslSocket W) (len : ℕ) → (recv kernel lib s len).1.socket_closed ≡ s.socket_closed
    unfolding recv
    recv_stays s len = elim (Bool-cases (ltb len (2 ^ 63))) [
      | inr t ↦ rw (t, recv) refl
      | inl t ↦ elim (Option-cases (repeating_buffer_fill (lib.ssl_read s.ssl) len s.world)) [
        | inl e ↦ rw (t, e, recv) refl
        | inr (out, e) ↦ rw (t, e, recv) refl
      ]
    ]

    run_use_stays :
        (u : Use) (s : SslSocket W) → s.socket_closed ≡ true → (run_use u s).socket_closed ≡ true
    unfolding run_use send shutdown_wr shutdown_rd_wr
    run_use_stays (use_recv len) s h = recv_stays s len ∙ h
    run_use_stays (use_send bs) s h = h
    run_use_stays use_shutdown_wr s h =
        close_stays shut_wr (lib.ssl_shutdown s.ssl s.world).1 s.ctx s.ssl s.socket_closed h
    run_use_stays use_shutdown_rd_wr s h =
        close_stays shut_rd_wr (lib.ssl_shutdown s.ssl s.world).1 s.ctx s.ssl s.socket_closed h

    run_use_closes :
        (n : ℕ) (u : Use) (s : SslSocket W)
        → Counted n s
        → is_closing u ≡ true
        → (run_use u s).socket_closed ≡ true
    unfolding run_use shutdown_wr shutdown_rd_wr is_closing
    run_use_closes n (use_recv len) s h e = absurd (cc e)
    run_use_closes n (use_send bs) s h e = absurd (cc e)
    run_use_closes n use_shutdown_wr s h e = (shut-Counted n shut_wr s h).1
    run_use_closes n use_shutdown_rd_wr s h e = (shut-Counted n shut_rd_wr s h).1

    either : (a b : Bool) → (a || b) ≡ true → (a ≡ true) ⊎ (b ≡ true)
    either true b e = inl refl
    either false b e = inr e

    or_true : (a : Bool) → (a || true) ≡ true
    or_true true = refl
    or_true false = refl

    run_uses-Counted :
        (n : ℕ) (us : List Use) (s : SslSocket W)
        → Counted n s
        → (s.socket_closed || has_closing us) ≡ true
        → Counted n (run_uses us s) × ((run_uses us s).socket_closed ≡ true)
    unfolding run_uses has_closing
    run_uses-Counted n [] s h e = elim (either s.socket_closed false e) [
      | inl t ↦ (h, t)
      | inr t ↦ absurd (cc t)
    ]
    run_uses-Counted n (u ∷ us) s h e =
        let next : ((run_use u s).socket_closed || has_closing us) ≡ true =
          elim (either s.socket_closed (is_closing u || has_closing us) e) [
            | inl t ↦ rw (run_use_stays u s t) refl
            | inr t ↦ elim (either (is_closing u) (has_closing us) t) [
              | inl c ↦ rw (run_use_closes n u s h c) refl
              | inr c ↦ rw c (or_true (run_use u s).socket_closed)
            ]
          ] in
        run_uses-Counted n us (run_use u s) (run_use-Counted n u s h) next

    -- The destructor of a socket that was shut down leaves the system alone.
    destroy_closed :
        (w : W) (ctx ssl : ℕ) (closed : Bool)
        → closed ≡ true
        → k.calls (
            destroy kernel lib (record { world = w; ctx = ctx; ssl = ssl; socket_closed = closed }))
          ≡ k.calls w
    unfolding destroy close_socket
    destroy_closed w ctx ssl false e = absurd (cc e)
    destroy_closed w ctx ssl true e =
        let (ret, once) = lib.ssl_shutdown ssl w in
        let twice = (lib.ssl_shutdown ssl once).1 in
        let first : k.calls once ≡ k.calls w = k.on_ssl_shutdown ssl w in
        let down : W = if is_nought ret then twice else once in
        let same : k.calls down ≡ k.calls w = elim (Bool-cases (is_nought ret)) [
          | inl t ↦ rw t (k.on_ssl_shutdown ssl once ∙ first)
          | inr t ↦ rw t first
        ] in
        k.on_free ssl ctx down ∙ same

    -- Where OpenSSL has the descriptor of a connection until that is freed and does not shut it down by
    -- itself, whatever is received, sent and shut down on an SSL socket that was not closed before, in
    -- any order and with at least one shutdown, the system's shutdown has been called exactly once when
    -- the socket is destroyed.
    pub destroy-run_uses :
        (us : List Use) (s : SslSocket W)
        → k.is_alive s.ssl s.world ≡ true
        → s.socket_closed ≡ false
        → has_closing us ≡ true
        → k.calls (destroy kernel lib (run_uses us s)) ≡ k.calls s.world + 1
    destroy-run_uses us s alive h e =
        let none_yet : k.calls s.world ≡ k.calls s.world + closed_calls s.socket_closed =
          subst (λ b. k.calls s.world ≡ k.calls s.world + closed_calls b) (sym h) (omega arith) in
        let (counted, closed) =
          run_uses-Counted (k.calls s.world) us s (none_yet, alive) (rw h e) in
        let last = run_uses us s in
        destroy_closed last.world last.ctx last.ssl last.socket_closed closed
        ∙ counted.0
        ∙ ap (λ b. k.calls s.world + closed_calls b) closed
