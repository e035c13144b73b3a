-- ===== src/Socket/Loopback.antt =====
-- `TestSocket` (src/tests/test_reader_writer.cpp): a buffer in memory that gives back what was sent.
use r_exasol.Base.{
  Bool-cases, List, [], ap, arith, drop, if◌then◌else◌, inl, inr, leb, leb_false→lt, length,
  length-take, le→leb, lt→leb_false, pos, refl, some, suc, take, zero, ℕ, ◌++◌, ◌<◌, ◌∷◌, ◌≡◌, ◌≢◌,
  ◌≤◌,
}
use r_exasol.Socket.{SocketOps, Received, IsBounded, Streams, Accepts, got, lost, stored, count}

unfoldable pub loopback_recv : List ℕ → ℕ → Received × List ℕ
loopback_recv [] n = ((if leb n 0 then got [] else lost []), [])
loopback_recv (b ∷ bs) n =
    if leb n (length (b ∷ bs)) then (got (take n (b ∷ bs)), drop n (b ∷ bs)) else (got (b ∷ bs), [])

-- Neither shutdown does anything.
abbrev pub loopback : SocketOps (List ℕ)
loopback = record {
  recv = loopback_recv;
  send = λ s bs. (some (length bs), s ++ bs);
  shutdown_wr = λ s. s;
  shutdown_rd_wr = λ s. s;
}

loopback_recv-le : (s : List ℕ) (n : ℕ) → length (stored (loopback_recv s n).0) ≤ n
unfolding loopback_recv
loopback_recv-le [] n = ground arith
loopback_recv-le (b ∷ bs) n = elim (Bool-cases (leb n (length (b ∷ bs)))) [
  | inl t ↦ rw t (omega (arith, length-take n (b ∷ bs)))
  | inr t ↦ rw t (omega (arith, leb_false→lt n (length (b ∷ bs)) t))
]

pub loopback_recv-all :
    (s : List ℕ) (n : ℕ) → n ≤ length s → loopback_recv s n ≡ (got (take n s), drop n s)
unfolding loopback_recv
loopback_recv-all [] zero h = refl
loopback_recv-all [] (suc n) h = absurd (omega arith)
loopback_recv-all (b ∷ bs) n h = rw (le→leb n (length (b ∷ bs)) h)

pub loopback_recv-short : (s : List ℕ) (n : ℕ) → length s < n → count (loopback_recv s n).0 ≢ pos n
unfolding loopback_recv
loopback_recv-short [] n h = rw (lt→leb_false n 0 h) (λ e. cc e)
loopback_recv-short (b ∷ bs) n h = rw (lt→leb_false n (length (b ∷ bs)) h) (λ e. ground arith)

pub loopback-IsBounded : IsBounded loopback
loopback-IsBounded = record { recv_le = loopback_recv-le }

-- It is a stream of the bytes that it holds.
abbrev pub loopback-Streams : Streams loopback
loopback-Streams = record {
  pending = λ s. s;
  recv_all = λ s n _ _ h. ap (λ r. r.0) (loopback_recv-all s n h);
  recv_short = λ s n _ _ h. loopback_recv-short s n h;
  recv_rest = λ s n _ _ h. ap (λ r. r.1) (loopback_recv-all s n h);
}

abbrev pub loopback-Accepts : Accepts loopback
loopback-Accepts = record { sent = λ s. s; send_all = λ s bs h. refl; sent_send = λ s bs h. refl }
