-- ===== src/MetaInfo/Answer.antt =====
-- The answer of the database is understood: the host and the port that it was built from are read.
use r_exasol.Base.{
  ==_false→ne, ==_refl, ==→eq, All, Bool-cases, List, [], ap, ap₂, arith, drop, drop-append, false,
  get_or, inl, inr, length, length-append, ne→==_false, ok, refl, suc, sym, take, take-append, true,
  zero, ℕ, ℤ, ◌%◌, ◌*◌, ◌++◌, ◌+◌, ◌/◌, ◌<◌, ◌==◌, ◌∙◌, ◌∷◌, ◌≡◌, ◌≢◌,
}
use r_exasol.Socket.{SocketOps, Streams, Accepts}
use r_exasol.Socket.Stream.{recv_bytes}
use r_exasol.Chunk.{Memory, put, store, slice}
use r_exasol.Chunk.Memory.{
  put_self, put_ne, store-below, slice-store, take-slice, drop-slice, slice-put, slice-head,
}
use r_exasol.Reader.{c_string}
use r_exasol.MetaInfo.{proxy_header, host_info, send_proxy_header, receive_answer, read_meta_info}

-- A character that does not end a C string.
abbrev pub IsChar : ℕ → Type 0
IsChar c = c ≢ 0

c_string-chars :
    (cs : List ℕ) (n : ℕ) (m : Memory) (at : ℕ)
    → slice m at (length cs) ≡ cs
    → m (at + length cs) ≡ 0
    → All IsChar cs
    → length cs < n
    → c_string n m at ≡ cs
unfolding c_string slice
c_string-chars [] zero m at e z h f = absurd (omega arith)
c_string-chars [] (suc n) m at e z h f =
    let here : m at ≡ 0 = ap m (omega arith) ∙ z in rw (here, c_string)
c_string-chars (d ∷ ds) zero m at e z h f = absurd (omega arith)
c_string-chars (d ∷ ds) (suc n) m at e z h f =
    let here : m at ≡ d = ap (λ l. get_or l 0 0) e in
    let later : slice m (at + 1) (length ds) ≡ ds = ap (drop 1) e in
    let more : (m at == 0) ≡ false = rw here (ne→==_false d 0 h.0) in
    rw (more, c_string)
      (ap₂ ◌∷◌ here
        (c_string-chars ds n m (at + 1) later (ap m (omega arith) ∙ z) h.1 (omega arith)))

-- What the database answers: a version, the port in the low half of its field, and the host with
-- the end of its string and some bytes behind it.
pub record Answer : Type 0 where
  pub v0 : ℕ
  pub v1 : ℕ
  pub v2 : ℕ
  pub v3 : ℕ
  pub port : ℕ
  pub upper : ℕ
  pub uppermost : ℕ
  pub host : List ℕ
  pub junk : List ℕ

pub record IsAnswer (a : Answer) : Type 0 where
  pub port_fits : a.port < 65536
  pub is_text : All IsChar a.host
  pub room : length a.host + length a.junk ≡ 15

abbrev pub host_field : Answer → List ℕ
host_field a = a.host ++ (0 ∷ a.junk)

abbrev pub port_field : Answer → List ℕ → List ℕ
port_field a bs = a.port % 256 ∷ a.port / 256 % 256 ∷ a.upper ∷ a.uppermost ∷ bs

unfoldable pub answer_bytes : Answer → List ℕ
answer_bytes a = a.v0 ∷ a.v1 ∷ a.v2 ∷ a.v3 ∷ port_field a (host_field a)

answer_bytes-length : (a : Answer) → IsAnswer a → 24 ≡ length (answer_bytes a)
unfolding answer_bytes
answer_bytes-length a v = omega (arith, length-append a.host (0 ∷ a.junk), v.room)

abbrev received : Answer → Memory
received a = store (λ _. 0) 0 (answer_bytes a)

received-port : (a : Answer) → (received a 4 ≡ a.port % 256) × (received a 5 ≡ a.port / 256 % 256)
unfolding answer_bytes store put
received-port a =
    (store-below _ 8 (host_field a) 4 (omega arith), store-below _ 8 (host_field a) 5 (omega arith))

received-host : (a : Answer) → slice (received a) 8 (length (host_field a)) ≡ host_field a
unfolding answer_bytes store
received-host a = slice-store _ 8 (host_field a)

host_field-text :
    (m : Memory) (cs junk : List ℕ)
    → slice m 8 (length (cs ++ (0 ∷ junk))) ≡ cs ++ (0 ∷ junk)
    → (slice m 8 (length cs) ≡ cs) × (m (8 + length cs) ≡ 0)
host_field-text m cs junk e =
    let len = length-append cs (0 ∷ junk) in
    let n : ℕ = length (cs ++ (0 ∷ junk)) in
    let rest = drop-slice m 8 (length cs) n (1 + length junk) (omega (arith, len)) in
    (
      sym (take-slice m 8 (length cs) n (omega (arith, len)))
          ∙ ap (take (length cs)) e
          ∙ take-append (length cs) cs (0 ∷ junk) refl,
      ap (λ l. get_or l 0 0)
          (sym (slice-head m (8 + length cs) (1 + length junk) (omega arith))
            ∙ sym rest
            ∙ ap (drop (length cs)) e
            ∙ drop-append (length cs) cs (0 ∷ junk) refl),
    )

host_info-answer :
    (a : Answer) → IsAnswer a → host_info (received a) ≡ record { host = a.host; port = a.port }
unfolding host_info
host_info-answer a v =
    let m = received a in
    let (shown, ended) = host_field-text m a.host a.junk (received-host a) in
    let (low, high) = received-port a in
    let end_kept : put m 23 0 (8 + length a.host) ≡ 0 =
      elim (Bool-cases (8 + length a.host == 23)) [
        | inl e ↦ ap (put m 23 0) (==→eq (8 + length a.host) 23 e) ∙ put_self m 23 0
        | inr ne ↦
            put_ne m 23 0 (8 + length a.host) (λ e. ==_false→ne (8 + length a.host) 23 ne (sym e))
            ∙ ended
      ] in
    let text =
      c_string-chars a.host 16 (put m 23 0) 8
        (slice-put m 8 (length a.host) 23 0 (omega (arith, v.room)) ∙ shown) end_kept v.is_text
        (omega (arith, v.room)) in
    let number : (m 4 + 256 * m 5) % 65536 ≡ a.port = rw (low, high) (omega (arith, v.port_fits)) in
    ap₂ (λ h p. record { host = h; port = p }) text number

module _ {S : Type 0} (io : SocketOps S) (errno : S → ℤ) (st : Streams io) (a : Accepts io) where
  -- Where the socket accepts what is sent, and the stream that follows the request begins with a
  -- well-formed answer, `read` sends the proxy header, takes the 24 bytes of the answer and nothing
  -- behind them, and returns the host and the port that the answer was made of.
  pub read_meta_info-answer :
      (host : List ℕ) (port : ℕ) (s : S) (x : Answer) (rest : List ℕ)
      → IsAnswer x
      → st.pending (io.send s proxy_header).1 ≡ answer_bytes x ++ rest
      → (s' : S) × (read_meta_info io errno host port s
          ≡ (ok (record { host = x.host; port = x.port }), s'))
        × (s' ≡ (io.recv (io.send s proxy_header).1 24).1)
        × (st.pending s' ≡ rest)
  unfolding read_meta_info send_proxy_header receive_answer
  read_meta_info-answer host port s x rest v p =
      let s1 = (io.send s proxy_header).1 in
      let len = answer_bytes-length x v in
      let (now, later) =
        recv_bytes io st s1 24 (answer_bytes x) rest p len (omega arith) (omega arith) in
      let enough : (length (answer_bytes x) == 24) ≡ true = rw (← len) refl in
      (
        (io.recv s1 24).1,
        rw
            (
              a.send_all s proxy_header (unfold proxy_header in omega arith),
              ==_refl (length proxy_header),
              now,
              enough,
            )
            (ap (λ i. (ok i, (io.recv s1 24).1)) (host_info-answer x v)),
        refl,
        later,
      )
