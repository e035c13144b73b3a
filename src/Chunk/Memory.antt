-- ===== src/Chunk/Memory.antt =====
-- What reads of a buffer return after writes.
use r_exasol.Base.{
  List, [], ap, ap₂, arith, drop, length, refl, suc, take, zero, ℕ, ◌++◌, ◌+◌, ◌-◌, ◌<◌, ◌∙◌, ◌∷◌,
  ◌≡◌, ◌≢◌, ◌≤◌,
}
use r_exasol.Chunk.{Memory, put, store, slice}

pub put_self : (m : Memory) (i v : ℕ) → put m i v i ≡ v
unfolding put
put_self m i v = ground arith

pub put_ne : (m : Memory) (i v j : ℕ) → i ≢ j → put m i v j ≡ m j
unfolding put
put_ne m i v j h = ground arith

-- Bytes before and behind the stored range keep their values.
pub store-below : (m : Memory) (i : ℕ) (bs : List ℕ) (j : ℕ) → j < i → store m i bs j ≡ m j
unfolding store
store-below m i [] j h = refl
store-below m i (b ∷ bs) j h =
    store-below (put m i b) (i + 1) bs j (omega arith) ∙ put_ne m i b j (omega arith)

pub store-above :
    (m : Memory) (i : ℕ) (bs : List ℕ) (j : ℕ) → i + length bs ≤ j → store m i bs j ≡ m j
unfolding store
store-above m i [] j h = refl
store-above m i (b ∷ bs) j h =
    store-above (put m i b) (i + 1) bs j (omega arith) ∙ put_ne m i b j (omega arith)

pub length-slice : (m : Memory) (i n : ℕ) → length (slice m i n) ≡ n
unfolding slice
length-slice m i zero = refl
length-slice m i (suc n) = ap suc (length-slice m (i + 1) n)

-- What was stored is read back.
pub slice-store : (m : Memory) (i : ℕ) (bs : List ℕ) → slice (store m i bs) i (length bs) ≡ bs
unfolding slice store
slice-store m i [] = refl
slice-store m i (b ∷ bs) =
    ap₂ ◌∷◌ (store-below (put m i b) (i + 1) bs i (omega arith) ∙ put_self m i b)
      (slice-store (put m i b) (i + 1) bs)

-- Two buffers that agree on a range have the same slice there.
pub slice_congr :
    (m k : Memory) (i n : ℕ) → ((j : ℕ) → i ≤ j → j < i + n → m j ≡ k j) → slice m i n ≡ slice k i n
unfolding slice
slice_congr m k i zero h = refl
slice_congr m k i (suc n) h =
    ap₂ ◌∷◌ (h i (omega arith) (omega arith))
      (slice_congr m k (i + 1) n (λ j p q. h j (omega arith) (omega arith)))

pub slice-put : (m : Memory) (i n j v : ℕ) → i + n ≤ j → slice (put m j v) i n ≡ slice m i n
slice-put m i n j v h = slice_congr (put m j v) m i n (λ k p q. put_ne m j v k (omega arith))

pub slice-append : (m : Memory) (i a b : ℕ) → slice m i (a + b) ≡ slice m i a ++ slice m (i + a) b
unfolding slice
slice-append m i zero b = ap₂ (slice m) (omega arith) (omega arith)
slice-append m i (suc a) b =
    ap (slice m i) one_more
    ∙ ap (◌∷◌ (m i))
        (slice-append m (i + 1) a b ∙ ap (λ k. slice m (i + 1) a ++ slice m k b) (omega arith))
  where
    one_more : suc a + b ≡ suc (a + b)
    one_more = omega arith

-- Storing behind a range appends to it.
pub slice-store_behind :
    (m : Memory) (i n : ℕ) (bs : List ℕ)
    → slice (store m (i + n) bs) i (n + length bs) ≡ slice m i n ++ bs
slice-store_behind m i n bs =
    slice-append (store m (i + n) bs) i n (length bs)
    ∙ ap₂ ◌++◌ (slice_congr (store m (i + n) bs) m i n (λ j p q. store-below m (i + n) bs j q))
        (slice-store m (i + n) bs)

pub take-slice : (m : Memory) (i a b : ℕ) → a ≤ b → take a (slice m i b) ≡ slice m i a
unfolding slice
take-slice m i zero b h = refl
take-slice m i (suc a) zero h = absurd (omega arith)
take-slice m i (suc a) (suc b) h = ap (◌∷◌ (m i)) (take-slice m (i + 1) a b (omega arith))

pub drop-slice : (m : Memory) (i a b c : ℕ) → b ≡ a + c → drop a (slice m i b) ≡ slice m (i + a) c
unfolding slice
drop-slice m i zero b c h = ap₂ (slice m) (omega arith) (omega arith)
drop-slice m i (suc a) zero c h = absurd (omega arith)
drop-slice m i (suc a) (suc b) c h =
    drop-slice m (i + 1) a b c (omega arith) ∙ ap (λ k. slice m k c) (omega arith)

pub slice-store_front :
    (m : Memory) (n : ℕ) (bs : List ℕ) → slice (store m n bs) 0 (n + length bs) ≡ slice m 0 n ++ bs
slice-store_front m n bs =
    ap (λ k. slice (store m k bs) 0 (n + length bs)) zero_plus ∙ slice-store_behind m 0 n bs
  where
    zero_plus : n ≡ 0 + n
    zero_plus = omega arith

pub slice-head : (m : Memory) (i n : ℕ) → 0 < n → slice m i n ≡ m i ∷ slice m (i + 1) (n - 1)
unfolding slice
slice-head m i zero h = absurd (omega arith)
slice-head m i (suc n) h = ap (λ k. m i ∷ slice m (i + 1) k) (omega arith)

pub slice-nil : (m : Memory) (i n : ℕ) → n ≡ 0 → slice m i n ≡ []
unfolding slice
slice-nil m i n e = rw e
