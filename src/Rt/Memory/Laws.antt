-- ===== src/Rt/Memory/Laws.antt =====
-- What a buffer holds after a write: inside the written window, and outside of it.
use sched_pass.Prelude.{
  AllBelow, ◌++◌, ◌%◌, ◌/◌, map, range_from, length-map, length-range_from, ap, ℕ, zero, suc, ◌+◌,
  ◌-◌, ◌*◌, ◌≤◌, ◌<◌, ◌≡◌, ◌⊎◌, refl, ◌∙◌, subst, List, [], ◌∷◌, length, get_or, arith,
}
use sched_pass.Rt.Memory.{Bytes, store, load, fill, u32_bytes, u64_bytes, u32_at, words_bytes}

-- An offset that lies in no byte of the window of `n` bytes at `off`.
abbrev pub Outside : ℕ → ℕ → ℕ → Type 0
Outside off n x = (x < off) ⊎ (off + n ≤ x)

pub store_inside :
    (m : Bytes) (off : ℕ) (bs : List ℕ) (k : ℕ)
    → k < length bs
    → store m off bs (off + k) ≡ get_or bs k 0
unfolding store
store_inside m off bs k h = let e : off + k - off ≡ k = omega arith in ground arith

pub store-Outside :
    (m : Bytes) (off : ℕ) (bs : List ℕ) (x : ℕ) → Outside off (length bs) x → store m off bs x ≡ m x
unfolding store
store-Outside m off bs x h = ground arith

pub fill-Outside : (m : Bytes) (off value n x : ℕ) → Outside off n x → fill m off value n x ≡ m x
unfolding fill
fill-Outside m off value n x h = ground arith

pub fill_inside : (m : Bytes) (off value n k : ℕ) → k < n → fill m off value n (off + k) ≡ value
unfolding fill
fill_inside m off value n k h = ground arith

pub length-u32_bytes : (n : ℕ) → length (u32_bytes n) ≡ 4
unfolding u32_bytes
length-u32_bytes n = refl

pub length-u64_bytes : (n : ℕ) → length (u64_bytes n) ≡ 8
unfolding u64_bytes
length-u64_bytes n = refl

pub length-words_bytes : (ws : List ℕ) → length (words_bytes ws) ≡ 4 * length ws
unfolding words_bytes
length-words_bytes [] = refl
length-words_bytes (w ∷ ws) = omega (arith, length-words_bytes ws)

pub u32_at-store_Outside :
    (m : Bytes) (off : ℕ) (bs : List ℕ) (x : ℕ)
    → (x + 4 ≤ off) ⊎ (off + length bs ≤ x)
    → u32_at (store m off bs) x ≡ u32_at m x
unfolding u32_at
u32_at-store_Outside m off bs x h = rw (
  store-Outside m off bs x (omega arith),
  store-Outside m off bs (x + 1) (omega arith),
  store-Outside m off bs (x + 2) (omega arith),
  store-Outside m off bs (x + 3) (omega arith),
)

get_or-u32_bytes :
    (n : ℕ)
    → n < 4294967296
    → get_or (u32_bytes n) 0 0
        + 256 * get_or (u32_bytes n) 1 0
        + 65536 * get_or (u32_bytes n) 2 0
        + 16777216 * get_or (u32_bytes n) 3 0
      ≡ n
unfolding u32_bytes
get_or-u32_bytes n h = omega arith

-- `struct.unpack_from` gives back what `struct.pack_into` wrote.
pub u32_at-store_self :
    (m : Bytes) (off n : ℕ) → n < 4294967296 → u32_at (store m off (u32_bytes n)) off ≡ n
unfolding u32_at
u32_at-store_self m off n h =
    let size = length-u32_bytes n in
    let first : store m off (u32_bytes n) off ≡ get_or (u32_bytes n) 0 0 =
      subst (λ x. store m off (u32_bytes n) x ≡ get_or (u32_bytes n) 0 0) (sum_zero off)
        (store_inside m off (u32_bytes n) 0 (omega arith)) in
    rw
      (
        first,
        store_inside m off (u32_bytes n) 1 (omega arith),
        store_inside m off (u32_bytes n) 2 (omega arith),
        store_inside m off (u32_bytes n) 3 (omega arith),
      )
      (get_or-u32_bytes n h)
  where
    sum_zero : (a : ℕ) → a + 0 ≡ a
    sum_zero a = omega arith

-- A buffer that agrees with bytes of a list from some place on holds the word there.
pub u32_at-eq :
    (m m' : Bytes) (x y : ℕ)
    → m x ≡ m' y
    → m (x + 1) ≡ m' (y + 1)
    → m (x + 2) ≡ m' (y + 2)
    → m (x + 3) ≡ m' (y + 3)
    → u32_at m x ≡ u32_at m' y
unfolding u32_at
u32_at-eq m m' x y a b c d = omega arith

-- Every word of the list.
abbrev pub AreWords : List ℕ → Type 0
AreWords = AllBelow 4294967296

get_or-words_bytes :
    (ws : List ℕ) (i k : ℕ)
    → i < length ws
    → k < 4
    → get_or (words_bytes ws) (4 * i + k) 0 ≡ get_or (u32_bytes (get_or ws i 0)) k 0
unfolding words_bytes
get_or-words_bytes [] i k h p = absurd (omega arith)
get_or-words_bytes (w ∷ ws) zero zero h p = refl
get_or-words_bytes (w ∷ ws) zero (suc zero) h p = refl
get_or-words_bytes (w ∷ ws) zero (suc (suc zero)) h p = refl
get_or-words_bytes (w ∷ ws) zero (suc (suc (suc zero))) h p = refl
get_or-words_bytes (w ∷ ws) zero (suc (suc (suc (suc k)))) h p = absurd (omega arith)
get_or-words_bytes (w ∷ ws) (suc i) k h p =
    let e : 4 * suc i + k ≡ suc (suc (suc (suc (4 * i + k)))) = omega arith in
    rw e (get_or-words_bytes ws i k (omega arith) p)

get_or-AreWords : (ws : List ℕ) (i : ℕ) → AreWords ws → get_or ws i 0 < 4294967296
get_or-AreWords [] i a = omega arith
get_or-AreWords (w ∷ ws) zero a = a.0
get_or-AreWords (w ∷ ws) (suc i) a = get_or-AreWords ws i a.1

-- Entry i of a table that was written as an int32 tensor.
pub u32_at-words_bytes :
    (m : Bytes) (off : ℕ) (ws : List ℕ) (i : ℕ)
    → AreWords ws
    → i < length ws
    → u32_at (store m off (words_bytes ws)) (off + 4 * i) ≡ get_or ws i 0
u32_at-words_bytes m off ws i a h =
    u32_at-eq (store m off (words_bytes ws)) (store m off (u32_bytes (get_or ws i 0))) (off + 4 * i)
      off
      (subst
        (λ x.
          store m off (words_bytes ws) (off + 4 * i) ≡ store m off (u32_bytes (get_or ws i 0)) x)
        (sum_zero off)
        (subst
          (λ x. store m off (words_bytes ws) x ≡ store m off (u32_bytes (get_or ws i 0)) (off + 0))
          (sum_zero (off + 4 * i)) (byte 0 (omega arith))))
      (byte 1 (omega arith)) (byte 2 (omega arith)) (byte 3 (omega arith))
    ∙ u32_at-store_self m off (get_or ws i 0) (get_or-AreWords ws i a)
  where
    sum_zero : (a : ℕ) → a + 0 ≡ a
    sum_zero a = omega arith

    byte :
        (k : ℕ)
        → k < 4
        → store m off (words_bytes ws) (off + 4 * i + k)
          ≡ store m off (u32_bytes (get_or ws i 0)) (off + k)
    byte k p =
        let e : off + 4 * i + k ≡ off + (4 * i + k) = omega arith in
        rw
          (
            e,
            store_inside m off (words_bytes ws) (4 * i + k) (omega (arith, length-words_bytes ws)),
            store_inside m off (u32_bytes (get_or ws i 0)) k
                (omega (arith, length-u32_bytes (get_or ws i 0))),
          )
          (get_or-words_bytes ws i k h p)

pub length-load : (m : Bytes) (off n : ℕ) → length (load m off n) ≡ n
unfolding load
length-load m off n = length-map m (range_from off n) ∙ length-range_from off n

get_or-map_range :
    (m : Bytes) (off n k : ℕ) → k < n → get_or (map m (range_from off n)) k 0 ≡ m (off + k)
get_or-map_range m off zero k h = absurd (omega arith)
get_or-map_range m off (suc n) zero h = let e : off ≡ off + 0 = omega arith in ap m e
get_or-map_range m off (suc n) (suc k) h =
    let e : suc off + k ≡ off + suc k = omega arith in
    get_or-map_range m (suc off) n k (omega arith) ∙ ap m e

-- A copy of a slice of one buffer into another.
pub store-load :
    (m host : Bytes) (off from n k : ℕ)
    → k < n
    → store m off (load host from n) (off + k) ≡ host (from + k)
unfolding load
store-load m host off from n k h =
    store_inside m off (load host from n) k (omega (arith, length-load host from n))
    ∙ get_or-map_range host from n k h

pub byte_copy :
    (m host : Bytes) (off from n k x y : ℕ)
    → x ≡ off + k
    → y ≡ from + k
    → k < n
    → store m off (load host from n) x ≡ host y
byte_copy m host off from n k x y ex ey h = rw (ex, ey) (store-load m host off from n k h)

-- The same for a word.
pub u32_at-copy :
    (m host : Bytes) (off from n k x y : ℕ)
    → x ≡ off + k
    → y ≡ from + k
    → k + 4 ≤ n
    → u32_at (store m off (load host from n)) x ≡ u32_at host y
u32_at-copy m host off from n k x y ex ey h =
    u32_at-eq (store m off (load host from n)) host x y
      (byte 0 x y (omega arith) (omega arith) (omega arith))
      (byte 1 (x + 1) (y + 1) (omega arith) (omega arith) (omega arith))
      (byte 2 (x + 2) (y + 2) (omega arith) (omega arith) (omega arith))
      (byte 3 (x + 3) (y + 3) (omega arith) (omega arith) (omega arith))
  where
    byte :
        (j x' y' : ℕ)
        → x' ≡ off + (k + j)
        → y' ≡ from + (k + j)
        → k + j < n
        → store m off (load host from n) x' ≡ host y'
    byte j x' y' a b c = byte_copy m host off from n (k + j) x' y' a b c

-- A word none of whose bytes changed.
pub u32_at-same :
    (m m' : Bytes) (x : ℕ) → ((y : ℕ) → x ≤ y → y < x + 4 → m' y ≡ m y) → u32_at m' x ≡ u32_at m x
u32_at-same m m' x h =
    u32_at-eq m' m x x (h x (omega arith) (omega arith)) (h (x + 1) (omega arith) (omega arith))
      (h (x + 2) (omega arith) (omega arith)) (h (x + 3) (omega arith) (omega arith))

pub u32_at-zero : (x : ℕ) → u32_at (λ _. 0) x ≡ 0
unfolding u32_at
u32_at-zero x = refl

store_first : (m : Bytes) (off b : ℕ) (bs : List ℕ) → store m off (b ∷ bs) off ≡ b
unfolding store
store_first m off b bs =
    let e : off - off ≡ 0 = omega arith in ground (arith, ap (λ k. get_or (b ∷ bs) k 0) e)

-- The fields of a packed `<fHB` row.
pub store-row :
    (m : Bytes) (off bits tau hint : ℕ)
    → bits < 4294967296
    → let m' = store m off (u32_bytes bits ++ tau % 256 ∷ tau / 256 % 256 ∷ hint % 256 ∷ []) in
      (u32_at m' off ≡ bits)
      × (m' (off + 4) + 256 * m' (off + 5) ≡ tau % 65536)
      × (m' (off + 6) ≡ hint % 256)
unfolding u32_bytes u32_at
store-row m off bits tau hint h =
    let row = u32_bytes bits ++ tau % 256 ∷ tau / 256 % 256 ∷ hint % 256 ∷ [] in
    let at_byte : (k : ℕ) → k < 7 → store m off row (off + k) ≡ get_or row k 0 =
      λ k lt. store_inside m off row k lt in
    let b0 = store_first m off (bits % 256) (
      bits / 256 % 256
      ∷ bits / 65536 % 256
      ∷ bits / 16777216 % 256
      ∷ tau % 256
      ∷ tau / 256 % 256
      ∷ hint % 256
      ∷ []) in
    let b1 = at_byte 1 (omega arith) in
    let b2 = at_byte 2 (omega arith) in
    let b3 = at_byte 3 (omega arith) in
    let b4 = at_byte 4 (omega arith) in
    let b5 = at_byte 5 (omega arith) in (omega arith, omega arith, at_byte 6 (omega arith))
