-- ===== src/Rt/Memory.antt =====
-- The bytes that python/sched_rt.py writes: `ctypes.memmove`, `ctypes.memset` and `struct`'s
-- little-endian packing. A buffer is a function from an offset to the byte there.
pub mod Laws
use sched_pass.Prelude.{
  ℕ, ◌+◌, ◌-◌, ◌*◌, ◌/◌, ◌%◌, ◌&&◌, List, [], ◌∷◌, ◌++◌, map, if◌then◌else◌, ltb, leb, length,
  get_or, range_from,
}

abbrev pub Bytes : Type 0
Bytes = ℕ → ℕ

-- `memmove(base + off, bs, len(bs))`
unfoldable pub store : Bytes → ℕ → List ℕ → Bytes
store m off bs x = if leb off x && ltb x (off + length bs) then get_or bs (x - off) 0 else m x

-- `string_at(base + off, n)`, and a slice of a bytearray
unfoldable pub load : Bytes → ℕ → ℕ → List ℕ
load m off n = map m (range_from off n)

-- `memset(base + off, value, n)`
unfoldable pub fill : Bytes → ℕ → ℕ → ℕ → Bytes
fill m off value n x = if leb off x && ltb x (off + n) then value else m x

-- `struct.pack("<I", n)`, for n < 2 ^ 32
unfoldable pub u32_bytes : ℕ → List ℕ
u32_bytes n = n % 256 ∷ n / 256 % 256 ∷ n / 65536 % 256 ∷ n / 16777216 % 256 ∷ []

-- `struct.pack("<Q", n)`, for n < 2 ^ 64
unfoldable pub u64_bytes : ℕ → List ℕ
unfolding u32_bytes
u64_bytes n = u32_bytes (n % 4294967296) ++ u32_bytes (n / 4294967296)

-- `struct.unpack_from("<I", m, off)`
unfoldable pub u32_at : Bytes → ℕ → ℕ
u32_at m off = m off + 256 * m (off + 1) + 65536 * m (off + 2) + 16777216 * m (off + 3)

-- `.numpy().tobytes()` of an int32 tensor
unfoldable pub words_bytes : List ℕ → List ℕ
unfolding u32_bytes
words_bytes [] = []
words_bytes (w ∷ ws) = u32_bytes w ++ words_bytes ws
