-- ===== src/Rt/Occupancy/Exact.antt =====
-- What `r_for_cached_so` returns, and that it leaves no module behind.
use Prim.Native.String.{String}
use sched_pass.Prelude.{
  ℕ, ◌*◌, ◌≡◌, refl, true, false, not, ◌&&◌, ◌==◌, ltb, List, [], ◌∷◌, if◌then◌else◌, Bool-cases,
  inl, inr, ==_iff, ap, arith,
}
use sched_pass.Prelude.Result.{Result, ok, err, runtime_error}
use sched_pass.Prelude.Exec.{◌>>=◌, lift}
use sched_pass.Rt.Occupancy.{
  Cubin, Tools, stubs_of, device_name, unloaded, query, occupancy, scaled, first_resident,
  of_cubins, of_stubs, residents, r_for_cached_so, or_zero,
}

-- the blocks of a cubin that can be read: 0 unless it loads and has the kernel, and the query succeeds
abbrev pub blocks_of : String → Cubin → ℕ
blocks_of name c =
    if c.load_code == 0 && (c.function_code name == 0 && c.query_code == 0) then c.blocks else 0

-- The first positive number of blocks before any cubin that cannot be read; 0 if there is none.
unfoldable pub first_blocks : String → List Cubin → ℕ
first_blocks name [] = 0
first_blocks name (c ∷ cubins) =
    let rest = first_blocks name cubins in
    if not c.readable then 0 else if ltb 0 (blocks_of name c) then blocks_of name c else rest

-- what a tool that may raise lists
abbrev pub listed : {A : Type 0} → Result (List A) → List A
listed (ok xs) = xs
listed (err _) = []

-- the SMs, or 0 where the count raises
abbrev pub counted : Result ℕ → ℕ
counted (ok n) = n
counted (err _) = 0

-- The number that is expected of the stubs.
abbrev pub expected : Tools → List String → ℕ
expected t [] = 0
expected t (stub ∷ _) = first_blocks (device_name t.str stub) (listed t.cubins) * counted t.sm_count

self : (n : ℕ) → (n == n) ≡ true
self n = (==_iff n n).1 refl

occupancy-unreadable :
    (c : Cubin) (name : String) (l : List ℕ)
    → c.readable ≡ false
    → occupancy c name l ≡ (err runtime_error, l)
unfolding occupancy ◌>>=◌
occupancy-unreadable c name l h = rw (occupancy, h) refl

occupancy-blocks :
    (c : Cubin) (name : String) (l : List ℕ)
    → c.readable ≡ true
    → occupancy c name l ≡ (ok (blocks_of name c), l)
unfolding occupancy query unloaded ◌>>=◌
occupancy-blocks c name l h = elim (Bool-cases (c.load_code == 0)) [
  | inr e ↦ rw (occupancy, h, e) refl
  | inl e ↦ elim (Bool-cases (c.function_code name == 0)) [
    | inr g ↦ rw (occupancy, h, e, query, g, unloaded, self c.handle) refl
    | inl g ↦ elim (Bool-cases (c.query_code == 0)) [
      | inl k ↦ rw (occupancy, h, e, query, g, k, unloaded, self c.handle) refl
      | inr k ↦ rw (occupancy, h, e, query, g, k, unloaded, self c.handle) refl
    ]
  ]
]

scaled-exact :
    (sm_count : Result ℕ) (blocks : ℕ) (l : List ℕ)
    → or_zero (scaled sm_count blocks l) ≡ (blocks * counted sm_count, l)
unfolding scaled ◌>>=◌
scaled-exact (ok n) blocks l = refl
scaled-exact (err e) blocks l = ap (λ m. (m, l)) (omega arith)

first_resident-exact :
    (cubins : List Cubin) (name : String) (sm_count : Result ℕ) (l : List ℕ)
    → or_zero (first_resident cubins name sm_count l)
      ≡ (first_blocks name cubins * counted sm_count, l)
unfolding first_resident first_blocks ◌>>=◌
first_resident-exact [] name sm_count l = ap (λ n. (n, l)) (omega arith)
first_resident-exact (c ∷ cubins) name sm_count l = elim (Bool-cases c.readable) [
  | inr e ↦
      rw (first_resident, occupancy-unreadable c name l e, first_blocks, e)
        (ap (λ n. (n, l)) (omega arith))
  | inl e ↦ elim (Bool-cases (ltb 0 (blocks_of name c))) [
    | inl g ↦
        rw (first_resident, occupancy-blocks c name l e, first_blocks, e, g)
          (scaled-exact sm_count (blocks_of name c) l)
    | inr g ↦
        rw (first_resident, occupancy-blocks c name l e, first_blocks, e, g)
          (first_resident-exact cubins name sm_count l)
  ]
]

extracted-exact :
    (r : Result (List Cubin)) (name : String) (sm_count : Result ℕ) (l : List ℕ)
    → or_zero ((lift r >>= λ cubins. first_resident cubins name sm_count) l)
      ≡ (first_blocks name (listed r) * counted sm_count, l)
unfolding ◌>>=◌ first_blocks
extracted-exact (ok cubins) name sm_count l = first_resident-exact cubins name sm_count l
extracted-exact (err e) name sm_count l = ap (λ n. (n, l)) (omega arith)

of_stubs-exact :
    (t : Tools) (stubs : List String) (l : List ℕ)
    → or_zero (of_stubs t stubs l) ≡ (expected t stubs, l)
unfolding of_stubs of_cubins ◌>>=◌
of_stubs-exact t [] l = refl
of_stubs-exact t (stub ∷ stubs) l = extracted-exact t.cubins (device_name t.str stub) t.sm_count l

named-exact :
    (t : Tools) (r : Result (List String)) (part : String) (l : List ℕ)
    → or_zero ((lift r >>= λ lines. of_stubs t (stubs_of part lines)) l)
      ≡ (expected t (stubs_of part (listed r)), l)
unfolding ◌>>=◌ stubs_of
named-exact t (ok lines) part l = of_stubs-exact t (stubs_of part lines) l
named-exact t (err e) part l = refl

-- `r_for_cached_so` returns, also where a tool raises, with the loaded modules as they were. The
-- number is 0 where `nm` raises, lists no stub with the symbol, or the extraction or the count of the SMs raises; and else the
-- SMs times the blocks of the first cubin, before any that cannot be read, that loads, has the first
-- stub's kernel, and of which the query counts a block; 0 without such a cubin.
pub r_for_cached_so-exact :
    (t : Tools) (part : String) (loaded : List ℕ)
    → r_for_cached_so t part loaded ≡ (expected t (stubs_of part (listed t.nm)), loaded)
unfolding r_for_cached_so residents
r_for_cached_so-exact t part loaded = named-exact t t.nm part loaded
