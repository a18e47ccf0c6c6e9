-- ===== src/Rt/Arena/Sound.antt =====
-- Which arena a process has open, under any sequence of constructions, closes and its exit.
use mathlib.Core.List.{Memᴰ}
use sched_pass.Prelude.{
  ℕ, zero, suc, ◌≡◌, ◌≢◌, refl, sym, ap, subst, ◌⊎◌, inl, inr, true, false, ◌==◌, some, List, [],
  ◌∷◌, get_elem?, set, Bool-cases, Option-cases, ==_iff, arith,
}
use sched_pass.Rt.Arena.{Arena, HostProcess, closed, is_instance, close, close_all}
use sched_pass.Rt.Arena.Construct.{IsIdle, IsOpen}

abbrev pub IsSound : HostProcess → Type 0
IsSound p = IsIdle p ⊎ ((ref : ℕ) × (arena : Arena) × IsOpen p ref arena)

module _ {ℓ} {A : Type ℓ} where
  get_elem?-set_cases :
      (xs : List A) (i j : ℕ) (v b : A)
      → get_elem? (set xs i v) j ≡ some b
      → (b ≡ v) ⊎ ((get_elem? xs j ≡ some b) × (i ≢ j))
  get_elem?-set_cases [] i j v b h = inr (h, λ e. cc)
  get_elem?-set_cases (x ∷ xs) zero zero v b h = inl cc
  get_elem?-set_cases (x ∷ xs) zero (suc j) v b h = inr (h, λ e. omega arith)
  get_elem?-set_cases (x ∷ xs) (suc i) zero v b h = inr (h, λ e. omega arith)
  get_elem?-set_cases (x ∷ xs) (suc i) (suc j) v b h = elim (get_elem?-set_cases xs i j v b h) [
    | inl e ↦ inl e
    | inr (e, n) ↦ inr (e, λ e'. n (omega arith))
  ]

-- what `close` does to a process with nothing open, with its arena open, and with another one open
close-idle : (ref : ℕ) (p : HostProcess) → IsIdle p → close ref p ≡ p
unfolding close
close-idle ref p h = elim (Option-cases (get_elem? p.arenas ref)) [
  | inl e ↦ rw (close, e) refl
  | inr (a, e) ↦ let zero_base = h.all_closed ref a e in rw (close, e, zero_base) refl
]

close-open : (p : HostProcess) (ref : ℕ) (arena : Arena) → IsOpen p ref arena → IsIdle (close ref p)
unfolding close closed is_instance
close-open p ref arena h =
    let self : (ref == ref) ≡ true = (==_iff ref ref).1 refl in
    rw (close, h.found, h.based, is_instance, h.instance_is, self)
      (record {
        no_instance = refl;
        all_closed = λ i b found. elim (get_elem?-set_cases p.arenas ref i _ b found) [
          | inl same ↦ ap (λ (x : Arena). x.base) same
          | inr (old, differs) ↦ elim (h.others i b old) [
            | inl closed_base ↦ closed_base
            | inr same ↦ absurd (differs (sym same))
          ]
        ];
      })

close-other :
    (p : HostProcess) (ref other : ℕ) (arena : Arena)
    → IsOpen p ref arena
    → (ref == other) ≡ false
    → close other p ≡ p
unfolding close is_instance
close-other p ref other arena h e = elim (Option-cases (get_elem? p.arenas other)) [
  | inl absent ↦ rw (close, absent) refl
  | inr (a, found) ↦ elim (Bool-cases (a.base == 0)) [
    | inl zero_base ↦ rw (close, found, zero_base) refl
    | inr based ↦ rw (close, found, based, is_instance, h.instance_is, e) refl
  ]
]

pub close-IsSound : (ref : ℕ) (p : HostProcess) → IsSound p → IsSound (close ref p)
close-IsSound ref p (inl idle) = rw (close-idle ref p idle) (inl idle)
close-IsSound ref p (inr (current, arena, h)) = elim (Bool-cases (current == ref)) [
  | inl e ↦
      let same = (==_iff current ref).0 e in
      inl (subst (λ (i : ℕ). IsIdle (close i p)) same (close-open p current arena h))
  | inr e ↦ rw (close-other p current ref arena h e) (inr (current, arena, h))
]

pub close_all-idle : (refs : List ℕ) (p : HostProcess) → IsIdle p → close_all refs p ≡ p
unfolding close_all
close_all-idle [] p h = refl
close_all-idle (ref ∷ refs) p h = rw (close-idle ref p h) (close_all-idle refs p h)

pub close_all-open :
    (refs : List ℕ) (p : HostProcess) (ref : ℕ) (arena : Arena)
    → IsOpen p ref arena
    → Memᴰ ref refs
    → IsIdle (close_all refs p)
unfolding close_all
close_all-open [] p ref arena h mem = elim mem [ ]
close_all-open (first ∷ refs) p ref arena h (Memᴰ.head e) =
    let idle = subst (λ (i : ℕ). IsIdle (close i p)) e (close-open p ref arena h) in
    rw (close_all-idle refs (close first p) idle) idle
close_all-open (first ∷ refs) p ref arena h (Memᴰ.tail later) = elim (Bool-cases (ref == first)) [
  | inl e ↦
      let same = (==_iff ref first).0 e in
      let idle = subst (λ (i : ℕ). IsIdle (close i p)) same (close-open p ref arena h) in
      rw (close_all-idle refs (close first p) idle) idle
  | inr e ↦ rw (close-other p ref first arena h e) (close_all-open refs p ref arena h later)
]
