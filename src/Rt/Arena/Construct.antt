-- ===== src/Rt/Arena/Construct.antt =====
-- What the constructor of an arena leaves, when it returns and when it raises.
use mathlib.Core.List.{Memᴰ}
use sched_pass.Prelude.{
  ℕ, zero, suc, ◌<◌, ◌≡◌, refl, ap, ◌⊎◌, inl, inr, Bool, true, false, not, ◌||◌, ◌==◌, none, some,
  List, [], ◌∷◌, ◌++◌, length, get_elem?, Bool-cases, ==_iff, arith,
}
use sched_pass.Prelude.Result.{runtime_error}
use sched_pass.Prelude.Exec.Ensures.{
  Ensures, modify-Ensures, done-Ensures, ok-Ensures, err-Ensures, if-Ensures, bind-Ensures,
}
use sched_pass.Rt.Memory.{fill}
use sched_pass.Rt.Plane.{arena_bytes}
use sched_pass.Rt.Arena.{
  Arena, HostProcess, Answers, is_failed, mmap, munmap, reserve, reserve_anywhere, check,
  retain_context, ensure_context, register_host, publish_arena, construct,
}

-- No arena is open: there is no instance, and the arenas made so far have lost their base.
pub record IsIdle (p : HostProcess) : Type 0 where
  pub no_instance : p.instance_ref ≡ none
  pub all_closed : (i : ℕ) (b : Arena) → get_elem? p.arenas i ≡ some b → b.base ≡ 0

-- The arena with this number is the instance: it is mapped and registered at its base, the exit
-- closes it, and no other one has a base.
pub record IsOpen (p : HostProcess) (ref : ℕ) (arena : Arena) : Type 0 where
  pub instance_is : p.instance_ref ≡ some ref
  pub found : get_elem? p.arenas ref ≡ some arena
  pub based : (arena.base == 0) ≡ false
  pub is_mapped : Memᴰ arena.base p.maps
  pub is_pinned : Memᴰ arena.base p.pinned
  pub exits : Memᴰ ref p.at_exit
  pub others : (i : ℕ) (b : Arena) → get_elem? p.arenas i ≡ some b → (b.base ≡ 0) ⊎ (i ≡ ref)

module _ {ℓ} {A : Type ℓ} where
  get_elem?-append_last : (xs : List A) (x : A) → get_elem? (xs ++ x ∷ []) (length xs) ≡ some x
  get_elem?-append_last [] x = refl
  get_elem?-append_last (y ∷ xs) x = get_elem?-append_last xs x

  get_elem?-append_cases :
      (xs : List A) (x : A) (i : ℕ) (b : A)
      → get_elem? (xs ++ x ∷ []) i ≡ some b
      → (get_elem? xs i ≡ some b) ⊎ (i ≡ length xs)
  get_elem?-append_cases [] x zero b h = inr refl
  get_elem?-append_cases [] x (suc i) b h = inl h
  get_elem?-append_cases (y ∷ xs) x zero b h = inl h
  get_elem?-append_cases (y ∷ xs) x (suc i) b h = elim (get_elem?-append_cases xs x i b h) [
    | inl e ↦ inl e
    | inr e ↦ inr (ap suc e)
  ]

IsIdle-maps : (p : HostProcess) (l : List ℕ) → IsIdle p → IsIdle (record p { maps = l })
IsIdle-maps p l h = record { no_instance = h.no_instance; all_closed = h.all_closed }

-- after `mmap`
abbrev IsMapped : ℕ → HostProcess → Type 0
IsMapped base p = IsIdle p × (is_failed base ≡ false → Memᴰ base p.maps)

abbrev IsReserved : ℕ → HostProcess → Type 0
IsReserved base p = IsIdle p × Memᴰ base p.maps × (is_failed base ≡ false)

mmap-Ensures : (base : ℕ) → Ensures IsIdle (mmap base) IsMapped IsIdle
unfolding mmap
mmap-Ensures base =
    bind-Ensures {R = λ _. IsMapped base}
      (modify-Ensures _ (λ p h. elim (Bool-cases (is_failed base)) [
        | inl e ↦ rw e (h, λ e'. absurd cc)
        | inr e ↦ rw e (IsIdle-maps p _ h, λ _. Memᴰ.head refl)
      ]))
      (λ _. ok-Ensures base (λ p h. h))

or_false_left : (a b : Bool) → (a || b) ≡ false → a ≡ false
or_false_left false b h = refl
or_false_left true b h = h

reserve_anywhere-Ensures :
    (w : Answers) (base : ℕ) → Ensures (IsMapped base) (reserve_anywhere w base) IsReserved IsIdle
unfolding reserve_anywhere munmap
reserve_anywhere-Ensures w base =
    bind-Ensures {R = λ _. IsIdle}
      (if-Ensures (is_failed base) (λ _. done-Ensures (λ p h. h.0))
        (λ _. modify-Ensures _ (λ p h. IsIdle-maps p _ h.0)))
      (λ _. bind-Ensures (mmap-Ensures w.anywhere) (λ moved.
        if-Ensures (is_failed moved) (λ _. err-Ensures runtime_error (λ p h. h.0))
          (λ e. ok-Ensures moved (λ p h. (h.0, h.1 e, e)))))

reserve-Ensures :
    (w : Answers) (requested : ℕ) → Ensures IsIdle (reserve w requested) IsReserved IsIdle
unfolding reserve
reserve-Ensures w requested = bind-Ensures (mmap-Ensures w.fixed) (λ base.
    if-Ensures (is_failed base || not (base == requested)) (λ _. reserve_anywhere-Ensures w base)
      (λ e.
        ok-Ensures base
          (λ p h. let mapped = or_false_left (is_failed base) _ e in (h.0, h.1 mapped, mapped))))

check-Ensures :
    {P : HostProcess → Type 0} (code : ℕ)
    → ((p : HostProcess) → P p → IsIdle p)
    → Ensures P (check code) (λ _. P) IsIdle
unfolding check
check-Ensures code idle =
    if-Ensures (code == 0) (λ _. done-Ensures (λ p h. h))
      (λ _. err-Ensures runtime_error (λ p h. idle p h))

ensure_context-Ensures :
    {P : HostProcess → Type 0} (w : Answers)
    → ((p : HostProcess) → P p → IsIdle p)
    → Ensures P (ensure_context w) (λ _. P) IsIdle
unfolding ensure_context retain_context
ensure_context-Ensures w idle = bind-Ensures (check-Ensures w.current_code idle) (λ _.
    if-Ensures (w.current == 0)
      (λ _.
        bind-Ensures (check-Ensures w.device_code idle) (λ _.
          bind-Ensures (check-Ensures w.retain_code idle) (λ _. check-Ensures w.set_code idle)))
      (λ _. done-Ensures (λ p h. h)))

-- after registration: the base is also the device's address
abbrev IsRegistered : Answers → ℕ → HostProcess → Type 0
IsRegistered w base p = IsReserved base p × Memᴰ base p.pinned

register_host-Ensures :
    (w : Answers) (base : ℕ)
    → Ensures
        (IsReserved base)
        (register_host w base)
        (λ _ p. IsRegistered w base p × (w.pointer ≡ base))
        IsIdle
unfolding register_host
register_host-Ensures w base = bind-Ensures (check-Ensures w.register_code (λ p h. h.0)) (λ _.
    bind-Ensures {R = λ _. IsRegistered w base}
      (modify-Ensures _ (λ p h. (
        ((record { no_instance = h.0.no_instance; all_closed = h.0.all_closed }), h.1, h.2),
        Memᴰ.head refl,
      )))
      (λ _. bind-Ensures (check-Ensures w.pointer_code (λ p h. h.0.0)) (λ _.
        if-Ensures (w.pointer == base) (λ e. done-Ensures (λ p h. (h, (==_iff w.pointer base).0 e)))
          (λ _. err-Ensures runtime_error (λ p h. h.0.0)))))

-- What a construction with these answers leaves when it returns: a new arena is open, whose base is
-- also the device's address, and whose memory is zero.
pub record IsMade (w : Answers) (requested : ℕ) (p : HostProcess) : Type 0 where
  pub ref : ℕ
  pub arena : Arena
  pub opened : IsOpen p ref arena
  pub canonical_iff : arena.canonical ≡ (arena.base == requested)
  pub device_address : w.pointer ≡ arena.base
  pub zeroed : (i : ℕ) → i < arena_bytes → arena.memory i ≡ 0

publish_arena-IsMade :
    (w : Answers) (requested base : ℕ) (p : HostProcess)
    → IsRegistered w base p
    → w.pointer ≡ base
    → IsMade w requested (publish_arena w requested base p)
unfolding publish_arena fill
publish_arena-IsMade w requested base p h e =
    let (reserved, pinned) = h in
    let (idle, mapped, no_failure) = reserved in
    record {
      ref = length p.arenas;
      arena = record {
        base = base;
        canonical = base == requested;
        memory = fill w.memory 0 0 arena_bytes;
      };
      opened = record {
        instance_is = refl;
        found = get_elem?-append_last p.arenas _;
        based = or_false_left (base == 0) _ no_failure;
        is_mapped = mapped;
        is_pinned = pinned;
        exits = Memᴰ.head refl;
        others = λ i b found. elim (get_elem?-append_cases p.arenas _ i b found) [
          | inl old ↦ inl (idle.all_closed i b old)
          | inr new ↦ inr new
        ];
      };
      canonical_iff = refl;
      device_address = e;
      zeroed = λ i below. ground arith;
    }

pub construct-Ensures :
    (w : Answers) (requested : ℕ)
    → Ensures IsIdle (construct w requested) (λ _. IsMade w requested) IsIdle
unfolding construct
construct-Ensures w requested = bind-Ensures (reserve-Ensures w requested) (λ base.
    bind-Ensures (check-Ensures w.init_code (λ p h. h.0)) (λ _.
      bind-Ensures (ensure_context-Ensures w (λ p h. h.0)) (λ _.
        bind-Ensures (register_host-Ensures w base)
          (λ _. modify-Ensures _ (λ p h. publish_arena-IsMade w requested base p h.0 h.1)))))
