-- ===== src/Rt/Plane/Publish.antt =====
-- `push`, as a reader of the arena may see it, and at the end of its generations.
use sched_pass.Prelude.{
  ℕ, zero, suc, ◌+◌, ◌-◌, ◌≤◌, ◌<◌, ◌≡◌, ◌⊎◌, inl, inr, refl, ◌∙◌, List, [], ◌∷◌, arith, sym, ap,
  subst,
}
use sched_pass.Prelude.Result.{err, struct_error}
use sched_pass.Rt.Memory.{Bytes, store, load, u32_bytes, u32_at}
use sched_pass.Rt.Memory.Laws.{store-Outside, byte_copy, u32_at-same, length-u32_bytes, length-load}
use sched_pass.Rt.Plane.{SchedPlane, ctrl_off, ctrl_bytes, push, publish, push_writes, store_all}
use sched_pass.Rt.Plane.Windows.{stamped, push_below, push_at_limit}
use sched_pass.Rt.Plane.Valid.{IsValid}

-- Each byte of the write has landed or has not.
abbrev pub Torn : Bytes → ℕ → List ℕ → Bytes → Type 0
Torn m off bs seen = (x : ℕ) → (seen x ≡ m x) ⊎ (seen x ≡ store m off bs x)

-- What a reader may see during a sequence of writes, which land one after the other.
abbrev pub Observed : Bytes → List (ℕ × List ℕ) → Bytes → Type 0
Observed m [] seen = (x : ℕ) → seen x ≡ m x
Observed m ((off, bs) ∷ ws) seen = Torn m off bs seen ⊎ Observed (store m off bs) ws seen

module _ (p : SchedPlane) where
  body : List ℕ
  body = load (stamped p).ctrl_host 4 (ctrl_bytes p - 4)

  word : List ℕ
  word = load (stamped p).ctrl_host 0 4

  after_body : Bytes
  unfolding body
  after_body = store p.arena (ctrl_off + 4) body

  -- the row bytes after the first write, and whatever lands of the second
  body_landed : (x : ℕ) → 4 ≤ x → x < ctrl_bytes p → after_body (ctrl_off + x) ≡ p.ctrl_host x
  unfolding after_body
  body_landed x low high =
      byte_copy p.arena (stamped p).ctrl_host (ctrl_off + 4) 4 (ctrl_bytes p - 4) (x - 4)
        (ctrl_off + x) x (omega arith) (omega arith) (omega arith)
      ∙ store-Outside p.ctrl_host 0 (u32_bytes (p.generation + 1)) x
          (omega (arith, length-u32_bytes (p.generation + 1)))

  word_elsewhere :
      (x : ℕ) → 4 ≤ x → store after_body ctrl_off word (ctrl_off + x) ≡ after_body (ctrl_off + x)
  unfolding word
  word_elsewhere x low =
      store-Outside after_body ctrl_off word (ctrl_off + x)
        (omega (arith, length-load (stamped p).ctrl_host 0 4))

  -- before the second write the generation word is the old one
  old_word :
      (seen : Bytes)
      → Torn p.arena (ctrl_off + 4) body seen
      → u32_at seen ctrl_off ≡ u32_at p.arena ctrl_off
  unfolding body
  old_word seen torn = u32_at-same p.arena seen ctrl_off λ y low high. elim (torn y) [
    | inl e ↦ e
    | inr e ↦ e ∙ store-Outside p.arena (ctrl_off + 4) body y (omega arith)
  ]

-- While `push` runs, a reader sees the old generation word or complete rows: whatever part of the
-- two writes has landed, if the generation word that is seen is the new one, then all bytes of the
-- ctrl table behind it are those of the mirror. At the end of `push` all of both writes has landed.
pub push-Observed :
    (p : SchedPlane) (seen : Bytes)
    → IsValid p
    → p.generation + 1 < 4294967296
    → Observed p.arena (push_writes (stamped p)) seen
    → u32_at seen ctrl_off ≡ p.generation + 1
    → ((x : ℕ) → 4 ≤ x → x < ctrl_bytes p → seen (ctrl_off + x) ≡ p.ctrl_host x)
      × ((push p).1.arena ≡ store_all p.arena (push_writes (stamped p)))
unfolding push_writes publish after_body word body
push-Observed p seen v fits (inl torn) new =
    let old = v.published (omega arith) in absurd (omega (arith, old_word p seen torn))
push-Observed p seen v fits (inr (inl torn)) new = (
  λ x low high. elim (torn (ctrl_off + x)) [
    | inl e ↦ e ∙ body_landed p x low high
    | inr e ↦ e ∙ word_elsewhere p x low ∙ body_landed p x low high
  ],
  rw (push_below p fits),
)
push-Observed p seen v fits (inr (inr whole)) new = (
  λ x low high. whole (ctrl_off + x) ∙ word_elsewhere p x low ∙ body_landed p x low high,
  rw (push_below p fits),
)

-- The plane after n calls of `push`.
pub pushes : ℕ → SchedPlane → SchedPlane
pushes zero p = p
pushes (suc n) p = pushes n (push p).1

-- Once the generation has reached 2 ^ 32 - 1, every further `push` raises `struct.error`, and the
-- arena keeps what it holds: no call of `push` publishes anything any more.
pub push_wedged :
    (n : ℕ) (p : SchedPlane)
    → 4294967296 ≤ p.generation + 1
    → ((push (pushes n p)).0 ≡ err struct_error) × ((pushes n p).arena ≡ p.arena)
unfolding pushes
push_wedged zero p h = (rw (push_at_limit p h), refl)
push_wedged (suc n) p h =
    subst (λ q. ((push (pushes n q)).0 ≡ err struct_error) × ((pushes n q).arena ≡ p.arena))
      (sym (ap (λ r. r.1) (push_at_limit p h)))
      (push_wedged n (record p { generation = p.generation + 1 }) (omega arith))
