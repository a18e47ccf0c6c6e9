-- ===== src/Serve/Hooks/Errors.antt =====
-- The errors that the hooks catch: what is counted and what is printed.
use sched_pass.Prelude.{
  ℕ, ◌+◌, ◌≡◌, refl, sym, subst, ◌∙◌, ap, Bool, true, false, ◌||◌, List, [], ◌∷◌, ◌++◌, length,
  if◌then◌else◌, inl, inr, Bool-cases, arith,
}
use sched_pass.Floats.{Floats}
use sched_pass.Env.{is_set}
use sched_pass.Serve.Hooks.{
  Site, moe_arm, begin, end, Line, degraded, repeated, Process, hook_error, is_seen, same_site,
}

-- how often the first error of a site is printed
pub count_first : Site → List Line → ℕ
unfolding same_site
count_first site [] = 0
count_first site (degraded other ∷ lines) =
    let rest = count_first site lines in if same_site other site then rest + 1 else rest
count_first site (repeated other ∷ lines) = count_first site lines

is_seen-append :
    (seen : List Site) (at site : Site)
    → is_seen (seen ++ at ∷ []) site ≡ (is_seen seen site || same_site at site)
unfolding is_seen
is_seen-append [] at site = elim (Bool-cases (same_site at site)) [ inl e ↦ rw e | inr e ↦ rw e ]
is_seen-append (other ∷ seen) at site = elim (Bool-cases (same_site other site)) [
  | inl e ↦ rw e
  | inr e ↦ rw e (is_seen-append seen at site)
]

count_first-degraded :
    (site at : Site) (lines : List Line)
    → count_first site (lines ++ degraded at ∷ [])
      ≡ count_first site lines + (if same_site at site then 1 else 0)
unfolding count_first
count_first-degraded site at [] = elim (Bool-cases (same_site at site)) [
  | inl e ↦ rw e
  | inr e ↦ rw e
]
count_first-degraded site at (degraded other ∷ lines) =
    ground (arith, count_first-degraded site at lines)
count_first-degraded site at (repeated other ∷ lines) = count_first-degraded site at lines

count_first-repeated :
    (site at : Site) (lines : List Line)
    → count_first site (lines ++ repeated at ∷ []) ≡ count_first site lines
unfolding count_first
count_first-repeated site at [] = refl
count_first-repeated site at (degraded other ∷ lines) =
    ground (arith, count_first-repeated site at lines)
count_first-repeated site at (repeated other ∷ lines) = count_first-repeated site at lines

same_site-eq : (a b : Site) → same_site a b ≡ true → a ≡ b
unfolding same_site
same_site-eq moe_arm moe_arm h = refl
same_site-eq begin begin h = refl
same_site-eq end end h = refl
same_site-eq moe_arm begin h = cc
same_site-eq moe_arm end h = cc
same_site-eq begin moe_arm h = cc
same_site-eq begin end h = cc
same_site-eq end moe_arm h = cc
same_site-eq end begin h = cc

or_false : (b : Bool) → (b || false) ≡ b
or_false true = refl
or_false false = refl

or_assoc : (a b c : Bool) → ((a || b) || c) ≡ (a || (b || c))
or_assoc true b c = refl
or_assoc false b c = refl

add_zero : (n : ℕ) → n + 0 ≡ n
add_zero n = omega arith

module _ (at : Site) (failed : Site → Bool) where
  abbrev with_site : Site → Bool
  with_site site = failed site || same_site at site

  -- a site that has failed before
  absorb : failed at ≡ true → (site : Site) → with_site site ≡ failed site
  absorb e site = elim (Bool-cases (same_site at site)) [
    | inl same ↦
        let fails : failed site ≡ true =
          subst (λ b. failed b ≡ true) (same_site-eq at site same) e in
        rw (same, fails)
    | inr other ↦ rw other (or_false (failed site))
  ]

  -- and one that has not
  once :
      failed at ≡ false
      → (site : Site)
      → (if failed site then 1 else 0) + (if same_site at site then 1 else 0)
        ≡ (if with_site site then 1 else 0)
  once e site = elim (Bool-cases (same_site at site)) [
    | inl same ↦
        let fresh : failed site ≡ false =
          subst (λ b. failed b ≡ false) (same_site-eq at site same) e in
        rw (same, fresh) (omega arith)
    | inr other ↦ rw (other, or_false (failed site)) (omega arith)
  ]

module _ {f : Floats} where
  -- The process after errors at the given sites, in this order.
  unfoldable pub errors : List Site → Process f → Process f
  errors [] p = p
  errors (site ∷ sites) p = errors sites (hook_error site p)

  -- After errors that are counted in `before`: their number, the sites that are seen, and the first
  -- error of each of those printed once.
  record Printed (count : ℕ) (failed : Site → Bool) (p : Process f) : Type 0 where
    counted : p.hook_errors ≡ count
    seen : (site : Site) → is_seen p.hook_err_seen site ≡ failed site
    printed : (site : Site) → count_first site p.lines ≡ (if failed site then 1 else 0)

  module _ (at : Site) (count : ℕ) (failed : Site → Bool) where
    hook_error-Printed :
        (p : Process f)
        → Printed count failed p
        → Printed (count + 1) (with_site at failed) (hook_error at p)
    unfolding hook_error
    hook_error-Printed p h = elim (Bool-cases (is_seen p.hook_err_seen at)) [
      | inr e ↦ rw e (record {
        counted = ap (λ (n : ℕ). n + 1) h.counted;
        seen = λ site.
            is_seen-append p.hook_err_seen at site ∙ ap (λ b. b || same_site at site) (h.seen site);
        printed = λ site.
            count_first-degraded site at p.lines
            ∙ ap (λ (n : ℕ). n + (if same_site at site then 1 else 0)) (h.printed site)
            ∙ once at failed (sym (h.seen at) ∙ e) site;
      })
      | inl e ↦
          let again = absorb at failed (sym (h.seen at) ∙ e) in
          elim (Bool-cases (is_set p.serve.environ "SCHED_DEBUG")) [
            | inl debug ↦
                rw (e, debug)
                  (record {
                    counted = ap (λ (n : ℕ). n + 1) h.counted;
                    seen = λ site. h.seen site ∙ sym (again site);
                    printed = λ site.
                        count_first-repeated site at p.lines
                        ∙ h.printed site
                        ∙ ap (λ b. if b then 1 else 0) (sym (again site));
                  })
            | inr quiet ↦
                rw (e, quiet)
                  (record {
                    counted = ap (λ (n : ℕ). n + 1) h.counted;
                    seen = λ site. h.seen site ∙ sym (again site);
                    printed =
                        λ site. h.printed site ∙ ap (λ b. if b then 1 else 0) (sym (again site));
                  })
          ]
    ]

  errors-Printed :
      (sites : List Site) (p : Process f) (count : ℕ) (failed : Site → Bool)
      → Printed count failed p
      → Printed (count + length sites) (λ site. failed site || is_seen sites site) (errors sites p)
  unfolding errors is_seen
  errors-Printed [] p count failed h = record {
    counted = h.counted ∙ sym (add_zero count);
    seen = λ site. h.seen site ∙ sym (or_false (failed site));
    printed = λ site. h.printed site ∙ ap (λ b. if b then 1 else 0) (sym (or_false (failed site)));
  }
  errors-Printed (at ∷ sites) p count failed h =
      let later =
        errors-Printed sites (hook_error at p) (count + 1) (with_site at failed)
          (hook_error-Printed at count failed p h) in
      let same = λ (site : Site). or_assoc (failed site) (same_site at site) (is_seen sites site) in
      record {
        counted = later.counted ∙ omega arith;
        seen = λ site. later.seen site ∙ same site;
        printed = λ site. later.printed site ∙ ap (λ b. if b then 1 else 0) (same site);
      }

  -- After errors at any sites the process, which started with none, has counted each of them, and
  -- has printed the first error of exactly the sites that failed, once each, with and without
  -- SCHED_DEBUG.
  pub errors-count_first :
      (sites : List Site) (p : Process f) (site : Site)
      → p.hook_errors ≡ 0
      → p.hook_err_seen ≡ []
      → p.lines ≡ []
      → ((errors sites p).hook_errors ≡ length sites)
        × (count_first site (errors sites p).lines ≡ (if is_seen sites site then 1 else 0))
  unfolding is_seen count_first
  errors-count_first sites p site no_errors no_sites no_lines =
      let h =
        errors-Printed sites p 0 (λ _. false)
          (record {
            counted = no_errors;
            seen = λ other. ap (λ l. is_seen l other) no_sites;
            printed = λ other. ap (count_first other) no_lines;
          }) in
      (h.counted ∙ omega arith, h.printed site)
