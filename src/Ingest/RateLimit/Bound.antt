-- ===== src/Ingest/RateLimit/Bound.antt =====
-- How much traffic the limiter lets through, and whom it counts.
use agent_wake.Prelude.{
  ℕ, ◌+◌, ◌-◌, ◌*◌, ◌≤◌, min, String, ◌≡◌, ◌≢◌, refl, ap, Bool, true, false, Option, none, some,
  List, [], ◌∷◌, ◌==◌, arith, eq_iff, eq_refl, if◌then◌else◌, leb, Bool-cases, inl, inr, leb→le,
}
use native.Mathlib.Nat.{le_refl, add-zero, zero-add, add_assoc}
use agent_wake.Ingest.RateLimit.{
  Bucket, SourceRateLimiter, bucket, current, refilled, allow, bucket-set_bucket,
}

-- A call leaves the bucket of every other identifier, and the settings, as they were.
pub bucket-allow_ne :
    (now : ℕ) (k j : String) (l : SourceRateLimiter)
    → k ≢ j
    → bucket j (allow now k l).0.buckets ≡ bucket j l.buckets
unfolding allow
bucket-allow_ne now k j l h = ground (
  arith,
  eq_iff k j,
  bucket-set_bucket k j
      (record {
        tokens = refilled now (current now (bucket k l.buckets) l) l - l.one;
        updated_at = now;
      })
      l.buckets,
  bucket-set_bucket k j
      (record { tokens = refilled now (current now (bucket k l.buckets) l) l; updated_at = now })
      l.buckets,
)

-- A request: the reading of the clock, and the identifier that is charged.
pub record Request : Type 0 where
  pub now : ℕ
  pub identifier : String

-- the limiter after the requests, and how many of one identifier it allowed
unfoldable pub serve : String → SourceRateLimiter → List Request → SourceRateLimiter × ℕ
serve k l [] = (l, 0)
serve k l (r ∷ rs) =
    let (l', ok, _) = allow r.now r.identifier l in
    let (l'', n) = serve k l' rs in
    (l'', (if ok then (if r.identifier == k then 1 else 0) else 0) + n)

-- the clock does not run backwards
abbrev pub IsOrdered : ℕ → List Request → Type 0
IsOrdered t [] = Unit
IsOrdered t (r ∷ rs) = (t ≤ r.now) × IsOrdered r.now rs

unfoldable pub last : ℕ → List Request → ℕ
last t [] = t
last t (r ∷ rs) = last r.now rs

zero_if : (b : Bool) → (if◌then◌else◌ {A = ℕ} b 0 0) ≡ 0
zero_if true = refl
zero_if false = refl

last-le : (t : ℕ) (rs : List Request) → IsOrdered t rs → t ≤ last t rs
unfolding last
last-le t [] o = le_refl t
last-le t (r ∷ rs) o = omega (arith, last-le r.now rs o.1)

-- the settings, which no call changes
record HasSettings (one rate burst : ℕ) (l : SourceRateLimiter) : Type 0 where
  one_eq : l.one ≡ one
  rate_eq : l.rate ≡ rate
  burst_eq : l.burst ≡ burst

module _ (one rate burst start : ℕ) where
  -- What `n` admissions since `start` leave: no more than the burst and the refill until `now`.
  abbrev Pays : ℕ → Option Bucket → ℕ → Type 0
  Pays now none n = n ≡ 0
  Pays now (some b) n =
      (b.updated_at ≤ now) × (n * one + b.tokens + start * rate ≤ burst * one + b.updated_at * rate)

  charge :
      (upd d n tok : ℕ)
      → n * one + tok + start * rate ≤ burst * one + upd * rate
      → one ≤ min (burst * one) (tok + d * rate)
      → (n + 1) * one + (min (burst * one) (tok + d * rate) - one) + start * rate
        ≤ burst * one + (upd + d) * rate
  charge upd d n tok h h' = omega arith

  keep_waiting :
      (upd d n tok : ℕ)
      → n * one + tok + start * rate ≤ burst * one + upd * rate
      → n * one + min (burst * one) (tok + d * rate) + start * rate ≤ burst * one + (upd + d) * rate
  keep_waiting upd d n tok h = omega arith

  Pays-later : (t now : ℕ) (b : Option Bucket) (n : ℕ) → t ≤ now → Pays t b n → Pays now b n
  Pays-later t now none n h p = p
  Pays-later t now (some b) n h p = (omega arith, p.1)

  -- a bucket that is new at `now` owes nothing
  Pays-current :
      (t now : ℕ) (l : SourceRateLimiter) (o : Option Bucket) (n : ℕ)
      → HasSettings one rate burst l
      → start ≤ now
      → t ≤ now
      → Pays t o n
      → Pays now (some (current now o l)) n
  unfolding current
  Pays-current t now l none n s h h' p = (omega arith, rw (p, s.burst_eq, s.one_eq) (grind arith))
  Pays-current t now l (some b) n s h h' p = (omega arith, p.1)

  allow-HasSettings :
      (now : ℕ) (j : String) (l : SourceRateLimiter)
      → HasSettings one rate burst l
      → HasSettings one rate burst (allow now j l).0
  unfolding allow
  allow-HasSettings now j l s = ground arith

  allow-Pays :
      (k : String) (now t n : ℕ) (l : SourceRateLimiter)
      → HasSettings one rate burst l
      → start ≤ now
      → t ≤ now
      → Pays t (bucket k l.buckets) n
      → Pays now (bucket k (allow now k l).0.buckets) (n + (if (allow now k l).1 then 1 else 0))
  unfolding allow
  allow-Pays k now t n l s h h' p =
      let c = current now (bucket k l.buckets) l in
      let q = Pays-current t now l (bucket k l.buckets) n s h h' p in
      let d = now - c.updated_at in
      let e : c.updated_at + d ≡ now = omega arith in
      let full : refilled now c l ≡ min (burst * one) (c.tokens + d * rate) =
        unfold refilled in rw (s.burst_eq, s.one_eq, s.rate_eq) in
      elim (Bool-cases (leb l.one (refilled now c l))) [
        | inl ok ↦
            let paid : (n + 1) * one + (refilled now c l - l.one) + start * rate
                ≤ burst * one + now * rate =
              let room : one ≤ min (burst * one) (c.tokens + d * rate) =
                omega (arith, full, leb→le l.one (refilled now c l) ok, s.one_eq) in
              omega (
                arith,
                full,
                s.one_eq,
                charge c.updated_at d n c.tokens q.1 room,
                ap (λ (x : ℕ). x * rate) e,
              ) in
            rw (ok, allow) (rw (bucket-set_bucket, eq_refl) (le_refl now, paid))
        | inr no_room ↦
            let kept : (n + 0) * one + refilled now c l + start * rate ≤ burst * one + now * rate =
              omega (
                arith,
                full,
                keep_waiting c.updated_at d n c.tokens q.1,
                ap (λ (x : ℕ). x * rate) e,
              ) in
            rw (no_room, allow) (rw (bucket-set_bucket, eq_refl) (le_refl now, kept))
      ]

  -- one more request, of whatever identifier
  request-Pays :
      (k : String) (r : Request) (t n : ℕ) (l : SourceRateLimiter)
      → HasSettings one rate burst l
      → start ≤ r.now
      → t ≤ r.now
      → Pays t (bucket k l.buckets) n
      → Pays r.now
          (bucket k (allow r.now r.identifier l).0.buckets)
          (n + (if (allow r.now r.identifier l).1 then (if r.identifier == k then 1 else 0) else 0))
  request-Pays k r t n l s h h' p = elim (Bool-cases (r.identifier == k)) [
    | inl same ↦
        rw ((eq_iff r.identifier k).0 same) (rw eq_refl (allow-Pays k r.now t n l s h h' p))
    | inr other ↦
        rw
          (
            other,
            zero_if,
            add-zero,
            bucket-allow_ne r.now r.identifier k l (ground (arith, eq_iff r.identifier k)),
          )
          (Pays-later t r.now (bucket k l.buckets) n h' p)
  ]

  serve-Pays :
      (k : String) (rs : List Request) (t n : ℕ) (l : SourceRateLimiter)
      → HasSettings one rate burst l
      → start ≤ t
      → IsOrdered t rs
      → Pays t (bucket k l.buckets) n
      → Pays (last t rs) (bucket k (serve k l rs).0.buckets) (n + (serve k l rs).1)
  unfolding serve last
  serve-Pays k [] t n l s h o p = rw add-zero p
  serve-Pays k (r ∷ rs) t n l s h o p =
      let (l', ok, w) = allow r.now r.identifier l in
      let c : ℕ = if ok then (if r.identifier == k then 1 else 0) else 0 in
      rw (← add_assoc n c (serve k l' rs).1) (
        serve-Pays k rs r.now (n + c) l' (allow-HasSettings r.now r.identifier l s) (omega arith)
          o.1 (request-Pays k r t n l s (omega arith) o.0 p))

  Pays-total :
      (now n : ℕ) (o : Option Bucket)
      → start ≤ now
      → Pays now o n
      → n * one + start * rate ≤ burst * one + now * rate
  Pays-total now n none h p = rw p (grind arith)
  Pays-total now n (some b) h p =
      let more : b.updated_at * rate ≤ now * rate = grind (arith, p.0) in omega (arith, p.1, more)

-- Whatever other traffic the limiter sees, from a time at which an identifier has no bucket the
-- number of its requests that are allowed, in units, is at most the burst and what the rate gives in
-- the time until the last request: n * one <= burst * one + rate * (last - start). The readings of
-- the clock do not decrease.
pub serve_bound :
    (k : String) (rs : List Request) (start : ℕ) (l : SourceRateLimiter)
    → IsOrdered start rs
    → bucket k l.buckets ≡ none
    → (serve k l rs).1 * l.one + start * l.rate ≤ l.burst * l.one + last start rs * l.rate
serve_bound k rs start l o new =
    Pays-total l.one l.rate l.burst start (last start rs) (serve k l rs).1
      (bucket k (serve k l rs).0.buckets) (last-le start rs o)
      (rw zero-add at (
        serve-Pays l.one l.rate l.burst start k rs start 0 l
          (record { one_eq = refl; rate_eq = refl; burst_eq = refl }) (le_refl start) o
          (rw new refl)))
