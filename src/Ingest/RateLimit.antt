-- ===== src/Ingest/RateLimit.antt =====
-- `SourceRateLimiter` of ingest.py. Tokens are counted in units, `one` to a token, and `rate` is the
-- units per tick of the clock, so that the float arithmetic of the source is whole.
pub mod Bound
use agent_wake.Prelude.{
  ℕ, ◌+◌, ◌-◌, ◌*◌, min, String, ◌≡◌, refl, Bool, true, false, Option, none, some, List, [], ◌∷◌,
  ◌==◌, arith, eq_iff, if◌then◌else◌, leb,
}

pub record Bucket : Type 0 where
  pub tokens : ℕ
  pub updated_at : ℕ

pub record SourceRateLimiter : Type 0 where
  pub one : ℕ
  pub rate : ℕ
  pub burst : ℕ
  pub buckets : List (String × Bucket)

-- `self._buckets.get(identifier, …)`
unfoldable pub bucket : String → List (String × Bucket) → Option Bucket
bucket k [] = none
bucket k ((j, b) ∷ bs) = if j == k then some b else bucket k bs

unfoldable pub set_bucket : String → Bucket → List (String × Bucket) → List (String × Bucket)
set_bucket k b [] = (k, b) ∷ []
set_bucket k b ((j, c) ∷ bs) = if j == k then (k, b) ∷ bs else (j, c) ∷ set_bucket k b bs

-- a new bucket is full
unfoldable pub current : ℕ → Option Bucket → SourceRateLimiter → Bucket
current now none l = record { tokens = l.burst * l.one; updated_at = now }
current now (some b) l = b

-- `max(0.0, now - updated_at)` is the truncated difference
unfoldable pub refilled : ℕ → Bucket → SourceRateLimiter → ℕ
refilled now b l = min (l.burst * l.one) (b.tokens + (now - b.updated_at) * l.rate)

-- Whether the request is allowed, and the units that it lacks: the source returns those divided by
-- the rate as the time to wait.
unfoldable pub allow : ℕ → String → SourceRateLimiter → SourceRateLimiter × Bool × ℕ
unfolding bucket set_bucket current refilled
allow now identifier l =
    let tokens = refilled now (current now (bucket identifier l.buckets) l) l in
    if leb l.one tokens
    then (
      record l {
        buckets =
            set_bucket identifier (record { tokens = tokens - l.one; updated_at = now }) l.buckets;
      },
      true,
      0,
    )
    else (
      record l {
        buckets = set_bucket identifier (record { tokens = tokens; updated_at = now }) l.buckets;
      },
      false,
      l.one - tokens,
    )

pub bucket-set_bucket :
    (k j : String) (b : Bucket) (bs : List (String × Bucket))
    → bucket j (set_bucket k b bs) ≡ (if k == j then some b else bucket j bs)
unfolding bucket set_bucket
bucket-set_bucket k j b [] = refl
bucket-set_bucket k j b ((i, c) ∷ bs) =
    ground (arith, eq_iff i k, eq_iff i j, eq_iff k j, bucket-set_bucket k j b bs)
