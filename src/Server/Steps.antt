-- ===== src/Server/Steps.antt =====
-- Steps on the status with a condition before, and one each behind a success and a failure.
use minecraft_operator.Server.{ResolveError, Resolving, step_on, answered, ◌>>=◌}
use minecraft_operator.Prelude.{refl, Result, ok, err, ◌≡◌}
use minecraft_operator.Api.{PaperMcServerStatus}

abbrev pub Post :
    {X : Type 0}
    → (X → PaperMcServerStatus → Type 0)
    → (PaperMcServerStatus → Type 0)
    → Result ResolveError X × PaperMcServerStatus
    → Type 0
Post Q R (ok x, status) = Q x status
Post Q R (err e, status) = R status

abbrev pub Triple :
    {X : Type 0}
    → (PaperMcServerStatus → Type 0)
    → Resolving X
    → (X → PaperMcServerStatus → Type 0)
    → (PaperMcServerStatus → Type 0)
    → Type 0
Triple P m Q R = (status : PaperMcServerStatus) → P status → Post Q R (m status)

module _ {X Y : Type 0} (P R : PaperMcServerStatus → Type 0) where
  pub seq-Triple :
      (m : Resolving X) (k : X → Resolving Y) (Q : X → PaperMcServerStatus → Type 0)
      (Q2 : Y → PaperMcServerStatus → Type 0)
      → Triple P m Q R
      → ((x : X) → Triple (Q x) (k x) Q2 R)
      → Triple P (m >>= k) Q2 R
  unfolding ◌>>=◌ step_on
  seq-Triple m k Q Q2 first next status p = go (m status) (first status p)
    where
      go : (r : Result ResolveError X × PaperMcServerStatus) → Post Q R r → Post Q2 R (step_on k r)
      go (ok x, after) q = next x after q
      go (err e, after) q = q

-- An answer leaves the status alone, and is known for what it is.
pub answered-Triple :
    {X : Type 0} (P : PaperMcServerStatus → Type 0) (r : Result ResolveError X)
    → Triple P (answered r) (λ x status. (r ≡ ok x) × P status) P
unfolding answered
answered-Triple P (ok x) status p = (refl, p)
answered-Triple P (err e) status p = p

-- What the resolution leaves alone: the version that runs, and the one desired before.
abbrev pub Unmoved : PaperMcServerStatus → PaperMcServerStatus → Type 0
Unmoved before status =
    (status.current_version ≡ before.current_version)
    × (status.desired_version ≡ before.desired_version)
    × (status.desired_build ≡ before.desired_build)
