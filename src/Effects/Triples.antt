-- ===== src/Effects/Triples.antt =====
-- Scripts with a condition on the log before, and one each on the log after a success and a failure.
use minecraft_operator.Effects.{◌>>=◌}
use minecraft_operator.Prelude.{◌≡◌, true, false, Bool-cases, ◌∷◌, inl, inr, Result, ok, err}
use minecraft_operator.Effects.{
  Action, Outside, and_then, closing, handle, try_result, wrap_error, Failure, Script, attempt,
  attempted, deferring, on_error, wrapped, Log,
}

abbrev pub Post :
    {X : Type 0} → (X → Log → Type 0) → (Log → Type 0) → Result Failure X × Log → Type 0
Post Q R (ok x, log) = Q x log
Post Q R (err e, log) = R log

abbrev pub Triple :
    {X : Type 0} → (Log → Type 0) → Script X → (X → Log → Type 0) → (Log → Type 0) → Type 0
Triple P m Q R = (log : Log) → P log → Post Q R (m log)

-- One call, with what the outside answers.
pub attempt_answered-Triple :
    (P : Log → Type 0) (o : Outside) (a : Action) (e : Failure) (Q R : Log → Type 0)
    → ((log : Log) → P log → o.answers log a ≡ true → Q (a ∷ log))
    → ((log : Log) → P log → o.answers log a ≡ false → R (a ∷ log))
    → Triple P (attempt o a e) (λ _. Q) R
unfolding attempt
attempt_answered-Triple P o a e Q R won lost log p = elim (Bool-cases (o.answers log a)) [
  | inl h ↦ rw h (won log p h)
  | inr h ↦ rw h (lost log p h)
]

pub attempt-Triple :
    (P : Log → Type 0) (o : Outside) (a : Action) (e : Failure) (Q R : Log → Type 0)
    → ((log : Log) → P log → Q (a ∷ log))
    → ((log : Log) → P log → R (a ∷ log))
    → Triple P (attempt o a e) (λ _. Q) R
attempt-Triple P o a e Q R won lost =
    attempt_answered-Triple P o a e Q R (λ log p _. won log p) (λ log p _. lost log p)

module _ {X : Type 0} (P : Log → Type 0) where
  pub seq-Triple :
      {Y : Type 0} (m : Script X) (k : X → Script Y) (Q : X → Log → Type 0) (Q2 : Y → Log → Type 0)
      (R : Log → Type 0)
      → Triple P m Q R
      → ((x : X) → Triple (Q x) (k x) Q2 R)
      → Triple P (m >>= k) Q2 R
  unfolding ◌>>=◌ and_then
  seq-Triple m k Q Q2 R first next log p = go (m log) (first log p)
    where
      go : (r : Result Failure X × Log) → Post Q R r → Post Q2 R (and_then k r)
      go (ok x, after) q = next x after q
      go (err e, after) q = q

  pub wrapped-Triple :
      (f : Failure → Failure) (m : Script X) (Q : X → Log → Type 0) (R : Log → Type 0)
      → Triple P m Q R
      → Triple P (wrapped f m) Q R
  unfolding wrapped wrap_error
  wrapped-Triple f m Q R h log p = go (m log) (h log p)
    where
      go : (r : Result Failure X × Log) → Post Q R r → Post Q R (wrap_error f r)
      go (ok x, after) q = q
      go (err e, after) q = q

  pub attempted-Triple :
      (m : Script X) (Q R : Log → Type 0)
      → Triple P m (λ _. Q) Q
      → Triple P (attempted m) (λ _. Q) R
  unfolding attempted try_result
  attempted-Triple m Q R h log p = go (m log) (h log p)
    where
      go : (r : Result Failure X × Log) → Post (λ _. Q) Q r → Post (λ _. Q) R (try_result r)
      go (ok x, after) q = q
      go (err e, after) q = q

  -- A failure of which less is kept.
  pub failing-Triple :
      (m : Script X) (Q : X → Log → Type 0) (R S : Log → Type 0)
      → Triple P m Q R
      → ((log : Log) → R log → S log)
      → Triple P m Q S
  failing-Triple m Q R S h less log p = go (m log) (h log p)
    where
      go : (r : Result Failure X × Log) → Post Q R r → Post Q S r
      go (ok x, after) q = q
      go (err e, after) q = less after q

  -- The log of a script that ends alike in both ways.
  pub after-Triple :
      (m : Script X) (Q : Log → Type 0) → Triple P m (λ _. Q) Q → (log : Log) → P log → Q (m log).1
  after-Triple m Q h log p = go (m log) (h log p)
    where
      go : (r : Result Failure X × Log) → Post (λ _. Q) Q r → Q r.1
      go (ok x, after) q = q
      go (err e, after) q = q

module _ {X Y : Type 0} (P : Log → Type 0) where
  pub on_error-Triple :
      (m : Script X) (h : Script Y) (Q : X → Log → Type 0) (S R : Log → Type 0)
      → Triple P m Q S
      → Triple S h (λ _. R) R
      → Triple P (on_error m h) Q R
  unfolding on_error handle
  on_error-Triple m h Q S R first next log p = go (m log) (first log p)
    where
      go : (r : Result Failure X × Log) → Post Q S r → Post Q R (handle h r)
      go (ok x, after) q = q
      go (err e, after) q = after-Triple S h R next after q

  pub deferring-Triple :
      (m : Script X) (c : Script Y) (Q R Q2 R2 : Log → Type 0)
      → Triple P m (λ _. Q) R
      → Triple Q c (λ _. Q2) Q2
      → Triple R c (λ _. R2) R2
      → Triple P (deferring m c) (λ _. Q2) R2
  unfolding deferring closing
  deferring-Triple m c Q R Q2 R2 first won lost log p = go (m log) (first log p)
    where
      go : (r : Result Failure X × Log) → Post (λ _. Q) R r → Post (λ _. Q2) R2 (closing c r)
      go (ok x, after) q = after-Triple Q c Q2 won after q
      go (err e, after) q = after-Triple R c R2 lost after q
