-- ===== src/Update/Flow/Downloads/Checksum.antt =====
-- verifyPluginChecksum: a file passes only with the hash that is expected.
use minecraft_operator.Effects.{
  fail, Script, and_then, reading, try_result, attempted, exec_in_pod, Action, Failure, Log,
  attempt, Outside, ◌>>=◌,
}
use minecraft_operator.Prelude.{
  Bool-cases, ◌&&◌, ◌∷◌, Result, inl, inr, ok, err, [], arith, ◌≡◌, Bool, true, false, refl, ◌↔◌,
}
use minecraft_operator.Update.Flow.Downloads.{to_lower, hash_of, verify_plugin_checksum}
use minecraft_operator.Prelude.Bytes.{◌==◌, eq_iff, bytes, Bytes}

abbrev pub sha256sum : Bytes → Action
sha256sum path = exec_in_pod (bytes "sha256sum" ∷ path ∷ [])

abbrev pub is_ok : {X : Type 0} → Result Failure X → Bool
is_ok (ok x) = true
is_ok (err e) = false

mismatch_fails :
    {X : Type 0} (m : Script X) (e : Failure) (log : Log)
    → is_ok ((attempted m >>= λ _. fail {X = Unit {0}} e) log).0 ≡ false
unfolding attempted try_result ◌>>=◌ and_then
mismatch_fails {X = X} m e log = go (m log)
  where
    go :
        (r : Result Failure X × Log)
        → is_ok (and_then (λ _. fail {X = Unit {0}} e) (try_result r)).0 ≡ false
    go (ok x, after) = refl
    go (err f, after) = refl

verify_lem :
    (o : Outside) (path expected : Bytes) (log : Log)
    → is_ok (verify_plugin_checksum o path expected log).0
      ≡ o.answers log (sha256sum path)
        && hash_of (o.output (sha256sum path ∷ log)) == to_lower expected
unfolding verify_plugin_checksum attempt reading ◌>>=◌ and_then
verify_lem o path expected log = elim (Bool-cases (o.answers log (sha256sum path))) [
  | inl e ↦
      rw e (elim (Bool-cases (hash_of (o.output (sha256sum path ∷ log)) == to_lower expected)) [
        | inl same ↦ rw same
        | inr other ↦ rw other (mismatch_fails _ _ _)
      ])
  | inr e ↦ rw e
]

-- The checksum of a downloaded file is accepted exactly if sha256sum ran and what it printed, trimmed, in
-- lower case and cut at the first space, is the expected hash in lower case.
pub verify_plugin_checksum_iff :
    (o : Outside) (path expected : Bytes) (log : Log)
    → (is_ok (verify_plugin_checksum o path expected log).0 ≡ true) ↔ (
        (o.answers log (sha256sum path) ≡ true)
        × (hash_of (o.output (sha256sum path ∷ log)) ≡ to_lower expected))
verify_plugin_checksum_iff o path expected log =
    rw (verify_lem o path expected log)
      (ground (arith, eq_iff (hash_of (o.output (sha256sum path ∷ log))) (to_lower expected)))
