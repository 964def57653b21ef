-- ===== src/Entclient/Retry.antt =====
-- pkg/entclient/client.go, `withCANRetry`: an update that is lost to a continue-as-new is sent again.
pub mod Bounded
use temporal_entity.Base.{
  ℕ, zero, suc, ◌+◌, ◌*◌, Bool, true, false, ◌||◌, ◌&&◌, none, some, [], ◌∷◌, ◌≡◌, refl, Str, codes,
  byte_eq, ◌==◌, Error, Result, ok, err, Check, if◌then◌else◌, if_keeps,
}
use temporal_entity.Entity.Command.{Payload}

-- `strings.Contains`
has_prefix : Str → Str → Bool
has_prefix [] s = true
has_prefix (c ∷ p) [] = false
has_prefix (c ∷ p) (x ∷ s) = byte_eq c x && has_prefix p s

contains_text : Str → Str → Bool
unfolding has_prefix
contains_text p [] = has_prefix p []
contains_text p (x ∷ s) = has_prefix p (x ∷ s) || contains_text p s

-- `isCANRace`
unfoldable pub is_can_race : Error → Bool
unfolding contains_text ◌==◌
is_can_race e =
    (elim e.app_type [ none ↦ false | some t ↦ t == codes "AcceptedUpdateCompletedWorkflow" ])
    || contains_text (codes "Workflow completed before the Update completed") e.message

module _ {W A : Type 0} (pause : ℕ → W → W × Check) (call : W → W × Result A) where
  -- The loop of `withCANRetry`: `left` more rounds, the number of the next one, and `err` so far.
  unfoldable pub retry : ℕ → ℕ → Result A → W → W × Result A
  unfolding is_can_race
  retry zero attempt last w = (w, last)
  retry (suc left) attempt last w =
      let (v, r) = call w in
      elim r [
        | ok a ↦ (v, ok a)
        | err e ↦
            let (u, done) = pause ((attempt + 1) * 200) v in
            let again = retry left (attempt + 1) (err e) u in
            if is_can_race e then elim done [ some c ↦ (u, err c) | none ↦ again ] else (v, err e)
      ]

abbrev pub max_attempts : ℕ
max_attempts = 5

-- `withCANRetry`, on calls that give the raw result
unfoldable pub with_can_retry :
    {W : Type 0} → (ℕ → W → W × Check) → (W → W × Result Payload) → W → W × Result Payload
unfolding retry
with_can_retry pause call w = retry pause call max_attempts 0 (ok []) w
