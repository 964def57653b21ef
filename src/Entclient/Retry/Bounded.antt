-- ===== src/Entclient/Retry/Bounded.antt =====
-- pkg/entclient/client.go, `withCANRetry`: how often it calls, and how long it pauses.
use mathlib.Core.List.{append_assoc, append-nil}
use temporal_entity.Base.{
  Bool, ℕ, zero, suc, ◌+◌, ◌*◌, ◌≤◌, true, false, none, some, List, [], ◌∷◌, ◌++◌, ◌≡◌, refl, sym,
  ◌∙◌, Error, Result, ok, err, Check, if◌then◌else◌, arith,
}
use temporal_entity.Entity.Command.{Payload}
use temporal_entity.Entclient.Retry.{is_can_race, retry, with_can_retry}

-- A world that keeps count: of the calls, and of the pauses in milliseconds, in order.
pub record Watched (W : Type 0) : Type 0 where
  pub calls : ℕ
  pub pauses : List ℕ
  pub world : W

module _ {W : Type 0} where
  abbrev pub watch : W → Watched W
  watch w = record { calls = 0; pauses = []; world = w }

  abbrev pub watched_pause : (ℕ → W → W × Check) → ℕ → Watched W → Watched W × Check
  watched_pause pause k s =
      let (u, c) = pause k s.world in
      (record { calls = s.calls; pauses = s.pauses ++ k ∷ []; world = u }, c)

  abbrev pub watched_call : {A : Type 0} → (W → W × Result A) → Watched W → Watched W × Result A
  watched_call call s =
      let (v, r) = call s.world in (record { calls = s.calls + 1; pauses = s.pauses; world = v }, r)

-- The pauses of `left` rounds that all race, from a round with this number on.
schedule : ℕ → ℕ → List ℕ
schedule zero attempt = []
schedule (suc left) attempt = (attempt + 1) * 200 ∷ schedule left (attempt + 1)

abbrev one_if_any : ℕ → ℕ
one_if_any zero = 0
one_if_any (suc n) = 1

module _ {W A : Type 0} (pause : ℕ → W → W × Check) (call : W → W × Result A) where
  -- What the count says after rounds from `s` on, and that the rounds are those of the world itself.
  record IsBounded (left attempt : ℕ) (s : Watched W) (o : Watched W × Result A) (p : W × Result A)
      : Type 0 where
    least : s.calls + one_if_any left ≤ o.0.calls
    most : o.0.calls ≤ s.calls + left
    rest : List ℕ
    prefix : o.0.pauses ++ rest ≡ s.pauses ++ schedule left attempt
    same : (o.0.world, o.1) ≡ p

  abbrev again : ℕ → ℕ → Result A → Watched W → Watched W × Result A
  again left attempt last s = retry (watched_pause pause) (watched_call call) left attempt last s

  -- The round after its pause.
  paused :
      (left attempt : ℕ) (s : Watched W) (v : W) (e : Error) (o : W × Check)
      → ((u : W)
          → let t : Watched W = record {
            calls = s.calls + 1;
            pauses = s.pauses ++ (attempt + 1) * 200 ∷ [];
            world = u;
          } in
            IsBounded left
              (attempt + 1)
              t
              (again left (attempt + 1) (err e) t)
              (retry pause call left (attempt + 1) (err e) u))
      → let t : Watched W = record {
        calls = s.calls + 1;
        pauses = s.pauses ++ (attempt + 1) * 200 ∷ [];
        world = o.0;
      } in
        IsBounded
          (suc left)
          attempt
          s
          (elim o.1 [ some c ↦ (t, err c) | none ↦ again left (attempt + 1) (err e) t ])
          (elim o.1 [
            | some c ↦ (o.0, err c)
            | none ↦ retry pause call left (attempt + 1) (err e) o.0
          ])
  unfolding schedule
  paused left attempt s v e (u, some c) next = record {
    least = omega arith;
    most = omega arith;
    rest = schedule left (attempt + 1);
    prefix = append_assoc s.pauses _ _;
    same = refl;
  }
  paused left attempt s v e (u, none) next =
      let b = next u in
      record {
        least = omega (arith, b.least);
        most = omega (arith, b.most);
        rest = b.rest;
        prefix = b.prefix ∙ append_assoc s.pauses _ _;
        same = b.same;
      }

  called :
      (left attempt : ℕ) (s : Watched W) (o : W × Result A)
      → ((e : Error) (t : Watched W)
          → IsBounded left
              (attempt + 1)
              t
              (again left (attempt + 1) (err e) t)
              (retry pause call left (attempt + 1) (err e) t.world))
      → let t : Watched W = record { calls = s.calls + 1; pauses = s.pauses; world = o.0 } in
        IsBounded
          (suc left)
          attempt
          s
          (elim o.1 [
            | ok a ↦ (t, ok a)
            | err e ↦
                let p = watched_pause pause ((attempt + 1) * 200) t in
                if is_can_race e
                then elim p.1 [
                  | some c ↦ (p.0, err c)
                  | none ↦ again left (attempt + 1) (err e) p.0
                ]
                else (t, err e)
          ])
          (elim o.1 [
            | ok a ↦ (o.0, ok a)
            | err e ↦
                let p = pause ((attempt + 1) * 200) o.0 in
                if is_can_race e
                then elim p.1 [
                  | some c ↦ (p.0, err c)
                  | none ↦ retry pause call left (attempt + 1) (err e) p.0
                ]
                else (o.0, err e)
          ])
  unfolding schedule
  called left attempt s (v, ok a) next = record {
    least = omega arith;
    most = omega arith;
    rest = schedule (suc left) attempt;
    prefix = refl;
    same = refl;
  }
  called left attempt s (v, err e) next =
      raced (is_can_race e)
        (paused left attempt s v e (pause ((attempt + 1) * 200) v) (λ u. next e _))
    where
      stopped :
          IsBounded
            (suc left)
            attempt
            s
            (record { calls = s.calls + 1; pauses = s.pauses; world = v }, err e)
            (v, err e)
      stopped = record {
        least = omega arith;
        most = omega arith;
        rest = schedule (suc left) attempt;
        prefix = refl;
        same = refl;
      }

      raced :
          {o : Watched W × Result A} {p : W × Result A} (b : Bool)
          → IsBounded (suc left) attempt s o p
          → IsBounded
              (suc left)
              attempt
              s
              (if b
                then o
                else (record { calls = s.calls + 1; pauses = s.pauses; world = v }, err e))
              (if b then p else (v, err e))
      raced true h = h
      raced false h = stopped

  retry-IsBounded :
      (left attempt : ℕ) (last : Result A) (s : Watched W)
      → IsBounded left attempt s
          (again left attempt last s)
          (retry pause call left attempt last s.world)
  unfolding retry schedule
  retry-IsBounded zero attempt last s = record {
    least = omega arith;
    most = omega arith;
    rest = [];
    prefix = refl;
    same = refl;
  }
  retry-IsBounded (suc left) attempt last s =
      called left attempt s (call s.world) (λ e t. retry-IsBounded left (attempt + 1) (err e) t)

module _ {W : Type 0} (pause : ℕ → W → W × Check) (call : W → W × Result Payload) where
  -- `withCANRetry` calls at least once and at most five times. Its pauses are the first ones of 200,
  -- 400, 600, 800 and 1000 milliseconds, and the count does not change what it does.
  pub with_can_retry-IsBounded :
      (w : W)
      → let (s, r) = with_can_retry (watched_pause pause) (watched_call call) (watch w) in
        (1 ≤ s.calls)
        × (s.calls ≤ 5)
        × (rest : List ℕ) × (s.pauses ++ rest ≡ 200 ∷ 400 ∷ 600 ∷ 800 ∷ 1000 ∷ [])
        × ((s.world, r) ≡ with_can_retry pause call w)
  unfolding with_can_retry schedule
  with_can_retry-IsBounded w =
      let b = retry-IsBounded pause call 5 0 (ok []) (watch w) in
      (b.least, b.most, b.rest, b.prefix, b.same)

  last_error : ℕ → Error → Result Payload → Result Payload
  last_error zero e last = last
  last_error (suc left) e last = err e

  last_error-same : (left : ℕ) (e : Error) → last_error left e (err e) ≡ err e
  unfolding last_error
  last_error-same zero e = refl
  last_error-same (suc left) e = refl

  retry-races :
      (e : Error) (left attempt : ℕ) (last : Result Payload) (s : Watched W)
      → ((w : W) → (call w).1 ≡ err e)
      → is_can_race e ≡ true
      → ((k : ℕ) (w : W) → (pause k w).1 ≡ none)
      → let (t, r) = retry (watched_pause pause) (watched_call call) left attempt last s in
        (t.calls ≡ s.calls + left)
        × (t.pauses ≡ s.pauses ++ schedule left attempt)
        × (r ≡ last_error left e last)
  unfolding retry schedule last_error
  retry-races e zero attempt last s races race lasts =
      (omega arith, sym (append-nil s.pauses), refl)
  retry-races e (suc left) attempt last s races race lasts =
      let v = (call s.world).0 in
      let t : Watched W = record {
        calls = s.calls + 1;
        pauses = s.pauses ++ (attempt + 1) * 200 ∷ [];
        world = (pause ((attempt + 1) * 200) v).0;
      } in
      let (counted, waited, failed) = retry-races e left (attempt + 1) (err e) t races race lasts in
      rw (retry, races s.world, race, lasts ((attempt + 1) * 200) v)
        (
          counted ∙ (omega arith),
          waited ∙ append_assoc s.pauses _ _,
          failed ∙ last_error-same left e,
        )

  -- If every call races with a continue-as-new in the same way and every pause goes through,
  -- `withCANRetry` calls five times, pauses after each call for 200 milliseconds more than before, and
  -- returns the race.
  pub with_can_retry-exhausted :
      (e : Error) (w : W)
      → ((v : W) → (call v).1 ≡ err e)
      → is_can_race e ≡ true
      → ((k : ℕ) (v : W) → (pause k v).1 ≡ none)
      → let (s, r) = with_can_retry (watched_pause pause) (watched_call call) (watch w) in
        (s.calls ≡ 5) × (s.pauses ≡ 200 ∷ 400 ∷ 600 ∷ 800 ∷ 1000 ∷ []) × (r ≡ err e)
  unfolding with_can_retry schedule last_error
  with_can_retry-exhausted e w races race lasts =
      retry-races e 5 0 (ok []) (watch w) races race lasts
