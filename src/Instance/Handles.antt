-- ===== src/Instance/Handles.antt =====
-- The handles that the claim of src/instance.rs keeps open.
use wardoff.Prelude.{
  ℕ, zero, suc, ◌==◌, true, Option, some, is_some, String, Result, ok, err, List, [], ◌∷◌, ◌≡◌,
  refl, arith, ◌⊎◌, inl, inr, if◌then◌else◌,
}
use wardoff.Instance.{
  Mutexes, InstanceClaim, primary, secondary, probe, claim_named, claim_primary_instance,
  settle_attempt, claim_attempts, claim_primary_instance_with_retry,
}

abbrev opened : {A : Type 0} → Result ℕ A → List ℕ → List ℕ
opened (ok handle) before = handle ∷ before
opened (err error) before = before

-- Closing a handle that is not open changes nothing.
abbrev without : ℕ → List ℕ → List ℕ
without handle [] = []
without handle (h ∷ hs) = let rest = without handle hs in if h == handle then hs else h ∷ rest

module _ {W : Type 0} (mutexes : Mutexes W) where
  -- The same system, which also keeps the handles that are open, newest first.
  abbrev pub tracked : Mutexes (W × List ℕ)
  tracked = record {
    current_mutex_name = λ w. let (r, w') = mutexes.current_mutex_name w.0 in (r, (w', w.1));
    create_mutex = λ name w. let (r, w') = mutexes.create_mutex name w.0 in (r, (w', opened r w.1));
    already_exists = λ w. mutexes.already_exists w.0;
    open_mutex = λ name w. let (r, w') = mutexes.open_mutex name w.0 in (r, (w', opened r w.1));
    close_handle = λ handle w. (mutexes.close_handle handle w.0, without handle w.1);
    sleep = λ delay w. (mutexes.sleep delay w.0, w.1);
  }

-- The handles that are open after the outcome, with those that were open before it.
abbrev pub kept : Option (Result InstanceClaim String) → List ℕ → List ℕ
kept (some (ok (primary handle))) before = handle ∷ before
kept _ before = before

module _ {W : Type 0} (mutexes : Mutexes W) where
  claim-keeps :
      (w : W × List ℕ)
      → let (r, w') = claim_primary_instance (tracked mutexes) w in w'.1 ≡ kept (some r) w.1
  unfolding claim_primary_instance claim_named probe
  claim-keeps w = ground arith

  settle_attempt-keeps :
      (left : ℕ) (n : List ℕ) (r : Result InstanceClaim String) (w : W × List ℕ)
      (later : Option (Result InstanceClaim String) × (W × List ℕ))
      → w.1 ≡ kept (some r) n
      → (is_some later.0 ≡ true) ⊎ (left ≡ 0)
      → (later.1.1 ≡ kept later.0 w.1) ⊎ (left ≡ 0)
      → let (outcome, w') = settle_attempt (tracked mutexes) left (r, w) later in
        (is_some outcome ≡ true) × (w'.1 ≡ kept outcome n)
  unfolding settle_attempt
  settle_attempt-keeps left n (err e) w later h s k = ground (arith, h)
  settle_attempt-keeps left n (ok (primary handle)) w later h s k = ground (arith, h)
  settle_attempt-keeps zero n (ok secondary) w later h s k = ground (arith, h)
  settle_attempt-keeps (suc left) n (ok secondary) w later h s k = ground (arith, h, s, k)

  claim_attempts-keeps :
      (left delay : ℕ) (w : W × List ℕ)
      → let (outcome, w') = claim_attempts (tracked mutexes) (suc left) delay w in
        (is_some outcome ≡ true) × (w'.1 ≡ kept outcome w.1)
  unfolding claim_attempts
  claim_attempts-keeps zero delay w =
      let (r, w') = claim_primary_instance (tracked mutexes) w in
      settle_attempt-keeps 0 w.1 r w' _ (claim-keeps w) (inr refl) (inr refl)
  claim_attempts-keeps (suc left) delay w =
      let (r, w') = claim_primary_instance (tracked mutexes) w in
      let slept = (tracked mutexes).sleep delay w' in
      let later = claim_attempts-keeps left delay slept in
      settle_attempt-keeps (suc left) w.1 r w' _ (claim-keeps w) (inl later.0) (inl later.1)

  -- The claim with retries always ends in an answer, for any number of attempts, 0 included; on any
  -- system the handles that are open afterwards are those that were open before, and exactly the handle
  -- of the mutex when the claim is primary.
  pub retry_keeps_only_primary :
      (attempts delay : ℕ) (w : W) (n : List ℕ)
      → let (outcome, w') =
          claim_primary_instance_with_retry (tracked mutexes) attempts delay (w, n) in
        (is_some outcome ≡ true) × (w'.1 ≡ kept outcome n)
  unfolding claim_primary_instance_with_retry
  retry_keeps_only_primary zero delay w n = claim_attempts-keeps 0 delay (w, n)
  retry_keeps_only_primary (suc attempts) delay w n = claim_attempts-keeps attempts delay (w, n)
