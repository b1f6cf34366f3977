-- ===== src/Instance.antt =====
-- The single primary instance, src/instance.rs: a named mutex that the first process of a session
-- creates. A handle is a number; times are in milliseconds.
pub mod Handles
use wardoff.Prelude.{
  ℕ, zero, suc, ◌+◌, ◌==◌, Bool, true, false, ◌||◌, Option, none, some, String, Result, ok, err,
  List, [], ◌∷◌, format, if◌then◌else◌,
}
use wardoff.Blocker.Windows.{WinError, WinResult, e_accessdenied, error_access_denied}

-- The Win32 calls on mutexes, `current_mutex_name` of src/session_scope.rs, and the sleep.
pub record Mutexes (W : Type 0) : Type 0 where
  pub current_mutex_name : W → Result String String × W
  pub create_mutex : String → W → WinResult ℕ × W
  pub already_exists : W → Bool
  pub open_mutex : String → W → WinResult ℕ × W
  pub close_handle : ℕ → W → W
  pub sleep : ℕ → W → W

-- A primary instance keeps the handle of its mutex.
pub data InstanceClaim : Type 0 where
  primary : ℕ → InstanceClaim
  secondary : InstanceClaim

abbrev pub is_primary : InstanceClaim → Bool
is_primary (primary handle) = true
is_primary secondary = false

unfoldable pub is_access_denied_error : WinError → Bool
is_access_denied_error error = elim error.code [
  | e_accessdenied ↦ true
  | error_access_denied ↦ true
  | _ ↦ false
]

restricted_error : String → WinError → WinError → String
restricted_error mutex_name create_error open_error = format (
    "Wardoff could not create or open its single-instance mutex (" ∷ mutex_name
    ∷ "). The environment or an existing owner may be restricting access. CreateMutexExW: "
    ∷ create_error.text ∷ "; OpenMutexW probe: " ∷ open_error.text ∷ [])

create_failure : String → WinError → String
create_failure mutex_name error = format (
    "Wardoff could not create or open its single-instance mutex (" ∷ mutex_name ∷ "): " ∷ error.text
    ∷ [])

module _ {W : Type 0} (mutexes : Mutexes W) where
  -- The probe after an access that was denied: an existing mutex that opens has another owner.
  unfoldable pub probe : String → WinError → W → Result InstanceClaim String × W
  unfolding restricted_error
  probe mutex_name create_error w =
      let (r, w') = mutexes.open_mutex mutex_name w in
      elim r [
        | ok handle ↦ (ok secondary, mutexes.close_handle handle w')
        | err open_error ↦ (err (restricted_error mutex_name create_error open_error), w')
      ]

  unfoldable pub claim_named : String → W → Result InstanceClaim String × W
  unfolding create_failure
  claim_named mutex_name w =
      let (r, w') = mutexes.create_mutex mutex_name w in
      elim r [
        | ok handle ↦
            if mutexes.already_exists w'
            then (ok secondary, mutexes.close_handle handle w')
            else (ok (primary handle), w')
        | err error ↦
            if is_access_denied_error error
            then probe mutex_name error w'
            else (err (create_failure mutex_name error), w')
      ]

  unfoldable pub claim_primary_instance : W → Result InstanceClaim String × W
  claim_primary_instance w =
      let (r, w') = mutexes.current_mutex_name w in
      elim r [ ok name ↦ claim_named name w' | err error ↦ (err error, w') ]

  unfoldable pub settle_attempt :
      ℕ
      → Result InstanceClaim String × W
      → Option (Result InstanceClaim String) × W
      → Option (Result InstanceClaim String) × W
  settle_attempt left (err error, w) later = (some (err error), w)
  settle_attempt left (ok claim, w) later =
      if is_primary claim || (left == 0) then (some (ok claim), w) else later

  -- By the number of attempts left; `none` is the `unreachable!` after the loop.
  unfoldable pub claim_attempts : ℕ → ℕ → W → Option (Result InstanceClaim String) × W
  unfolding settle_attempt
  claim_attempts zero delay w = (none, w)
  claim_attempts (suc left) delay w =
      let (r, w') = claim_primary_instance w in
      let later = claim_attempts left delay (mutexes.sleep delay w') in
      settle_attempt left (r, w') later

  -- `attempts.max(1)` attempts.
  unfoldable pub claim_primary_instance_with_retry :
      ℕ → ℕ → W → Option (Result InstanceClaim String) × W
  claim_primary_instance_with_retry zero delay w = claim_attempts 1 delay w
  claim_primary_instance_with_retry (suc n) delay w = claim_attempts (suc n) delay w
