-- ===== src/Autostart/Principal.antt =====
-- The account that src/autostart.rs runs the task as. The token and account calls are parameters; a
-- handle and a SID are numbers.
use wardoff.Prelude.{
  ℕ, ◌==◌, Bool, String, is_empty, Result, ok, err, and_then, on_error, format, [], ◌∷◌,
  if◌then◌else◌,
}

-- Errors of `LookupAccountSidW`, as far as they are told apart, with their text.
pub data LookupError : Type 0 where
  none_mapped insufficient_buffer other : String → LookupError

-- `token_information_length` is the length the first call asks for, or the error it leaves; the
-- lookup gives the name and the domain. `is_blank` is `trim().is_empty()`.
pub record Accounts (W : Type 0) : Type 0 where
  pub open_process_token : W → Result ℕ String × W
  pub token_information_length : ℕ → W → ℕ × W
  pub last_error : W → String
  pub token_user : ℕ → W → Result ℕ String × W
  pub is_invalid_sid : ℕ → Bool
  pub probe_account : ℕ → W → Result (Unit {0}) LookupError × W
  pub lookup_account : ℕ → W → Result (String × String) String × W
  pub convert_sid_to_string : ℕ → W → Result String String × W
  pub is_blank : String → Bool

abbrev failed : String → String → String
failed context error =
    format ("Wardoff could not " ∷ context ∷ " before updating \\Wardoff: " ∷ error ∷ [])

abbrev principal_context : String
principal_context = "resolve the current task principal"

module _ {W : Type 0} (accounts : Accounts W) where
  unfoldable pub check_sid_string : String → String → Result String String
  check_sid_string context sid =
      if is_empty sid
      then err (failed context "the process token resolved to an empty SID string.")
      else ok sid

  unfoldable pub sid_to_string : ℕ → String → W → Result String String × W
  unfolding check_sid_string
  sid_to_string sid context w =
      and_then (on_error (failed context) (accounts.convert_sid_to_string sid w))
        λ text w'. (check_sid_string context text, w')

  unfoldable pub account_name : ℕ → String → String × String → W → Result String String × W
  unfolding sid_to_string
  account_name sid context (username, domain) w =
      let unnamed = sid_to_string sid context w in
      if accounts.is_blank username
      then unnamed
      else if accounts.is_blank domain
      then (ok username, w)
      else (ok (format (domain ∷ "\\" ∷ username ∷ [])), w)

  unfoldable pub lookup_name : ℕ → String → W → Result String String × W
  unfolding account_name
  lookup_name sid context w =
      and_then (on_error (failed context) (accounts.lookup_account sid w))
        λ names w'. account_name sid context names w'

  unfoldable pub after_probe :
      ℕ → String → Result (Unit {0}) LookupError × W → Result String String × W
  unfolding lookup_name sid_to_string
  after_probe sid context (ok _, w) = lookup_name sid context w
  after_probe sid context (err (none_mapped error), w) = sid_to_string sid context w
  after_probe sid context (err (insufficient_buffer error), w) = lookup_name sid context w
  after_probe sid context (err (other error), w) = (err (failed context error), w)

  unfoldable pub lookup_account_name_for_sid : ℕ → String → W → Result String String × W
  unfolding after_probe
  lookup_account_name_for_sid sid context w = after_probe sid context (accounts.probe_account sid w)

  unfoldable pub name_of_user : String → ℕ → W → Result String String × W
  unfolding lookup_account_name_for_sid
  name_of_user context sid w =
      let named = lookup_account_name_for_sid sid context w in
      if accounts.is_invalid_sid sid
      then (err (failed context "the process token had no user SID."), w)
      else named

  unfoldable pub current_token_user_id : ℕ → String → W → Result String String × W
  unfolding name_of_user
  current_token_user_id token context w =
      let (required_length, w₁) = accounts.token_information_length token w in
      let named =
        and_then (on_error (failed context) (accounts.token_user token w₁))
          λ sid w₂. name_of_user context sid w₂ in
      if required_length == 0 then (err (failed context (accounts.last_error w₁)), w₁) else named

  unfoldable pub current_user_id : W → Result String String × W
  unfolding current_token_user_id
  current_user_id w =
      and_then (on_error (failed principal_context) (accounts.open_process_token w))
        λ token w'. current_token_user_id token principal_context w'
