-- ===== src/Autostart/Location.antt =====
-- The check of src/autostart.rs that the program stands where only administrators can write. Tokens,
-- security descriptors and `AccessCheck` are parameters; a handle is a number.
use wardoff.Prelude.{
  ℕ, Bool, true, false, ◌||◌, String, Result, ok, err, and_then, on_error, format, List, [], ◌∷◌,
}

-- The rights asked for: FILE_WRITE_DATA and so on; a directory's first two are FILE_ADD_FILE and
-- FILE_ADD_SUBDIRECTORY.
pub data Right : Type 0 where
  write_data append_data write_attributes write_ea : Right
  add_file add_subdirectory delete_child : Right

-- `get_named_security_info` gives a descriptor or a Win32 error, printed.
pub record Access (W : Type 0) : Type 0 where
  pub open_process_token : W → Result ℕ String × W
  pub linked_token : ℕ → W → Result ℕ String × W
  pub duplicate_token : ℕ → W → Result ℕ String × W
  pub get_named_security_info : String → W → Result ℕ String × W
  pub access_check : ℕ → ℕ → List Right → W → Result Bool String × W

abbrev failed : String → String → String
failed context error =
    format ("Wardoff could not " ∷ context ∷ " before updating \\Wardoff: " ∷ error ∷ [])

abbrev pub executable_rights : List Right
executable_rights = write_data ∷ append_data ∷ write_attributes ∷ write_ea ∷ []

abbrev pub directory_rights : List Right
directory_rights = add_file ∷ add_subdirectory ∷ write_attributes ∷ write_ea ∷ delete_child ∷ []

module _ {W : Type 0} (access : Access W) where
  unfoldable pub duplicate_access_check_token : ℕ → W → Result ℕ String × W
  duplicate_access_check_token source w =
      on_error (failed "duplicate the current interactive user's non-elevated token")
        (access.duplicate_token source w)

  unfoldable pub current_interactive_medium_token_for_access_check : W → Result ℕ String × W
  unfolding duplicate_access_check_token
  current_interactive_medium_token_for_access_check w =
      and_then
        (on_error (failed "validate the autostart install location") (access.open_process_token w))
        λ token w₁.
          and_then
            (on_error (failed "resolve the current interactive user's non-elevated token")
              (access.linked_token token w₁))
            duplicate_access_check_token

  unfoldable pub load_path_security_descriptor : String → String → W → Result ℕ String × W
  load_path_security_descriptor path context w =
      on_error
        (λ code. format (
          "Wardoff could not " ∷ context ∷ " for " ∷ path
          ∷ " before updating \\Wardoff (Win32 error " ∷ code ∷ ")." ∷ []))
        (access.get_named_security_info path w)

  unfoldable pub token_has_path_access :
      ℕ → String → List Right → String → W → Result Bool String × W
  unfolding load_path_security_descriptor
  token_has_path_access token path desired_access context w =
      and_then (load_path_security_descriptor path context w) λ descriptor w'.
        on_error (failed (format (context ∷ " for " ∷ path ∷ [])))
          (access.access_check descriptor token desired_access w')

  unfoldable pub token_can_write_executable_path : ℕ → String → W → Result Bool String × W
  unfolding token_has_path_access
  token_can_write_executable_path token path w =
      token_has_path_access token path executable_rights "validate the current executable path" w

  unfoldable pub token_can_write_directory : ℕ → String → W → Result Bool String × W
  unfolding token_has_path_access
  token_can_write_directory token path w =
      token_has_path_access token path directory_rights "validate the current executable directory"
        w

  unfoldable pub refuse_if : Bool → String → Result (Unit {0}) String
  refuse_if false executable_path = ok tt
  refuse_if true executable_path = err (
      format (
        "Wardoff refused to register scheduled task \\Wardoff from untrusted location "
        ∷ executable_path
        ∷ " because the current interactive user's non-elevated token can modify the executable path or its parent directory. Move Wardoff to an admin-writable install location and try again."
        ∷ []))

  unfoldable pub ensure_trusted_autostart_location :
      String → String → W → Result (Unit {0}) String × W
  unfolding current_interactive_medium_token_for_access_check token_can_write_executable_path
      token_can_write_directory refuse_if
  ensure_trusted_autostart_location executable_path working_directory w =
      and_then (current_interactive_medium_token_for_access_check w) λ token w₁.
        and_then (token_can_write_executable_path token executable_path w₁)
          λ executable_writable w₂.
            and_then (token_can_write_directory token working_directory w₂)
              λ working_directory_writable w₃.
                (refuse_if (executable_writable || working_directory_writable) executable_path, w₃)
