-- ===== src/Logger/Plain.antt =====
-- The checks of src/logger/mod.rs that its directories and files are no links. Paths are texts; the
-- file system's calls are a parameter.
pub mod Links
use wardoff.Prelude.{
  ℕ, ◌/◌, ◌%◌, ◌==◌, Bool, true, false, not, Option, none, some, String, Result, ok, err, ok_or,
  and_then, on_error, format, List, [], ◌∷◌, if◌then◌else◌,
}

pub record Metadata : Type 0 where
  pub file_attributes : ℕ
  pub is_dir : Bool
  pub is_file : Bool

-- An error by its kind, with its text.
pub data FileError : Type 0 where
  not_found already_exists other : String → FileError

-- The two opens are given FILE_FLAG_OPEN_REPARSE_POINT; a file is a number.
pub record FileSystem (W : Type 0) : Type 0 where
  pub parent : String → Option String
  pub symlink_metadata : String → W → Result Metadata FileError × W
  pub create_dir : String → W → Result (Unit {0}) FileError × W
  pub open_for_read : String → W → Result ℕ FileError × W
  pub open_for_append : String → W → Result ℕ FileError × W
  pub metadata : ℕ → W → Result Metadata FileError × W

abbrev text_of : FileError → String
text_of (not_found error) = error
text_of (already_exists error) = error
text_of (other error) = error

-- FILE_ATTRIBUTE_REPARSE_POINT is bit 10.
unfoldable pub has_reparse_point : Metadata → Bool
has_reparse_point metadata = metadata.file_attributes / 1024 % 2 == 1

abbrev about : String → String → String → String
about before path after = format (before ∷ path ∷ after ∷ [])

unfoldable pub validate_plain_directory : String → Metadata → Result (Unit {0}) String
validate_plain_directory path metadata =
    if has_reparse_point metadata
    then err (about "Wardoff refused to follow a reparse point at managed log directory " path ".")
    else if not metadata.is_dir
    then err (about "Wardoff expected a directory at managed log path " path ".")
    else ok tt

unfoldable pub validate_plain_file : String → Metadata → Result (Unit {0}) String
validate_plain_file path metadata =
    if has_reparse_point metadata
    then err (about "Wardoff refused to follow a reparse point at managed log file " path ".")
    else if not metadata.is_file
    then err (about "Wardoff expected a plain file at managed log path " path ".")
    else ok tt

-- Another process may have made the directory first.
unfoldable pub created : Result (Unit {0}) FileError → Result (Unit {0}) FileError
created (ok _) = ok tt
created (err (already_exists error)) = ok tt
created (err (not_found error)) = err (not_found error)
created (err (other error)) = err (other error)

module _ {W : Type 0} (files : FileSystem W) where
  unfoldable pub create_component : String → String → W → Result (Unit {0}) String × W
  unfolding created validate_plain_directory
  create_component parent path w =
      let (r, w₁) = files.create_dir path w in
      and_then
        (on_error
          (λ error. format (
            "Wardoff could not create managed log directory "
            ∷ path
            ∷ " under "
            ∷ parent
            ∷ ": "
            ∷ text_of error
            ∷ []))
          (created r, w₁))
        λ _ w₂.
          and_then
            (on_error
              (λ error. format (
                "Wardoff could not inspect managed log directory "
                ∷ path
                ∷ " after creation: "
                ∷ text_of error
                ∷ []))
              (files.symlink_metadata path w₂))
            λ metadata w₃. (validate_plain_directory path metadata, w₃)

  unfoldable pub settle_component :
      String → String → Result Metadata FileError × W → Result (Unit {0}) String × W
  unfolding validate_plain_directory create_component
  settle_component parent path (ok metadata, w) = (validate_plain_directory path metadata, w)
  settle_component parent path (err (not_found error), w) = create_component parent path w
  settle_component parent path (err (already_exists error), w) = (
    err (
        about "Wardoff could not inspect managed log directory " path (format (": " ∷ error ∷ []))),
    w,
  )
  settle_component parent path (err (other error), w) = (
    err (
        about "Wardoff could not inspect managed log directory " path (format (": " ∷ error ∷ []))),
    w,
  )

  unfoldable pub ensure_managed_directory_component :
      String → String → W → Result (Unit {0}) String × W
  unfolding settle_component
  ensure_managed_directory_component parent path w =
      settle_component parent path (files.symlink_metadata path w)

  unfoldable pub parent_or : String → String → Result String String
  parent_or what path = ok_or (files.parent path) (about what path ".")

  unfoldable pub ensure_managed_log_directory : String → W → Result (Unit {0}) String × W
  unfolding parent_or ensure_managed_directory_component
  ensure_managed_log_directory path w =
      and_then (parent_or "Wardoff could not resolve the parent directory for " path, w)
        λ log_directory w₁.
          and_then
            (parent_or "Wardoff could not resolve the managed log root for " log_directory, w₁)
            λ wardoff_directory w₂.
              and_then
                (
                  parent_or "Wardoff could not resolve the LOCALAPPDATA parent for "
                      wardoff_directory,
                  w₂,
                )
                λ local_app_data w₃.
                  and_then (ensure_managed_directory_component local_app_data wardoff_directory w₃)
                    λ _ w₄. ensure_managed_directory_component wardoff_directory log_directory w₄

  unfoldable pub validate_open_plain_file : String → ℕ → W → Result (Unit {0}) String × W
  unfolding validate_plain_file
  validate_open_plain_file path file w =
      and_then
        (on_error
          (λ error. format ("Wardoff could not inspect " ∷ path ∷ ": " ∷ text_of error ∷ []))
          (files.metadata file w))
        λ metadata w'. (validate_plain_file path metadata, w')

  unfoldable pub opened : String → Result ℕ FileError × W → Result ℕ String × W
  unfolding validate_open_plain_file
  opened path x =
      and_then
        (on_error (λ error. format ("Wardoff could not open " ∷ path ∷ ": " ∷ text_of error ∷ []))
          x)
        λ file w. and_then (validate_open_plain_file path file w) λ _ w'. (ok file, w')

  unfoldable pub open_plain_log_file_for_read : String → W → Result ℕ String × W
  unfolding opened
  open_plain_log_file_for_read path w = opened path (files.open_for_read path w)

  unfoldable pub open_plain_log_file_for_append : String → W → Result ℕ String × W
  unfolding opened
  open_plain_log_file_for_append path w = opened path (files.open_for_append path w)

  unfoldable pub settle_metadata :
      String → Result Metadata FileError × W → Result (Option Metadata) String × W
  unfolding validate_plain_file
  settle_metadata path (ok metadata, w) =
      and_then (validate_plain_file path metadata, w) λ _ w'. (ok (some metadata), w')
  settle_metadata path (err (not_found error), w) = (ok none, w)
  settle_metadata path (err (already_exists error), w) =
      (err (format ("Wardoff could not inspect " ∷ path ∷ " before rotation: " ∷ error ∷ [])), w)
  settle_metadata path (err (other error), w) =
      (err (format ("Wardoff could not inspect " ∷ path ∷ " before rotation: " ∷ error ∷ [])), w)

  unfoldable pub log_file_metadata_if_exists : String → W → Result (Option Metadata) String × W
  unfolding settle_metadata
  log_file_metadata_if_exists path w = settle_metadata path (files.symlink_metadata path w)

  -- How `write_record` begins and ends, but for the rotation between: the directory, then the file.
  unfoldable pub open_log : String → W → Result ℕ String × W
  unfolding ensure_managed_log_directory open_plain_log_file_for_append
  open_log path w =
      and_then (ensure_managed_log_directory path w) λ _ w'. open_plain_log_file_for_append path w'
