-- ===== src/Logger/Plain/Links.antt =====
-- No record of src/logger/mod.rs is written through a link.
use wardoff.Prelude.{ℕ, true, false, some, String, ok, is_ok, ◌⊎◌, inl, inr, ◌≡◌, arith}
use wardoff.Logger.Plain.{
  Metadata, FileSystem, has_reparse_point, validate_plain_directory, validate_plain_file,
  settle_component, ensure_managed_directory_component, parent_or, ensure_managed_log_directory,
  validate_open_plain_file, opened, open_plain_log_file_for_append, open_log,
}

module _ {W : Type 0} (files : FileSystem W) where
  link_refused :
      (parent path : String) (link : Metadata) (w : W)
      → has_reparse_point link ≡ true
      → ((w : W) → (files.symlink_metadata path w).0 ≡ ok link)
      → is_ok (ensure_managed_directory_component files parent path w).0 ≡ false
  unfolding ensure_managed_directory_component settle_component validate_plain_directory
  link_refused parent path link w reparse answers = ground (arith, reparse, answers w)

  linked_file_refused :
      (path : String) (link : Metadata) (w : W)
      → has_reparse_point link ≡ true
      → ((file : ℕ) (w : W) → (files.metadata file w).0 ≡ ok link)
      → is_ok (open_plain_log_file_for_append files path w).0 ≡ false
  unfolding open_plain_log_file_for_append opened validate_open_plain_file validate_plain_file
  linked_file_refused path link w reparse answers = grind (arith, reparse, answers)

  -- Either directory's refusal is the log's.
  directory_refused :
      (path log_directory wardoff_directory : String) (w : W)
      → files.parent path ≡ some log_directory
      → files.parent log_directory ≡ some wardoff_directory
      → ((parent : String) (w : W)
          → is_ok (ensure_managed_directory_component files parent log_directory w).0 ≡ false)
        ⊎ ((parent : String) (w : W)
            → is_ok (ensure_managed_directory_component files parent wardoff_directory w).0 ≡ false)
      → is_ok (open_log files path w).0 ≡ false
  unfolding open_log ensure_managed_log_directory parent_or
  directory_refused path log_directory wardoff_directory w p q (inl h) = grind (arith, p, q, h)
  directory_refused path log_directory wardoff_directory w p q (inr h) = grind (arith, p, q, h)

  file_refused :
      (path : String) (w : W)
      → ((w : W) → is_ok (open_plain_log_file_for_append files path w).0 ≡ false)
      → is_ok (open_log files path w).0 ≡ false
  unfolding open_log
  file_refused path w h = grind (arith, h)

-- When the log's directory, the one above it, or the file that was opened is a link, the log is not
-- opened for a record.
pub link_never_followed :
    {W : Type 0} (files : FileSystem W) (path log_directory wardoff_directory : String)
    (link : Metadata) (w : W)
    → files.parent path ≡ some log_directory
    → files.parent log_directory ≡ some wardoff_directory
    → has_reparse_point link ≡ true
    → ((w : W) → (files.symlink_metadata log_directory w).0 ≡ ok link)
      ⊎ ((w : W) → (files.symlink_metadata wardoff_directory w).0 ≡ ok link)
      ⊎ ((file : ℕ) (w : W) → (files.metadata file w).0 ≡ ok link)
    → is_ok (open_log files path w).0 ≡ false
link_never_followed files path log_directory wardoff_directory link w p q reparse h = elim h [
  | inl log ↦
      directory_refused files path log_directory wardoff_directory w p q
        (inl (λ parent w'. link_refused files parent log_directory link w' reparse log))
  | inr (inl wardoff) ↦
      directory_refused files path log_directory wardoff_directory w p q
        (inr (λ parent w'. link_refused files parent wardoff_directory link w' reparse wardoff))
  | inr (inr file) ↦
      file_refused files path w λ w'. linked_file_refused files path link w' reparse file
]
