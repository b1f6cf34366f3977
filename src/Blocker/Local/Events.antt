-- ===== src/Blocker/Local/Events.antt =====
-- The trace events of Layer 2, `process_event_record` of src/blocker/local.rs. A text is the list of
-- its scalar values. The file name of a Windows path and the printing of texts and numbers are
-- parameters, and so are the bytes of a property, which the trace data helper reads.
pub mod Filter
use wardoff.Prelude.{
  ℕ, ◌+◌, leb, ◌==◌, Bool, true, false, ◌&&◌, not, Option, none, some, String, format, List, [],
  ◌∷◌, map, if◌then◌else◌,
}
use wardoff.Logger.Journal.{Env, local, log_event, on_world, record_blocked_event}
use wardoff.Blocker.Windows.{Windows}
use wardoff.Blocker.Abort.{
  ShutdownAbortOutcome, aborted, no_shutdown_pending, abort_denied, abort_failed,
  abort_pending_shutdown,
}
use wardoff.Blocker.Local.Utf16.{read_unicode, read_u32}

-- KERNEL_PROCESS_PROVIDER_GUID as one number.
abbrev pub kernel_process_provider_guid : ℕ
kernel_process_provider_guid = 46497927753510520633852069229402056470

abbrev pub process_start_event_id : ℕ
process_start_event_id = 1

abbrev pub process_start_task : ℕ
process_start_task = 1

abbrev pub process_start_opcode : ℕ
process_start_opcode = 1

-- "shutdown.exe".
abbrev pub shutdown_image_name : List ℕ
shutdown_image_name = 115 ∷ 104 ∷ 117 ∷ 116 ∷ 100 ∷ 111 ∷ 119 ∷ 110 ∷ 46 ∷ 101 ∷ 120 ∷ 101 ∷ []

pub data Property : Type 0 where
  image_name process_id parent_process_id : Property

pub record EventRecord : Type 0 where
  pub provider_id : ℕ
  pub id : ℕ
  pub task : ℕ
  pub opcode : ℕ
  pub header_process_id : ℕ
  pub property : Property → Option (List ℕ)

pub record Texts : Type 0 where
  pub file_name : List ℕ → Option (List ℕ)
  pub to_text : List ℕ → String
  pub decimal : ℕ → String

abbrev bind : {A B : Type 0} → Option A → (A → Option B) → Option B
bind none f = none
bind (some a) f = f a

abbrev or_else : {A : Type 0} → Option A → A → A
or_else none b = b
or_else (some a) b = a

unfoldable pub read_unicode_property : EventRecord → Property → Option (List ℕ)
read_unicode_property event_record name = bind (event_record.property name) read_unicode

unfoldable pub read_u32_property : EventRecord → Property → Option ℕ
read_u32_property event_record name = bind (event_record.property name) read_u32

unfoldable pub to_ascii_lowercase : ℕ → ℕ
to_ascii_lowercase c = if leb 65 c && leb c 90 then c + 32 else c

unfoldable pub eq_ignore_ascii_case : List ℕ → List ℕ → Bool
unfolding to_ascii_lowercase
eq_ignore_ascii_case [] [] = true
eq_ignore_ascii_case [] (d ∷ ds) = false
eq_ignore_ascii_case (c ∷ cs) [] = false
eq_ignore_ascii_case (c ∷ cs) (d ∷ ds) =
    to_ascii_lowercase c == to_ascii_lowercase d && eq_ignore_ascii_case cs ds

unfoldable pub basename_or_original : Texts → List ℕ → List ℕ
basename_or_original texts name = or_else (texts.file_name name) name

unfoldable pub is_process_start : EventRecord → Bool
is_process_start event_record =
    event_record.provider_id == kernel_process_provider_guid
    && event_record.id == process_start_event_id
    && event_record.task == process_start_task
    && event_record.opcode == process_start_opcode

-- "shutdown.exe (pid=.., parent_pid=.., image=..)", but for its first word.
abbrev details_of : Texts → EventRecord → List ℕ → String
details_of texts event_record image_basename = format (
    "(pid="
    ∷ texts.decimal
        (or_else (read_u32_property event_record process_id) event_record.header_process_id)
    ∷ ", parent_pid="
    ∷ texts.decimal (or_else (read_u32_property event_record parent_process_id) 0)
    ∷ ", image="
    ∷ texts.to_text image_basename
    ∷ ")"
    ∷ [])

module _ {W : Type 0} where
  -- What is recorded of the attempt to abort.
  unfoldable pub settle_abort : String → ShutdownAbortOutcome × Env W → Env W
  settle_abort details (aborted, env) =
      log_event "local_shutdown_abort_succeeded" local
        (format (
          "Layer 2 detected shutdown.exe " ∷ details
          ∷ " and AbortSystemShutdownW(None) aborted a pending shutdown." ∷ []))
        true (record_blocked_event env)
  settle_abort details (no_shutdown_pending, env) =
      log_event "local_shutdown_abort_not_needed" local
        (format (
          "Layer 2 detected shutdown.exe " ∷ details
          ∷ " but AbortSystemShutdownW(None) reported that no shutdown was pending. This can happen when the local shutdown path was already past the abortable window, including fast paths such as shutdown /t 0 /f."
          ∷ []))
        false env
  settle_abort details (abort_denied error, env) =
      log_event "local_shutdown_abort_failed" local
        (format (
          "Layer 2 detected shutdown.exe " ∷ details
          ∷ " but AbortSystemShutdownW(None) was denied: " ∷ error ∷ []))
        false env
  settle_abort details (abort_failed error, env) =
      log_event "local_shutdown_abort_failed" local
        (format (
          "Layer 2 detected shutdown.exe " ∷ details
          ∷ " but AbortSystemShutdownW(None) failed unexpectedly: " ∷ error ∷ []))
        false env

module _ {W : Type 0} (sys : Windows W) (texts : Texts) where
  unfoldable pub abort_for : EventRecord → List ℕ → Env W → Env W
  unfolding settle_abort read_u32_property
  abort_for event_record image_basename env =
      let details = details_of texts event_record image_basename in
      let env' =
        log_event "local_shutdown_process_detected" local
          (format (
            "Layer 2 detected a local shutdown.exe process start " ∷ details
            ∷ " and is attempting AbortSystemShutdownW(None)." ∷ []))
          true env in
      settle_abort details (on_world (abort_pending_shutdown sys) env')

  unfoldable pub check_image : EventRecord → Option (List ℕ) → Env W → Env W
  unfolding abort_for basename_or_original
  check_image event_record none env = env
  check_image event_record (some name) env =
      let image_basename = basename_or_original texts name in
      if not (eq_ignore_ascii_case image_basename shutdown_image_name)
      then env
      else abort_for event_record image_basename env

  unfoldable pub process_event_record : EventRecord → Env W → Env W
  unfolding check_image is_process_start read_unicode_property
  process_event_record event_record env =
      let checked = check_image event_record (read_unicode_property event_record image_name) env in
      if not (is_process_start event_record) then env else checked
