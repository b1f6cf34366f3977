-- ===== src/Blocker/Windows.antt =====
-- The Windows calls of src/blocker/, which the crate `windows` provides. They are parameters: each
-- returns what Windows answered and the system after the call.
use wardoff.Prelude.{ℕ, Bool, Option, String, Result}
use wardoff.Blocker.PowerRequests.{PowerApi}

-- The error codes that the program compares with; no other distinction is made anywhere.
pub data Code : Type 0 where
  e_accessdenied error_access_denied error_not_all_assigned error_no_shutdown_in_progress : Code
  error_file_not_found error_path_not_found error_not_found : Code
  other_code : ℕ → Code

-- `windows::core::Error`, with the text that its `Display` prints.
pub record WinError : Type 0 where
  pub code : Code
  pub text : String

-- `WIN32_ERROR` as the event-tracing calls return it.
pub data Status : Type 0 where
  error_success error_wmi_instance_not_found access_denied privilege_not_held : Status
  not_supported already_exists : Status
  other_status : ℕ → Status

abbrev pub WinResult : Type 0 → Type 0
WinResult A = Result A WinError

pub record Windows (W : Type 0) : Type 0 where
  pub power : PowerApi W
  -- kernel and token calls
  pub spawn_thread : String → W → Result (Unit {0}) String × W
  pub open_process_token : W → WinResult ℕ × W
  pub lookup_privilege_value : W → WinResult ℕ × W
  pub adjust_token_privileges : ℕ → ℕ → W → WinResult (Unit {0}) × W
  pub last_error : W → WinError
  pub close_handle : ℕ → W → W
  pub is_process_elevated : W → WinResult Bool × W
  -- shutdown and power calls
  pub abort_system_shutdown : W → WinResult (Unit {0}) × W
  pub shutdown_block_reason_create : W → WinResult (Unit {0}) × W
  pub shutdown_block_reason_destroy : W → WinResult (Unit {0}) × W
  pub exit_windows : Bool → W → WinResult (Unit {0}) × W
  pub set_suspend_state : Bool → W → Bool × W
  -- Task Scheduler calls, on the folder and the task of Layer 3
  pub co_initialize : W → WinResult (Unit {0}) × W
  pub co_uninitialize : W → W
  pub open_folder : W → WinResult (Unit {0}) × W
  pub get_task : W → WinResult (Unit {0}) × W
  pub task_enabled : W → WinResult Bool × W
  pub set_task_enabled : Bool → W → WinResult (Unit {0}) × W
  -- event tracing calls of Layer 2
  pub session_name : W → String
  pub start_trace : String → W → Status × W
  pub enable_trace : W → Status × W
  pub open_trace : String → W → Option ℕ × W
  pub process_trace : ℕ → W → Status × W
  pub close_trace : ℕ → W → Status × W
  pub stop_trace : String → W → Status × W
  pub status_text : Status → String
  pub status_code : Status → String
