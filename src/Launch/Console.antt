-- ===== src/Launch/Console.antt =====
-- The console and the relaunches, src/windows_util.rs. The Win32 calls are parameters; an error code
-- is a number, and `decimal` prints it.
use wardoff.Prelude.{
  ℕ, leb, ◌==◌, Bool, true, false, not, ◌&&◌, ◌||◌, String, Result, ok, err, and_then, on_error,
  format, List, [], ◌∷◌, ◌++◌, if◌then◌else◌,
}

-- An argument: the two internal ones, and any other.
pub data Argument : Type 0 where
  elevated_relaunch detached_runtime : Argument
  other_argument : String → Argument

pub data ElevationLaunchResult : Type 0 where
  launched cancelled : ElevationLaunchResult

pub data ConsoleLaunchContext : Type 0 where
  no_console owned inherited : ConsoleLaunchContext

pub record Consoles (W : Type 0) : Type 0 where
  pub has_console_window : W → Bool
  pub console_process_count : W → ℕ
  pub last_error : W → ℕ
  pub hide_window : W → W
  pub free_console : W → Result (Unit {0}) ℕ × W
  pub current_exe : W → Result String String × W
  pub args : W → List Argument
  pub shell_execute_runas : String → Argument → W → ℕ × W
  pub spawn_detached : String → List Argument → W → Result (Unit {0}) String × W
  pub decimal : ℕ → String

-- ERROR_CANCELLED.
abbrev error_cancelled : ℕ
error_cancelled = 1223

module _ {W : Type 0} (consoles : Consoles W) where
  unfoldable pub console_launch_context : W → Result ConsoleLaunchContext String
  console_launch_context w =
      if not (consoles.has_console_window w)
      then ok no_console
      else if consoles.console_process_count w == 0
      then err (
          format (
            "Wardoff could not inspect its console attachment state (Win32 error "
            ∷ consoles.decimal (consoles.last_error w)
            ∷ ")."
            ∷ []))
      else if consoles.console_process_count w == 1
      then ok owned
      else ok inherited

  free_failure : Result (Unit {0}) ℕ × W → Result (Unit {0}) String × W
  free_failure (ok _, w) = (ok tt, w)
  free_failure (err code, w) = (
    err (
        format (
          "Wardoff could not detach from its standalone console window (Win32 error "
          ∷ consoles.decimal (if consoles.last_error w == 0 then code else consoles.last_error w)
          ∷ ")."
          ∷ [])),
    w,
  )

  unfoldable pub hide_and_free_console : W → Result (Unit {0}) String × W
  unfolding free_failure
  hide_and_free_console w =
      let freed = free_failure (consoles.free_console (consoles.hide_window w)) in
      if not (consoles.has_console_window w) then (ok tt, w) else freed

  abbrev is_detached : Argument → Bool
  is_detached detached_runtime = true
  is_detached _ = false

  abbrev any_detached : List Argument → Bool
  any_detached [] = false
  any_detached (arg ∷ args) = is_detached arg || any_detached args

  unfoldable pub with_detached : List Argument → List Argument
  with_detached args = if any_detached args then args else args ++ detached_runtime ∷ []

  unfoldable pub relaunch_self_detached : W → Result (Unit {0}) String × W
  unfolding with_detached
  relaunch_self_detached w =
      and_then
        (on_error
          (λ error.
            format (
              "Wardoff could not resolve its executable path for detached relaunch: " ∷ error ∷ []))
          (consoles.current_exe w))
        λ path w'.
          on_error
            (λ error. format (
              "Wardoff could not relaunch its long-lived runtime without a shell console: " ∷ error
              ∷ []))
            (consoles.spawn_detached path (with_detached (consoles.args w')) w')

  last_error_suffix : ℕ → String
  last_error_suffix code =
      if code == 0 then "" else format (" (Win32 error " ∷ consoles.decimal code ∷ ")" ∷ [])

  -- By the code that `ShellExecuteW` gives.
  unfoldable pub settle_shell_execute : ℕ × W → Result ElevationLaunchResult String × W
  unfolding last_error_suffix
  settle_shell_execute (code, w) =
      if leb 33 code
      then (ok launched, w)
      else if consoles.last_error w == error_cancelled
      then (ok cancelled, w)
      else (
        err (
            format (
              "Wardoff could not relaunch itself with administrator rights (ShellExecuteW code "
              ∷ consoles.decimal code
              ∷ ")."
              ∷ last_error_suffix (consoles.last_error w)
              ∷ [])),
        w,
      )

  unfoldable pub relaunch_self_elevated : W → Result ElevationLaunchResult String × W
  unfolding settle_shell_execute
  relaunch_self_elevated w =
      and_then
        (on_error
          (λ error.
            format ("Wardoff could not resolve its executable path for elevation: " ∷ error ∷ []))
          (consoles.current_exe w))
        λ path w'. settle_shell_execute (consoles.shell_execute_runas path elevated_relaunch w')

  abbrev is_internal : Argument → Bool
  is_internal (other_argument text) = false
  is_internal _ = true

  abbrev all_internal : List Argument → Bool
  all_internal [] = true
  all_internal (arg ∷ args) = is_internal arg && all_internal args

  abbrev is_inherited : Result ConsoleLaunchContext String → Bool
  is_inherited (ok inherited) = true
  is_inherited _ = false

  -- In a release build; a debug build answers `false`.
  unfoldable pub should_show_graphical_startup_error : W → Bool
  unfolding console_launch_context
  should_show_graphical_startup_error w =
      all_internal (consoles.args w) && not (is_inherited (console_launch_context w))
