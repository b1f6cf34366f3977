-- ===== src/Blocker/SleepBlocker.antt =====
-- `SleepBlocker` of src/blocker/sleep.rs: the power requests of Block mode, and their log records.
use wardoff.Prelude.{Bool, true, false, none, some, String, Result, ok, err, if◌then◌else◌}
use wardoff.Logger.Journal.{Env, sleep, log_event}
use wardoff.Blocker.PowerRequests.{PowerApi, PowerRequests}
use wardoff.Blocker.PowerRequests

pub record SleepBlocker : Type 0 where
  pub requests : PowerRequests

unfoldable pub default : SleepBlocker
default = record { requests = PowerRequests.default }

unfoldable pub is_active : SleepBlocker → Bool
is_active b = PowerRequests.is_active b.requests

abbrev acquired_message : String
acquired_message =
    "Wardoff acquired system/display Power Requests for idle-sleep and automatic display-timeout prevention. Windows policy and explicit Sleep/Hibernate can override this protection."

abbrev released_message : String
released_message = "Wardoff released its idle-power requests and closed the request handle."

module _ {W : Type 0} (api : PowerApi W) where
  log_activation : Result (Unit {0}) String → Env W → Env W
  log_activation (ok _) env = log_event "sleep_blocked" sleep acquired_message true env
  log_activation (err error) env = log_event "sleep_blocked" sleep error false env

  unfoldable pub activate : SleepBlocker → Env W → Result (Unit {0}) String × SleepBlocker × Env W
  unfolding log_activation
  activate b env =
      let (r, p, w) = PowerRequests.activate api b.requests env.world in
      if is_active b
      then (ok tt, b, env)
      else (r, record { requests = p }, log_activation r (record env { world = w }))

  log_release : Result (Unit {0}) String → Env W → Env W
  log_release (ok _) env = log_event "sleep_unblocked" sleep released_message true env
  log_release (err error) env = log_event "sleep_unblocked" sleep error false env

  unfoldable pub deactivate : SleepBlocker → Env W → SleepBlocker × Env W
  unfolding log_release
  deactivate b env =
      let (r, p, w) = PowerRequests.release api b.requests env.world in
      elim b.requests.handle [
        | none ↦ (b, env)
        | some _ ↦ (record { requests = p }, log_release r (record env { world = w }))
      ]

  unfoldable pub begin_forced_shutdown_cleanup : SleepBlocker → Env W → SleepBlocker × Env W
  begin_forced_shutdown_cleanup b env = deactivate b env

  -- The old handle is closed first; a failed close is returned at once.
  unfoldable pub renew_after_resume :
      SleepBlocker → Env W → Result (Unit {0}) String × SleepBlocker × Env W
  renew_after_resume b env =
      let (closed, p, w) = PowerRequests.close api b.requests env.world in
      elim closed [
        | err error ↦ (err error, record { requests = p }, record env { world = w })
        | ok _ ↦ activate (record { requests = p }) (record env { world = w })
      ]
