-- ===== src/Blocker/Power.antt =====
-- The power actions of src/blocker/mod.rs and how they are asked of Windows.
use wardoff.Prelude.{true, false, String, Result, ok, err, map_err, format, [], ◌∷◌, if◌then◌else◌}
use wardoff.Blocker.Windows.{Windows}
use wardoff.Blocker.Abort.{enable_shutdown_privilege}

pub data PowerAction : Type 0 where
  shutdown reboot sleep hibernate : PowerAction

-- The `Debug` name of an action.
pub action_name : PowerAction → String
action_name shutdown = "Shutdown"
action_name reboot = "Reboot"
action_name sleep = "Sleep"
action_name hibernate = "Hibernate"

module _ {W : Type 0} (sys : Windows W) where
  power_call : PowerAction → W → Result (Unit {0}) String × W
  power_call shutdown w =
      let (r, w') = sys.exit_windows false w in
      (map_err (λ e. format ("Windows rejected the shutdown request: " ∷ e.text ∷ [])) r, w')
  power_call reboot w =
      let (r, w') = sys.exit_windows true w in
      (map_err (λ e. format ("Windows rejected the reboot request: " ∷ e.text ∷ [])) r, w')
  power_call sleep w =
      let (done, w') = sys.set_suspend_state false w in
      (
        if done
            then ok tt
            else err
                (format ("Windows rejected the sleep request: " ∷ (sys.last_error w').text ∷ [])),
        w',
      )
  power_call hibernate w =
      let (done, w') = sys.set_suspend_state true w in
      (
        if done
            then ok tt
            else err (
                format
                  ("Windows rejected the hibernate request: " ∷ (sys.last_error w').text ∷ [])),
        w',
      )

  unfoldable pub execute_power_action : PowerAction → W → Result (Unit {0}) String × W
  unfolding power_call action_name
  execute_power_action action w =
      let (r, w') = enable_shutdown_privilege sys w in
      elim r [
        | ok _ ↦ power_call action w'
        | err e ↦ (
          err (
              format (
                "Wardoff could not enable the shutdown privilege before "
                ∷ action_name action
                ∷ ": "
                ∷ e.text
                ∷ [])),
          w',
        )
      ]
