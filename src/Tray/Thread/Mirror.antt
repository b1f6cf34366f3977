-- ===== src/Tray/Thread/Mirror.antt =====
-- What the tray's menu shows, over every history of its thread (src/tray/mod.rs).
use wardoff.Prelude.{
  ℕ, Bool, true, false, not, Option, none, some, String, Result, ok, err, List, [], ◌∷◌, ◌≡◌, refl,
  arith, if◌then◌else◌, ◌∙◌, ◌+◌,
}
use wardoff.Logger.Journal.{Env, Attempt}
use wardoff.Blocker.Coordinator.{BlockerMode, block, allow, same_mode}
use wardoff.Tray.{
  TrayVisibility, Gui, TrayController, MenuId, autostart_item, action_for_menu_id, sync_menu_state,
  set_autostart_enabled, create_tray_controller,
}
use wardoff.Tray
use wardoff.Tray.Thread.{
  TrayThreadState, TrayCommand, set_mode, set_autostart, shutdown, reset_tray_controller, apply_to,
  apply_current_tray_state, log_tray_update_failure_and_reset, reset_on_error, handle_tray_command,
  handle_taskbar_created, retry_interval,
}
use wardoff.Tray.Thread.Creation.{
  log_tray_creation_failure, shown, after_mode, after_creation, try_create_tray_controller,
  start_waiting, warn_if_late, attempt_tray_creation, create_if_missing, retry_if_due,
}
use wardoff.Tray.Thread.Turns.{handle_commands}

abbrev pub Shows : TrayThreadState → TrayController → Type 0
Shows state controller =
    controller.visibility ≡ state.visibility
    × controller.block_enabled ≡ not (same_mode state.mode block)
    × controller.allow_enabled ≡ not (same_mode state.mode allow)
    × controller.autostart_checked ≡ state.autostart_enabled
    × controller.autostart_enabled ≡ state.autostart_enabled

abbrev ShowsIfAny : TrayThreadState → Option TrayController → Type 0
ShowsIfAny state none = Unit {0}
ShowsIfAny state (some controller) = Shows state controller

abbrev pub Mirror : TrayThreadState → Type 0
Mirror state = ShowsIfAny state state.controller

module _ {W : Type 0} (gui : Gui W) where
  set_mode-controller :
      (mode : BlockerMode) (controller : TrayController) (env : Env W)
      → (Tray.set_mode gui mode controller env).1 ≡ sync_menu_state mode controller
  unfolding Tray.set_mode
  set_mode-controller mode controller env = ground arith

  -- What a menu shows once it is set to the thread's state.
  set_mode-Shows :
      (state : TrayThreadState) (controller : TrayController) (env : Env W)
      → controller.visibility ≡ state.visibility
      → Shows state
          (Tray.set_mode gui state.mode
            (set_autostart_enabled state.autostart_enabled controller)
            env).1
  unfolding Tray.set_mode sync_menu_state set_autostart_enabled
  set_mode-Shows state controller env h = ground (arith, h)

  Fits : Option TrayController → TrayVisibility → Type 0
  Fits none visibility = Unit {0}
  Fits (some c) visibility = c.visibility ≡ visibility

  apply_to-Mirror :
      (c : Option TrayController) (state : TrayThreadState) (env : Env W)
      → state.controller ≡ c
      → Fits c state.visibility
      → Mirror (apply_to gui c state env).1
  unfolding apply_to Fits
  apply_to-Mirror none state env p h = ground (arith, p)
  apply_to-Mirror (some c) state env p h = set_mode-Shows state c env h

  reset_on_error-Mirror :
      (message : String → String) (x : Result (Unit {0}) String × TrayThreadState × Env W)
      → Mirror x.1
      → Mirror (reset_on_error gui message x).1
  unfolding reset_on_error log_tray_update_failure_and_reset reset_tray_controller
  reset_on_error-Mirror message (ok _, state, env) h = h
  reset_on_error-Mirror message (err e, state, env) h = tt

  Mirror-Fits :
      (state : TrayThreadState) (c : Option TrayController)
      → ShowsIfAny state c
      → Fits c state.visibility
  unfolding Fits
  Mirror-Fits state none h = tt
  Mirror-Fits state (some c) h = h.0

  handle_tray_command-Mirror :
      (command : TrayCommand) (state : TrayThreadState) (env : Env W)
      → Mirror state
      → Mirror (handle_tray_command gui command state env).2
  unfolding handle_tray_command apply_current_tray_state
  handle_tray_command-Mirror (set_mode mode) state env h =
      reset_on_error-Mirror _ (apply_current_tray_state gui (record state { mode = mode }) env) (
        apply_to-Mirror state.controller (record state { mode = mode }) env refl
          (Mirror-Fits state state.controller h))
  handle_tray_command-Mirror (set_autostart enabled) state env h =
      reset_on_error-Mirror _
        (apply_current_tray_state gui (record state { autostart_enabled = enabled }) env)
        (apply_to-Mirror state.controller (record state { autostart_enabled = enabled }) env refl
          (Mirror-Fits state state.controller h))
  handle_tray_command-Mirror shutdown state env h = h

  if-Mirror :
      (b : Bool) (x y : Bool × TrayThreadState × Env W)
      → Mirror x.1
      → Mirror y.1
      → Mirror (if b then x else y).1
  if-Mirror true x y hx hy = hx
  if-Mirror false x y hx hy = hy

  pub handle_commands-Mirror :
      (commands : List TrayCommand) (state : TrayThreadState) (env : Env W)
      → Mirror state
      → Mirror (handle_commands gui commands state env).1
  unfolding handle_commands
  handle_commands-Mirror [] state env h = h
  handle_commands-Mirror (command ∷ commands) state env h =
      let h' = handle_tray_command-Mirror command state env h in
      let (stop, _, state', env') = handle_tray_command gui command state env in
      if-Mirror stop (true, state', env') (handle_commands gui commands state' env') h'
        (handle_commands-Mirror commands state' env' h')

  pub handle_taskbar_created-Mirror :
      (created : Bool) (state : TrayThreadState) (env : Env W)
      → Mirror state
      → Mirror (handle_taskbar_created gui created state env).0
  unfolding handle_taskbar_created reset_tray_controller
  handle_taskbar_created-Mirror false state env h = h
  handle_taskbar_created-Mirror true state env h = tt

  log_tray_creation_failure-Mirror :
      (error : String) (state : TrayThreadState) (env : Env W)
      → Mirror state
      → Mirror (log_tray_creation_failure error state env).0
  unfolding log_tray_creation_failure
  log_tray_creation_failure-Mirror error state env h = ground (arith, h)

  shown-Mirror :
      (c : TrayController) (state : TrayThreadState) (env : Env W)
      → Shows state c
      → Mirror (shown gui c state env).0
  unfolding shown
  shown-Mirror c state env h = ground (arith, h)

  after_mode-Mirror :
      (x : Result (Unit {0}) String × TrayController × Env W) (state : TrayThreadState)
      → Shows state x.1
      → Mirror state
      → Mirror (after_mode gui x state).0
  unfolding after_mode
  after_mode-Mirror (ok _, c, env) state shows h = shown-Mirror c state env shows
  after_mode-Mirror (err e, c, env) state shows h = log_tray_creation_failure-Mirror e state env h

  -- A new controller has the visibility it was asked for.
  Has : TrayVisibility → Result TrayController String → Type 0
  Has visibility (ok c) = c.visibility ≡ visibility
  Has visibility (err e) = Unit {0}

  create_tray_controller-Has :
      (visibility : TrayVisibility) (env : Env W)
      → Has visibility (create_tray_controller gui visibility env).0
  unfolding create_tray_controller Tray.set_mode sync_menu_state Has
  create_tray_controller-Has visibility env = ground arith

  after_creation-Mirror :
      (x : Attempt W TrayController) (state : TrayThreadState)
      → Has state.visibility x.0
      → Mirror state
      → Mirror (after_creation gui x state).0
  unfolding after_creation Has
  after_creation-Mirror (ok c, env) state has h =
      after_mode-Mirror _ state (set_mode-Shows state c env has) h
  after_creation-Mirror (err e, env) state has h = log_tray_creation_failure-Mirror e state env h

  none-Mirror : (state : TrayThreadState) → state.controller ≡ none → Mirror state
  none-Mirror state p = ground (arith, p)

  try_create_tray_controller-Mirror :
      (state : TrayThreadState) (env : Env W)
      → state.controller ≡ none
      → Mirror (try_create_tray_controller gui state env).0
  unfolding try_create_tray_controller
  try_create_tray_controller-Mirror state env p =
      after_creation-Mirror (create_tray_controller gui state.visibility env)
        (record state { next_retry_at = gui.now env.world + retry_interval })
        (create_tray_controller-Has state.visibility env)
        (none-Mirror (record state { next_retry_at = gui.now env.world + retry_interval }) p)

  -- The time stamps are no part of what the menu shows.
  stamped-ShowsIfAny :
      (state : TrayThreadState) (at : Option ℕ) (c : Option TrayController)
      → ShowsIfAny state c
      → ShowsIfAny (record state { last_warning_at = at }) c
  stamped-ShowsIfAny state at none h = h
  stamped-ShowsIfAny state at (some c) h = h

  warn_if_late-Mirror :
      (state : TrayThreadState) (env : Env W) → Mirror state → Mirror (warn_if_late gui state env).0
  unfolding warn_if_late
  warn_if_late-Mirror state env h =
      ground (arith, h, stamped-ShowsIfAny state (some (gui.now env.world)) state.controller h)

  start_waiting-controller :
      (now : ℕ) (state : TrayThreadState) (since : Option ℕ)
      → (start_waiting gui now state since).controller ≡ state.controller
  unfolding start_waiting
  start_waiting-controller now state none = refl
  start_waiting-controller now state (some since) = refl

  retry_if_due-Mirror :
      (state : TrayThreadState) (env : Env W)
      → state.controller ≡ none
      → Mirror (retry_if_due gui state env).0
  unfolding retry_if_due
  retry_if_due-Mirror state env p =
      ground (arith, none-Mirror state p, try_create_tray_controller-Mirror state env p)

  attempt_tray_creation-Mirror :
      (state : TrayThreadState) (env : Env W)
      → state.controller ≡ none
      → Mirror (attempt_tray_creation gui state env).0
  unfolding attempt_tray_creation
  attempt_tray_creation-Mirror state env p =
      let state₁ = start_waiting gui (gui.now env.world) state state.waiting_since in
      let (state₂, env₂) = retry_if_due gui state₁ env in
      warn_if_late-Mirror state₂ env₂ (
        retry_if_due-Mirror state₁ env
          (start_waiting-controller (gui.now env.world) state state.waiting_since ∙ p))

  pub create_if_missing-Mirror :
      (c : Option TrayController) (state : TrayThreadState) (env : Env W)
      → state.controller ≡ c
      → Mirror state
      → Mirror (create_if_missing gui c state env).0
  unfolding create_if_missing
  create_if_missing-Mirror none state env p h = attempt_tray_creation-Mirror state env p
  create_if_missing-Mirror (some c) state env p h = h
