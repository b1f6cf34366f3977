-- ===== src/Tray/Thread/Commanded.antt =====
-- What the tray thread of src/tray/mod.rs remembers of the commands it was sent.
use wardoff.Prelude.{
  Bool, true, false, Option, none, some, String, Result, ok, err, List, [], ◌∷◌, ◌≡◌, refl, sym,
  subst, arith, if◌then◌else◌, ◌+◌,
}
use wardoff.Logger.Journal.{Env, Attempt}
use wardoff.Blocker.Coordinator.{BlockerMode}
use wardoff.Tray.{Gui, TrayVisibility, TrayController, create_tray_controller}
use wardoff.Tray.Thread.{
  TrayThreadState, TrayCommand, set_mode, set_autostart, shutdown, reset_tray_controller, apply_to,
  apply_current_tray_state, log_tray_update_failure_and_reset, reset_on_error, handle_tray_command,
  handle_taskbar_created, retry_interval,
}
use wardoff.Tray.Thread.Creation.{
  log_tray_creation_failure, shown, after_mode, after_creation, try_create_tray_controller,
  start_waiting, warn_if_late, attempt_tray_creation, create_if_missing, retry_if_due,
}
use wardoff.Tray.Thread.Turns.{Turn, to_list, handle_commands}

-- The values last commanded, up to the command that ends the thread.
pub record Told : Type 0 where
  pub ended : Bool
  pub mode : BlockerMode
  pub autostart : Bool

abbrev obey : TrayCommand → Told → Told
obey (set_mode mode) told = record told { mode = mode }
obey (set_autostart enabled) told = record told { autostart = enabled }
obey shutdown told = record told { ended = true }

abbrev pub obey_all : List TrayCommand → Told → Told
obey_all [] told = told
obey_all (command ∷ commands) told =
    let next = obey_all commands (obey command told) in if told.ended then told else next

abbrev pub obey_turns : List Turn → Told → Told
obey_turns [] told = told
obey_turns (turn ∷ turns) told =
    obey_turns turns (obey_all (to_list turn.arrived) (obey_all turn.waiting told))

pub obey_all-ended :
    (commands : List TrayCommand) (told : Told) → told.ended ≡ true → obey_all commands told ≡ told
obey_all-ended [] told h = refl
obey_all-ended (command ∷ commands) told h = rw h refl

if_going : {A : Type 0} (b : Bool) (x y : A) → b ≡ false → (if b then x else y) ≡ y
if_going b x y h = rw h refl

obey_all-going :
    (command : TrayCommand) (commands : List TrayCommand) (told : Told)
    → told.ended ≡ false
    → obey_all (command ∷ commands) told ≡ obey_all commands (obey command told)
obey_all-going command commands told h =
    if_going told.ended told (obey_all commands (obey command told)) h

pub obey_turns-ended :
    (turns : List Turn) (told : Told) → told.ended ≡ true → obey_turns turns told ≡ told
obey_turns-ended [] told h = refl
obey_turns-ended (turn ∷ turns) told h =
    rw (obey_all-ended turn.waiting told h)
      (rw (obey_all-ended (to_list turn.arrived) told h) (obey_turns-ended turns told h))

-- A state remembers the values.
abbrev pub Remembers : TrayVisibility → Told → TrayThreadState → Type 0
Remembers visibility told state =
    state.visibility ≡ visibility
    × state.mode ≡ told.mode
    × state.autostart_enabled ≡ told.autostart

module _ {W : Type 0} (gui : Gui W) (visibility : TrayVisibility) where
  module _ (told : Told) where
    pub handle_taskbar_created-Remembers :
        (created : Bool) (state : TrayThreadState) (env : Env W)
        → Remembers visibility told state
        → Remembers visibility told (handle_taskbar_created gui created state env).0
    unfolding handle_taskbar_created reset_tray_controller
    handle_taskbar_created-Remembers false state env h = h
    handle_taskbar_created-Remembers true state env h = h

    log_tray_creation_failure-Remembers :
        (error : String) (state : TrayThreadState) (env : Env W)
        → Remembers visibility told state
        → Remembers visibility told (log_tray_creation_failure error state env).0
    unfolding log_tray_creation_failure
    log_tray_creation_failure-Remembers error state env h = ground (arith, h)

    shown-Remembers :
        (c : TrayController) (state : TrayThreadState) (env : Env W)
        → Remembers visibility told state
        → Remembers visibility told (shown gui c state env).0
    unfolding shown
    shown-Remembers c state env h = ground (arith, h)

    after_mode-Remembers :
        (x : Result (Unit {0}) String × TrayController × Env W) (state : TrayThreadState)
        → Remembers visibility told state
        → Remembers visibility told (after_mode gui x state).0
    unfolding after_mode
    after_mode-Remembers (ok _, c, env) state h = shown-Remembers c state env h
    after_mode-Remembers (err e, c, env) state h = log_tray_creation_failure-Remembers e state env h

    after_creation-Remembers :
        (x : Attempt W TrayController) (state : TrayThreadState)
        → Remembers visibility told state
        → Remembers visibility told (after_creation gui x state).0
    unfolding after_creation
    after_creation-Remembers (ok c, env) state h = after_mode-Remembers _ state h
    after_creation-Remembers (err e, env) state h =
        log_tray_creation_failure-Remembers e state env h

    try_create_tray_controller-Remembers :
        (state : TrayThreadState) (env : Env W)
        → Remembers visibility told state
        → Remembers visibility told (try_create_tray_controller gui state env).0
    unfolding try_create_tray_controller
    try_create_tray_controller-Remembers state env h =
        after_creation-Remembers (create_tray_controller gui state.visibility env)
          (record state { next_retry_at = gui.now env.world + retry_interval }) h

    retry_if_due-Remembers :
        (state : TrayThreadState) (env : Env W)
        → Remembers visibility told state
        → Remembers visibility told (retry_if_due gui state env).0
    unfolding retry_if_due
    retry_if_due-Remembers state env h =
        ground (arith, h, try_create_tray_controller-Remembers state env h)

    start_waiting-Remembers :
        (state : TrayThreadState) (env : Env W)
        → Remembers visibility told state
        → Remembers visibility told
            (start_waiting gui (gui.now env.world) state state.waiting_since)
    unfolding start_waiting
    start_waiting-Remembers state env h = ground (arith, h)

    warn_if_late-Remembers :
        (state : TrayThreadState) (env : Env W)
        → Remembers visibility told state
        → Remembers visibility told (warn_if_late gui state env).0
    unfolding warn_if_late
    warn_if_late-Remembers state env h = ground (arith, h)

    pub create_if_missing-Remembers :
        (c : Option TrayController) (state : TrayThreadState) (env : Env W)
        → Remembers visibility told state
        → Remembers visibility told (create_if_missing gui c state env).0
    unfolding create_if_missing attempt_tray_creation
    create_if_missing-Remembers none state env h =
        let waiting = start_waiting gui (gui.now env.world) state state.waiting_since in
        let (state', env') = retry_if_due gui waiting env in
        warn_if_late-Remembers state' env'
          (retry_if_due-Remembers waiting env (start_waiting-Remembers state env h))
    create_if_missing-Remembers (some c) state env h = h

    apply_to-Remembers :
        (c : Option TrayController) (state : TrayThreadState) (env : Env W)
        → Remembers visibility told state
        → Remembers visibility told (apply_to gui c state env).1
    unfolding apply_to
    apply_to-Remembers none state env h = h
    apply_to-Remembers (some c) state env h = h

    reset_on_error-Remembers :
        (message : String → String) (x : Result (Unit {0}) String × TrayThreadState × Env W)
        → Remembers visibility told x.1
        → Remembers visibility told (reset_on_error gui message x).1
    unfolding reset_on_error log_tray_update_failure_and_reset reset_tray_controller
    reset_on_error-Remembers message (ok _, state, env) h = h
    reset_on_error-Remembers message (err e, state, env) h = h

  handle_tray_command-Remembers :
      (command : TrayCommand) (told : Told) (state : TrayThreadState) (env : Env W)
      → told.ended ≡ false
      → Remembers visibility told state
      → let (stop, r, state', env') = handle_tray_command gui command state env in
        Remembers visibility (obey command told) state' × stop ≡ (obey command told).ended
  unfolding handle_tray_command apply_current_tray_state
  handle_tray_command-Remembers (set_mode mode) told state env e h =
      let state' = record state { mode = mode } in
      let told' : Told = record told { mode = mode } in
      let k =
        reset_on_error-Remembers told' _ (apply_to gui state'.controller state' env)
          (apply_to-Remembers told' state'.controller state' env (h.0, refl, h.2)) in
      (k, sym e)
  handle_tray_command-Remembers (set_autostart enabled) told state env e h =
      let state' = record state { autostart_enabled = enabled } in
      let told' : Told = record told { autostart = enabled } in
      let k =
        reset_on_error-Remembers told' _ (apply_to gui state'.controller state' env)
          (apply_to-Remembers told' state'.controller state' env (h.0, h.1, refl)) in
      (k, sym e)
  handle_tray_command-Remembers shutdown told state env e h = (h, refl)

  -- What commands leave, and whether they end the thread.
  abbrev pub Done : Told → Bool × TrayThreadState × Env W → Type 0
  Done told (stop, state, env) = Remembers visibility told state × stop ≡ told.ended

  continued :
      (stop : Bool) (commands : List TrayCommand) (told : Told) (state : TrayThreadState)
      (env : Env W) (later : Bool × TrayThreadState × Env W)
      → stop ≡ told.ended
      → Remembers visibility told state
      → (told.ended ≡ false → Done (obey_all commands told) later)
      → Done (obey_all commands told) (if stop then (true, state, env) else later)
  continued true commands told state env later p h k =
      rw (obey_all-ended commands told (sym p)) (h, p)
  continued false commands told state env later p h k = k (sym p)

  pub handle_commands-Done :
      (commands : List TrayCommand) (told : Told) (state : TrayThreadState) (env : Env W)
      → told.ended ≡ false
      → Remembers visibility told state
      → Done (obey_all commands told) (handle_commands gui commands state env)
  unfolding handle_commands
  handle_commands-Done [] told state env e h = (h, sym e)
  handle_commands-Done (command ∷ commands) told state env e h =
      let first = handle_tray_command-Remembers command told state env e h in
      let (stop, _, state', env') = handle_tray_command gui command state env in
      subst (λ x. Done x (handle_commands gui (command ∷ commands) state env))
        (sym (obey_all-going command commands told e))
        (continued stop commands (obey command told) state' env'
          (handle_commands gui commands state' env') first.1 first.0
          λ going. handle_commands-Done commands (obey command told) state' env' going first.0)
