-- ===== src/Tray/Thread/Turns.antt =====
-- The loop of the tray thread in src/tray/mod.rs, a turn at a time.
use wardoff.Prelude.{
  Bool, true, false, Option, none, some, String, Result, ok, err, List, [], ◌∷◌, if◌then◌else◌,
}
use wardoff.Logger.Journal.{Env, tray, log_event, on_world}
use wardoff.App.Requests.{TrayAction}
use wardoff.Tray.{Gui, TrayController, MenuId, drain_actions}
use wardoff.Tray.Thread.{TrayThreadState, TrayCommand, handle_tray_command, handle_taskbar_created}
use wardoff.Tray.Thread.Creation.{create_if_missing}

-- What one turn of the loop finds: Explorer's message, the menu events, the commands that wait,
-- and the one that may arrive while it sleeps.
pub record Turn : Type 0 where
  pub taskbar_created : Bool
  pub menu_events : List MenuId
  pub waiting : List TrayCommand
  pub arrived : Option TrayCommand

abbrev pub to_list : Option TrayCommand → List TrayCommand
to_list none = []
to_list (some command) = command ∷ []

module _ {W : Type 0} (gui : Gui W) where
  log_wake : Result (Unit {0}) String × Env W → Env W
  log_wake (ok _, env) = env
  log_wake (err error, env) = log_event "tray_action_wake_failed" tray error false env

  -- The actions that reach the application, which is woken once if there are any.
  unfoldable pub forward_actions :
      (W → Result (Unit {0}) String × W) → Bool → List TrayAction → Env W → List TrayAction × Env W
  unfolding log_wake
  forward_actions wake true (action ∷ actions) env =
      (action ∷ actions, log_wake (on_world wake env))
  forward_actions wake true [] env = ([], env)
  forward_actions wake false actions env = ([], env)

  unfoldable pub forward_tray_actions :
      (W → Result (Unit {0}) String × W)
      → Bool
      → List MenuId
      → Option TrayController
      → Env W
      → List TrayAction × Env W
  unfolding forward_actions
  forward_tray_actions wake connected ids none env = ([], env)
  forward_tray_actions wake connected ids (some controller) env =
      forward_actions wake connected (drain_actions ids controller) env

  -- The commands waiting in the channel; `true` if one of them ends the thread.
  unfoldable pub handle_commands :
      List TrayCommand → TrayThreadState → Env W → Bool × TrayThreadState × Env W
  handle_commands [] state env = (false, state, env)
  handle_commands (command ∷ commands) state env =
      let (stop, _, state', env') = handle_tray_command gui command state env in
      let rest = handle_commands commands state' env' in if stop then (true, state', env') else rest

  -- One turn of the loop of `run_tray_thread`: whether it stops, and what the application is sent.
  unfoldable pub run_turn :
      (W → Result (Unit {0}) String × W)
      → Bool
      → Turn
      → TrayThreadState
      → Env W
      → Bool × List TrayAction × TrayThreadState × Env W
  unfolding handle_taskbar_created forward_tray_actions handle_commands create_if_missing
  run_turn wake connected turn state env =
      let (state₁, env₁) = handle_taskbar_created gui turn.taskbar_created state env in
      let (actions, env₂) =
        forward_tray_actions wake connected turn.menu_events state₁.controller env₁ in
      let (stopped, state₂, env₃) = handle_commands turn.waiting state₁ env₂ in
      let (state₃, env₄) = create_if_missing gui state₂.controller state₂ env₃ in
      let (stops, state₄, env₅) = handle_commands (to_list turn.arrived) state₃ env₄ in
      if stopped then (true, actions, state₂, env₃) else (stops, actions, state₄, env₅)

  -- The loop of `run_tray_thread`, until a command ends the thread.
  unfoldable pub run_turns :
      (W → Result (Unit {0}) String × W)
      → Bool
      → List Turn
      → TrayThreadState
      → Env W
      → TrayThreadState × Env W
  unfolding run_turn
  run_turns wake connected [] state env = (state, env)
  run_turns wake connected (turn ∷ turns) state env =
      let (stop, _, state', env') = run_turn wake connected turn state env in
      let rest = run_turns wake connected turns state' env' in if stop then (state', env') else rest
