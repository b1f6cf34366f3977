-- ===== src/App/Wake.antt =====
-- Block mode around a sleep that the tray asked for (src/main.rs).
use wardoff.Prelude.{
  ℕ, Bool, true, false, none, some, String, Result, ok, err, is_ok, ◌≡◌, refl, ◌∙◌, subst, ◌⊎◌, inl,
  arith, if◌then◌else◌,
}
use wardoff.Logger.Journal.{Env, ipc}
use wardoff.Blocker.Windows.{Windows}
use wardoff.Blocker.ShutdownBlocker.{suspend, resume}
use wardoff.Blocker.Coordinator.{
  BlockerMode, block, allow, BlockerCoordinator, same_mode, renew_sleep_requests_after_resume,
}
use wardoff.Blocker.Power.{PowerAction}
use wardoff.Blocker.Coordinator
use wardoff.Blocker.Coordinator.Consistency.{IsConsistent}
use wardoff.Blocker.Coordinator.History.{set_mode-mode}
use wardoff.Ipc.{IpcResponse}
use wardoff.Policy.{
  PipeMode, IpcRequest, blocker_mode, PendingWakeRestore, pending_suspend, mark_system_suspended,
  pending_wake_restore_for_tray_power_action, pending_wake_restore_ready_for_resume,
}
use wardoff.App.{
  Application, Autostart, with_mode, set_mode, clear_pending_block_restore_after_wake,
}
use wardoff.App.Actions.{Acted, run_power_action-Acted}
use wardoff.App.Modes.{Switched, set_mode-Switched}
use wardoff.App.Power.{
  run_power_action, finish_restore, restore_pending, mark_pending,
  restore_block_after_wake_if_needed, handle_power_broadcast,
}
use wardoff.App.Requests.{handle_ipc_request, answer_mode}
use wardoff.App.Invariant.{sleeps}

success_mode : (mode : BlockerMode) → (true ≡ false) ⊎ (mode ≡ allow) → mode ≡ allow
success_mode mode h = ground arith

owes :
    (mode : BlockerMode) (action : PowerAction)
    → mode ≡ block
    → sleeps action ≡ true
    → (pending : PendingWakeRestore) × (pending_wake_restore_for_tray_power_action mode action
        ≡ some pending)
unfolding pending_wake_restore_for_tray_power_action
owes block PowerAction.sleep m s = (pending_suspend PowerAction.sleep, refl)
owes block PowerAction.hibernate m s = (pending_suspend PowerAction.hibernate, refl)
owes mode action m s = ground arith

owes_nothing :
    (mode : BlockerMode) (action : PowerAction)
    → mode ≡ allow
    → pending_wake_restore_for_tray_power_action mode action ≡ none
unfolding pending_wake_restore_for_tray_power_action
owes_nothing mode action m = ground arith

abbrev pub is_accepted : IpcResponse → Bool
is_accepted IpcResponse.ok = true
is_accepted _ = false

module _ {W : Type 0} (sys : Windows W) where
  acted :
      (action : PowerAction) (app app₁ : Application W) (env env₁ : Env W)
      → IsConsistent app.blocker_coordinator
      → run_power_action sys action app env ≡ (ok tt, app₁, env₁)
      → Acted sys app.blocker_coordinator.mode action (ok tt, app₁, env₁)
  acted action app app₁ env env₁ h e =
      subst (Acted sys app.blocker_coordinator.mode action) e
        (run_power_action-Acted sys action app env h)

  -- Windows does not always announce the suspend before the resume.
  abbrev pub wake : Bool → Application W → Env W → Application W × Env W
  wake announced app env =
      let app' = (handle_power_broadcast sys suspend app env).0 in
      handle_power_broadcast sys resume (if announced then app' else app) env

  resume_in_allow :
      (announced : Bool) (pending : PendingWakeRestore) (app : Application W) (env : Env W)
      → IsConsistent app.blocker_coordinator
      → app.blocker_coordinator.mode ≡ allow
      → app.pending_block_restore_after_wake ≡ some pending
      → let (app', env') = wake announced app env in
        (app'.pending_block_restore_after_wake ≡ none)
        × (same_mode app'.blocker_coordinator.mode block
            ≡ is_ok (Coordinator.set_mode sys block app.blocker_coordinator env).0)
  unfolding handle_power_broadcast restore_block_after_wake_if_needed restore_pending finish_restore
      renew_sleep_requests_after_resume with_mode mark_pending
      clear_pending_block_restore_after_wake pending_wake_restore_ready_for_resume
      mark_system_suspended
  resume_in_allow announced pending app env h m p =
      ground (arith, h, m, p, set_mode-mode sys block app.blocker_coordinator env h)

  resume_without_debt :
      (announced : Bool) (app : Application W) (env : Env W)
      → app.pending_block_restore_after_wake ≡ none
      → (wake announced app env).0.blocker_coordinator.mode ≡ app.blocker_coordinator.mode
  unfolding handle_power_broadcast restore_block_after_wake_if_needed restore_pending
      renew_sleep_requests_after_resume with_mode mark_pending pending_wake_restore_ready_for_resume
  resume_without_debt announced app env p = ground (arith, p)

  -- From a consistent coordinator: a sleep or hibernation that the tray asks for in Block mode, and
  -- that succeeds, is in Allow mode;
  -- the resume, with or without a suspend before it, ends in Block mode exactly when Block mode can
  -- be activated at that moment, and owes nothing afterwards.
  pub wake_restores_block :
      (announced : Bool) (action : PowerAction) (app app₁ : Application W) (env env₁ : Env W)
      → IsConsistent app.blocker_coordinator
      → app.blocker_coordinator.mode ≡ block
      → sleeps action ≡ true
      → run_power_action sys action app env ≡ (ok tt, app₁, env₁)
      → let (app₂, env₂) = wake announced app₁ env₁ in
        (app₁.blocker_coordinator.mode ≡ allow)
        × (app₂.pending_block_restore_after_wake ≡ none)
        × (same_mode app₂.blocker_coordinator.mode block
            ≡ is_ok (Coordinator.set_mode sys block app₁.blocker_coordinator env₁).0)
  wake_restores_block announced action app app₁ env env₁ h m s e =
      let (consistent, mode, owed) = acted action app app₁ env env₁ h e in
      let in_allow = success_mode app₁.blocker_coordinator.mode mode in
      let (pending, p) = owes app.blocker_coordinator.mode action m s in
      let resumed = resume_in_allow announced pending app₁ env₁ consistent in_allow (owed ∙ p) in
      (in_allow, resumed.0, resumed.1)

  -- From a consistent coordinator: after a power action that succeeds, a second one that succeeds
  -- before the resume forgets the restore that a tray sleep owes to Block mode: the resume leaves
  -- Allow mode.
  pub second_action_forgets_restore :
      (announced : Bool) (first second : PowerAction) (app app₁ app₂ : Application W)
      (env env₁ env₂ : Env W)
      → IsConsistent app.blocker_coordinator
      → run_power_action sys first app env ≡ (ok tt, app₁, env₁)
      → run_power_action sys second app₁ env₁ ≡ (ok tt, app₂, env₂)
      → (wake announced app₂ env₂).0.blocker_coordinator.mode ≡ allow
  second_action_forgets_restore announced first second app app₁ app₂ env env₁ env₂ h e₁ e₂ =
      let (consistent₁, mode₁, owed₁) = acted first app app₁ env env₁ h e₁ in
      let (consistent₂, mode₂, owed₂) = acted second app₁ app₂ env₁ env₂ consistent₁ e₂ in
      let in_allow₁ = success_mode app₁.blocker_coordinator.mode mode₁ in
      let in_allow₂ = success_mode app₂.blocker_coordinator.mode mode₂ in
      resume_without_debt announced app₂ env₂ (owed₂ ∙ owes_nothing _ second in_allow₁) ∙ in_allow₂

module _ {W : Type 0} (sys : Windows W) (autostart : Autostart W) where
  choice :
      (mode : PipeMode) (app : Application W) (env : Env W)
      → IsConsistent app.blocker_coordinator
      → Switched sys
          (blocker_mode mode)
          (clear_pending_block_restore_after_wake app)
          (set_mode sys (blocker_mode mode) ipc (clear_pending_block_restore_after_wake app) env)
  unfolding clear_pending_block_restore_after_wake
  choice mode app env h =
      set_mode-Switched sys (blocker_mode mode) ipc (clear_pending_block_restore_after_wake app) env
        h

  answered :
      (mode : BlockerMode) (announced : Bool) (r : Result (Unit {0}) String) (app : Application W)
      (env : Env W)
      → (is_ok r ≡ false) ⊎ (app.blocker_coordinator.mode ≡ mode)
      → app.pending_block_restore_after_wake ≡ none
      → let (response, app₁, env₁) = answer_mode sys autostart mode (r, app, env) in
        ((wake sys announced app₁ env₁).0.blocker_coordinator.mode ≡ app₁.blocker_coordinator.mode)
        × ((is_accepted response ≡ false) ⊎ (app₁.blocker_coordinator.mode ≡ mode))
  unfolding answer_mode
  answered mode announced (ok _) app env m p =
      (resume_without_debt sys announced app _ p, ground (arith, m))
  answered mode announced (err _) app env m p =
      (resume_without_debt sys announced app _ p, inl refl)

  -- From a consistent coordinator: after a request for a mode over the named pipe, the next resume
  -- keeps the mode that the request left, whatever was owed before, and a request that is answered
  -- with Ok left the requested mode.
  pub chosen_mode_survives_wake :
      (announced : Bool) (uptime : ℕ) (mode : PipeMode) (app : Application W) (env : Env W)
      → IsConsistent app.blocker_coordinator
      → let (response, app₁, env₁) =
          handle_ipc_request sys autostart uptime (IpcRequest.set_mode mode) app env in
        ((wake sys announced app₁ env₁).0.blocker_coordinator.mode ≡ app₁.blocker_coordinator.mode)
        × ((is_accepted response ≡ false) ⊎ (app₁.blocker_coordinator.mode ≡ blocker_mode mode))
  unfolding handle_ipc_request clear_pending_block_restore_after_wake
  chosen_mode_survives_wake announced uptime mode app env h =
      let cleared = clear_pending_block_restore_after_wake app in
      let (r, app₁, env₁) = set_mode sys (blocker_mode mode) ipc cleared env in
      let chosen = choice mode app env h in
      answered (blocker_mode mode) announced r app₁ env₁ chosen.1 chosen.4
