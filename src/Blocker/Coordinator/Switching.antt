-- ===== src/Blocker/Coordinator/Switching.antt =====
-- What `set_mode` of src/blocker/mod.rs guarantees, whatever Windows answers.
use wardoff.Prelude.{
  true, false, not, String, Result, ok, err, ◌≡◌, refl, sym, ap, ◌∙◌, ◌⊎◌, inl, inr, arith, is_ok,
}
use wardoff.Logger.Journal.{Env}
use wardoff.Blocker.Windows.{Windows}
use wardoff.Blocker.SleepBlocker
use wardoff.Blocker.PowerRequests
use wardoff.Blocker.Remote
use wardoff.Blocker.Remote.Polling
use wardoff.Blocker.Update.Worker as Update
use wardoff.Blocker.Update.Lifecycle
use wardoff.Blocker.Local
use wardoff.Blocker.Local.Lifecycle as LocalLifecycle
use wardoff.Blocker.ShutdownBlocker
use wardoff.Blocker.Coordinator.{
  block, allow, BlockerCoordinator, same_mode, Outcome, activate_layers, activate_block_mode,
  activate_allow_mode, set_mode, rollback_failed_block_activation, rollback_if_failed, commit_mode,
}
use wardoff.Blocker.Coordinator.Consistency.{
  LayersInv, OthersIdle, IsConsistent, sleep-activate, deactivate_others-OthersIdle,
  OthersIdle-LayersInv,
}

module _ {W : Type 0} (sys : Windows W) where
  -- Activation in Allow mode: the invariants of the layers hold at the point where it stops, with
  -- both essential layers active at the end, and Layer 1 untouched before.
  abbrev Activated : Outcome W → Type 0
  Activated (r, c, env) =
      LayersInv c
      × (c.mode ≡ allow)
      × (c.shutdown_blocker.reason_registered ≡ is_ok r)
      × ((is_ok r ≡ false) ⊎ (SleepBlocker.is_active c.sleep_blocker ≡ true))

  activate_layers-Activated :
      (c : BlockerCoordinator) (env : Env W)
      → LayersInv c
      → c.mode ≡ allow
      → c.shutdown_blocker.reason_registered ≡ false
      → Activated (activate_layers sys c env)
  unfolding activate_layers ShutdownBlocker.activate
  activate_layers-Activated c env h m n =
      let (r₁, b₁, env₁) = Local.activate sys c.local_shutdown_blocker env in
      let (r₂, b₂, env₂) = Update.activate sys c.update_reboot_blocker env₁ in
      let (r₃, b₃, env₃) = Remote.activate sys c.remote_shutdown_blocker env₂ in
      ground (
        arith,
        LocalLifecycle.activate-Inv sys c.local_shutdown_blocker env h.local_inv,
        Lifecycle.activate-Inv sys c.update_reboot_blocker env₁ h.update_inv,
        Polling.activate-Inv sys c.remote_shutdown_blocker env₂ h.remote_inv,
        sleep-activate sys.power c.sleep_blocker env₃ h.sleep_settled,
      )

  -- The whole of an attempt to enter Block mode: both essential layers, or nothing.
  abbrev BlockAttempt : Outcome W → Type 0
  BlockAttempt (r, c, env) =
      LayersInv c
      × (c.mode ≡ allow)
      × (c.shutdown_blocker.reason_registered ≡ is_ok r)
      × (SleepBlocker.is_active c.sleep_blocker ≡ is_ok r)
      × ((is_ok r ≡ true) ⊎ OthersIdle c)

  rollback-idle :
      (error : String) (c : BlockerCoordinator) (env : Env W)
      → LayersInv c
      → c.shutdown_blocker.reason_registered ≡ false
      → let (message, c', env') = rollback_failed_block_activation sys error c env in
        OthersIdle c'
        × (c'.mode ≡ c.mode)
        × (c'.shutdown_blocker.reason_registered ≡ false)
        × (c'.shutdown_blocker.blocker_active ≡ false)
  unfolding rollback_failed_block_activation ShutdownBlocker.deactivate
  rollback-idle error c env h n = ground (arith, deactivate_others-OthersIdle sys c env h)

  idle_inactive :
      (c : BlockerCoordinator) → OthersIdle c → SleepBlocker.is_active c.sleep_blocker ≡ false
  unfolding SleepBlocker.is_active SleepBlocker.default PowerRequests.is_active
      PowerRequests.default
  idle_inactive c others = ground arith

  finish_attempt :
      (r : Result (Unit {0}) String) (c : BlockerCoordinator) (env : Env W)
      → Activated (r, c, env)
      → BlockAttempt (rollback_if_failed sys (r, c, env))
  unfolding rollback_if_failed
  finish_attempt (ok _) c env h = (h.0, h.1, h.2, ground arith, inl refl)
  finish_attempt (err error) c env h =
      let (message, c', env') = rollback_failed_block_activation sys error c env in
      let (others, mode, off, inactive) = rollback-idle error c env h.0 h.2 in
      (
        OthersIdle-LayersInv c' others (inactive ∙ sym off),
        mode ∙ h.1,
        off,
        idle_inactive c' others,
        inr others,
      )

  activate_block_mode-BlockAttempt :
      (c : BlockerCoordinator) (env : Env W)
      → IsConsistent c
      → c.mode ≡ allow
      → BlockAttempt (activate_block_mode sys c env)
  unfolding activate_block_mode
  activate_block_mode-BlockAttempt c env h m =
      let (r, c', env') = activate_layers sys c env in
      finish_attempt r c' env'
        (activate_layers-Activated c env h.layers m (h.registered ∙ ap (λ x. same_mode x block) m))

  -- From a consistent coordinator in Allow mode, and consistent again afterwards, entering Block mode
  -- is atomic, whatever Windows answers. If it succeeds, Layer 1 and the sleep layer are active; if it
  -- fails, the mode is Allow, Layer 1 is off and the other layers hold nothing.
  pub set_mode-block :
      (c : BlockerCoordinator) (env : Env W)
      → IsConsistent c
      → c.mode ≡ allow
      → let (r, c', env') = set_mode sys block c env in
        IsConsistent c'
        × (is_ok r ≡ same_mode c'.mode block)
        × (SleepBlocker.is_active c'.sleep_blocker ≡ is_ok r)
        × ((is_ok r ≡ true) ⊎ OthersIdle c')
  unfolding set_mode
  set_mode-block c env h m = ground (arith, activate_block_mode-BlockAttempt c env h m)

  layer_1-deactivate :
      (b : ShutdownBlocker.ShutdownBlocker) (env : Env W)
      → b.reason_registered ≡ true
      → b.blocker_active ≡ true
      → let (r, b', env') = ShutdownBlocker.deactivate sys b env in
        (is_ok r ≡ is_ok (sys.shutdown_block_reason_destroy env.world).0)
        × (b'.reason_registered ≡ not (is_ok r))
        × (b'.blocker_active ≡ not (is_ok r))
  unfolding ShutdownBlocker.deactivate
  layer_1-deactivate b env r a = ground arith

  activate_allow_mode-idle :
      (c : BlockerCoordinator) (env : Env W)
      → LayersInv c
      → c.shutdown_blocker.reason_registered ≡ true
      → let (r, c', env') = activate_allow_mode sys c env in
        OthersIdle c'
        × (c'.mode ≡ c.mode)
        × (is_ok r ≡ is_ok (sys.shutdown_block_reason_destroy env.world).0)
        × (c'.shutdown_blocker.reason_registered ≡ not (is_ok r))
        × (c'.shutdown_blocker.blocker_active ≡ not (is_ok r))
  unfolding activate_allow_mode
  activate_allow_mode-idle c env h on =
      let (r, b, env') = ShutdownBlocker.deactivate sys c.shutdown_blocker env in
      let layer_1 = layer_1-deactivate c.shutdown_blocker env on (h.layer_1_agrees ∙ on) in
      ground (
        arith,
        layer_1,
        deactivate_others-OthersIdle sys (record c { shutdown_blocker = b }) env'
            (record {
              local_inv = h.local_inv;
              update_inv = h.update_inv;
              remote_inv = h.remote_inv;
              sleep_settled = h.sleep_settled;
              layer_1_agrees = layer_1.2 ∙ sym layer_1.1;
            }),
      )

  leave_block :
      (r : Result (Unit {0}) String) (c : BlockerCoordinator) (env : Env W)
      → OthersIdle c
      → c.mode ≡ block
      → c.shutdown_blocker.reason_registered ≡ not (is_ok r)
      → c.shutdown_blocker.blocker_active ≡ not (is_ok r)
      → let (r', c', env') = commit_mode sys allow (r, c, env) in
        IsConsistent c'
        × (is_ok r' ≡ same_mode c'.mode allow)
        × (is_ok r' ≡ is_ok r)
        × OthersIdle c'
  unfolding commit_mode
  leave_block (ok _) c env others m reg act =
      ground (arith, OthersIdle-LayersInv (record c { mode = allow }) others-allow (act ∙ sym reg))
    where
      others-allow : OthersIdle (record c { mode = allow })
      others-allow = record {
        local_idle = others.local_idle;
        update_idle = others.update_idle;
        remote_idle = others.remote_idle;
        sleep_idle = others.sleep_idle;
      }
  leave_block (err _) c env others m reg act =
      ground (arith, OthersIdle-LayersInv c others (act ∙ sym reg))

  -- From a consistent coordinator in Block mode, and consistent again afterwards, leaving Block mode
  -- succeeds exactly when Windows lets Layer 1 go. The other layers hold nothing
  -- afterwards in both cases; after a failure the mode is still Block, with Layer 1 registered.
  pub set_mode-allow :
      (c : BlockerCoordinator) (env : Env W)
      → IsConsistent c
      → c.mode ≡ block
      → let (r, c', env') = set_mode sys allow c env in
        IsConsistent c'
        × (is_ok r ≡ same_mode c'.mode allow)
        × (is_ok r ≡ is_ok (sys.shutdown_block_reason_destroy env.world).0)
        × OthersIdle c'
  unfolding set_mode
  set_mode-allow c env h m =
      let (r, c', env') = activate_allow_mode sys c env in
      let on = h.registered ∙ ap (λ x. same_mode x block) m in
      let (others, mode, let_go, reg, act) = activate_allow_mode-idle c env h.layers on in
      ground (arith, leave_block r c' env' others (mode ∙ m) reg act, let_go)
