-- ===== src/Blocker/Coordinator/Forced.antt =====
-- States of src/blocker/mod.rs in which the mode and the protection differ.
use wardoff.Prelude.{
  ◌⊎◌, inr, ℕ, Bool, true, false, String, Result, ok, err, ◌≡◌, ◌≢◌, refl, sym, ap, ◌∙◌, arith,
  is_ok,
}
use wardoff.Logger.Journal.{Env}
use wardoff.Blocker.Windows.{Windows}
use wardoff.Blocker.SleepBlocker
use wardoff.Blocker.PowerRequests
use wardoff.Blocker.Remote
use wardoff.Blocker.Local
use wardoff.Blocker.Update.Worker as Update
use wardoff.Blocker.ShutdownBlocker.{
  handle_query_end_session, handle_end_session, should_run_end_session_cleanup,
}
use wardoff.Blocker.ShutdownBlocker
use wardoff.Blocker.Coordinator.{
  BlockerMode, block, allow, BlockerCoordinator, same_mode, set_mode, layer_status,
  forced_shutdown_cleanup, activate_layers, activate_block_mode, rollback_if_failed,
  rollback_failed_block_activation, deactivate_others,
}
use wardoff.Blocker.Coordinator.Consistency.{IsConsistent, OthersIdle}
use wardoff.Blocker.Coordinator.History.{set_mode_same}
use wardoff.Blocker.Coordinator.Switching.{set_mode-allow}

block_of_not_allow : (m : BlockerMode) → same_mode m allow ≡ false → same_mode m block ≡ true
block_of_not_allow m h = ground arith

stranded_status :
    (c : BlockerCoordinator)
    → IsConsistent c
    → OthersIdle c
    → same_mode c.mode block ≡ true
    → layer_status c ≡ record {
      shutdown = true;
      local_shutdown = false;
      update = false;
      remote = false;
      sleep = false;
    }
unfolding layer_status SleepBlocker.is_active SleepBlocker.default PowerRequests.is_active
    PowerRequests.default Remote.default Remote.is_active Local.default Local.is_active
    Update.is_active ShutdownBlocker.is_active
stranded_status c h others m = ground (arith, others.update_idle.inactive)

module _ {W : Type 0} (sys : Windows W) where
  -- From a consistent coordinator in Block mode, a change to Allow mode for which Windows refuses to
  -- destroy the shutdown reason fails; it leaves the mode at Block with layers 2 to 5 off, and
  -- a request for Block mode then answers success and changes nothing.
  pub refused_allow_strands :
      (c : BlockerCoordinator) (env : Env W)
      → IsConsistent c
      → c.mode ≡ block
      → is_ok (sys.shutdown_block_reason_destroy env.world).0 ≡ false
      → let (r, c', env') = set_mode sys allow c env in
        (is_ok r ≡ false)
        × (set_mode sys block c' env' ≡ (ok false, c', env'))
        × (layer_status c' ≡ record {
          shutdown = true;
          local_shutdown = false;
          update = false;
          remote = false;
          sleep = false;
        })
  refused_allow_strands c env h m refused =
      let (r, c', env') = set_mode sys allow c env in
      let (consistent, fails, follows, others) = set_mode-allow sys c env h m in
      let failed = follows ∙ refused in
      let still = block_of_not_allow c'.mode (sym fails ∙ failed) in
      (failed, set_mode_same sys block c' env' still, stranded_status c' consistent others still)

  -- With the reason still registered, activation leaves Layer 1 as it is.
  activate_layers_keeps :
      (c : BlockerCoordinator) (env : Env W)
      → c.shutdown_blocker.reason_registered ≡ true
      → (activate_layers sys c env).1.shutdown_blocker ≡ c.shutdown_blocker
  unfolding activate_layers ShutdownBlocker.activate
  activate_layers_keeps c env h = ground arith

  abbrev Unprotected : ShutdownBlocker.ShutdownBlocker → Bool → Type 0
  Unprotected b done = (b.blocker_active ≡ false) × ((done ≡ false) ⊎ (b.reason_registered ≡ true))

  rollback_if_failed_keeps :
      (r : Result (Unit {0}) String) (c : BlockerCoordinator) (env : Env W)
      → Unprotected c.shutdown_blocker true
      → let (r', c', env') = rollback_if_failed sys (r, c, env) in
        Unprotected c'.shutdown_blocker (is_ok r')
  unfolding rollback_if_failed rollback_failed_block_activation deactivate_others
      ShutdownBlocker.deactivate
  rollback_if_failed_keeps (ok _) c env h = ground arith
  rollback_if_failed_keeps (err e) c env h = ground arith

  set_mode_keeps :
      (c : BlockerCoordinator) (env : Env W)
      → c.mode ≡ allow
      → c.shutdown_blocker.blocker_active ≡ false
      → c.shutdown_blocker.reason_registered ≡ true
      → let (r, c', env') = set_mode sys block c env in Unprotected c'.shutdown_blocker (is_ok r)
  unfolding set_mode activate_block_mode
  set_mode_keeps c env m a r =
      let (done, c', env') = activate_layers sys c env in
      let same = activate_layers_keeps c env r in
      ground (
        arith,
        rollback_if_failed_keeps done c' env'
            (ap (λ b. b.blocker_active) same ∙ a, inr (ap (λ b. b.reason_registered) same ∙ r)),
      )

  -- From a consistent coordinator in Block mode: a session end that stops half-way leaves a Layer 1 that reports to be active and blocks nothing:
  -- after `WM_ENDSESSION` has run its cleanup in Block mode, the next shutdown query is agreed to also
  -- when a switch back to Block mode came before it; if that switch succeeded, the status shows an
  -- active Layer 1.
  pub block_after_session_end_unprotected :
      (c : BlockerCoordinator) (wparam lparam : ℕ) (env : Env W)
      → IsConsistent c
      → c.mode ≡ block
      → wparam ≢ 0
      → let (runs, b, env₁) = handle_end_session sys c.shutdown_blocker wparam true env in
        let (c₁, env₂) = forced_shutdown_cleanup sys (record c { shutdown_blocker = b }) env₁ in
        let (r, c₂, env₃) = set_mode sys block c₁ env₂ in
        ((handle_query_end_session c₂.shutdown_blocker lparam env₃).0 ≡ 1)
        × ((is_ok r ≡ false) ⊎ ((layer_status c₂).shutdown ≡ true))
  unfolding handle_end_session forced_shutdown_cleanup layer_status handle_query_end_session
      ShutdownBlocker.is_active
  block_after_session_end_unprotected c wparam lparam env h m n =
      let (runs, b, env₁) = handle_end_session sys c.shutdown_blocker wparam true env in
      let (c₁, env₂) = forced_shutdown_cleanup sys (record c { shutdown_blocker = b }) env₁ in
      ground (arith, set_mode_keeps c₁ env₂ refl (ground arith) (ground arith))
