-- ===== src/Blocker/Coordinator/Consistency.antt =====
-- The invariant of `BlockerCoordinator` (src/blocker/mod.rs), and what each layer's calls do to it.
use wardoff.Prelude.{◌⊎◌, ◌≡◌, refl, arith, is_ok}
use wardoff.Logger.Journal.{Env}
use wardoff.Blocker.Windows.{Windows}
use wardoff.Blocker.PowerRequests.{PowerApi}
use wardoff.Blocker.PowerRequests
use wardoff.Blocker.PowerRequests.Outcome.{IsSettled, activate_all_or_nothing}
use wardoff.Blocker.SleepBlocker.{SleepBlocker}
use wardoff.Blocker.SleepBlocker
use wardoff.Blocker.Remote
use wardoff.Blocker.ShutdownBlocker
use wardoff.Blocker.Update.Worker as Update
use wardoff.Blocker.Remote.Polling
use wardoff.Blocker.Update.Lifecycle
use wardoff.Blocker.Update.Lifecycle.{IsIdle}
use wardoff.Blocker.Local
use wardoff.Blocker.Local.Lifecycle as LocalLifecycle
use wardoff.Blocker.Coordinator.{block, BlockerCoordinator, same_mode, deactivate_others, idle}

-- The layers' own invariants; they hold at any moment, also while a change of mode is under way.
pub record LayersInv (c : BlockerCoordinator) : Type 0 where
  pub local_inv : LocalLifecycle.Inv c.local_shutdown_blocker
  pub update_inv : Lifecycle.Inv c.update_reboot_blocker
  pub remote_inv : Polling.Inv c.remote_shutdown_blocker
  pub sleep_settled : IsSettled c.sleep_blocker.requests
  pub layer_1_agrees : c.shutdown_blocker.blocker_active ≡ c.shutdown_blocker.reason_registered

-- Layers 2 to 5 hold nothing: no worker, no power request.
pub record OthersIdle (c : BlockerCoordinator) : Type 0 where
  pub local_idle : c.local_shutdown_blocker ≡ Local.default
  pub update_idle : IsIdle c.update_reboot_blocker
  pub remote_idle : c.remote_shutdown_blocker ≡ Remote.default
  pub sleep_idle : c.sleep_blocker ≡ SleepBlocker.default

-- Between two operations: Layer 1 is registered in Block mode only, and Allow mode holds nothing.
pub record IsConsistent (c : BlockerCoordinator) : Type 0 where
  pub layers : LayersInv c
  pub registered : c.shutdown_blocker.reason_registered ≡ same_mode c.mode block
  pub allow_idle : (c.mode ≡ block) ⊎ OthersIdle c

module _ {W : Type 0} (api : PowerApi W) where
  -- The sleep layer is acquired as a whole or not at all.
  pub sleep-activate :
      (b : SleepBlocker) (env : Env W)
      → IsSettled b.requests
      → let (r, b', env') = SleepBlocker.activate api b env in
        IsSettled b'.requests × (is_ok r ≡ SleepBlocker.is_active b')
  unfolding SleepBlocker.activate SleepBlocker.is_active
  sleep-activate b env h = ground (arith, activate_all_or_nothing api b.requests env.world h)

  pub sleep-deactivate :
      (b : SleepBlocker) (env : Env W)
      → IsSettled b.requests
      → (SleepBlocker.deactivate api b env).0 ≡ SleepBlocker.default
  unfolding SleepBlocker.deactivate SleepBlocker.default PowerRequests.default PowerRequests.release
  sleep-deactivate b env h = ground arith

pub idle-IsConsistent : IsConsistent idle
unfolding SleepBlocker.default PowerRequests.default Local.default Remote.default
    ShutdownBlocker.new Update.default
idle-IsConsistent = ground arith

module _ {W : Type 0} (sys : Windows W) where
  -- Layers 2 to 5 are always left with nothing; the mode and Layer 1 are not touched.
  pub deactivate_others-OthersIdle :
      (c : BlockerCoordinator) (env : Env W)
      → LayersInv c
      → let (c', env') = deactivate_others sys c env in
        OthersIdle c' × (c'.mode ≡ c.mode) × (c'.shutdown_blocker ≡ c.shutdown_blocker)
  unfolding deactivate_others
  deactivate_others-OthersIdle c env h =
      let (b₁, env₁) = SleepBlocker.deactivate sys.power c.sleep_blocker env in
      let (b₂, env₂) = Remote.deactivate sys c.remote_shutdown_blocker env₁ in
      let (b₃, env₃) = Update.deactivate sys c.update_reboot_blocker env₂ in
      (
        record {
          local_idle =
              LocalLifecycle.deactivate_resets sys c.local_shutdown_blocker env₃ h.local_inv;
          update_idle = Lifecycle.deactivate-IsIdle sys c.update_reboot_blocker env₂ h.update_inv;
          remote_idle = Polling.deactivate_resets sys c.remote_shutdown_blocker env₁ h.remote_inv;
          sleep_idle = sleep-deactivate sys.power c.sleep_blocker env h.sleep_settled;
        },
        refl,
        refl,
      )

-- A coordinator whose other layers are idle satisfies their invariants.
pub OthersIdle-LayersInv :
    (c : BlockerCoordinator)
    → OthersIdle c
    → c.shutdown_blocker.blocker_active ≡ c.shutdown_blocker.reason_registered
    → LayersInv c
unfolding SleepBlocker.default PowerRequests.default Local.default Remote.default
OthersIdle-LayersInv c i a = ground (arith, i.update_idle)
