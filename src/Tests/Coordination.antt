-- ===== src/Tests/Coordination.antt =====
-- The coordinator of src/blocker/mod.rs at work.
use wardoff.Prelude.{
  ℕ, true, false, ok, is_ok, List, [], ◌∷◌, ◌≡◌, ◌≢◌, refl, ◌⊎◌, arith, if◌then◌else◌,
}
use wardoff.Blocker.PowerRequests
use wardoff.Blocker.SleepBlocker
use wardoff.Blocker.ShutdownBlocker.{handle_query_end_session, handle_end_session}
use wardoff.Blocker.Remote
use wardoff.Blocker.Update.Worker as Update
use wardoff.Blocker.Local
use wardoff.Blocker.Coordinator.{
  block, allow, BlockerCoordinator, same_mode, set_mode, layer_status, forced_shutdown_cleanup,
  idle,
}
use wardoff.Blocker.Coordinator.Consistency.{IsConsistent, OthersIdle, idle-IsConsistent}
use wardoff.Blocker.Coordinator.Switching.{set_mode-block, set_mode-allow}
use wardoff.Blocker.Coordinator.History.{
  Operation, sets_mode, resumes, local_turn, operate_all, query_follows_mode,
}
use wardoff.Blocker.Coordinator.Forced.{refused_allow_strands, block_after_session_end_unprotected}
use wardoff.Tests.{machine, here}

-- Block mode with Layer 1 registered, and the other layers not running.
abbrev pub blocking : BlockerCoordinator
blocking = record idle {
  mode = block;
  shutdown_blocker = record {
    reason_registered = true;
    blocker_active = true;
    cleanup_started = false;
  };
}

pub blocking-IsConsistent : IsConsistent blocking
unfolding SleepBlocker.default PowerRequests.default Local.default Remote.default Update.default
blocking-IsConsistent = ground arith

set_mode-block_example :
    let (r, c, env) = set_mode (machine true) block idle here in
    IsConsistent c
    × (is_ok r ≡ same_mode c.mode block)
    × (SleepBlocker.is_active c.sleep_blocker ≡ is_ok r)
    × ((is_ok r ≡ true) ⊎ OthersIdle c)
set_mode-block_example = set_mode-block (machine true) idle here idle-IsConsistent refl

set_mode-allow_example :
    let (r, c, env) = set_mode (machine true) allow blocking here in
    IsConsistent c × (is_ok r ≡ same_mode c.mode allow) × (is_ok r ≡ true) × OthersIdle c
set_mode-allow_example = set_mode-allow (machine true) blocking here blocking-IsConsistent refl

abbrev history : List Operation
history = sets_mode block ∷ local_turn ∷ resumes ∷ sets_mode allow ∷ []

query_follows_mode_example :
    let (c, env) = operate_all (machine true) history idle here in
    ((handle_query_end_session c.shutdown_blocker 0 env).0
      ≡ (if same_mode c.mode block then 0 else 1))
    × ((c.mode ≡ block) ⊎ OthersIdle c)
query_follows_mode_example = query_follows_mode (machine true) history 0 here

refused_allow_strands_example :
    let (r, c, env) = set_mode (machine false) allow blocking here in
    (is_ok r ≡ false)
    × (set_mode (machine false) block c env ≡ (ok false, c, env))
    × (layer_status c ≡ record {
      shutdown = true;
      local_shutdown = false;
      update = false;
      remote = false;
      sleep = false;
    })
refused_allow_strands_example =
    refused_allow_strands (machine false) blocking here blocking-IsConsistent refl refl

abbrev ending : ℕ
ending = 1

one_is_not_zero : ending ≢ 0
one_is_not_zero = omega arith

block_after_session_end_unprotected_example :
    let (runs, b, env₁) =
      handle_end_session (machine true) blocking.shutdown_blocker ending true here in
    let (c₁, env₂) =
      forced_shutdown_cleanup (machine true) (record blocking { shutdown_blocker = b }) env₁ in
    let (r, c₂, env₃) = set_mode (machine true) block c₁ env₂ in
    ((handle_query_end_session c₂.shutdown_blocker 0 env₃).0 ≡ 1)
    × ((is_ok r ≡ false) ⊎ ((layer_status c₂).shutdown ≡ true))
block_after_session_end_unprotected_example =
    block_after_session_end_unprotected (machine true) blocking ending 0 here blocking-IsConsistent
      refl one_is_not_zero
