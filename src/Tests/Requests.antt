-- ===== src/Tests/Requests.antt =====
-- Command lines and their dispatch (src/cli.rs, src/runtime_policy.rs) and the claim of the instance
-- (src/instance.rs) at work.
use wardoff.Prelude.{true, false, none, some, ◌≡◌, refl, ◌⊎◌}
use wardoff.Prelude.{ℕ, ◌+◌, ok, is_some, ltb}
use wardoff.Instance.{Mutexes, claim_primary_instance_with_retry}
use wardoff.Instance.Handles.{tracked, kept, retry_keeps_only_primary}
use wardoff.Prelude.{[], ◌∷◌}
use wardoff.Ipc.Status.{started, request, wake_status_server, turns, client, run}
use wardoff.Ipc.Status.Wakeup.{Ends, wakeup_not_lost}
use wardoff.Cli.{RequestedAction, WardoffCli, requested_action, is_accepted}
use wardoff.Cli.Actions.{requested_action_order}
use wardoff.Policy.Dispatch.{route, requested_mode, is_panic, route_safe}

abbrev tail_of_log : WardoffCli
tail_of_log = record {
  block = false;
  allow = false;
  status = false;
  hide = false;
  autostart = none;
  log = true;
  tail = some 5;
  elevated_relaunch = false;
  detached_runtime = false;
}

tail_of_log_accepted : is_accepted tail_of_log ≡ true
unfolding is_accepted
tail_of_log_accepted = refl

requested_action_order_example :
    ((false ≡ false) ⊎ (requested_action tail_of_log ≡ RequestedAction.allow))
    × ((false ≡ false) ⊎ (requested_action tail_of_log ≡ RequestedAction.status))
    × ((false ≡ false) ⊎ (requested_action tail_of_log ≡ RequestedAction.hide))
    × (requested_action tail_of_log ≡ requested_action tail_of_log)
    × ((true ≡ false) ⊎ (requested_action tail_of_log ≡ RequestedAction.log 5))
    × ((false ≡ false) ⊎ (false ≡ true) ⊎ (requested_action tail_of_log ≡ RequestedAction.block))
    × ((true ≡ true) ⊎ (requested_action tail_of_log ≡ RequestedAction.default))
requested_action_order_example = requested_action_order tail_of_log tail_of_log_accepted

route_safe_example :
    (is_panic (route true RequestedAction.hide) ≡ false)
    × (is_panic (route false RequestedAction.hide) ≡ false)
    × (requested_mode (route true RequestedAction.hide)
        ≡ requested_mode (route false RequestedAction.hide))
route_safe_example = route_safe RequestedAction.hide

-- The mutex exists until the third attempt; the state counts the sleeps.
abbrev freed_later : Mutexes ℕ
freed_later = record {
  current_mutex_name = λ w. (ok "WardoffInstance", w);
  create_mutex = λ name w. (ok 4, w);
  already_exists = λ w. ltb w 2;
  open_mutex = λ name w. (ok 5, w);
  close_handle = λ handle w. w;
  sleep = λ delay w. w + 1;
}

retry_keeps_only_primary_example :
    let (outcome, w) = claim_primary_instance_with_retry (tracked freed_later) 20 100 (0, 9 ∷ []) in
    (is_some outcome ≡ true) × (w.1 ≡ kept outcome (9 ∷ []))
retry_keeps_only_primary_example = retry_keeps_only_primary freed_later 20 100 0 (9 ∷ [])

wakeup_not_lost_example :
    let requested = request (run (turns ∷ []) started) in
    let woken = wake_status_server (run (client ∷ []) requested) in
    Ends (run (turns ∷ []) started).phase (run (turns ∷ []) woken)
wakeup_not_lost_example = wakeup_not_lost (turns ∷ []) (client ∷ []) (turns ∷ [])
