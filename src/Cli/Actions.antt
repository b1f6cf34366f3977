-- ===== src/Cli/Actions.antt =====
-- Which action a command line of src/cli.rs asks for.
use wardoff.Prelude.{true, false, ◌||◌, is_some, ◌≡◌, ◌⊎◌, arith}
use wardoff.Cli.{
  RequestedAction, WardoffCli, requested_action, is_accepted, or_default, or_autostart,
}

-- On a command line that the parser accepts, the order in which `requested_action` asks the
-- switches does not matter but for `--hide` with `--block`: each of `--allow`, `--status`, `--hide`,
-- `--autostart` and `--log` is the action when it is given, `--log` with its `--tail` or the default,
-- `--block` is when it is given without `--hide`, and without any of them the action is the default.
pub requested_action_order :
    (cli : WardoffCli)
    → is_accepted cli ≡ true
    → ((cli.allow ≡ false) ⊎ (requested_action cli ≡ RequestedAction.allow))
      × ((cli.status ≡ false) ⊎ (requested_action cli ≡ RequestedAction.status))
      × ((cli.hide ≡ false) ⊎ (requested_action cli ≡ RequestedAction.hide))
      × (requested_action cli ≡ or_autostart cli.autostart (requested_action cli))
      × ((cli.log ≡ false) ⊎ (requested_action cli ≡ RequestedAction.log (or_default cli.tail)))
      × ((cli.block ≡ false) ⊎ (cli.hide ≡ true) ⊎ (requested_action cli ≡ RequestedAction.block))
      × ((cli.allow
              || (cli.status || (cli.hide || (is_some cli.autostart || (cli.log || cli.block))))
            ≡ true)
          ⊎ (requested_action cli ≡ RequestedAction.default))
unfolding requested_action is_accepted
requested_action_order cli h = ground arith
