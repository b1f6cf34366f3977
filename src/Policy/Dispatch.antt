-- ===== src/Policy/Dispatch.antt =====
-- The dispatch of `run_main` and `handle_runtime_request` (src/main.rs) over the actions.
use wardoff.Prelude.{Bool, true, false, Option, none, some, ◌≡◌, arith, if◌then◌else◌}
use wardoff.Blocker.Coordinator.{BlockerMode}
use wardoff.Cli.{RequestedAction, is_read_only}
use wardoff.Policy.{
  IpcRequest, set_mode, set_autostart, RuntimeOptions, runtime_options_for, ipc_request_for,
  blocker_mode,
}

-- What a process ends up doing: as the primary instance it starts a runtime or changes the
-- autostart task, as a secondary one it forwards a request; reading needs neither.
pub data Route : Type 0 where
  reads : RequestedAction → Route
  starts : RuntimeOptions → Route
  forwards : IpcRequest → Route
  changes_autostart : Bool → Route
  panics : Route

abbrev start_with : Option RuntimeOptions → Route
start_with none = panics
start_with (some options) = starts options

abbrev forward : Option IpcRequest → Route
forward none = panics
forward (some request) = forwards request

-- `handle_runtime_request` past the elevation and console steps, by what the instance claim says.
route_runtime : Bool → RequestedAction → Route
route_runtime is_primary action =
    if is_primary then start_with (runtime_options_for action) else forward (ipc_request_for action)

route_action : Bool → RequestedAction → Route
unfolding route_runtime
route_action is_primary (RequestedAction.autostart enabled) =
    if is_primary then changes_autostart enabled else forwards (set_autostart enabled)
route_action is_primary RequestedAction.status = panics
route_action is_primary (RequestedAction.log tail) = panics
route_action is_primary action = route_runtime is_primary action

-- `handle_read_only_request`.
unfoldable pub handle_read_only_request : RequestedAction → Route
handle_read_only_request RequestedAction.status = reads RequestedAction.status
handle_read_only_request (RequestedAction.log tail) = reads (RequestedAction.log tail)
handle_read_only_request _ = panics

unfoldable pub route : Bool → RequestedAction → Route
unfolding route_action handle_read_only_request
route is_primary action =
    if is_read_only action then handle_read_only_request action else route_action is_primary action

-- The mode that a route asks for.
abbrev pub requested_mode : Route → Option BlockerMode
requested_mode (starts options) = some options.initial_mode
requested_mode (forwards (set_mode mode)) = some (blocker_mode mode)
requested_mode _ = none

abbrev pub is_panic : Route → Bool
is_panic panics = true
is_panic _ = false

-- No `unreachable!` is reached, in a primary or a secondary process; and both ask for the same mode
-- for the same command line.
pub route_safe :
    (action : RequestedAction)
    → (is_panic (route true action) ≡ false)
      × (is_panic (route false action) ≡ false)
      × (requested_mode (route true action) ≡ requested_mode (route false action))
unfolding route is_read_only runtime_options_for ipc_request_for blocker_mode
route_safe action = ground arith
