-- ===== src/Cli.antt =====
-- The command line, src/cli.rs. The parser itself is the crate `clap`: a parsed command line is a
-- record, and `is_accepted` says what the attributes of its fields make the parser refuse.
pub mod Actions
use wardoff.Prelude.{
  ℕ, Bool, true, false, not, ◌&&◌, ◌||◌, Option, none, some, is_some, if◌then◌else◌,
}
use wardoff.Blocker.Coordinator.{BlockerMode, LayerStatus}

pub data RequestedAction : Type 0 where
  default block allow status hide : RequestedAction
  autostart : Bool → RequestedAction
  log : ℕ → RequestedAction

unfoldable pub is_read_only : RequestedAction → Bool
is_read_only RequestedAction.status = true
is_read_only (RequestedAction.log tail) = true
is_read_only _ = false

pub data CliAutostartState : Type 0 where
  on off : CliAutostartState

pub record WardoffCli : Type 0 where
  pub block : Bool
  pub allow : Bool
  pub status : Bool
  pub hide : Bool
  pub autostart : Option CliAutostartState
  pub log : Bool
  pub tail : Option ℕ
  pub elevated_relaunch : Bool
  pub detached_runtime : Bool

abbrev pub default_tail_line_count : ℕ
default_tail_line_count = 20

abbrev pub or_default : Option ℕ → ℕ
or_default none = default_tail_line_count
or_default (some n) = n

abbrev pub is_on : CliAutostartState → Bool
is_on on = true
is_on off = false

abbrev pub or_autostart : Option CliAutostartState → RequestedAction → RequestedAction
or_autostart none action = action
or_autostart (some state) action = RequestedAction.autostart (is_on state)

unfoldable pub requested_action : WardoffCli → RequestedAction
requested_action cli =
    if cli.allow
    then RequestedAction.allow
    else if cli.status
    then RequestedAction.status
    else if cli.hide
    then RequestedAction.hide
    else if cli.block
    then RequestedAction.block
    else or_autostart cli.autostart
        (if cli.log then RequestedAction.log (or_default cli.tail) else RequestedAction.default)

abbrev excludes : Bool → Bool → Bool
excludes given others = not (given && others)

-- `conflicts_with_all` and `requires` of each field; `clap` does not ask for a required switch that
-- conflicts with one that is given.
unfoldable pub is_accepted : WardoffCli → Bool
is_accepted cli =
    excludes cli.block (cli.allow || (cli.status || (started || cli.log)))
    && (excludes cli.allow (cli.block || (cli.status || (cli.hide || (started || cli.log))))
        && (excludes cli.status (cli.block || (cli.allow || (cli.hide || (started || cli.log))))
            && (excludes cli.hide (cli.allow || (cli.status || (started || cli.log)))
                && (excludes started
                      (cli.block || (cli.allow || (cli.status || (cli.hide || cli.log))))
                    && (excludes cli.log
                          (cli.block || (cli.allow || (cli.status || (cli.hide || started))))
                        && not (is_some cli.tail && not (cli.log || conflicting)))))))
  where
    started : Bool
    started = is_some cli.autostart

    conflicting : Bool
    conflicting = cli.block || (cli.allow || (cli.status || (cli.hide || started)))

pub data StatusState : Type 0 where
  block allow inactive : StatusState

-- `None` fields are left out of the JSON text.
pub record StatusOutput : Type 0 where
  pub state : StatusState
  pub layers : Option LayerStatus
  pub uptime_seconds : Option ℕ
  pub blocked_count : Option ℕ

abbrev pub state_of : BlockerMode → StatusState
state_of BlockerMode.block = StatusState.block
state_of BlockerMode.allow = StatusState.allow

unfoldable pub active_status : BlockerMode → LayerStatus → ℕ → ℕ → StatusOutput
active_status mode layers uptime_seconds blocked_count = record {
  state = state_of mode;
  layers = some layers;
  uptime_seconds = some uptime_seconds;
  blocked_count = some blocked_count;
}

unfoldable pub inactive_status : StatusOutput
inactive_status = record {
  state = StatusState.inactive;
  layers = none;
  uptime_seconds = none;
  blocked_count = none;
}
