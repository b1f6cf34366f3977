-- ===== src/Logger/Journal.antt =====
-- The queue of structured log records of src/logger/mod.rs, and the process state every component
-- shares: the operating system, that queue, and the counter of blocked events of src/blocker/mod.rs.
-- A record's timestamp is the clock's and is left out; the human-readable log lines are not state.
use wardoff.Prelude.{ℕ, ◌+◌, ◌%◌, ◌^◌, Bool, List, ◌∷◌, String, Result}

pub data EventSource : Type 0 where
  autostart application cli ipc local remote shutdown sleep tray update_orchestrator : EventSource

-- `EventSource::label`, the text stored in a record.
unfoldable pub label : EventSource → String
label autostart = "autostart"
label application = "application"
label cli = "cli"
label ipc = "ipc"
label local = "local"
label remote = "remote"
label shutdown = "shutdown"
label sleep = "sleep"
label tray = "tray"
label update_orchestrator = "update_orchestrator"

pub record LogRecord : Type 0 where
  pub event : String
  pub source : String
  pub action : String
  pub success : Bool

-- `world` is whatever the operating system remembers; `journal` holds the newest record first.
pub record Env (W : Type 0) : Type 0 where
  pub world : W
  pub journal : List LogRecord
  pub blocked_event_count : ℕ

-- A fallible call, with the state it leaves.
abbrev pub Attempt : Type 0 → Type 0 → Type 0
Attempt W A = Result A String × Env W

module _ {W : Type 0} where
  -- The sender of `LOG_COMMANDS` is set before any component starts, so a record is always queued.
  unfoldable pub log_event : String → EventSource → String → Bool → Env W → Env W
  log_event event source action success env = record env { journal = entry ∷ env.journal }
    where
      entry : LogRecord
      entry = record { event = event; source = label source; action = action; success = success }

  -- `fetch_add` on an `AtomicU64` wraps around.
  unfoldable pub record_blocked_event : Env W → Env W
  record_blocked_event env = record env {
    blocked_event_count = (env.blocked_event_count + 1) % 2 ^ 64;
  }

  -- A call that changes only the operating system.
  abbrev pub on_world {ℓ} : {A : Type ℓ} → (W → A × W) → Env W → A × Env W
  on_world call env = let (a, w) = call env.world in (a, record env { world = w })
