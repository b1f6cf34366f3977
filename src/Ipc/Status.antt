-- ===== src/Ipc/Status.antt =====
-- The status server of src/ipc.rs against `StatusShutdown`: its loop up to each wait, and the flag
-- that the application sets and then follows with a wake-up connection. The gate makes the test of
-- the flag together with the publication of the next pipe instance one step, and so the request.
pub mod Wakeup
use wardoff.Prelude.{Bool, true, false, List, [], ◌∷◌, if◌then◌else◌}

-- At the top of the loop, waiting for a client on a published instance that has one or has not, past
-- the test of the flag with a status request to send, waiting for the reply of the application's
-- thread, or out of the loop.
pub data Phase : Type 0 where
  at_gate sending awaiting stopped : Phase
  waiting : Bool → Phase

pub record StatusServer : Type 0 where
  pub phase : Phase
  pub requested : Bool

abbrev pub started : StatusServer
started = record { phase = at_gate; requested = false }

-- A turn of `run_status_server_loop` where no call fails, up to the next wait. A server that waits
-- without a client stays, and so does one whose request is not answered.
unfoldable pub server_turn : StatusServer → StatusServer
server_turn s = elim s.phase [
  | at_gate ↦ record s { phase = if s.requested then stopped else waiting false }
  | waiting connected ↦ record s {
    phase = if connected then (if s.requested then stopped else sending) else waiting false;
  }
  | sending ↦ record s { phase = awaiting }
  | awaiting ↦ s
  | stopped ↦ s
]

-- A connection to the pipe reaches an instance that waits; without one it fails and is ignored.
unfoldable pub connect : StatusServer → StatusServer
connect s = elim s.phase [ waiting connected ↦ record s { phase = waiting true } | _ ↦ s ]

-- The application's thread answers the request; the reply is written and the loop goes on.
unfoldable pub answer : StatusServer → StatusServer
answer s = elim s.phase [ awaiting ↦ record s { phase = at_gate } | _ ↦ s ]

-- The application's thread cannot be woken for the request that was sent: the loop goes on.
unfoldable pub stay_unwoken : StatusServer → StatusServer
stay_unwoken s = elim s.phase [ sending ↦ record s { phase = at_gate } | _ ↦ s ]

-- `StatusShutdown::request` and `wake_status_server`, the two halves of `begin_shutdown`.
unfoldable pub request : StatusServer → StatusServer
request s = record s { requested = true }

unfoldable pub wake_status_server : StatusServer → StatusServer
unfolding connect
wake_status_server s = connect s

-- What happens besides: the server's turns, clients, replies, a failed wake-up of the application's
-- thread, and a failed call, at which the loop breaks.
pub data Event : Type 0 where
  turns client answers unwoken fails : Event

unfoldable pub handle : Event → StatusServer → StatusServer
handle turns s = server_turn s
handle client s = connect s
handle answers s = answer s
handle unwoken s = stay_unwoken s
handle fails s = record s { phase = stopped }

unfoldable pub run : List Event → StatusServer → StatusServer
unfolding handle
run [] s = s
run (event ∷ events) s = run events (handle event s)
