-- ===== src/Ipc.antt =====
-- The named-pipe control server and its clients, src/ipc.rs.
pub mod Frame
pub mod Connect
pub mod Client
pub mod Control
pub mod Startup
pub mod Status
use wardoff.Prelude.{String}
use wardoff.Cli.{StatusOutput}

pub data IpcResponse : Type 0 where
  ok : IpcResponse
  status : StatusOutput → IpcResponse
  error : String → IpcResponse
