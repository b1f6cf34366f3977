-- ===== src/Tray/Thread/History.antt =====
-- The menu over every history of the tray thread (src/tray/mod.rs).
use wardoff.Prelude.{Bool, String, Result, List, ◌≡◌}
use wardoff.Logger.Journal.{Env}
use wardoff.App.Requests.{TrayAction}
use wardoff.Tray.{TrayVisibility, Gui}
use wardoff.Tray.Thread.{TrayThreadState}
use wardoff.Tray.Thread.Commanded.{Told, Remembers}
use wardoff.Tray.Thread.Mirror.{Mirror}

module _ {W : Type 0} (gui : Gui W) (wake : W → Result (Unit {0}) String × W) (connected : Bool)
    (visibility : TrayVisibility) where
  abbrev TurnDone : Told → Bool × List TrayAction × TrayThreadState × Env W → Type 0
  TurnDone told (stop, actions, state, env) = Remembers visibility told state × stop ≡ told.ended
