-- ===== src/Tests/TrayThread.antt =====
-- The tray thread of src/tray/mod.rs at work. The state of its Windows is the clock.
use wardoff.Prelude.{ℕ, true, false, none, some, is_some, ok, List, [], ◌∷◌, ◌≡◌, refl}
use wardoff.Logger.Journal.{Env}
use wardoff.Blocker.Coordinator.{block, allow}
use wardoff.Tray.{Gui, TrayController, visible, block_item}
use wardoff.Tray
use wardoff.Tray.Thread.{TrayCommand, set_autostart, set_mode, TrayThreadState, initial_state}
use wardoff.Tray.Thread.Turns.{Turn, run_turn, run_turns}
use wardoff.Tray.Thread.Recovery.{explorer_restart}

abbrev gui : Gui ℕ
gui = record {
  append_items = λ w. (ok tt, w);
  icon_from_rgba = λ pixels w. (ok 1, w);
  build_icon = λ tip icon w. (ok tt, w);
  set_icon = λ icon w. (ok tt, w);
  set_tooltip = λ tip w. (ok tt, w);
  set_visible = λ shown w. (ok tt, w);
  now = λ w. w;
}

abbrev noon : Env ℕ
noon = record { world = 5000; journal = []; blocked_event_count = 0 }

-- The first turn creates the icon; then the mode and the autostart state are set.
abbrev turns : List Turn
turns =
    record { taskbar_created = false; menu_events = []; waiting = []; arrived = none }
    ∷ record {
      taskbar_created = false;
      menu_events = block_item ∷ [];
      waiting = set_mode allow ∷ [];
      arrived = some (set_autostart true);
    }
    ∷ []

abbrev state : TrayThreadState
state = (run_turns gui (λ w. (ok tt, w)) true turns (initial_state visible block 5000) noon).0

abbrev menu : TrayController
menu = record {
  visibility = visible;
  block_enabled = true;
  allow_enabled = false;
  autostart_checked = true;
  autostart_enabled = true;
}

explorer_restart_example :
    let turn : Turn = record {
      taskbar_created = true;
      menu_events = block_item ∷ [];
      waiting = [];
      arrived = none;
    } in
    let (stop, actions, s, env') = run_turn gui (λ w. (ok tt, w)) true turn state noon in
    stop ≡ false × actions ≡ [] × is_some s.controller ≡ true × s.waiting_since ≡ none
explorer_restart_example =
    explorer_restart gui (λ w. (ok tt, w)) true (block_item ∷ []) state noon (λ w. refl)
      (λ pixels w. refl) (λ tip i w. refl) (λ i w. refl) (λ tip w. refl) (λ b w. refl)
