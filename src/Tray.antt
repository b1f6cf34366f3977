-- ===== src/Tray.antt =====
-- The tray icon and its menu, src/tray/mod.rs. The crates `tray-icon` and `muda` draw it: their calls
-- are a parameter. Times are in milliseconds.
pub mod Icon
pub mod Thread
use wardoff.Prelude.{
  and_then, ℕ, Bool, true, false, not, Option, none, some, String, Result, ok, err, map_err, format,
  List, [], ◌∷◌, ◌++◌, if◌then◌else◌,
}
use wardoff.Logger.Journal.{Env, Attempt, tray, log_event, on_world}
use wardoff.Blocker.Coordinator.{BlockerMode, block, allow, same_mode}
use wardoff.App.Requests.{TrayAction}
use wardoff.Tray.Icon.{TrayIconState, blocked, allowed, icon_bytes}

pub data TrayVisibility : Type 0 where
  visible hidden : TrayVisibility

-- The crates' calls; an icon is a number.
pub record Gui (W : Type 0) : Type 0 where
  pub append_items : W → Result (Unit {0}) String × W
  pub icon_from_rgba : List ℕ → W → Result ℕ String × W
  pub build_icon : String → ℕ → W → Result (Unit {0}) String × W
  pub set_icon : ℕ → W → Result (Unit {0}) String × W
  pub set_tooltip : String → W → Result (Unit {0}) String × W
  pub set_visible : Bool → W → Result (Unit {0}) String × W
  pub now : W → ℕ

-- Which of the two mode items can be chosen, and the check mark, which the source keeps twice.
pub record TrayController : Type 0 where
  pub visibility : TrayVisibility
  pub block_enabled : Bool
  pub allow_enabled : Bool
  pub autostart_checked : Bool
  pub autostart_enabled : Bool

pub data MenuId : Type 0 where
  block_item allow_item autostart_item shutdown_item reboot_item sleep_item hibernate_item : MenuId
  quit_item other_item : MenuId

abbrev pub is_hidden : TrayVisibility → Bool
is_hidden visible = false
is_hidden hidden = true

unfoldable pub tooltip_for_mode : BlockerMode → String
tooltip_for_mode block = "Wardoff - Block mode"
tooltip_for_mode allow = "Wardoff - Allow mode"

visibility_label : TrayVisibility → String
visibility_label visible = "visible"
visibility_label hidden = "hidden"

abbrev icon_of : BlockerMode → TrayIconState
icon_of block = blocked
icon_of allow = allowed

abbrev icon_name : BlockerMode → String
icon_name block = "blocked"
icon_name allow = "allowed"

unfoldable pub sync_menu_state : BlockerMode → TrayController → TrayController
sync_menu_state mode controller = record controller {
  block_enabled = not (same_mode mode block);
  allow_enabled = not (same_mode mode allow);
}

unfoldable pub set_autostart_enabled : Bool → TrayController → TrayController
set_autostart_enabled enabled controller = record controller {
  autostart_checked = enabled;
  autostart_enabled = enabled;
}

unfoldable pub action_for_menu_id : MenuId → TrayController → Option TrayAction
action_for_menu_id block_item controller = some TrayAction.block
action_for_menu_id allow_item controller = some TrayAction.allow
action_for_menu_id autostart_item controller =
    some (TrayAction.set_autostart (not controller.autostart_enabled))
action_for_menu_id shutdown_item controller = some TrayAction.shutdown
action_for_menu_id reboot_item controller = some TrayAction.reboot
action_for_menu_id sleep_item controller = some TrayAction.sleep
action_for_menu_id hibernate_item controller = some TrayAction.hibernate
action_for_menu_id quit_item controller = some TrayAction.quit
action_for_menu_id other_item controller = none

abbrev push_action : Option TrayAction → List TrayAction → List TrayAction
push_action none actions = actions
push_action (some action) actions = action ∷ actions

-- The menu events received since the last turn, in order.
unfoldable pub drain_actions : List MenuId → TrayController → List TrayAction
drain_actions [] controller = []
drain_actions (id ∷ ids) controller =
    push_action (action_for_menu_id id controller) (drain_actions ids controller)

module _ {W : Type 0} where
  -- A call whose error is explained.
  abbrev pub explained : {A : Type 0} → String → (W → Result A String × W) → Env W → Attempt W A
  explained what call env =
      let (r, env') = on_world call env in
      (map_err (λ error. format (what ∷ ": " ∷ error ∷ [])) r, env')

module _ {W : Type 0} (gui : Gui W) where
  unfoldable pub update_icon : BlockerMode → Env W → Attempt W (Unit {0})
  unfolding tooltip_for_mode
  update_icon mode env =
      and_then
        (explained (format ("Wardoff could not render the " ∷ icon_name mode ∷ " tray icon" ∷ []))
          (gui.icon_from_rgba (icon_bytes (icon_of mode))) env)
        λ icon env₁.
          and_then (explained "Wardoff could not update the tray icon" (gui.set_icon icon) env₁)
            λ _ env₂.
              explained "Wardoff could not update the tray tooltip"
                (gui.set_tooltip (tooltip_for_mode mode)) env₂

  -- A hidden icon is left alone, and a failed update leaves the menu already changed.
  unfoldable pub set_mode :
      BlockerMode → TrayController → Env W → Result (Unit {0}) String × TrayController × Env W
  unfolding update_icon
  set_mode mode controller env =
      let (r, env') = update_icon mode env in
      let synced = sync_menu_state mode controller in
      if is_hidden controller.visibility then (ok tt, synced, env) else (r, synced, env')

  unfoldable pub hide_tray_icon : Env W → Attempt W (Unit {0})
  hide_tray_icon env =
      and_then (explained "Wardoff could not hide the tray icon" (gui.set_visible false) env)
        λ _ env'.
          (ok tt, log_event "tray_visibility_changed" tray "Wardoff hid the tray icon." true env')

  unfoldable pub hide_if_asked : TrayVisibility → Env W → Attempt W (Unit {0})
  unfolding hide_tray_icon
  hide_if_asked visible env = (ok tt, env)
  hide_if_asked hidden env = hide_tray_icon env

  abbrev pub fresh : TrayVisibility → TrayController
  fresh visibility = record {
    visibility = visibility;
    block_enabled = true;
    allow_enabled = true;
    autostart_checked = false;
    autostart_enabled = false;
  }

  -- `TrayController::new`. Its `set_mode` keeps the visibility and the check mark, and at the end
  -- only a record is written.
  unfoldable pub create_tray_controller : TrayVisibility → Env W → Attempt W TrayController
  unfolding set_mode hide_if_asked visibility_label tooltip_for_mode
  create_tray_controller visibility env =
      and_then (explained "Wardoff could not assemble the tray menu" gui.append_items env) λ _ env₁.
        and_then
          (explained "Wardoff could not build the blocked tray icon"
            (gui.icon_from_rgba (icon_bytes blocked)) env₁)
          λ icon env₂.
            and_then
              (explained "Wardoff could not create the tray icon"
                (gui.build_icon (tooltip_for_mode block) icon) env₂)
              λ _ env₃.
                let (r, controller, env₄) = set_mode block (fresh visibility) env₃ in
                and_then (r, env₄)
                  λ _ env₅. and_then (hide_if_asked visibility env₅) λ _ env₆. (
                    ok controller,
                    log_event "tray_initialized" tray
                        (format
                          ("Wardoff created a " ∷ visibility_label visibility ∷ " tray icon." ∷ []))
                        true env₆,
                  )
