-- ===== src/Tray/Thread/Recovery.antt =====
-- The icon comes back after Explorer restarts (src/tray/mod.rs).
use wardoff.Prelude.{
  and_then, ℕ, Bool, true, false, is_some, [], Option, none, some, String, Result, ok, err, is_ok,
  List, ◌≡◌, refl, arith, ◌∙◌, ◌+◌,
}
use wardoff.Logger.Journal.{Env, Attempt}
use wardoff.Blocker.Coordinator.{BlockerMode}
use wardoff.Tray.{
  TrayVisibility, Gui, MenuId, TrayController, create_tray_controller, set_autostart_enabled,
  update_icon, hide_if_asked, hide_tray_icon, explained, fresh,
}
use wardoff.Tray
use wardoff.Tray.Thread.Turns.{Turn, run_turn, forward_tray_actions, handle_commands}
use wardoff.Tray.Thread.{
  TrayThreadState, handle_taskbar_created, reset_tray_controller, retry_interval,
}
use wardoff.Tray.Thread.Creation.{
  create_if_missing, attempt_tray_creation, retry_if_due, try_create_tray_controller,
  after_creation, after_mode, shown, start_waiting, warn_if_late,
}

and_then-ok :
    {W A B : Type 0} (x : Attempt W A) (next : A → Env W → Attempt W B)
    → is_ok x.0 ≡ true
    → ((a : A) (env : Env W) → is_ok (next a env).0 ≡ true)
    → is_ok (and_then x next).0 ≡ true
and_then-ok (ok a, env) next h f = f a env
and_then-ok (err e, env) next h f = ground (arith, h)

explained-ok :
    {W A : Type 0} (what : String) (call : W → Result A String × W) (env : Env W)
    → is_ok (call env.world).0 ≡ true
    → is_ok (explained what call env).0 ≡ true
explained-ok what call env h = ground (arith, h)

module _ {W : Type 0} (gui : Gui W) (append : (w : W) → is_ok (gui.append_items w).0 ≡ true)
    (icon : (pixels : List ℕ) (w : W) → is_ok (gui.icon_from_rgba pixels w).0 ≡ true)
    (build : (tip : String) (i : ℕ) (w : W) → is_ok (gui.build_icon tip i w).0 ≡ true)
    (set : (i : ℕ) (w : W) → is_ok (gui.set_icon i w).0 ≡ true)
    (tooltip : (tip : String) (w : W) → is_ok (gui.set_tooltip tip w).0 ≡ true)
    (hide : (b : Bool) (w : W) → is_ok (gui.set_visible b w).0 ≡ true) where
  update_icon-ok : (mode : BlockerMode) (env : Env W) → is_ok (update_icon gui mode env).0 ≡ true
  unfolding update_icon
  update_icon-ok mode env = grind (arith, icon, set, tooltip)

  set_mode-ok :
      (mode : BlockerMode) (c : TrayController) (env : Env W)
      → is_ok (Tray.set_mode gui mode c env).0 ≡ true
  unfolding Tray.set_mode
  set_mode-ok mode c env = ground (arith, update_icon-ok mode env)

  hide_if_asked-ok :
      (visibility : TrayVisibility) (env : Env W)
      → is_ok (hide_if_asked gui visibility env).0 ≡ true
  unfolding hide_if_asked hide_tray_icon
  hide_if_asked-ok TrayVisibility.visible env = refl
  hide_if_asked-ok TrayVisibility.hidden env = ground (arith, hide false env.world)

  create_tray_controller-ok :
      (visibility : TrayVisibility) (env : Env W)
      → is_ok (create_tray_controller gui visibility env).0 ≡ true
  unfolding create_tray_controller
  create_tray_controller-ok visibility env =
      grind (arith, append, icon, build, set_mode-ok, hide_if_asked-ok)

  shown_icon :
      (c : TrayController) (state : TrayThreadState) (env : Env W)
      → let s = (shown gui c state env).0 in is_some s.controller ≡ true × s.waiting_since ≡ none
  unfolding shown
  shown_icon c state env = ground arith

  after_creation_icon :
      (x : Attempt W TrayController) (state : TrayThreadState)
      → is_ok x.0 ≡ true
      → let s = (after_creation gui x state).0 in
        is_some s.controller ≡ true × s.waiting_since ≡ none
  unfolding after_creation after_mode
  after_creation_icon (ok c, env) state h = grind (arith, set_mode-ok, shown_icon)
  after_creation_icon (err e, env) state h = ground (arith, h)

  retry_if_due_icon :
      (state : TrayThreadState) (env : Env W)
      → state.next_retry_at ≡ gui.now env.world
      → let s = (retry_if_due gui state env).0 in
        is_some s.controller ≡ true × s.waiting_since ≡ none
  unfolding retry_if_due try_create_tray_controller
  retry_if_due_icon state env h = ground (
    arith,
    h,
    after_creation_icon (create_tray_controller gui state.visibility env)
        (record state { next_retry_at = gui.now env.world + retry_interval })
        (create_tray_controller-ok state.visibility env),
  )

  warn_if_late_icon :
      (state : TrayThreadState) (env : Env W)
      → is_some state.controller ≡ true × state.waiting_since ≡ none
      → let s = (warn_if_late gui state env).0 in
        is_some s.controller ≡ true × s.waiting_since ≡ none
  unfolding warn_if_late
  warn_if_late_icon state env h = ground (arith, h)

  start_waiting-next_retry_at :
      (now : ℕ) (state : TrayThreadState) (since : Option ℕ)
      → (start_waiting gui now state since).next_retry_at ≡ state.next_retry_at
  unfolding start_waiting
  start_waiting-next_retry_at now state none = refl
  start_waiting-next_retry_at now state (some since) = refl

  attempt_tray_creation_icon :
      (state : TrayThreadState) (env : Env W)
      → state.next_retry_at ≡ gui.now env.world
      → let s = (attempt_tray_creation gui state env).0 in
        is_some s.controller ≡ true × s.waiting_since ≡ none
  unfolding attempt_tray_creation
  attempt_tray_creation_icon state env h =
      let state₁ = start_waiting gui (gui.now env.world) state state.waiting_since in
      let (state₂, env₂) = retry_if_due gui state₁ env in
      warn_if_late_icon state₂ env₂ (
        retry_if_due_icon state₁ env
          (start_waiting-next_retry_at (gui.now env.world) state state.waiting_since ∙ h))

-- When every drawing call succeeds, a turn in which Explorer's restart is seen and no command
-- arrives sends no action, does not end the thread, and leaves an icon with no wait pending, in any
-- state the thread may be in.
pub explorer_restart :
    {W : Type 0} (gui : Gui W) (wake : W → Result (Unit {0}) String × W) (connected : Bool)
    (ids : List MenuId) (state : TrayThreadState) (env : Env W)
    → ((w : W) → is_ok (gui.append_items w).0 ≡ true)
    → ((pixels : List ℕ) (w : W) → is_ok (gui.icon_from_rgba pixels w).0 ≡ true)
    → ((tip : String) (i : ℕ) (w : W) → is_ok (gui.build_icon tip i w).0 ≡ true)
    → ((i : ℕ) (w : W) → is_ok (gui.set_icon i w).0 ≡ true)
    → ((tip : String) (w : W) → is_ok (gui.set_tooltip tip w).0 ≡ true)
    → ((b : Bool) (w : W) → is_ok (gui.set_visible b w).0 ≡ true)
    → let turn : Turn = record {
      taskbar_created = true;
      menu_events = ids;
      waiting = [];
      arrived = none;
    } in
      let (stop, actions, s, env') = run_turn gui wake connected turn state env in
      stop ≡ false × actions ≡ [] × is_some s.controller ≡ true × s.waiting_since ≡ none
unfolding run_turn handle_taskbar_created reset_tray_controller forward_tray_actions handle_commands
    create_if_missing wardoff.Logger.Journal.log_event
explorer_restart gui wake connected ids state env append icon build set tooltip hide =
    let now = gui.now env.world in
    let (state₁, env₁) = handle_taskbar_created gui true state env in
    let h = attempt_tray_creation_icon gui append icon build set tooltip hide state₁ env₁ refl in
    (refl, refl, h.0, h.1)
