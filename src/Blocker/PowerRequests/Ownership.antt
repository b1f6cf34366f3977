-- ===== src/Blocker/PowerRequests/Ownership.antt =====
-- The calls that `PowerRequests` makes, judged by a monitor that knows the rules of the Win32 calls.
use wardoff.Prelude.{
  ℕ, Bool, true, false, not, ◌&&◌, Option, none, some, List, [], ◌∷◌, ◌≡◌, refl, arith, is_ok,
  to_option, ◌⊎◌, inr, String, Result, ok, err, ◌==◌, if◌then◌else◌,
}
use wardoff.Blocker.PowerRequests.{
  RequestType, system_required, display_required, PowerApi, PowerRequests, default, is_acquired,
  mark_acquired, close, release, activate,
}
use wardoff.Blocker.PowerRequests.Outcome.{IsSettled, default-IsSettled}

-- A call and how it ended.
pub data Call : Type 0 where
  created : Option ℕ → Call
  sets clears : ℕ → RequestType → Bool → Call
  closes : ℕ → Bool → Call

module _ {W : Type 0} (api : PowerApi W) where
  -- The same system, which also keeps the calls made to it, newest first.
  abbrev pub traced : PowerApi (W × List Call)
  traced = record {
    create = λ w. let (r, w') = api.create w.0 in (r, (w', created (to_option r) ∷ w.1));
    set = λ h k w. let (r, w') = api.set h k w.0 in (r, (w', sets h k (is_ok r) ∷ w.1));
    clear = λ h k w. let (r, w') = api.clear h k w.0 in (r, (w', clears h k (is_ok r) ∷ w.1));
    close = λ h w. let (r, w') = api.close h w.0 in (r, (w', closes h (is_ok r) ∷ w.1));
  }

-- What the system holds for this process, or `fault` once a rule was broken.
pub data Ledger : Type 0 where
  idle fault : Ledger
  holding : ℕ → Bool × Bool → Ledger

abbrev unmark : RequestType → Bool × Bool → Bool × Bool
unmark system_required a = (false, a.1)
unmark display_required a = (a.0, false)

abbrev guarded : Bool → Ledger → Ledger
guarded b l = if b then l else fault

-- One handle at a time; a request is set only if it is not set, and cleared only if it is; only the
-- handle that is held is used. After `CloseHandle` the caller has given the handle up in any case; if
-- the call failed, the system has not, which `unclosed` below keeps.
abbrev judge : Call → Ledger → Ledger
judge (created none) l = l
judge (created (some h)) idle = holding h (false, false)
judge (created (some h)) _ = fault
judge (sets h k done) (holding g a) =
    guarded ((h == g) && not (is_acquired a k)) (holding g (if done then mark_acquired k a else a))
judge (clears h k done) (holding g a) =
    guarded ((h == g) && is_acquired a k) (holding g (if done then unmark k a else a))
judge (closes h done) (holding g a) = guarded (h == g) idle
judge _ _ = fault

unfoldable pub ledger : List Call → Ledger
ledger [] = idle
ledger (c ∷ cs) = judge c (ledger cs)

-- The handles that the system was asked to close and still has, newest first.
unfoldable pub unclosed : List Call → List ℕ
unclosed [] = []
unclosed (closes h false ∷ cs) = h ∷ unclosed cs
unclosed (_ ∷ cs) = unclosed cs

-- What the object believes to hold.
abbrev pub belief : PowerRequests → Ledger
belief p = elim p.handle [ none ↦ idle | some h ↦ holding h p.acquired ]

-- The operations of the object, with the renewal of `SleepBlocker::renew_after_resume`.
pub data Operation : Type 0 where
  activates releases renews : Operation

module _ {W : Type 0} (api : PowerApi W) where
  -- A failed close is returned at once.
  unfoldable pub renew : PowerRequests → W → Result (Unit {0}) String × PowerRequests × W
  renew p w =
      let (closed, p', w') = close api p w in
      elim closed [ err error ↦ (err error, p', w') | ok _ ↦ activate api p' w' ]

  unfoldable pub operate :
      Operation → PowerRequests → W → Result (Unit {0}) String × PowerRequests × W
  unfolding renew
  operate activates p w = activate api p w
  operate releases p w = release api p w
  operate renews p w = renew p w

  -- The operations one after the other, and whether each of them succeeded.
  unfoldable pub operate_all : List Operation → PowerRequests → W → Bool × PowerRequests × W
  unfolding operate
  operate_all [] p w = (true, p, w)
  operate_all (o ∷ os) p w =
      let (r, p', w') = operate o p w in
      let (rest, p'', w'') = operate_all os p' w' in (is_ok r && rest, p'', w'')

module _ {W : Type 0} (api : PowerApi W) where
  abbrev Agrees : PowerRequests → W × List Call → Type 0
  Agrees p w = IsSettled p × (ledger w.1 ≡ belief p)

  -- The object agrees with the monitor, and a success has left no handle open.
  abbrev After : List Call → Result (Unit {0}) String × PowerRequests × (W × List Call) → Type 0
  After before (r, p, w) = Agrees p w × ((is_ok r ≡ false) ⊎ (unclosed w.1 ≡ unclosed before))

  activate-After :
      (p : PowerRequests) (w : W × List Call) → Agrees p w → After w.1 (activate (traced api) p w)
  unfolding activate ledger unclosed
  activate-After p w h = ground arith

  release-After :
      (p : PowerRequests) (w : W × List Call) → Agrees p w → After w.1 (release (traced api) p w)
  unfolding release ledger unclosed
  release-After p w h = ground arith

  close-After :
      (p : PowerRequests) (w : W × List Call) → Agrees p w → After w.1 (close (traced api) p w)
  unfolding close ledger unclosed
  close-After p w h = ground arith

  renewed-After :
      (before : List Call) (x : Result (Unit {0}) String × PowerRequests × (W × List Call))
      → After before x
      → After before
          (elim x.0 [ err error ↦ (err error, x.1, x.2) | ok _ ↦ activate (traced api) x.1 x.2 ])
  renewed-After before (err error, p, w) h = h
  renewed-After before (ok _, p, w) h =
      let after = activate-After p w h.0 in ground (arith, h, after)

  operate-After :
      (o : Operation) (p : PowerRequests) (w : W × List Call)
      → Agrees p w
      → After w.1 (operate (traced api) o p w)
  unfolding operate renew
  operate-After activates p w h = activate-After p w h
  operate-After releases p w h = release-After p w h
  operate-After renews p w h = renewed-After w.1 (close (traced api) p w) (close-After p w h)

  operate_all-After :
      (os : List Operation) (p : PowerRequests) (w : W × List Call)
      → Agrees p w
      → let (succeeded, p', w') = operate_all (traced api) os p w in
        Agrees p' w' × ((succeeded ≡ false) ⊎ (unclosed w'.1 ≡ unclosed w.1))
  unfolding operate_all
  operate_all-After [] p w h = (h, inr refl)
  operate_all-After (o ∷ os) p w h =
      let (r, p', w') = operate (traced api) o p w in
      let first = operate-After o p w h in
      let rest = operate_all-After os p' w' first.0 in (rest.0, both_succeeded r first.1 rest.1)
    where
      both_succeeded :
          {a b c : List ℕ} {rest : Bool} (r : Result (Unit {0}) String)
          → (is_ok r ≡ false) ⊎ (b ≡ a)
          → (rest ≡ false) ⊎ (c ≡ b)
          → (is_ok r && rest ≡ false) ⊎ (c ≡ a)
      both_succeeded r first later = ground (arith, first, later)

  -- Any sequence of activations, releases and renewals of a new object, on any system: the calls
  -- break no rule of the monitor, and what the object believes to hold is what the calls say, but for
  -- the handles that the system failed to close; there are none of these if every operation
  -- succeeded.
  pub ledger-operate_all :
      (os : List Operation) (w : W)
      → let (succeeded, p, traced_world) = operate_all (traced api) os default (w, []) in
        (ledger traced_world.1 ≡ belief p) × ((succeeded ≡ false) ⊎ (unclosed traced_world.1 ≡ []))
  unfolding ledger default unclosed
  ledger-operate_all os w =
      let h = operate_all-After os default (w, []) (default-IsSettled, refl) in (h.0.1, h.1)
