-- ===== src/Blocker/PowerRequests/Outcome.antt =====
-- What `activate`, `release` and `close` of src/blocker/sleep.rs leave behind, whatever Windows answers.
use wardoff.Prelude.{if◌then◌else◌, ◌≡◌, refl, arith, is_ok, is_some}
use wardoff.Blocker.PowerRequests.{
  PowerApi, PowerRequests, default, is_active, close, release, activate,
}

-- Between two calls the object owns nothing, or a handle with both requests.
pub record IsSettled (p : PowerRequests) : Type 0 where
  pub system_follows : p.acquired.0 ≡ is_some p.handle
  pub display_follows : p.acquired.1 ≡ is_some p.handle

pub default-IsSettled : IsSettled default
unfolding default
default-IsSettled = record { system_follows = refl; display_follows = refl }

module _ {W : Type 0} (api : PowerApi W) where
  pub close_empties : (p : PowerRequests) (w : W) → (close api p w).1 ≡ default
  unfolding close default
  close_empties p w = refl

  -- Whatever was held and whatever calls fail, `release` leaves the state of a new object.
  pub release_empties : (p : PowerRequests) (w : W) → (release api p w).1 ≡ default
  unfolding release default
  release_empties p w = refl

  -- On an object that holds nothing or a handle with both requests, acquisition is all or nothing and
  -- leaves such an object: success is reported exactly when the pair of requests is held,
  -- and a failure leaves the state of a new object.
  pub activate_all_or_nothing :
      (p : PowerRequests) (w : W)
      → IsSettled p
      → let (r, p', w') = activate api p w in
        IsSettled p' × (is_ok r ≡ is_active p') × (p' ≡ (if is_active p' then p' else default))
  unfolding activate default
  activate_all_or_nothing p w h = ground arith
