-- ===== src/Blocker/PowerRequests.antt =====
-- `PowerRequests` and the `PowerApi` boundary of src/blocker/sleep.rs. A Win32 handle is a number.
pub mod Outcome
pub mod Ownership
use wardoff.Prelude.{
  ℕ, Bool, true, false, ◌&&◌, Option, none, some, List, [], ◌∷◌, ◌++◌, String, Result, ok, err,
  format, join, is_some, if◌then◌else◌,
}

pub data RequestType : Type 0 where
  system_required display_required : RequestType

-- The trait `PowerApi`; each call may change what the system remembers.
pub record PowerApi (W : Type 0) : Type 0 where
  pub create : W → Result ℕ String × W
  pub set : ℕ → RequestType → W → Result (Unit {0}) String × W
  pub clear : ℕ → RequestType → W → Result (Unit {0}) String × W
  pub close : ℕ → W → Result (Unit {0}) String × W

-- `acquired` of the source is an array of two, indexed as `REQUEST_TYPES` is.
pub record PowerRequests : Type 0 where
  pub handle : Option ℕ
  pub acquired : Bool × Bool

abbrev pub request_types : List RequestType
request_types = system_required ∷ display_required ∷ []

abbrev pub is_acquired : Bool × Bool → RequestType → Bool
is_acquired a system_required = a.0
is_acquired a display_required = a.1

abbrev pub mark_acquired : RequestType → Bool × Bool → Bool × Bool
mark_acquired system_required a = (true, a.1)
mark_acquired display_required a = (a.0, true)

unfoldable pub default : PowerRequests
default = record { handle = none; acquired = (false, false) }

unfoldable pub is_active : PowerRequests → Bool
is_active p = is_some p.handle && (p.acquired.0 && p.acquired.1)

abbrev errors_to_result : List String → Result (Unit {0}) String
errors_to_result [] = ok tt
errors_to_result (e ∷ es) = err (join "; " (e ∷ es))

abbrev push_error : Result (Unit {0}) String → List String → List String
push_error (ok _) errors = errors
push_error (err e) errors = errors ++ (e ∷ [])

module _ {W : Type 0} (api : PowerApi W) where
  close_taken : Option ℕ → W → Result (Unit {0}) String × W
  close_taken (some handle) w = api.close handle w
  close_taken none w = (ok tt, w)

  unfoldable pub close : PowerRequests → W → Result (Unit {0}) String × PowerRequests × W
  unfolding close_taken
  close p w =
      let (r, w') = close_taken p.handle w in
      (r, record { handle = none; acquired = (false, false) }, w')

  -- The loop of `release` over `REQUEST_TYPES` and what was acquired; it collects every error.
  clear_acquired : ℕ → Bool × Bool → List RequestType → List String → W → List String × W
  clear_acquired handle acquired [] errors w = (errors, w)
  clear_acquired handle acquired (kind ∷ kinds) errors w = elim (is_acquired acquired kind) [
    | true ↦
        let (r, w') = api.clear handle kind w in
        clear_acquired handle acquired kinds (push_error r errors) w'
    | false ↦ clear_acquired handle acquired kinds errors w
  ]

  clear_held : Option ℕ → Bool × Bool → W → List String × W
  unfolding clear_acquired
  clear_held (some handle) acquired w = clear_acquired handle acquired request_types [] w
  clear_held none acquired w = ([], w)

  unfoldable pub release : PowerRequests → W → Result (Unit {0}) String × PowerRequests × W
  unfolding clear_held close
  release p w =
      let (errors, w') = clear_held p.handle p.acquired w in
      let (closed, p', w'') = close p w' in (errors_to_result (push_error closed errors), p', w'')

  abbrev with_cleanup : String → Result (Unit {0}) String → String
  with_cleanup error (ok _) = error
  with_cleanup error (err cleanup_error) = format (error ∷ "; cleanup: " ∷ cleanup_error ∷ [])

  -- The loop of `activate`: the first refused request releases what was taken so far.
  set_requests :
      ℕ → List RequestType → PowerRequests → W → Result (Unit {0}) String × PowerRequests × W
  unfolding release
  set_requests handle [] p w = (ok tt, p, w)
  set_requests handle (kind ∷ kinds) p w =
      let (r, w') = api.set handle kind w in
      elim r [
        | ok _ ↦
            set_requests handle kinds (record p { acquired = mark_acquired kind p.acquired }) w'
        | err error ↦
            let (cleanup, p', w'') = release p w' in (err (with_cleanup error cleanup), p', w'')
      ]

  unfoldable pub activate : PowerRequests → W → Result (Unit {0}) String × PowerRequests × W
  unfolding set_requests is_active
  activate p w =
      let (created, w') = api.create w in
      let fresh : Result (Unit {0}) String × PowerRequests × W = elim created [
        | err error ↦ (err error, p, w')
        | ok handle ↦ set_requests handle request_types (record p { handle = some handle }) w'
      ] in
      if is_active p then (ok tt, p, w) else fresh
