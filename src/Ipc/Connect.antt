-- ===== src/Ipc/Connect.antt =====
-- The retry loops of src/ipc.rs: a client that connects to a pipe, and the server's first claim of
-- one. Times are in milliseconds.
pub mod Attempts
use wardoff.Prelude.{
  ℕ, zero, suc, ◌+◌, ◌-◌, leb, ◌==◌, min, Bool, true, false, not, ◌&&◌, Option, none, some, is_some,
  String, Result, ok, err, List, [], ◌∷◌, format, if◌then◌else◌,
}

-- `raw_os_error` of an error, as far as the program tells the codes apart.
pub data OsCode : Type 0 where
  file_not_found path_not_found pipe_busy access_denied other_code : OsCode

pub record IoError : Type 0 where
  pub raw_code : OsCode
  pub text : String

pub data ClientError : Type 0 where
  unavailable : ClientError
  transport : String → ClientError

abbrev pub pipe_connect_attempts : ℕ
pipe_connect_attempts = 20

abbrev pub pipe_connect_delay : ℕ
pipe_connect_delay = 100

abbrev pub initial_pipe_claim_attempts : ℕ
initial_pipe_claim_attempts = 10

abbrev pub initial_pipe_claim_delay : ℕ
initial_pipe_claim_delay = 100

-- Opening and creating pipes, the clock and the sleep; a handle is a number.
pub record Pipes (W : Type 0) : Type 0 where
  pub open_pipe : W → Result ℕ IoError × W
  pub create_pipe : W → Result ℕ IoError × W
  pub now : W → ℕ
  pub sleep : ℕ → W → W

control_pipe_access_denied_message : String
control_pipe_access_denied_message =
    "Wardoff could not send that control command to the active primary runtime. Non-elevated shells can control an elevated Wardoff runtime only for the same interactive Windows user. If Wardoff is running as a different user, close that runtime or relaunch the command from the matching account."

unfoldable pub map_connect_error : String → Bool → IoError → ClientError
unfolding control_pipe_access_denied_message
map_connect_error path is_control_pipe error = elim error.raw_code [
  | file_not_found ↦ unavailable
  | path_not_found ↦ unavailable
  | access_denied ↦
      if is_control_pipe
      then transport control_pipe_access_denied_message
      else transport (format ("Wardoff could not connect to " ∷ path ∷ ": " ∷ error.text ∷ []))
  | pipe_busy ↦
      transport
        (format ("Wardoff found a primary instance, but " ∷ path ∷ " is busy: " ∷ error.text ∷ []))
  | other_code ↦
      transport (format ("Wardoff could not connect to " ∷ path ∷ ": " ∷ error.text ∷ []))
]

unfoldable pub final_connect_error : String → Option OsCode → ClientError
final_connect_error path (some file_not_found) = unavailable
final_connect_error path (some path_not_found) = unavailable
final_connect_error path (some pipe_busy) =
    transport (format ("Wardoff found a primary instance, but " ∷ path ∷ " stayed busy." ∷ []))
final_connect_error path _ = transport (format ("Wardoff could not connect to " ∷ path ∷ "." ∷ []))

unfoldable pub is_worth_retrying : OsCode → Bool
is_worth_retrying file_not_found = true
is_worth_retrying path_not_found = true
is_worth_retrying pipe_busy = true
is_worth_retrying _ = false

abbrev pub bounded_delay : Option ℕ → ℕ
bounded_delay none = pipe_connect_delay
bounded_delay (some remaining) = min remaining pipe_connect_delay

unfoldable pub pipe_retry_delay : ℕ → Option ℕ → Option ℕ
pipe_retry_delay attempt remaining =
    if leb pipe_connect_attempts (attempt + 1)
    then none
    else if bounded_delay remaining == 0
    then none
    else some (bounded_delay remaining)

module _ {W : Type 0} (pipes : Pipes W) where
  unfoldable pub sleep_some : Option ℕ → W → Bool × W
  sleep_some none w = (false, w)
  sleep_some (some delay) w = (true, pipes.sleep delay w)

  unfoldable pub remaining_time : Option ℕ → W → Option ℕ
  remaining_time none w = none
  remaining_time (some deadline) w = some (deadline - pipes.now w)

  unfoldable pub wait_before_pipe_retry : ℕ → Option ℕ → W → Bool × W
  unfolding sleep_some remaining_time
  wait_before_pipe_retry attempt connect_deadline w =
      sleep_some (pipe_retry_delay attempt (remaining_time connect_deadline w)) w

  module _ (path : String) (is_control_pipe : Bool) (connect_deadline : Option ℕ) where
    unfoldable pub retry_or_fail :
        IoError → Bool × W → (W → Result ℕ ClientError × W) → W → Result ℕ ClientError × W
    retry_or_fail error (waited, w') again w =
        let later = again w' in
        if not (is_worth_retrying error.raw_code)
        then (err (map_connect_error path is_control_pipe error), w)
        else if waited
        then later
        else (err (map_connect_error path is_control_pipe error), w')

    unfoldable pub opened :
        Result ℕ IoError → W → (IoError → Result ℕ ClientError × W) → Result ℕ ClientError × W
    opened (ok pipe) w fails = (ok pipe, w)
    opened (err error) w fails = fails error

    -- `for attempt in 0..PIPE_CONNECT_ATTEMPTS`, by the number of attempts left.
    unfoldable pub attempts : ℕ → Option OsCode → W → Result ℕ ClientError × W
    unfolding retry_or_fail opened
    attempts zero last_error_code w = (err (final_connect_error path last_error_code), w)
    attempts (suc left) last_error_code w =
        let (r, w') = pipes.open_pipe w in
        opened r w' λ error.
          retry_or_fail error
            (wait_before_pipe_retry (pipe_connect_attempts - suc left) connect_deadline w')
            (attempts left (some error.raw_code)) w'

    -- `connect_control_pipe` and `connect_status_pipe`.
    unfoldable pub connect_pipe : W → Result ℕ ClientError × W
    connect_pipe w = attempts pipe_connect_attempts none w

  unfoldable pub claim_error : String → String → String
  claim_error path error = format (
      "Wardoff could not claim its initial pipe instance on " ∷ path
      ∷ " within the startup retry window: " ∷ error ∷ [])

  unfoldable pub is_retryable_initial_pipe_claim_error : OsCode → Bool
  is_retryable_initial_pipe_claim_error access_denied = true
  is_retryable_initial_pipe_claim_error _ = false

  unfoldable pub settle_claim : String → ℕ → IoError → Result ℕ String × W → W → Result ℕ String × W
  unfolding claim_error
  settle_claim path zero error later w =
      if is_retryable_initial_pipe_claim_error error.raw_code
      then (err (claim_error path error.text), w)
      else (err error.text, w)
  settle_claim path (suc left) error later w =
      if is_retryable_initial_pipe_claim_error error.raw_code then later else (err error.text, w)

  -- By the number of attempts left.
  unfoldable pub claim_attempts : String → ℕ → W → Result ℕ String × W
  unfolding settle_claim
  claim_attempts path zero w =
      (err (format ("Wardoff could not claim its initial pipe instance on " ∷ path ∷ "." ∷ [])), w)
  claim_attempts path (suc left) w =
      let (r, w') = pipes.create_pipe w in
      let later = claim_attempts path left (pipes.sleep initial_pipe_claim_delay w') in
      elim r [ ok pipe ↦ (ok pipe, w') | err error ↦ settle_claim path left error later w' ]

  unfoldable pub claim_initial_pipe_instance : String → W → Result ℕ String × W
  claim_initial_pipe_instance path w = claim_attempts path initial_pipe_claim_attempts w
