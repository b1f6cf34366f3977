-- ===== src/Ipc/Client.antt =====
-- The clients of src/ipc.rs: a request and its reply over the control pipe, and the status pipe. A
-- byte is a number; `serde_json`, UTF-8 and the pipe's calls are parameters.
pub mod RoundTrip
use wardoff.Prelude.{
  ℕ, true, false, Option, none, String, Result, ok, err, map_err, and_then, List, [], ◌∷◌, format,
}
use wardoff.Cli.{StatusOutput}
use wardoff.Policy.{IpcRequest}
use wardoff.Policy
use wardoff.Ipc.{IpcResponse}
use wardoff.Ipc.Connect.{Pipes, ClientError, unavailable, transport, connect_pipe}

-- `serde_json`, with `as_bytes` after it and `trim_end` before.
pub record Codec : Type 0 where
  pub request_to_bytes : IpcRequest → Result (List ℕ) String
  pub response_from_line : List ℕ → Result IpcResponse String
  pub status_from_line : List ℕ → Result StatusOutput String

-- The calls on an open pipe; `read_line` gives the bytes of the line, none at the end of the pipe.
pub record Pipe (W : Type 0) : Type 0 where
  pub current_path : W → Result String String × W
  pub write_all : ℕ → List ℕ → W → Result (Unit {0}) String × W
  pub flush : ℕ → W → Result (Unit {0}) String × W
  pub read_line : ℕ → W → Result (List ℕ) String × W

abbrev pub newline : List ℕ
newline = 10 ∷ []

module _ {W : Type 0} where
  -- An error of the transport, explained.
  abbrev pub explained : {A : Type 0} → String → Result A String × W → Result A ClientError × W
  explained what (r, w) = (map_err (λ error. transport (format (what ∷ ": " ∷ error ∷ []))) r, w)

  abbrev plainly : {A : Type 0} → Result A String × W → Result A ClientError × W
  plainly (r, w) = (map_err transport r, w)

abbrev about : String → String → String
about what path = format (what ∷ path ∷ [])

-- The reply, if there is a line at all.
unfoldable pub parse_reply :
    {A : Type 0} → String → String → (List ℕ → Result A String) → List ℕ → Result A ClientError
parse_reply missing malformed parse [] = err (transport missing)
parse_reply missing malformed parse (b ∷ bs) =
    map_err (λ error. transport (format (malformed ∷ ": " ∷ error ∷ []))) (parse (b ∷ bs))

module _ {W : Type 0} (codec : Codec) (pipe : Pipe W) where
  -- From the connection on: the payload, the newline, the flush, and the reply's line.
  unfoldable pub exchange : String → ℕ → List ℕ → W → Result IpcResponse ClientError × W
  unfolding parse_reply
  exchange path handle payload w =
      and_then
        (explained (about "Wardoff could not write to " path) (pipe.write_all handle payload w))
        λ _ w₁.
          and_then
            (explained (about "Wardoff could not finish writing to " path)
              (pipe.write_all handle newline w₁))
            λ _ w₂.
              and_then (explained (about "Wardoff could not flush " path) (pipe.flush handle w₂))
                λ _ w₃.
                  and_then
                    (explained (about "Wardoff could not read the reply from " path)
                      (pipe.read_line handle w₃))
                    λ line w₄. (
                      parse_reply
                          (format ("Wardoff did not receive any reply from " ∷ path ∷ "." ∷ []))
                          (about "Wardoff received malformed IPC JSON from " path)
                          codec.response_from_line line,
                      w₄,
                    )

module _ {W : Type 0} (codec : Codec) (pipes : Pipes W) (pipe : Pipe W) where
  unfoldable pub send_request_with_connect_deadline :
      IpcRequest → Option ℕ → W → Result IpcResponse ClientError × W
  unfolding exchange
  send_request_with_connect_deadline request connect_deadline w =
      and_then (plainly (pipe.current_path w)) λ path w₁.
        and_then (connect_pipe pipes path true connect_deadline w₁) λ handle w₂.
          and_then
            (explained "Wardoff could not serialize its IPC request"
              (codec.request_to_bytes request, w₂))
            λ payload w₃. exchange codec pipe path handle payload w₃

  unfoldable pub send_request : IpcRequest → W → Result IpcResponse ClientError × W
  unfolding send_request_with_connect_deadline
  send_request request w = send_request_with_connect_deadline request none w

  unfoldable pub send_status_request_with_connect_deadline :
      Option ℕ → W → Result IpcResponse ClientError × W
  unfolding send_request_with_connect_deadline
  send_status_request_with_connect_deadline connect_deadline w =
      send_request_with_connect_deadline IpcRequest.status connect_deadline w

  -- `read_status`, with the path and the calls of the status pipe.
  unfoldable pub read_status : Option ℕ → W → Result StatusOutput ClientError × W
  unfolding parse_reply
  read_status connect_deadline w = and_then (plainly (pipe.current_path w)) λ path w₁.
      and_then (connect_pipe pipes path false connect_deadline w₁) λ handle w₂.
        and_then
          (explained (about "Wardoff could not read the status reply from " path)
            (pipe.read_line handle w₂))
          λ line w₃. (
            parse_reply
                (format ("Wardoff did not receive any status reply from " ∷ path ∷ "." ∷ []))
                (about "Wardoff received malformed status JSON from " path) codec.status_from_line
                line,
            w₃,
          )
