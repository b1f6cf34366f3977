-- ===== src/Ipc/Frame.antt =====
-- `read_request_until_deadline` of src/ipc.rs: one request line out of however many reads.
-- A byte is a number. Time is the list of reads: it ends where the deadline passes.
pub mod Chunks
use wardoff.Prelude.{
  ℕ, suc, ◌+◌, ltb, ◌==◌, Bool, true, false, not, Option, none, some, is_some, option_map, String,
  Result, ok, err, List, [], ◌∷◌, ◌++◌, length, take, format, if◌then◌else◌,
}
use wardoff.Policy.{IpcRequest}

abbrev pub max_request_bytes : ℕ
max_request_bytes = 4096

-- What one `ReadFile` answers: at least one byte, none yet, the end of the pipe (no byte, or a
-- broken pipe), or another error.
pub data Arrival : Type 0 where
  bytes : ℕ → List ℕ → Arrival
  no_data end_of_pipe : Arrival
  failed : String → Arrival

-- `str::from_utf8`, `trim().is_empty()` of the text, and `serde_json::from_str` of its trimmed form.
pub record Decoder : Type 0 where
  pub from_utf8 : List ℕ → Result String String
  pub is_blank : String → Bool
  pub from_json : String → Result IpcRequest String

unfoldable pub position : List ℕ → Option ℕ
position [] = none
position (b ∷ bs) = if b == 10 then some 0 else option_map (λ n. suc n) (position bs)

abbrev pub line_bytes : Option ℕ → ℕ → ℕ
line_bytes none bytes_read = bytes_read
line_bytes (some position) bytes_read = position + 1

abbrev pub too_long_error : Result IpcRequest String
too_long_error = err "Wardoff IPC request exceeds 4096 bytes."

unfoldable pub incomplete_request_error : List ℕ → String
incomplete_request_error [] = "Wardoff received an empty IPC request."
incomplete_request_error (b ∷ bs) = "Wardoff received an IPC request without a terminating newline."

malformed : String → Result IpcRequest String
malformed error = err (format ("Wardoff received malformed IPC JSON: " ∷ error ∷ []))

module _ (decoder : Decoder) where
  unfoldable pub parse_text : Result String String → Result IpcRequest String
  unfolding malformed
  parse_text (err error) = malformed error
  parse_text (ok text) =
      if decoder.is_blank text
      then err "Wardoff received an empty IPC request."
      else elim (decoder.from_json text) [ ok request ↦ ok request | err error ↦ malformed error ]

  unfoldable pub parse_line : List ℕ → Result IpcRequest String
  unfolding parse_text
  parse_line line = parse_text (decoder.from_utf8 line)

  unfoldable pub read_request_until_deadline : List Arrival → List ℕ → Result IpcRequest String
  unfolding incomplete_request_error
  read_request_until_deadline [] request_line = err "Wardoff timed out reading an IPC request."
  read_request_until_deadline (bytes b bs ∷ rest) request_line =
      let newline = position (b ∷ bs) in
      let count = line_bytes newline (length (b ∷ bs)) in
      let extended = request_line ++ take count (b ∷ bs) in
      let later = read_request_until_deadline rest extended in
      if ltb max_request_bytes (length request_line + count)
      then too_long_error
      else if is_some newline
      then parse_line extended
      else if length extended == max_request_bytes
      then too_long_error
      else later
  read_request_until_deadline (no_data ∷ rest) request_line =
      read_request_until_deadline rest request_line
  read_request_until_deadline (end_of_pipe ∷ rest) request_line =
      err (incomplete_request_error request_line)
  read_request_until_deadline (failed error ∷ rest) request_line =
      err (format ("Wardoff could not read an IPC request: " ∷ error ∷ []))
