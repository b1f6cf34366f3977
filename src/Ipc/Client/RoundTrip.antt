-- ===== src/Ipc/Client/RoundTrip.antt =====
-- A request that a client of src/ipc.rs sends is the request that the server reads.
use wardoff.Prelude.{
  ℕ, zero, suc, ◌<◌, false, none, Bool, Option, String, ok, List, [], ◌∷◌, ◌++◌, length, ◌≡◌, refl,
  ap, ◌∙◌, arith,
}
use wardoff.Policy.{IpcRequest}
use wardoff.Ipc.{IpcResponse}
use wardoff.Ipc.Frame.{
  Decoder, Arrival, max_request_bytes, position, parse_line, parse_text,
  read_request_until_deadline,
}
use wardoff.Ipc.Frame.Chunks.{complete, prepend, frame, stream, conclude, chunks_do_not_matter}
use wardoff.Ipc.Connect.{
  Pipes, OsCode, connect_pipe, attempts, retry_or_fail, opened, wait_before_pipe_retry, sleep_some,
}
use wardoff.Ipc.Client.{
  Codec, Pipe, newline, exchange, send_request, send_request_with_connect_deadline,
}

frame-line :
    (n : ℕ) (payload : List ℕ)
    → position payload ≡ none
    → length payload < n
    → frame n (payload ++ newline) ≡ complete (payload ++ newline)
unfolding frame position
frame-line zero payload h l = ground (arith, l)
frame-line (suc n) [] h l = refl
frame-line (suc n) (b ∷ bs) h l = ground (arith, h, l, frame-line n bs)

parse_line-request :
    (decoder : Decoder) (line : List ℕ) (text : String) (request : IpcRequest)
    → decoder.from_utf8 line ≡ ok text
    → decoder.is_blank text ≡ false
    → decoder.from_json text ≡ ok request
    → parse_line decoder line ≡ ok request
unfolding parse_line parse_text
parse_line-request decoder line text request u b j = ground (arith, u, b, j)

-- Once a client has its reply, the payload and the newline are all it wrote.
module _ {W : Type 0} (codec : Codec) (pipe : Pipe W) (sent : W → List ℕ)
    (write : (h : ℕ) (bs : List ℕ) (w : W) → sent (pipe.write_all h bs w).1 ≡ sent w ++ bs)
    (flush : (h : ℕ) (w : W) → sent (pipe.flush h w).1 ≡ sent w)
    (read : (h : ℕ) (w : W) → sent (pipe.read_line h w).1 ≡ sent w) where
  exchange-sent :
      (path : String) (handle : ℕ) (payload : List ℕ) (w : W) (response : IpcResponse)
      → (exchange codec pipe path handle payload w).0 ≡ ok response
      → sent (exchange codec pipe path handle payload w).1 ≡ (sent w ++ payload) ++ newline
  unfolding exchange
  exchange-sent path handle payload w response h = grind (arith, write, flush, read, h)

-- A connection writes nothing.
module _ {W : Type 0} (pipes : Pipes W) (sent : W → List ℕ)
    (connect : (w : W) → sent (pipes.open_pipe w).1 ≡ sent w)
    (sleep : (delay : ℕ) (w : W) → sent (pipes.sleep delay w) ≡ sent w) (path : String)
    (is_control_pipe : Bool) (connect_deadline : Option ℕ) where
  attempts-sent :
      (left : ℕ) (last : Option OsCode) (w : W)
      → sent (attempts pipes path is_control_pipe connect_deadline left last w).1 ≡ sent w
  unfolding attempts retry_or_fail opened wait_before_pipe_retry sleep_some
  attempts-sent zero last w = refl
  attempts-sent (suc left) last w = grind (arith, connect, sleep, attempts-sent left)

-- A client that has its reply wrote its payload and the newline, and nothing else.
module _ {W : Type 0} (codec : Codec) (pipes : Pipes W) (pipe : Pipe W) (sent : W → List ℕ)
    (name : (w : W) → sent (pipe.current_path w).1 ≡ sent w)
    (connect : (w : W) → sent (pipes.open_pipe w).1 ≡ sent w)
    (sleep : (delay : ℕ) (w : W) → sent (pipes.sleep delay w) ≡ sent w)
    (write : (h : ℕ) (bs : List ℕ) (w : W) → sent (pipe.write_all h bs w).1 ≡ sent w ++ bs)
    (flush : (h : ℕ) (w : W) → sent (pipe.flush h w).1 ≡ sent w)
    (read : (h : ℕ) (w : W) → sent (pipe.read_line h w).1 ≡ sent w) where
  send_request-sent :
      (request : IpcRequest) (payload : List ℕ) (response : IpcResponse) (w : W)
      → codec.request_to_bytes request ≡ ok payload
      → (send_request codec pipes pipe request w).0 ≡ ok response
      → sent (send_request codec pipes pipe request w).1 ≡ (sent w ++ payload) ++ newline
  unfolding send_request send_request_with_connect_deadline connect_pipe
  send_request-sent request payload response w encoded answered = grind (
    arith,
    name,
    attempts-sent pipes sent connect sleep,
    exchange-sent codec pipe sent write flush read,
    encoded,
    answered,
  )

-- When a client has its reply, from a pipe to which only the writes add bytes, the server that is sent
-- the bytes it wrote, in any pieces and with any waits between, reads the client's request. The
-- payload, which `serde_json` writes on one line, fits the limit with its newline, and is read back
-- as `serde_json` and UTF-8 document it.
pub request_round_trip :
    {W : Type 0} (codec : Codec) (decoder : Decoder) (pipes : Pipes W) (pipe : Pipe W)
    (sent : W → List ℕ) (name : (w : W) → sent (pipe.current_path w).1 ≡ sent w)
    (connect : (w : W) → sent (pipes.open_pipe w).1 ≡ sent w)
    (sleep : (delay : ℕ) (w : W) → sent (pipes.sleep delay w) ≡ sent w)
    (write : (h : ℕ) (bs : List ℕ) (w : W) → sent (pipe.write_all h bs w).1 ≡ sent w ++ bs)
    (flush : (h : ℕ) (w : W) → sent (pipe.flush h w).1 ≡ sent w)
    (read : (h : ℕ) (w : W) → sent (pipe.read_line h w).1 ≡ sent w) (request : IpcRequest)
    (payload : List ℕ) (text : String) (response : IpcResponse) (w : W) (arrivals : List Arrival)
    → codec.request_to_bytes request ≡ ok payload
    → position payload ≡ none
    → length payload < max_request_bytes
    → decoder.from_utf8 (payload ++ newline) ≡ ok text
    → decoder.is_blank text ≡ false
    → decoder.from_json text ≡ ok request
    → sent w ≡ []
    → (send_request codec pipes pipe request w).0 ≡ ok response
    → stream arrivals ≡ sent (send_request codec pipes pipe request w).1
    → read_request_until_deadline decoder arrivals [] ≡ ok request
unfolding conclude
request_round_trip codec decoder pipes pipe sent name connect sleep write flush read request payload
      text response w arrivals encoded one_line fits utf8 filled json empty answered received =
    let whole =
      received
      ∙ send_request-sent codec pipes pipe sent name connect sleep write flush read request payload
          response w encoded answered
      ∙ ap (λ bs. (bs ++ payload) ++ newline) empty in
    chunks_do_not_matter decoder arrivals [] (omega arith)
    ∙ ap (λ bs. conclude decoder arrivals (prepend [] (frame max_request_bytes bs))) whole
    ∙ ap (λ f. conclude decoder arrivals (prepend [] f))
        (frame-line max_request_bytes payload one_line fits)
    ∙ parse_line-request decoder (payload ++ newline) text request utf8 filled json
