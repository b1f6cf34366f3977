-- ===== src/Ipc/Frame/Chunks.antt =====
-- How src/ipc.rs cuts a request line does not depend on how the bytes arrive.
use wardoff.Prelude.{
  take-length, ◌≤◌, ℕ, zero, suc, ◌+◌, ◌-◌, ◌<◌, ltb, leb, ◌==◌, true, Option, none, some, is_some,
  String, Result, err, List, [], ◌∷◌, ◌++◌, length, take, length-append, append-nil, append_assoc,
  format, if◌then◌else◌, ◌≡◌, refl, sym, ap, ◌∙◌, arith, ◌⊎◌, inl, inr, Option-cases,
}
use wardoff.Policy.{IpcRequest}
use wardoff.Ipc.Frame.{
  Decoder, Arrival, bytes, no_data, end_of_pipe, failed, max_request_bytes, position, line_bytes,
  too_long_error, incomplete_request_error, parse_line, read_request_until_deadline,
}

-- The reference: the bytes in one piece, cut after the first newline within the budget.
pub data Frame : Type 0 where
  complete unfinished : List ℕ → Frame
  too_long : Frame

abbrev pub prepend : List ℕ → Frame → Frame
prepend xs (complete ys) = complete (xs ++ ys)
prepend xs (unfinished ys) = unfinished (xs ++ ys)
prepend xs too_long = too_long

unfoldable pub frame : ℕ → List ℕ → Frame
frame zero bs = too_long
frame (suc n) [] = unfinished []
frame (suc n) (b ∷ bs) =
    let rest = frame n bs in if b == 10 then complete (b ∷ []) else prepend (b ∷ []) rest

-- The bytes that arrive before the reads end, and the error that their end means.
abbrev pub stream : List Arrival → List ℕ
stream [] = []
stream (bytes b bs ∷ rest) = (b ∷ bs) ++ stream rest
stream (no_data ∷ rest) = stream rest
stream (end_of_pipe ∷ rest) = []
stream (failed error ∷ rest) = []

unfoldable pub ending : List Arrival → List ℕ → String
ending [] line = "Wardoff timed out reading an IPC request."
ending (bytes b bs ∷ rest) line = ending rest line
ending (no_data ∷ rest) line = ending rest line
ending (end_of_pipe ∷ rest) line = incomplete_request_error line
ending (failed error ∷ rest) line = format ("Wardoff could not read an IPC request: " ∷ error ∷ [])

prepend_assoc : (xs ys : List ℕ) (f : Frame) → prepend xs (prepend ys f) ≡ prepend (xs ++ ys) f
prepend_assoc xs ys (complete zs) = ap complete (sym (append_assoc xs ys zs))
prepend_assoc xs ys (unfinished zs) = ap unfinished (sym (append_assoc xs ys zs))
prepend_assoc xs ys too_long = refl

frame-empty : (n : ℕ) → 0 < n → frame n [] ≡ unfinished []
unfolding frame
frame-empty zero h = ground (arith, h)
frame-empty (suc n) h = refl

lt_or_ge : (a b : ℕ) → (a < b) ⊎ (b ≤ a)
lt_or_ge a b = ground arith

-- One chunk, with and without a newline in it.
abbrev after_chunk : ℕ → List ℕ → List ℕ → Option ℕ → Frame
after_chunk n chunk rest none =
    if leb n (length chunk) then too_long else prepend chunk (frame (n - length chunk) rest)
after_chunk n chunk rest (some p) =
    if ltb n (p + 1) then too_long else complete (take (p + 1) chunk)

frame-chunk :
    (n : ℕ) (chunk rest : List ℕ)
    → frame n (chunk ++ rest) ≡ after_chunk n chunk rest (position chunk)
unfolding frame position
frame-chunk zero [] rest = refl
frame-chunk (suc n) [] rest = ground arith
frame-chunk zero (b ∷ bs) rest = ground arith
frame-chunk (suc n) (b ∷ bs) rest =
    ground (arith, frame-chunk n bs rest, prepend_assoc (b ∷ []) bs (frame (n - length bs) rest))

module _ (decoder : Decoder) where
  unfoldable pub conclude : List Arrival → Frame → Result IpcRequest String
  conclude arrivals (complete line) = parse_line decoder line
  conclude arrivals (unfinished line) = err (ending arrivals line)
  conclude arrivals too_long = too_long_error

  -- What one read makes of the line held so far; `later` is what the reads after it make.
  abbrev step : List ℕ → List ℕ → Option ℕ → Result IpcRequest String → Result IpcRequest String
  step line chunk newline later =
      let count = line_bytes newline (length chunk) in
      let extended = line ++ take count chunk in
      if ltb max_request_bytes (length line + count)
      then too_long_error
      else if is_some newline
      then parse_line decoder extended
      else if length extended == max_request_bytes
      then too_long_error
      else later

  step-concludes :
      (line chunk : List ℕ) (rest : List Arrival) (newline : Option ℕ)
      (later : Result IpcRequest String)
      → length line < max_request_bytes
      → (is_some newline ≡ true)
        ⊎ (max_request_bytes ≤ length (line ++ chunk))
        ⊎ (later
            ≡ conclude rest (
                prepend
                  (line ++ chunk)
                  (frame (max_request_bytes - length (line ++ chunk)) (stream rest))))
      → step line chunk newline later
        ≡ conclude rest (
            prepend line
              (after_chunk (max_request_bytes - length line) chunk (stream rest) newline))
  unfolding conclude
  step-concludes line chunk rest none later l h = ground (
    arith,
    take-length chunk,
    length-append line chunk,
    prepend_assoc line chunk (frame (max_request_bytes - length line - length chunk) (stream rest)),
    h,
  )
  step-concludes line chunk rest (some p) later l h = ground (arith, l)

  later_full :
      (chunk : List ℕ) (rest : List Arrival) (line : List ℕ) (newline : Option ℕ)
      {r : Result IpcRequest String}
      → newline ≡ none
      → read_request_until_deadline decoder rest (line ++ chunk) ≡ r
      → read_request_until_deadline decoder rest
          (line ++ take (line_bytes newline (length chunk)) chunk)
        ≡ r
  later_full chunk rest line newline h e =
      rw h
        (ap (λ xs. read_request_until_deadline decoder rest (line ++ xs)) (take-length chunk) ∙ e)

  later_concludes :
      (chunk : List ℕ) (rest : List Arrival) (line : List ℕ)
      → (length (line ++ chunk) < max_request_bytes
          → read_request_until_deadline decoder rest (line ++ chunk)
            ≡ conclude rest (
                prepend
                  (line ++ chunk)
                  (frame (max_request_bytes - length (line ++ chunk)) (stream rest))))
      → (is_some (position chunk) ≡ true)
        ⊎ (max_request_bytes ≤ length (line ++ chunk))
        ⊎ (read_request_until_deadline decoder rest
              (line ++ take (line_bytes (position chunk) (length chunk)) chunk)
            ≡ conclude rest (
                prepend
                  (line ++ chunk)
                  (frame (max_request_bytes - length (line ++ chunk)) (stream rest))))
  later_concludes chunk rest line h = elim (Option-cases (position chunk)) [
    | inr found ↦ inl (rw (found.1) refl)
    | inl none_found ↦ elim (lt_or_ge (length (line ++ chunk)) max_request_bytes) [
      | inr full ↦ inr (inl full)
      | inl short ↦ inr (inr (later_full chunk rest line (position chunk) none_found (h short)))
    ]
  ]

  conclude-skip :
      (a : Arrival) (rest : List Arrival) (f : Frame)
      → ((line : List ℕ) → ending (a ∷ rest) line ≡ ending rest line)
      → conclude (a ∷ rest) f ≡ conclude rest f
  unfolding conclude
  conclude-skip a rest (complete line) h = refl
  conclude-skip a rest (unfinished line) h = ap err (h line)
  conclude-skip a rest too_long h = refl

  conclude-end :
      (arrivals : List Arrival) (line : List ℕ)
      → length line < max_request_bytes
      → conclude arrivals (prepend line (frame (max_request_bytes - length line) []))
        ≡ err (ending arrivals line)
  unfolding conclude
  conclude-end arrivals line l =
      rw (frame-empty (max_request_bytes - length line) (omega arith))
        (ap (λ xs. err (ending arrivals xs)) (append-nil line))

  -- Cutting the request line does not depend on how its bytes are split over the reads, nor on the
  -- waits in between: it is the reference cut of the bytes in one piece, within what the limit
  -- leaves. A line is parsed exactly if its newline is within the limit; otherwise it is too long,
  -- or the error of the read that ended it.
  pub chunks_do_not_matter :
      (arrivals : List Arrival) (line : List ℕ)
      → length line < max_request_bytes
      → read_request_until_deadline decoder arrivals line
        ≡ conclude arrivals
            (prepend line (frame (max_request_bytes - length line) (stream arrivals)))
  unfolding read_request_until_deadline ending
  chunks_do_not_matter [] line l = sym (conclude-end [] line l)
  chunks_do_not_matter (no_data ∷ rest) line l =
      chunks_do_not_matter rest line l ∙ sym (conclude-skip no_data rest _ λ _. refl)
  chunks_do_not_matter (end_of_pipe ∷ rest) line l = sym (conclude-end (end_of_pipe ∷ rest) line l)
  chunks_do_not_matter (failed error ∷ rest) line l =
      sym (conclude-end (failed error ∷ rest) line l)
  chunks_do_not_matter (bytes b bs ∷ rest) line l =
      let chunk = b ∷ bs in
      let n = max_request_bytes - length line in
      let read = read_request_until_deadline decoder in
      step-concludes line chunk rest (position chunk)
        (read rest (line ++ take (line_bytes (position chunk) (length chunk)) chunk)) l
        (later_concludes chunk rest line (λ l'. chunks_do_not_matter rest (line ++ chunk) l'))
      ∙ ap (λ f. conclude rest (prepend line f)) (sym (frame-chunk n chunk (stream rest)))
      ∙ sym (conclude-skip (bytes b bs) rest _ λ _. refl)
