-- ===== src/Logger/Files.antt =====
-- The log files of src/logger/mod.rs: the appended records, the rotation, and the reading of the
-- newest lines. A file is the list of its bytes; a call that the system refuses says why. Running out
-- of memory is not modelled.
use wardoff.Prelude.{
  ℕ, ◌+◌, ltb, leb, ◌==◌, Option, none, some, String, Result, ok, err, List, [], ◌∷◌, ◌++◌, length,
  take, drop, if◌then◌else◌,
}

abbrev pub Bytes : Type 0
Bytes = List ℕ

abbrev pub max_log_bytes : ℕ
max_log_bytes = 5242880

abbrev pub max_tail_line_count : ℕ
max_tail_line_count = 100000

abbrev pub newline : Bytes
newline = 10 ∷ []

-- `wardoff.jsonl`, `wardoff.1.jsonl` and `wardoff.2.jsonl`, where they exist.
pub record LogFiles : Type 0 where
  pub base : Option Bytes
  pub first : Option Bytes
  pub second : Option Bytes

-- What the system refuses while one record is written; `write_line` also says how many bytes of the
-- line were written before.
pub record Refusals : Type 0 where
  pub directory : Option String
  pub serialize : Option String
  pub metadata : Option String
  pub remove : Option String
  pub rename_first : Option String
  pub rename_base : Option String
  pub opening : Option String
  pub write_line : Option (ℕ × String)
  pub write_newline : Option String
  pub flush : Option String

abbrev pub content_of : Option Bytes → Bytes
content_of none = []
content_of (some content) = content

-- A call that is refused leaves the files as they are.
abbrev pub attempt : Option String → LogFiles → LogFiles → Result (Unit {0}) String × LogFiles
attempt none changed files = (ok tt, changed)
attempt (some error) changed files = (err error, files)

abbrev pub and_then :
    Result (Unit {0}) String × LogFiles
    → (LogFiles → Result (Unit {0}) String × LogFiles)
    → Result (Unit {0}) String × LogFiles
and_then (ok _, files) next = next files
and_then (err error, files) next = (err error, files)

unfoldable pub remove_second : Refusals → LogFiles → Result (Unit {0}) String × LogFiles
remove_second refusals files = elim files.second [
  | none ↦ (ok tt, files)
  | some content ↦ attempt refusals.remove (record files { second = none }) files
]

unfoldable pub rename_first : Refusals → LogFiles → Result (Unit {0}) String × LogFiles
rename_first refusals files = elim files.first [
  | none ↦ (ok tt, files)
  | some content ↦
      attempt refusals.rename_first (record files { first = none; second = some content }) files
]

unfoldable pub rename_base : Refusals → LogFiles → Result (Unit {0}) String × LogFiles
rename_base refusals files = elim files.base [
  | none ↦ (ok tt, files)
  | some content ↦
      attempt refusals.rename_base (record files { base = none; first = some content }) files
]

unfoldable pub rotate_logs : Refusals → LogFiles → Result (Unit {0}) String × LogFiles
unfolding remove_second rename_first rename_base
rotate_logs refusals files =
    and_then (remove_second refusals files)
      λ removed. and_then (rename_first refusals removed) (rename_base refusals)

unfoldable pub rotate_if_needed : Refusals → ℕ → LogFiles → Result (Unit {0}) String × LogFiles
rotate_if_needed refusals incoming_bytes files =
    if leb (length (content_of files.base) + incoming_bytes) max_log_bytes
    then (ok tt, files)
    else rotate_logs refusals files

-- Opening the file creates it.
abbrev pub extended : Bytes → LogFiles → LogFiles
extended added files = record files { base = some (content_of files.base ++ added) }

-- The file is opened, the line and its newline written, and the file flushed, by what is refused.
unfoldable pub append_line :
    Option String
    → Option (ℕ × String)
    → Option String
    → Option String
    → Bytes
    → LogFiles
    → Result (Unit {0}) String × LogFiles
append_line (some error) write_line write_newline flush line files = (err error, files)
append_line none (some (written, error)) write_newline flush line files =
    (err error, extended (take written line) files)
append_line none none (some error) flush line files = (err error, extended line files)
append_line none none none (some error) line files = (err error, extended (line ++ newline) files)
append_line none none none none line files = (ok tt, extended (line ++ newline) files)

-- By the text of the record.
unfoldable pub write_record : Refusals → Bytes → LogFiles → Result (Unit {0}) String × LogFiles
unfolding append_line
write_record refusals line files = and_then (attempt refusals.directory files files) λ _.
    and_then (attempt refusals.serialize files files) λ _.
      and_then (attempt refusals.metadata files files) λ _.
        and_then (rotate_if_needed refusals (length line + 1) files) λ rotated.
          append_line refusals.opening refusals.write_line refusals.write_newline refusals.flush
            line rotated

-- The carriage return before a newline.
unfoldable pub strip_return : Bytes → Bytes
strip_return [] = []
strip_return (b ∷ []) = if b == 13 then [] else b ∷ []
strip_return (b ∷ c ∷ bs) = b ∷ strip_return (c ∷ bs)

abbrev last_line : Bytes → List Bytes
last_line [] = []
last_line (b ∷ bs) = (b ∷ bs) ∷ []

-- `BufRead::lines`, with what is read of the line so far: the newlines are taken off, and a last line
-- needs none.
unfoldable pub lines_from : Bytes → Bytes → List Bytes
unfolding strip_return
lines_from begun [] = last_line begun
lines_from begun (b ∷ bs) =
    let next = lines_from [] bs in
    let longer = lines_from (begun ++ b ∷ []) bs in
    if b == 10 then strip_return begun ∷ next else longer

-- How the system lets one file be read: what is refused, and after how many lines a read fails.
pub record Access : Type 0 where
  pub inspect : Option String
  pub opening : Option String
  pub read : Option (ℕ × String)

pub record Reader : Type 0 where
  pub from_utf8 : Bytes → Result String String
  pub second : Access
  pub first : Access
  pub base : Access

abbrev pub decoded : (Bytes → Result String String) → List Bytes → List (Result String String)
decoded from_utf8 [] = []
decoded from_utf8 (line ∷ lines) = from_utf8 line ∷ decoded from_utf8 lines

-- The items of `reader.lines()`, up to the first read that fails.
unfoldable pub line_results :
    (Bytes → Result String String) → Option (ℕ × String) → Bytes → List (Result String String)
unfolding lines_from
line_results from_utf8 none content = decoded from_utf8 (lines_from [] content)
line_results from_utf8 (some (count, error)) content =
    decoded from_utf8 (take count (lines_from [] content)) ++ (err error ∷ [])

-- `recent_lines` after one more line.
unfoldable pub keep_line : ℕ → List String → String → List String
keep_line limit recent line =
    (if length recent == limit then drop 1 recent else recent) ++ (line ∷ [])

unfoldable pub keep_lines :
    ℕ → List String → List (Result String String) → Result (List String) String
keep_lines limit recent [] = ok recent
keep_lines limit recent (err error ∷ results) = err error
keep_lines limit recent (ok line ∷ results) = keep_lines limit (keep_line limit recent line) results

-- One file; one that is missing is passed over.
unfoldable pub read_file :
    (Bytes → Result String String)
    → ℕ
    → Access
    → Option Bytes
    → List String
    → Result (List String) String
unfolding keep_lines line_results
read_file from_utf8 limit access file recent = elim access.inspect [
  | some error ↦ err error
  | none ↦ elim file [
    | none ↦ ok recent
    | some content ↦ elim access.opening [
      | some error ↦ err error
      | none ↦ keep_lines limit recent (line_results from_utf8 access.read content)
    ]
  ]
]

abbrev pub and_read :
    Result (List String) String
    → (List String → Result (List String) String)
    → Result (List String) String
and_read (ok lines) next = next lines
and_read (err error) next = err error

-- The files are read from the oldest to the newest.
unfoldable pub read_recent_lines : Reader → ℕ → LogFiles → Result (List String) String
unfolding read_file
read_recent_lines reader limit files =
    let read = and_read (read_file reader.from_utf8 limit reader.second files.second []) λ recent.
      and_read (read_file reader.from_utf8 limit reader.first files.first recent)
        (read_file reader.from_utf8 limit reader.base files.base) in
    if ltb max_tail_line_count limit
    then err "The --tail value cannot exceed 100000 lines."
    else if limit == 0
    then ok []
    else read

-- Every byte that the files hold, oldest first.
abbrev pub all_bytes : LogFiles → Bytes
all_bytes files = content_of files.second ++ (content_of files.first ++ content_of files.base)
