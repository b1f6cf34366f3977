-- ===== src/Logger/Tail.antt =====
-- What `wardoff log --tail` reads (`read_recent_lines` of src/logger/mod.rs).
use wardoff.Prelude.{
  ℕ, ◌-◌, ◌≤◌, ◌<◌, Option, none, some, String, Result, ok, err, List, [], ◌∷◌, ◌++◌, length,
  length-append, drop, append-nil, append_assoc, ◌≡◌, refl, sym, ap, ◌∙◌, arith,
}
use wardoff.Logger.Files.{
  Bytes, LogFiles, Access, Reader, max_tail_line_count, line_results, keep_line, keep_lines,
  read_file, and_read, read_recent_lines,
}

-- The last `limit` lines.
abbrev pub newest : ℕ → List String → List String
newest limit lines = drop (length lines - limit) lines

keep_line-newest :
    (limit : ℕ) (recent lines : List String) (line : String)
    → 0 < limit
    → length recent ≤ limit
    → newest limit (keep_line limit recent line ++ lines) ≡ newest limit (recent ++ (line ∷ lines))
unfolding keep_line
keep_line-newest limit [] lines line p l = ground arith
keep_line-newest limit (r ∷ rs) lines line p l =
    ground (arith, append_assoc rs (line ∷ []) lines, length-append rs (line ∷ lines), p, l)

keep_line-length :
    (limit : ℕ) (recent : List String) (line : String)
    → 0 < limit
    → length recent ≤ limit
    → length (keep_line limit recent line) ≤ limit
unfolding keep_line
keep_line-length limit [] line p l = ground arith
keep_line-length limit (r ∷ rs) line p l = ground (arith, length-append rs (line ∷ []), p, l)

drop_nothing : (n : ℕ) (xs : List String) → n ≡ 0 → drop n xs ≡ xs
drop_nothing n xs h = rw h refl

-- The lines kept after more of them.
abbrev keep_all : ℕ → List String → List String → List String
keep_all limit recent [] = recent
keep_all limit recent (line ∷ lines) = keep_all limit (keep_line limit recent line) lines

keep_all-newest :
    (limit : ℕ) (recent lines : List String)
    → 0 < limit
    → length recent ≤ limit
    → (keep_all limit recent lines ≡ newest limit (recent ++ lines))
      × (length (keep_all limit recent lines) ≤ limit)
keep_all-newest limit recent [] p l = (
  sym (
      ap (newest limit) (append-nil recent)
      ∙ drop_nothing (length recent - limit) recent (omega (arith, l))),
  l,
)
keep_all-newest limit recent (line ∷ lines) p l =
    let (same, short) =
      keep_all-newest limit (keep_line limit recent line) lines p
        (keep_line-length limit recent line p l) in
    (same ∙ keep_line-newest limit recent lines line p l, short)

keep_all-append :
    (limit : ℕ) (recent xs ys : List String)
    → keep_all limit (keep_all limit recent xs) ys ≡ keep_all limit recent (xs ++ ys)
keep_all-append limit recent [] ys = refl
keep_all-append limit recent (x ∷ xs) ys = keep_all-append limit (keep_line limit recent x) xs ys

drop-all : (xs : List String) → drop (length xs) xs ≡ []
drop-all [] = refl
drop-all (x ∷ xs) = drop-all xs

-- The lines before the first error, or that error.
abbrev pub collect : List (Result String String) → Result (List String) String
collect [] = ok []
collect (err error ∷ results) = err error
collect (ok line ∷ results) = and_read (collect results) λ lines. ok (line ∷ lines)

-- Every line of one file, and of the three, or the first error.
abbrev pub file_lines :
    (Bytes → Result String String) → Access → Option Bytes → Result (List String) String
file_lines from_utf8 access file = elim access.inspect [
  | some error ↦ err error
  | none ↦ elim file [
    | none ↦ ok []
    | some content ↦ elim access.opening [
      | some error ↦ err error
      | none ↦ collect (line_results from_utf8 access.read content)
    ]
  ]
]

abbrev pub all_lines : Reader → LogFiles → Result (List String) String
all_lines reader files = and_read (file_lines reader.from_utf8 reader.second files.second) λ xs.
    and_read (file_lines reader.from_utf8 reader.first files.first) λ ys.
      and_read (file_lines reader.from_utf8 reader.base files.base) λ zs. ok (xs ++ (ys ++ zs))

keep_lines-collect :
    (limit : ℕ) (recent : List String) (results : List (Result String String))
    → keep_lines limit recent results
      ≡ and_read (collect results) λ lines. ok (keep_all limit recent lines)
unfolding keep_lines
keep_lines-collect limit recent [] = refl
keep_lines-collect limit recent (err error ∷ results) = refl
keep_lines-collect limit recent (ok line ∷ results) =
    keep_lines-collect limit (keep_line limit recent line) results ∙ onwards (collect results)
  where
    onwards :
        (r : Result (List String) String)
        → and_read r (λ lines. ok (keep_all limit (keep_line limit recent line) lines))
          ≡ and_read
              (and_read r λ lines. ok (line ∷ lines))
              λ lines. ok (keep_all limit recent lines)
    onwards (ok lines) = refl
    onwards (err error) = refl

read_file-collect :
    (from_utf8 : Bytes → Result String String) (limit : ℕ) (inspect opening : Option String)
    (read : Option (ℕ × String)) (file : Option Bytes) (recent : List String)
    → let access : Access = record { inspect = inspect; opening = opening; read = read } in
      read_file from_utf8 limit access file recent
      ≡ and_read (file_lines from_utf8 access file) λ lines. ok (keep_all limit recent lines)
unfolding read_file
read_file-collect from_utf8 limit (some error) opening read file recent = refl
read_file-collect from_utf8 limit none opening read none recent = refl
read_file-collect from_utf8 limit none (some error) read (some content) recent = refl
read_file-collect from_utf8 limit none none read (some content) recent =
    keep_lines-collect limit recent (line_results from_utf8 read content)

-- The three files one after the other.
keep_files :
    (limit : ℕ) (xs ys zs : Result (List String) String)
    → (and_read (and_read xs λ lines. ok (keep_all limit [] lines)) λ recent.
        and_read
          (and_read ys λ lines. ok (keep_all limit recent lines))
          λ recent'. and_read zs λ lines. ok (keep_all limit recent' lines))
      ≡ and_read
          (and_read xs λ ls. and_read ys λ ms. and_read zs λ ns. ok (ls ++ (ms ++ ns)))
          λ lines. ok (keep_all limit [] lines)
keep_files limit (err error) ys zs = refl
keep_files limit (ok ls) (err error) zs = refl
keep_files limit (ok ls) (ok ms) (err error) = refl
keep_files limit (ok ls) (ok ms) (ok ns) =
    ap ok
      (keep_all-append limit (keep_all limit [] ls) ms ns ∙ keep_all-append limit [] ls (ms ++ ns))

read_all :
    (reader : Reader) (limit : ℕ) (files : LogFiles)
    → (and_read (read_file reader.from_utf8 limit reader.second files.second []) λ recent.
        and_read
          (read_file reader.from_utf8 limit reader.first files.first recent)
          (read_file reader.from_utf8 limit reader.base files.base))
      ≡ and_read (all_lines reader files) λ lines. ok (keep_all limit [] lines)
read_all reader limit files =
    let file = λ (access : Access) (content : Option Bytes) (recent : List String).
      read_file-collect reader.from_utf8 limit access.inspect access.opening access.read content
        recent in
    ap
      (λ r. and_read r λ recent.
        and_read (read_file reader.from_utf8 limit reader.first files.first recent)
          (read_file reader.from_utf8 limit reader.base files.base))
      (file reader.second files.second [])
    ∙ later
        (and_read (file_lines reader.from_utf8 reader.second files.second)
          λ lines. ok (keep_all limit [] lines))
        file
    ∙ keep_files limit (file_lines reader.from_utf8 reader.second files.second)
        (file_lines reader.from_utf8 reader.first files.first)
        (file_lines reader.from_utf8 reader.base files.base)
  where
    later :
        (r : Result (List String) String)
        → ((access : Access) (content : Option Bytes) (recent : List String)
            → read_file reader.from_utf8 limit access content recent
              ≡ and_read
                  (file_lines reader.from_utf8 access content)
                  λ lines. ok (keep_all limit recent lines))
        → (and_read r λ recent.
            and_read
              (read_file reader.from_utf8 limit reader.first files.first recent)
              (read_file reader.from_utf8 limit reader.base files.base))
          ≡ (and_read r λ recent.
              and_read
                (and_read
                  (file_lines reader.from_utf8 reader.first files.first)
                  λ lines. ok (keep_all limit recent lines))
                λ recent'.
                  and_read
                    (file_lines reader.from_utf8 reader.base files.base)
                    λ lines. ok (keep_all limit recent' lines))
    later (err error) file = refl
    later (ok recent) file =
        ap (λ r. and_read r (read_file reader.from_utf8 limit reader.base files.base))
          (file reader.first files.first recent)
        ∙ last (
            and_read (file_lines reader.from_utf8 reader.first files.first)
              λ lines. ok (keep_all limit recent lines))
      where
        last :
            (r : Result (List String) String)
            → and_read r (read_file reader.from_utf8 limit reader.base files.base) ≡ (
                and_read r λ recent'.
                  and_read
                    (file_lines reader.from_utf8 reader.base files.base)
                    λ lines. ok (keep_all limit recent' lines))
        last (err error) = refl
        last (ok recent') = file reader.base files.base recent'

newest_of :
    (limit : ℕ) (r : Result (List String) String)
    → 0 < limit
    → (and_read r λ lines. ok (keep_all limit [] lines))
      ≡ (and_read r λ lines. ok (newest limit lines))
newest_of limit (err error) p = refl
newest_of limit (ok lines) p = ap ok (keep_all-newest limit [] lines p (omega arith)).0

-- Reading at most 100000 lines, and at least one, gives exactly the newest `limit` lines of all three
-- files, in the order in which they were written, also across a rotation and where files are
-- missing; or the first error met on the way from the oldest line to the newest, if a file cannot
-- be inspected, opened or read or a line is no text.
pub read_recent_lines-newest :
    (reader : Reader) (limit : ℕ) (files : LogFiles)
    → 0 < limit
    → limit ≤ max_tail_line_count
    → read_recent_lines reader limit files
      ≡ and_read (all_lines reader files) λ lines. ok (newest limit lines)
unfolding read_recent_lines
read_recent_lines-newest reader limit files p h =
    let read = read_all reader limit files ∙ newest_of limit (all_lines reader files) p in
    ground (arith, p, h, read)
