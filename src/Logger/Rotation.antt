-- ===== src/Logger/Rotation.antt =====
-- What a write of src/logger/mod.rs keeps of the log.
use wardoff.Prelude.{
  ℕ, zero, suc, ◌+◌, ◌≤◌, Result, ok, err, false, is_ok, Option, none, some, String, [], ◌∷◌, ◌++◌,
  length, take, drop, append_assoc, append-nil, length-append, ◌≡◌, refl, sym, ap, ◌∙◌, arith, ◌⊎◌,
  inl, inr,
}
use wardoff.Logger.Files.{
  Bytes, LogFiles, Refusals, content_of, newline, max_log_bytes, rotate_logs, rotate_if_needed,
  append_line, write_record, attempt, and_then, all_bytes, remove_second, rename_first, rename_base,
}

-- The bytes without those of the oldest file.
abbrev pub younger : LogFiles → Bytes
younger files = content_of files.first ++ content_of files.base

rotate_if_needed-keeps :
    (refusals : Refusals) (n : ℕ) (files : LogFiles)
    → let (r, rotated) = rotate_if_needed refusals n files in
      ((all_bytes rotated ≡ all_bytes files) ⊎ (all_bytes rotated ≡ younger files))
      × ((is_ok r ≡ false)
          ⊎ (length (content_of rotated.base) + n ≤ max_log_bytes)
          ⊎ (content_of rotated.base ≡ []))
unfolding rotate_if_needed rotate_logs remove_second rename_first rename_base
rotate_if_needed-keeps refusals n files = ground (
  arith,
  append-nil (content_of files.base),
  append-nil (content_of files.first),
  append-nil (younger files),
)

take-drop : (n : ℕ) (xs : Bytes) → take n xs ++ drop n xs ≡ xs
take-drop zero xs = refl
take-drop (suc n) [] = refl
take-drop (suc n) (x ∷ xs) = ap (λ ys. x ∷ ys) (take-drop n xs)

-- The line is added up to some byte, and to its end if the call succeeds.
abbrev Adds : Bytes → LogFiles → Bytes → Bytes → Result (Unit {0}) String × LogFiles → Type 0
Adds line rotated added lost (r, written) =
    (added ++ lost ≡ line ++ newline)
    × ((is_ok r ≡ false) ⊎ (lost ≡ []))
    × (content_of written.base ≡ content_of rotated.base ++ added)
    × (content_of written.first ≡ content_of rotated.first)
    × (content_of written.second ≡ content_of rotated.second)

append_line-Adds :
    (opening : Option String) (write_line : Option (ℕ × String))
    (write_newline flush : Option String) (line : Bytes) (rotated : LogFiles)
    → (added : Bytes) × ((lost : Bytes) × Adds line rotated added lost
          (append_line opening write_line write_newline flush line rotated))
unfolding append_line
append_line-Adds (some error) write_line write_newline flush line rotated = (
  [],
  (line ++ newline, (refl, inl refl, sym (append-nil (content_of rotated.base)), refl, refl)),
)
append_line-Adds none (some (n, error)) write_newline flush line rotated = (
  take n line,
  (
    drop n line ++ newline,
    (
      sym (append_assoc (take n line) (drop n line) newline)
          ∙ ap (λ bs. bs ++ newline) (take-drop n line),
      inl refl,
      refl,
      refl,
      refl,
    ),
  ),
)
append_line-Adds none none (some error) flush line rotated =
    (line, (newline, (refl, inl refl, refl, refl, refl)))
append_line-Adds none none none (some error) line rotated =
    (line ++ newline, ([], (append-nil (line ++ newline), inl refl, refl, refl, refl)))
append_line-Adds none none none none line rotated =
    (line ++ newline, ([], (append-nil (line ++ newline), inr refl, refl, refl, refl)))

-- What a write leaves, and how much of the line it added.
abbrev pub Written : Bytes → LogFiles → Result (Unit {0}) String × LogFiles → Type 0
Written line files (r, written) =
    (added : Bytes) × ((lost : Bytes) × (added ++ lost ≡ line ++ newline)
      × ((is_ok r ≡ false) ⊎ (lost ≡ []))
      × ((all_bytes written ≡ all_bytes files ++ added)
          ⊎ (all_bytes written ≡ younger files ++ added))
      × ((is_ok r ≡ false)
          ⊎ (length (content_of written.base) ≤ max_log_bytes)
          ⊎ (content_of written.base ≡ line ++ newline)))

refused-Written :
    (error : String) (line : Bytes) (files written : LogFiles)
    → (all_bytes written ≡ all_bytes files) ⊎ (all_bytes written ≡ younger files)
    → Written line files (err error, written)
refused-Written error line files written h =
    ([], (line ++ newline, refl, inl refl, kept h, inl refl))
  where
    kept :
        (all_bytes written ≡ all_bytes files) ⊎ (all_bytes written ≡ younger files)
        → (all_bytes written ≡ all_bytes files ++ []) ⊎ (all_bytes written ≡ younger files ++ [])
    kept (inl all) = inl (all ∙ sym (append-nil (all_bytes files)))
    kept (inr young) = inr (young ∙ sym (append-nil (younger files)))

all_bytes-extended :
    (rotated written : LogFiles) (added : Bytes)
    → content_of written.base ≡ content_of rotated.base ++ added
    → content_of written.first ≡ content_of rotated.first
    → content_of written.second ≡ content_of rotated.second
    → all_bytes written ≡ all_bytes rotated ++ added
all_bytes-extended rotated written added base first second = rw base (
    rw first (
      rw second (
        ap (λ x. content_of rotated.second ++ x)
          (sym (append_assoc (content_of rotated.first) (content_of rotated.base) added))
        ∙ sym (append_assoc (content_of rotated.second) (younger rotated) added))))

appended-Written :
    (line : Bytes) (files rotated written : LogFiles) (r : Result (Unit {0}) String)
    (added lost : Bytes)
    → (all_bytes rotated ≡ all_bytes files) ⊎ (all_bytes rotated ≡ younger files)
    → (length (content_of rotated.base) + (length line + 1) ≤ max_log_bytes)
      ⊎ (content_of rotated.base ≡ [])
    → Adds line rotated added lost (r, written)
    → Written line files (r, written)
appended-Written line files rotated written r added lost kept fits
      (whole, done, base, first, second) =
    (added, (lost, whole, done, ends kept, fitting done))
  where
    joined : all_bytes written ≡ all_bytes rotated ++ added
    joined = all_bytes-extended rotated written added base first second

    ends :
        (all_bytes rotated ≡ all_bytes files) ⊎ (all_bytes rotated ≡ younger files)
        → (all_bytes written ≡ all_bytes files ++ added)
          ⊎ (all_bytes written ≡ younger files ++ added)
    ends (inl all) = inl (joined ∙ ap (λ bs. bs ++ added) all)
    ends (inr young) = inr (joined ∙ ap (λ bs. bs ++ added) young)

    added_all : lost ≡ [] → added ≡ line ++ newline
    added_all p = sym (append-nil added) ∙ ap (λ bs. added ++ bs) (sym p) ∙ whole

    fitting :
        (is_ok r ≡ false) ⊎ (lost ≡ [])
        → (is_ok r ≡ false)
          ⊎ (length (content_of written.base) ≤ max_log_bytes)
          ⊎ (content_of written.base ≡ line ++ newline)
    fitting (inl failed) = inl failed
    fitting (inr p) =
        let grown = base ∙ ap (λ bs. content_of rotated.base ++ bs) (added_all p) in
        elim fits [
          | inl small ↦ inr (
              inl (
                rw grown (
                  omega (
                    arith,
                    small,
                    length-append (content_of rotated.base) (line ++ newline),
                    length-append line newline,
                  ))))
          | inr empty ↦ inr (inr (grown ∙ ap (λ bs. bs ++ (line ++ newline)) empty))
        ]

rotated-Written :
    (refusals : Refusals) (line : Bytes) (files : LogFiles)
    (x : Result (Unit {0}) String × LogFiles)
    → ((all_bytes x.1 ≡ all_bytes files) ⊎ (all_bytes x.1 ≡ younger files))
      × ((is_ok x.0 ≡ false)
          ⊎ (length (content_of x.1.base) + (length line + 1) ≤ max_log_bytes)
          ⊎ (content_of x.1.base ≡ []))
    → Written line files (
        and_then x λ rotated.
          append_line refusals.opening refusals.write_line refusals.write_newline refusals.flush
            line rotated)
rotated-Written refusals line files (err error, rotated) h =
    refused-Written error line files rotated h.0
rotated-Written refusals line files (ok _, rotated) h =
    let a =
      append_line-Adds refusals.opening refusals.write_line refusals.write_newline refusals.flush
        line rotated in
    let (r, written) =
      append_line refusals.opening refusals.write_line refusals.write_newline refusals.flush line
        rotated in
    appended-Written line files rotated written r a.0 a.1.0 h.0 (ground (arith, h)) a.1.1

attempt-Written :
    (refusal : Option String) (line : Bytes) (files : LogFiles)
    (next : Result (Unit {0}) String × LogFiles)
    → Written line files next
    → Written line files (and_then (attempt refusal files files) λ _. next)
attempt-Written none line files next h = h
attempt-Written (some error) line files next h = refused-Written error line files files (inl refl)

-- Whatever the system refuses, a write loses nothing but the oldest file, keeps the other bytes in
-- order, and adds the line up to some byte at the end: all of it, with its newline, if it succeeds.
-- The current file then fits the limit, unless it holds just this line.
pub write_record_loses_oldest_only :
    (refusals : Refusals) (line : Bytes) (files : LogFiles)
    → Written line files (write_record refusals line files)
unfolding write_record
write_record_loses_oldest_only refusals line files =
    attempt-Written refusals.directory line files _ (
      attempt-Written refusals.serialize line files _ (
        attempt-Written refusals.metadata line files _ (
          rotated-Written refusals line files (rotate_if_needed refusals (length line + 1) files)
            (rotate_if_needed-keeps refusals (length line + 1) files))))
