-- ===== src/Ipc/Connect/Attempts.antt =====
-- How the retry loops of src/ipc.rs end.
use wardoff.Prelude.{
  ℕ, zero, suc, ◌-◌, Bool, true, false, ◌∙◌, Option, none, some, String, Result, ok, err, ◌≡◌, refl,
  arith, ◌⊎◌, inl, inr, List, [], ◌∷◌, subst, Bool-cases,
}
use wardoff.Ipc.Connect.{
  OsCode, file_not_found, path_not_found, IoError, ClientError, unavailable, Pipes,
  map_connect_error, is_worth_retrying, pipe_retry_delay, wait_before_pipe_retry, sleep_some,
  retry_or_fail, opened, attempts, connect_pipe,
}

-- The two errors that say that there is no pipe, and the report of them.
abbrev pub is_missing : OsCode → Bool
is_missing file_not_found = true
is_missing path_not_found = true
is_missing _ = false

abbrev pub is_unavailable : ClientError → Bool
is_unavailable unavailable = true
is_unavailable _ = false

abbrev failures : Result ℕ IoError → List IoError → List IoError
failures (ok handle) before = before
failures (err error) before = error ∷ before

module _ {W : Type 0} (pipes : Pipes W) where
  -- The same system, which also keeps the errors of the opens, newest first.
  abbrev pub noted : Pipes (W × List IoError)
  noted = record {
    open_pipe = λ w. let (r, w') = pipes.open_pipe w.0 in (r, (w', failures r w.1));
    create_pipe = λ w. let (r, w') = pipes.create_pipe w.0 in (r, (w', w.1));
    now = λ w. pipes.now w.0;
    sleep = λ delay w. (pipes.sleep delay w.0, w.1);
  }

  -- There is no wait after the last attempt, and waiting opens nothing.
  no_last_wait :
      (connect_deadline : Option ℕ) (w : W × List IoError)
      → (wait_before_pipe_retry noted 19 connect_deadline w).0 ≡ false
  unfolding wait_before_pipe_retry sleep_some pipe_retry_delay
  no_last_wait connect_deadline w = ground arith

  wait-opens :
      (attempt : ℕ) (connect_deadline : Option ℕ) (w : W × List IoError)
      → (wait_before_pipe_retry noted attempt connect_deadline w).1.1 ≡ w.1
  unfolding wait_before_pipe_retry sleep_some
  wait-opens attempt connect_deadline w = ground arith

  module _ (path : String) (is_control_pipe : Bool) (connect_deadline : Option ℕ) where
    -- An error is that of the last open, mapped.
    abbrev pub ReportsLast : Result ℕ ClientError × (W × List IoError) → Type 0
    ReportsLast (ok pipe, w) = Unit {0}
    ReportsLast (err e, w) =
        (error : IoError) × ((rest : List IoError) × (w.1 ≡ error ∷ rest)
          × (e ≡ map_connect_error path is_control_pipe error))

    retry-ReportsLast :
        (error : IoError) (rest : List IoError) (waited : Bool) (w' : W × List IoError)
        (again : W × List IoError → Result ℕ ClientError × (W × List IoError))
        (w : W × List IoError)
        → w.1 ≡ error ∷ rest
        → w'.1 ≡ error ∷ rest
        → (waited ≡ false) ⊎ ReportsLast (again w')
        → ReportsLast
            (retry_or_fail noted path is_control_pipe connect_deadline error (waited, w') again w)
    unfolding retry_or_fail
    retry-ReportsLast error rest waited w' again w p p' h =
        elim (Bool-cases (is_worth_retrying error.raw_code)) [
          | inr pointless ↦ rw pointless (error, (rest, p, refl))
          | inl worth ↦ elim (Bool-cases waited) [
            | inr late ↦ rw worth (rw late (error, (rest, p', refl)))
            | inl on_time ↦ elim h [
              | inl late ↦ rw worth (rw late (error, (rest, p', refl)))
              | inr m ↦ rw worth (rw on_time m)
            ]
          ]
        ]

    opened-ReportsLast :
        (r : Result ℕ IoError) (before : List IoError) (w : W × List IoError)
        (fails : IoError → Result ℕ ClientError × (W × List IoError))
        → w.1 ≡ failures r before
        → ((error : IoError) → w.1 ≡ error ∷ before → ReportsLast (fails error))
        → ReportsLast (opened noted path is_control_pipe connect_deadline r w fails)
    unfolding opened
    opened-ReportsLast (ok pipe) before w fails p h = tt
    opened-ReportsLast (err error) before w fails p h = h error p

    one_attempt-ReportsLast :
        (left : ℕ) (code : Option OsCode) (w : W × List IoError)
        → ((error : IoError) (w' : W × List IoError)
            → ((wait_before_pipe_retry noted (20 - suc left) connect_deadline w').0 ≡ false)
              ⊎ ReportsLast (
                  attempts noted path is_control_pipe connect_deadline left
                    (some error.raw_code)
                    (wait_before_pipe_retry noted (20 - suc left) connect_deadline w').1))
        → ReportsLast (attempts noted path is_control_pipe connect_deadline (suc left) code w)
    unfolding attempts
    one_attempt-ReportsLast left code w later =
        let (r, w') = noted.open_pipe w in
        let waiting = wait_before_pipe_retry noted (20 - suc left) connect_deadline w' in
        opened-ReportsLast r w.1 w' _ refl λ error p.
          retry-ReportsLast error w.1 waiting.0 waiting.1
            (attempts noted path is_control_pipe connect_deadline left (some error.raw_code)) w' p
            (wait-opens (20 - suc left) connect_deadline w' ∙ p) (later error w')

    attempts-ReportsLast :
        (left : ℕ) (code : Option OsCode) (w : W × List IoError)
        → ReportsLast (attempts noted path is_control_pipe connect_deadline (suc left) code w)
    attempts-ReportsLast zero code w =
        one_attempt-ReportsLast 0 code w λ error w'. inl (no_last_wait connect_deadline w')
    attempts-ReportsLast (suc n) code w = one_attempt-ReportsLast (suc n) code w λ error w'. inr (
        attempts-ReportsLast n (some error.raw_code)
          (wait_before_pipe_retry noted (20 - suc (suc n)) connect_deadline w').1)

    -- A client that does not connect has tried to open the pipe, and reports the error that its last
    -- attempt gave, mapped by `map_connect_error`: that Wardoff is unavailable only when this open
    -- found no pipe.
    pub connect_error_is_mapped :
        (e : ClientError) (w : W) (w' : W × List IoError)
        → connect_pipe noted path is_control_pipe connect_deadline (w, []) ≡ (err e, w')
        → ReportsLast (err e, w')
          × ((is_unavailable e ≡ false)
              ⊎ ((error : IoError) × ((rest : List IoError) × (w'.1 ≡ error ∷ rest)
                    × (is_missing error.raw_code ≡ true))))
    unfolding connect_pipe map_connect_error
    connect_error_is_mapped e w w' h =
        let m = subst ReportsLast h (attempts-ReportsLast 19 none (w, [])) in
        (m, unavailable_missing e m.0 m.1.0 w' m.1.1 m.1.2)
      where
        unavailable_missing :
            (e : ClientError) (error : IoError) (rest : List IoError) (w' : W × List IoError)
            → w'.1 ≡ error ∷ rest
            → e ≡ map_connect_error path is_control_pipe error
            → (is_unavailable e ≡ false)
              ⊎ ((error : IoError) × ((rest : List IoError) × (w'.1 ≡ error ∷ rest)
                    × (is_missing error.raw_code ≡ true)))
        unavailable_missing e error rest w' p q = elim (Bool-cases (is_missing error.raw_code)) [
          | inl missing ↦ inr (error, (rest, p, missing))
          | inr found ↦ inl (ground (arith, q, found))
        ]
