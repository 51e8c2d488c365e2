-- ===== src/Lock/Attempts.antt =====
-- The wait after wrong attempts (core/src/storage/lock.rs, `Attempts`, `wait_after`, `wait_secs`).
use nightdrop.Prelude.{
  Option, if◌then◌else◌, leb, ltb, none, some, min, ℕ, ◌*◌, ◌+◌, ◌-◌, ◌^◌, ◌==◌,
}
use nightdrop.Prelude.Bytes.{Bytes}

pub record Attempts : Type 0 where
  pub failures : ℕ
  pub last_unix : ℕ

-- What the module calls of serde_json for the attempts file.
pub record AttemptsJson : Type 0 where
  pub to_vec : Attempts → Option Bytes
  pub from_slice : Bytes → Option Attempts

abbrev pub default_attempts : Attempts
default_attempts = record { failures = 0; last_unix = 0 }

-- `unwrap_or_default`
abbrev or_default : Option Attempts → Attempts
or_default none = default_attempts
or_default (some a) = a

-- `read_attempts`, of the file's bytes.
unfoldable pub read_attempts : AttemptsJson → Option Bytes → Attempts
read_attempts j none = default_attempts
read_attempts j (some b) = or_default (j.from_slice b)

abbrev saved : Option Bytes → Option Bytes → Option Bytes
saved file none = file
saved file (some bytes) = some bytes

-- `note_failure`: the file's bytes after it, if the write succeeds.
unfoldable pub note_failure : AttemptsJson → ℕ → Option Bytes → Option Bytes
note_failure j now file =
    let a = read_attempts j file in
    saved file (j.to_vec (record { failures = min (a.failures + 1) (2 ^ 32 - 1); last_unix = now }))

unfoldable pub wait_after : ℕ → ℕ
wait_after failures =
    if leb failures 4
    then 0
    else if leb failures 9
    then 30
    else if leb failures 14
    then 5 * 60
    else if leb failures 19
    then 30 * 60
    else 60 * 60

-- The clock is read twice, `now` and then `again`.
unfoldable pub wait_secs : Attempts → ℕ → ℕ → ℕ
wait_secs a now again =
    let wait = wait_after a.failures in
    let since = now - a.last_unix in
    if wait == 0 then 0 else wait - (if ltb again a.last_unix then 0 else since)
