-- ===== src/Mailbox/Payload.antt =====
-- The plaintext of a `MailboxKey` frame (core/src/node/mailbox.rs, `encode_payload`,
-- `decode_payload`).
use mathlib.Core.List.{append-nil}
use nightdrop.Mailbox.{and_then}
use nightdrop.Prelude.{
  Option, [], arith, drop, if◌then◌else◌, length, length-append, none, refl, some, take,
  take_append, ◌++◌, ◌==◌, ◌∷◌, ◌≡◌, drop_append,
}
use nightdrop.Prelude.Bytes.{Bytes, codes}

-- `MARK_MAILBOX_V2`
abbrev pub mark_mailbox_v2 : Bytes
mark_mailbox_v2 = codes "nightdrop/ctl/mailbox/v2"

abbrev pub or_nothing : Option Bytes → Bytes
or_nothing none = []
or_nothing (some c) = c

unfoldable pub encode_payload : Bytes → Option Bytes → Bytes
encode_payload own confirm = mark_mailbox_v2 ++ own ++ or_nothing confirm

-- `strip_prefix`
unfoldable pub strip_prefix : Bytes → Bytes → Option Bytes
strip_prefix [] s = some s
strip_prefix (a ∷ mark) [] = none
strip_prefix (a ∷ mark) (b ∷ s) = let rest = strip_prefix mark s in if a == b then rest else none

unfoldable pub parts : Bytes → Option (Bytes × Option Bytes)
parts rest =
    if length rest == 32
    then some (rest, none)
    else if length rest == 64
    then some (take 32 rest, some (drop 32 rest))
    else none

unfoldable pub decode_payload : Bytes → Option (Bytes × Option Bytes)
decode_payload p = and_then (strip_prefix mark_mailbox_v2 p) parts

strip_prefix-append : (mark s : Bytes) → strip_prefix mark (mark ++ s) ≡ some s
unfolding strip_prefix
strip_prefix-append [] s = refl
strip_prefix-append (a ∷ mark) s = ground (arith, strip_prefix-append mark s)

parts_one : (own : Bytes) → length own ≡ 32 → parts own ≡ some (own, none)
unfolding parts
parts_one own whole = rw whole refl

parts_two :
    (own c : Bytes) → length own ≡ 32 → length c ≡ 32 → parts (own ++ c) ≡ some (own, some c)
unfolding parts
parts_two own c whole hash =
    rw (length-append own c, whole, hash, ← whole, take_append own c, drop_append own c) refl

-- What one side sends is what the other reads, a contribution alone or with a confirmation, if both
-- are 32 bytes.
pub decode_payload-encode_payload :
    (own : Bytes) (confirm : Option Bytes)
    → length own ≡ 32
    → ((c : Bytes) → confirm ≡ some c → length c ≡ 32)
    → decode_payload (encode_payload own confirm) ≡ some (own, confirm)
unfolding decode_payload encode_payload
decode_payload-encode_payload own none whole hash =
    rw (append-nil own, strip_prefix-append mark_mailbox_v2 own) (parts_one own whole)
decode_payload-encode_payload own (some c) whole hash =
    rw (strip_prefix-append mark_mailbox_v2 (own ++ c)) (parts_two own c whole (hash c refl))
