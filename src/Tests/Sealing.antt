-- ===== src/Tests/Sealing.antt =====
-- Sample inputs for the mailboxes: hashes that add up what they are given, sessions that seal nothing,
-- and two chats.
use nightdrop.Mailbox.{Digests, confirm_hash, ordered, pair_secret}
use nightdrop.Mailbox.Agree.Exchange.{IsSealing, Hop}
use nightdrop.Mailbox.Agree.Trust.{IsCollisionFree}
use nightdrop.Mailbox.State.{Olm, Chat}
use nightdrop.Prelude.{
  [], ap, arith, drop, inr, length, length-append, refl, replicate, some, suc, sum_by,
  sum_by-append, sym, take, zero, ℕ, ◌++◌, ◌+◌, ◌∙◌, ◌∷◌, ◌≡◌, ◌≤◌, false, none, true,
}
use nightdrop.Prelude.Bytes.{Bytes, codes}

abbrev pub total_of : Bytes → ℕ
total_of bytes = sum_by (λ b. b) bytes

-- The secret is the sum of the contributions; a hash keeps 32 bytes.
abbrev pub adding : Digests
adding = record {
  hkdf = λ salt ikm info n. total_of ikm ∷ [];
  hkdf_from_prk = λ prk info n. prk ++ info;
  sha256 = λ bytes. take 32 (bytes ++ replicate 32 0);
  base64 = λ b. b;
  unbase64 = some;
}

abbrev pub open_letters : Olm
open_letters = record {
  Session = Unit;
  Message = Bytes;
  encrypt = λ s plain. (some plain, s);
  decrypt = λ s message. (some message, s);
  to_parts = λ message. (1, message);
  from_parts = λ kind message. some message;
}

-- The contributions: 32 times the same byte.
abbrev pub Uniform : Bytes → Type 0
Uniform x = (n : ℕ) × (x ≡ replicate 32 n)

abbrev pub drawn_of : ℕ → Bytes
drawn_of n = replicate 32 n

length-take_of_le : (n : ℕ) (xs : Bytes) → n ≤ length xs → length (take n xs) ≡ n
length-take_of_le zero xs h = refl
length-take_of_le (suc n) [] h = absurd (omega (arith, h))
length-take_of_le (suc n) (x ∷ xs) h = ap suc (length-take_of_le n xs (omega (arith, h)))

pub adding_32 : (s : Bytes) → length (confirm_hash adding s) ≡ 32
unfolding confirm_hash
adding_32 s =
    let mark = codes "nightdrop/mailbox/v2/confirm" in
    let zeros : Bytes = replicate 32 0 in
    let long : 32 ≤ length ((mark ++ s) ++ zeros) =
      rw (length-append (mark ++ s) zeros) (omega arith) in
    length-take_of_le 32 ((mark ++ s) ++ zeros) long

pub adding-IsSealing : IsSealing adding open_letters
adding-IsSealing = record { authentic = λ s t plain m e. inr (sym e); hash_32 = adding_32 }

total_of-ordered :
    (x y : Bytes) → total_of ((ordered x y).0 ++ (ordered x y).1) ≡ total_of x + total_of y
unfolding ordered
total_of-ordered x y = ground (arith, sum_by-append (λ b. b) x y, sum_by-append (λ b. b) y x)

secret_adding : (a b x y : Bytes) → pair_secret adding a b x y ≡ (total_of x + total_of y) ∷ []
unfolding pair_secret
secret_adding a b x y = ap (λ n. n ∷ []) (total_of-ordered x y)

abbrev at_28 : Bytes → ℕ
at_28 xs = first (drop 28 xs)
  where
    first : Bytes → ℕ
    first [] = 0
    first (x ∷ xs) = x

first_byte : (n k : ℕ) → confirm_hash adding (n ∷ []) ≡ confirm_hash adding (k ∷ []) → n ≡ k
unfolding confirm_hash
first_byte n k e = ap at_28 e

pub adding-IsCollisionFree : (a b : Bytes) → IsCollisionFree adding Uniform a b
adding-IsCollisionFree a b = record {
  whole = λ x (n, is). rw is refl;
  hash_32 = adding_32;
  apart = λ x y z (n, x_is) (k, y_is) (j, z_is) e.
      let sums : total_of x + total_of y ≡ total_of x + total_of z =
        first_byte _ _ (rw (secret_adding a b x y, secret_adding a b x z) at e) in
      let same_byte : k ≡ j = omega (arith, rw (x_is, y_is, z_is) at sums) in
      y_is ∙ ap (λ b. replicate 32 b) same_byte ∙ sym z_is;
}

abbrev pub new_chat : Bytes → Chat open_letters
new_chat address = record {
  session = tt;
  peer_address = address;
  authorized = true;
  closed = false;
  mailbox = none;
  last_seen = none;
  alive_count = 0;
  peer_wire_old = false;
  peer_app_version = none;
  told_upgrade = false;
  history = [];
}

abbrev pub alice : Bytes
alice = codes "alice"

abbrev pub bob : Bytes
bob = codes "bob"

abbrev pub hop : ℕ → Hop
hop n = record { relays_meet = true; random = drawn_of n; now = 1000 }
