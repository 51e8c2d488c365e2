-- ===== src/Tests/Mailbox.antt =====
-- Alice announces, Bob answers, Alice answers: the agreement in concrete runs.
use nightdrop.Mailbox.{
  MailboxPair, fresh_pair, at_most, confirm_hash, from_persisted, ordered, pair_secret,
  to_persisted,
}
use nightdrop.Mailbox.Agree.{
  heard, send_key, checked, confirms, learn, on_decrypted, on_key, on_payload, our_confirmation,
  pair_or_fresh, payload_of, post_handle_of, sealed_with, is_known, wants_reply,
}
use nightdrop.Mailbox.Agree.Agreed.{IsReady, talk-AreAgreed}
use nightdrop.Mailbox.Agree.Announce.{Round, rounds}
use nightdrop.Mailbox.Agree.Exchange.{exchange}
use nightdrop.Mailbox.Agree.Lost.{lost_confirmation}
use nightdrop.Mailbox.Agree.Mutual.{confirmed-IsMutual}
use nightdrop.Mailbox.Agree.Steps.{
  left, right, announce, deliver, begins, goes_on, after, Side, saying,
}
use nightdrop.Mailbox.Agree.Stops.{announcement_ends}
use nightdrop.Mailbox.Agree.Talk.{AreAgreed, Hops, Talk, talk, hear}
use nightdrop.Mailbox.Agree.Trust.{IsMutual}
use nightdrop.Mailbox.Delivered.{posted-IsPolled}
use nightdrop.Mailbox.Epochs.{
  is_drained, yesterday, tomorrow, contains, drained_after, epoch_of, polled_epochs,
}
use nightdrop.Mailbox.Nodes.{cover_handle}
use nightdrop.Mailbox.Nodes.Cover.{cover_handle-IsPolled}
use nightdrop.Mailbox.Pair.{from_persisted-to_persisted}
use nightdrop.Mailbox.Payload.{decode_payload, encode_payload, parts, strip_prefix}
use nightdrop.Mailbox.Polling.{poll_fragments_at, post_handle}
use nightdrop.Mailbox.Polling.Covered.{IsPolled}
use nightdrop.Mailbox.State.{Node, forget_upgrade_notice, mark_alive}
use nightdrop.Prelude.{
  [], refl, true, ◌∷◌, ◌≤◌, false, inl, none, some, ◌≡◌, arith, ℕ, ◌*◌, ◌+◌, ◌-◌, Any, List, Option,
}
use nightdrop.Prelude.Bytes.{Bytes, codes, same}
use nightdrop.Prelude.Map.{get}
use nightdrop.Tests.Sealing.{
  hop, adding, adding-IsSealing, alice, bob, drawn_of, new_chat, open_letters, Uniform,
  adding-IsCollisionFree,
}

abbrev fresh_a : Side open_letters
fresh_a = record { chat = new_chat bob; said = []; backups = [] }

abbrev fresh_b : Side open_letters
fresh_b = record { chat = new_chat alice; said = []; backups = [] }

abbrev hops : Hops
hops = record { first = hop 1; second = hop 2; third = hop 3; fourth = hop 4 }

abbrev agreed : Talk open_letters
agreed = talk adding open_letters alice bob hops (new_chat bob) (new_chat alice)

ready :
    IsReady adding open_letters adding-IsSealing
      (λ s plain. refl)
      hops
      (new_chat bob)
      (new_chat alice)
ready = record {
  a_open = (refl, refl);
  b_open = (refl, refl);
  meets = (refl, refl, refl);
  draws = (refl, refl);
  a_whole = λ p e. cc;
  b_whole = λ p e. cc;
}

talk-AreAgreed_example : AreAgreed agreed.third.chat.mailbox agreed.fourth.chat.mailbox
unfolding pair_or_fresh fresh_pair
talk-AreAgreed_example =
    talk-AreAgreed adding open_letters adding-IsSealing (λ s plain. refl) alice bob hops
      (new_chat bob) (new_chat alice) ready refl (λ m e. refl) (λ m e. refl) (λ m e. refl)

announcement_ends_example :
    (let first = send_key adding open_letters alice bob true (drawn_of 1) (new_chat bob) in
      exchange adding open_letters
        (hop 2 ∷ hop 3 ∷ hop 4 ∷ hop 5 ∷ [])
        alice
        bob
        first.chat
        (new_chat alice)
        first.message
      ≤ 3)
announcement_ends_example =
    announcement_ends adding open_letters adding-IsSealing (hop 2 ∷ hop 3 ∷ hop 4 ∷ hop 5 ∷ [])
      alice bob (new_chat bob) (new_chat alice) true (drawn_of 1) refl
      (refl, (refl, (refl, (refl, tt)))) (λ p e. cc) (λ p e. cc)

abbrev pair_a : MailboxPair
pair_a = record {
  own = drawn_of 1;
  peer = some (drawn_of 2);
  peer_confirmed = true;
  confirm_sent = true;
  announced_at = none;
}

abbrev pair_b : MailboxPair
pair_b = record {
  own = drawn_of 2;
  peer = some (drawn_of 1);
  peer_confirmed = false;
  confirm_sent = true;
  announced_at = none;
}

abbrev letter_a : Bytes
letter_a = payload_of adding open_letters alice bob (fresh_pair (drawn_of 1))

abbrev letter_b : Bytes
letter_b = payload_of adding open_letters bob alice pair_b

abbrev said_a : Side open_letters
said_a =
    after open_letters fresh_a
      (send_key adding open_letters alice bob true (drawn_of 1) fresh_a.chat)

abbrev said_b : Side open_letters
said_b =
    after open_letters fresh_b
      (on_key adding open_letters bob alice true (drawn_of 2) 1000 fresh_b.chat letter_a)

abbrev sure_a : Side open_letters
sure_a =
    after open_letters said_a
      (on_key adding open_letters alice bob true (drawn_of 3) 1000 said_a.chat letter_b)

confirmed-IsMutual_example : IsMutual said_b.said pair_a
unfolding after saying send_key on_key sealed_with pair_or_fresh fresh_pair payload_of
    our_confirmation on_decrypted on_payload decode_payload encode_payload learn checked heard
    confirms strip_prefix parts wants_reply mark_alive forget_upgrade_notice is_known confirm_hash
    pair_secret same ordered at_most
confirmed-IsMutual_example =
    confirmed-IsMutual adding open_letters Uniform alice bob {a = fresh_a} {b = fresh_b}
      {a' = sure_a} {b' = said_b} pair_a (adding-IsCollisionFree alice bob) (refl, refl, refl)
      (refl, refl, refl)
      (goes_on
        (goes_on
          (goes_on begins (left fresh_a fresh_b said_a (announce true (drawn_of 1) (1, refl))))
          (right said_a fresh_b said_b
            (deliver true (drawn_of 2) 1000 letter_a (2, refl) (inl refl))))
        (left said_a said_b sure_a (deliver true (drawn_of 3) 1000 letter_b (3, refl) (inl refl))))
      refl refl

abbrev round : Round
round = record {
  a_announced = false;
  b_announced = false;
  a_hop = hop 5;
  b_hop = hop 6;
  loses = false;
}

-- The third frame of `agreed` is lost.
lost_confirmation_example :
    post_handle_of adding open_letters bob alice
      (rounds adding open_letters alice bob
        (round ∷ round ∷ [])
        (agreed.third.chat, agreed.second.chat)).1.mailbox
      1000
    ≡ none
unfolding talk hear send_key on_key sealed_with pair_or_fresh fresh_pair payload_of our_confirmation
    on_decrypted on_payload decode_payload encode_payload learn checked heard confirms strip_prefix
    parts wants_reply mark_alive forget_upgrade_notice is_known confirm_hash pair_secret same
    ordered at_most
lost_confirmation_example =
    lost_confirmation adding open_letters adding-IsSealing alice bob (round ∷ round ∷ [])
      agreed.third.chat agreed.second.chat 1000
      (record {
        left = pair_a;
        right = pair_b;
        is_left = refl;
        is_right = refl;
        left_peer = refl;
        right_peer = refl;
        left_confirmed = refl;
        left_sent = refl;
        right_waits = refl;
        right_whole = refl;
      })

from_persisted-to_persisted_example :
    from_persisted adding (to_persisted adding (some pair_b)) ≡ some pair_b
from_persisted-to_persisted_example =
    from_persisted-to_persisted adding (some pair_b) (λ b. refl)
      (λ p e.
        let is : pair_b ≡ p = cc in
        rw (← is) (record {
          own_32 = refl;
          peer_32 = λ b e. let x : drawn_of 1 ≡ b = cc in rw (← x) refl;
          unknown_peer = λ e. cc;
        }))

abbrev day : ℕ
day = 24 * 60 * 60

abbrev node_a : Node open_letters
node_a = record {
  identity_key = alice;
  poll_seed = codes "seed a";
  prev_epoch_drained = none;
  chats = (bob, record (new_chat bob) { mailbox = some pair_a }) ∷ [];
  mailbox_announced = [];
  outbox = [];
  dirty = false;
}

abbrev node_b : Node open_letters
node_b = record {
  identity_key = bob;
  poll_seed = codes "seed b";
  prev_epoch_drained = none;
  chats = (alice, record (new_chat alice) { mailbox = some pair_b }) ∷ [];
  mailbox_announced = [];
  outbox = [];
  dirty = false;
}

-- Alice's clock is an hour slow: she posts for the day that has ended on Bob's clock.
posted-IsPolled_example :
    (handle : Bytes) × (post_handle adding node_a bob (20 * day - 1800) ≡ some handle)
    × IsPolled handle
        (epoch_of (20 * day - 1800))
        (poll_fragments_at adding node_b (20 * day + 7200))
unfolding get same drained_after epoch_of
posted-IsPolled_example =
    posted-IsPolled adding open_letters node_a node_b
      (record (new_chat bob) { mailbox = some pair_a })
      (record (new_chat alice) { mailbox = some pair_b }) pair_a pair_b [] (20 * day - 1800)
      (20 * day + 1800) (20 * day + 7200) refl refl refl refl (refl, refl, refl) refl refl tt
      (omega arith, omega arith) (omega arith, omega arith)

-- The first candidate is picked: here the secret of the chat with Alice.
abbrev first_of : List Bytes → Option Bytes
first_of [] = none
first_of (secret ∷ secrets) = some secret

first_of-Any : (list : List Bytes) (s : Bytes) → first_of list ≡ some s → Any (λ t. t ≡ s) list
first_of-Any [] s e = cc
first_of-Any (t ∷ list) s e = inl cc

cover_handle-IsPolled_example :
    IsPolled
      (cover_handle adding open_letters first_of node_b 20)
      20
      (poll_fragments_at adding node_b (20 * day + 7200))
unfolding polled_epochs yesterday contains tomorrow is_drained
cover_handle-IsPolled_example =
    cover_handle-IsPolled adding first_of node_b (20 * day + 7200) 20 first_of-Any refl
