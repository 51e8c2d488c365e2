-- ===== src/Mailbox/Agree/Agreed.antt =====
-- An exchange whose frames all arrive ends in an agreement (core/src/node/mailbox.rs,
-- `send_mailbox_key`, `on_mailbox_key`).
use nightdrop.Mailbox.{Digests, MailboxPair}
use nightdrop.Mailbox.Agree.{
  payload_of, checked, heard, learn, our_confirmation, pair_or_fresh, wants_reply, Sent, send_key,
}
use nightdrop.Mailbox.Agree.Completes.{
  Answers, checked-confirms, heard_unknown, turn, last_heard, send_key-goes,
}
use nightdrop.Mailbox.Agree.Exchange.{Hop, IsSealing, IsWhole, send_key-Spoke}
use nightdrop.Mailbox.Agree.Learning.{checked-fields, heard-peer, learn-peer}
use nightdrop.Mailbox.Agree.Stops.{whole_of}
use nightdrop.Mailbox.Agree.Talk.{Hops, IsOpen, hear, AreAgreed, Arrives, talk}
use nightdrop.Mailbox.State.{Chat, Olm}
use nightdrop.Prelude.{is_some, length, none, some, true, ◌≡◌, arith, false, refl, ◌∙◌}
use nightdrop.Prelude.Bytes.{Bytes}

module _ (h : Digests) (o : Olm) (ok : IsSealing h o)
    (seals : (s : o.Session) (plain : Bytes) → is_some (o.encrypt s plain).0 ≡ true) where
  -- What the sides and their environment have to be for an exchange to go through.
  pub record IsReady (hops : Hops) (a b : Chat o) : Type 0 where
    pub a_open : IsOpen a
    pub b_open : IsOpen b
    pub meets :
        (hops.first.relays_meet ≡ true)
        × (hops.second.relays_meet ≡ true)
        × (hops.third.relays_meet ≡ true)
    pub draws : (length hops.first.random ≡ 32) × (length hops.second.random ≡ 32)
    pub a_whole : IsWhole a.mailbox
    pub b_whole : IsWhole b.mailbox

  third_heard :
      (a_ik b_ik : Bytes) (hop : Hop) (chat : Chat o) (session : o.Session) (p q : MailboxPair)
      (m : o.Message)
      → IsOpen chat
      → hop.relays_meet ≡ true
      → length q.own ≡ 32
      → (o.encrypt session (payload_of h o b_ik a_ik q)).0 ≡ some m
      → is_some (o.decrypt chat.session m).0 ≡ true
      → chat.mailbox ≡ some p
      → p.peer ≡ none
      → q.peer ≡ some p.own
      → (s : MailboxPair) × Answers h o ok seals a_ik b_ik s (hear h o a_ik b_ik hop chat (some m))
        × (s.peer ≡ some q.own)
        × (s.own ≡ p.own)
        × (s.peer_confirmed ≡ true)
  third_heard a_ik b_ik hop chat session p q m is_open meets whole sealed opens is unknown asks =
      let conf = our_confirmation h o b_ik a_ik q in
      let learned = learn h o a_ik b_ik hop.random chat.mailbox q.own conf in
      let base = heard h o a_ik b_ik p q.own in
      let after : learned ≡ checked h o a_ik b_ik base q.own conf =
        unfold learn pair_or_fresh in rw is refl in
      let (peer, own) = heard-peer h o a_ik b_ik p q.own in
      let (same_peer, same_own, same_sent) = checked-fields h o a_ik b_ik base q.own conf in
      let unsent : learned.confirm_sent ≡ false =
        rw (after, same_sent) (heard_unknown h o ok seals a_ik b_ik p q.own unknown) in
      let wants : wants_reply h o a_ik b_ik learned conf ≡ true =
        unfold wants_reply in rw unsent (ground arith) in
      let answers =
        turn h o ok seals a_ik b_ik hop chat session q m is_open meets whole sealed opens wants in
      let confirmed : learned.peer_confirmed ≡ true =
        rw after (checked-confirms h o ok seals a_ik b_ik base q (rw own asks)) in
      (learned, answers, rw after (same_peer ∙ peer), rw after (same_own ∙ own), confirmed)

  at_fourth :
      (a_ik b_ik : Bytes) (hop : Hop) (third : Sent o) (chat : Chat o) (base p : MailboxPair)
      (answers : Answers h o ok seals a_ik b_ik base third)
      → chat.authorized ≡ true
      → chat.mailbox ≡ some p
      → p.peer ≡ some base.own
      → p.confirm_sent ≡ true
      → length base.own ≡ 32
      → base.peer ≡ some p.own
      → base.peer_confirmed ≡ true
      → Arrives third chat
      → AreAgreed third.chat.mailbox (hear h o b_ik a_ik hop chat third.message).chat.mailbox
  at_fourth a_ik b_ik hop third chat base p answers authorized is known sent whole asks confirmed
        arrives =
      let spoke = answers.spoke in
      let q = spoke.pair in
      let conf = our_confirmation h o a_ik b_ik q in
      let asks_q : q.peer ≡ some p.own = spoke.same_peer ∙ asks in
      let known_q : p.peer ≡ some q.own = rw spoke.same_own known in
      let last =
        last_heard h o ok seals b_ik a_ik hop chat spoke.session p q answers.message authorized
          (rw spoke.same_own whole) spoke.sealed (arrives answers.message answers.goes) is known_q
          sent asks_q in
      let (same_peer, same_own, _) = checked-fields h o b_ik a_ik p q.own conf in
      rw answers.goes (record {
        left = q;
        right = checked h o b_ik a_ik p q.own conf;
        is_left = spoke.is;
        is_right = last;
        left_peer = rw same_own asks_q;
        right_peer = same_peer ∙ known_q;
        left_confirmed = spoke.same_confirmed ∙ confirmed;
        right_confirmed = checked-confirms h o ok seals b_ik a_ik p q asks_q;
      })

  at_third :
      (a_ik b_ik : Bytes) (hop last : Hop) (second : Sent o) (chat : Chat o) (base p : MailboxPair)
      (answers : Answers h o ok seals b_ik a_ik base second)
      → IsOpen chat
      → hop.relays_meet ≡ true
      → chat.mailbox ≡ some p
      → p.peer ≡ none
      → length p.own ≡ 32
      → length base.own ≡ 32
      → base.peer ≡ some p.own
      → Arrives second chat
      → (let third = hear h o a_ik b_ik hop chat second.message in
          Arrives third second.chat
          → AreAgreed third.chat.mailbox
              (hear h o b_ik a_ik last second.chat third.message).chat.mailbox)
  at_third a_ik b_ik hop last second chat base p answers is_open meets is unknown p_whole whole asks
        arrives =
      let spoke = answers.spoke in
      let q = spoke.pair in
      let asks_q : q.peer ≡ some p.own = spoke.same_peer ∙ asks in
      let (s, next, peer, own, confirmed) =
        third_heard a_ik b_ik hop chat spoke.session p q answers.message is_open meets
          (rw spoke.same_own whole) spoke.sealed (arrives answers.message answers.goes) is unknown
          asks_q in
      rw answers.goes (λ third_arrives.
        at_fourth a_ik b_ik last (hear h o a_ik b_ik hop chat (some answers.message)) second.chat s
          q next answers.is_open.0 spoke.is (rw own asks_q) (spoke.marks p.own asks_q)
          (rw own p_whole) peer confirmed third_arrives)

  at_second :
      (a_ik b_ik : Bytes) (hop next last : Hop) (first : Sent o) (chat : Chat o)
      (base : MailboxPair) (answers : Answers h o ok seals a_ik b_ik base first)
      → IsOpen chat
      → hop.relays_meet ≡ true
      → next.relays_meet ≡ true
      → length hop.random ≡ 32
      → IsWhole chat.mailbox
      → length base.own ≡ 32
      → base.peer ≡ none
      → Arrives first chat
      → (let second = hear h o b_ik a_ik hop chat first.message in
          let third = hear h o a_ik b_ik next first.chat second.message in
          Arrives second first.chat
          → Arrives third second.chat
          → AreAgreed third.chat.mailbox
              (hear h o b_ik a_ik last second.chat third.message).chat.mailbox)
  at_second a_ik b_ik hop next last first chat base answers is_open meets next_meets drawn
        chat_whole whole unknown arrives =
      let spoke = answers.spoke in
      let q = spoke.pair in
      let conf = our_confirmation h o a_ik b_ik q in
      let q_whole : length q.own ≡ 32 = rw spoke.same_own whole in
      let asks_nothing : conf ≡ none =
        unfold our_confirmation in rw (spoke.same_peer, unknown) refl in
      let learned = learn h o b_ik a_ik hop.random chat.mailbox q.own conf in
      let wants : wants_reply h o b_ik a_ik learned conf ≡ true =
        unfold wants_reply in rw asks_nothing refl in
      let answer =
        turn h o ok seals b_ik a_ik hop chat spoke.session q answers.message is_open meets q_whole
          spoke.sealed (arrives answers.message answers.goes) wants in
      let (peer, own) = learn-peer h o b_ik a_ik hop.random chat.mailbox q.own conf in
      rw answers.goes (
        at_third a_ik b_ik next last (hear h o b_ik a_ik hop chat (some answers.message)) first.chat
          learned q answer answers.is_open next_meets spoke.is (spoke.same_peer ∙ unknown) q_whole
          (rw own (whole_of h o ok hop.random chat.mailbox drawn chat_whole)) peer)

  announcement :
      (a_ik b_ik : Bytes) (hop : Hop) (a : Chat o)
      → IsOpen a
      → hop.relays_meet ≡ true
      → Answers h o ok seals a_ik b_ik
          (pair_or_fresh hop.random a.mailbox)
          (send_key h o a_ik b_ik hop.relays_meet hop.random a)
  announcement a_ik b_ik hop a a_open meets =
      let ((m, goes), is_open) = send_key-goes h o ok seals a_ik b_ik hop.random a a_open in
      let spoke = send_key-Spoke h o a_ik b_ik true hop.random a m goes in
      rw meets (record { message = m; goes = goes; spoke = spoke; is_open = is_open })

  -- The announcement of a side that does not know the peer's contribution ends with both sides
  -- confirmed on the same two contributions, whatever mailbox the peer held before, under these
  -- conditions: both chats are authorized and not closed; the two have relays in common when the first
  -- three frames are made; contributions that are drawn or held are 32 bytes; each of the three frames
  -- arrives and opens; sessions encrypt whatever they are given, without an error; and a ciphertext
  -- opens, if at all, to what was sealed, and hashes are 32 bytes.
  pub talk-AreAgreed :
      (a_ik b_ik : Bytes) (hops : Hops) (a b : Chat o)
      → IsReady hops a b
      → (pair_or_fresh hops.first.random a.mailbox).peer ≡ none
      → (let t = talk h o a_ik b_ik hops a b in
          Arrives t.first b
          → Arrives t.second t.first.chat
          → Arrives t.third t.second.chat
          → AreAgreed t.third.chat.mailbox t.fourth.chat.mailbox)
  unfolding talk
  talk-AreAgreed a_ik b_ik hops a b ready unknown arrives_1 arrives_2 arrives_3 =
      let first = send_key h o a_ik b_ik hops.first.relays_meet hops.first.random a in
      let base = pair_or_fresh hops.first.random a.mailbox in
      let announced : Answers h o ok seals a_ik b_ik base first =
        announcement a_ik b_ik hops.first a ready.a_open ready.meets.0 in
      let whole = whole_of h o ok hops.first.random a.mailbox ready.draws.0 ready.a_whole in
      at_second a_ik b_ik hops.second hops.third hops.fourth first b base announced ready.b_open
        ready.meets.1 ready.meets.2 ready.draws.1 ready.b_whole whole unknown arrives_1 arrives_2
        arrives_3
