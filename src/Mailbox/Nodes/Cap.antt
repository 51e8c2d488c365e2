-- ===== src/Mailbox/Nodes/Cap.antt =====
-- The limit on contacts (core/src/node/mailbox.rs, `check_contact_cap`, `open_contacts`).
use nightdrop.Mailbox.Nodes.{
  check_contact_cap, max_contacts, open_contacts, is_contact, one_if, refuse_if,
}
use nightdrop.Mailbox.State.{Chat, Node, Olm}
use nightdrop.Prelude.{
  ◌≡◌, ◌≤◌, Bool, Bool-cases, Option-cases, arith, false, inl, inr, leb, not, refl, true, ℕ, ◌&&◌,
  ◌<◌, String,
}
use nightdrop.Prelude.Bytes.{Bytes}
use nightdrop.Prelude.Map.{insert, get, total, total-insert}
use nightdrop.Prelude.Result.{ok}

one_if-le : (b : Bool) → one_if b ≤ 1
one_if-le true = omega arith
one_if-le false = omega arith

room :
    (e : String) (existing : Bool) (count : ℕ)
    → refuse_if e (not existing && leb max_contacts count) ≡ ok tt
    → existing ≡ false
    → count < max_contacts
unfolding refuse_if
room e existing count passes new = ground (arith, passes, new)

-- A new chat that the check lets through keeps the node within the limit, whatever it replaces.
contact_cap :
    {o : Olm} (node : Node o) (contact : Bytes) (chat : Chat o)
    → open_contacts node ≤ max_contacts
    → check_contact_cap node contact ≡ ok tt
    → open_contacts (record node { chats = insert contact chat node.chats }) ≤ max_contacts
unfolding open_contacts check_contact_cap refuse_if
contact_cap {o} node contact chat within passes =
    let is_one : Chat o → ℕ = λ c. one_if (is_contact c) in
    let grows = total-insert is_one contact chat node.chats in
    elim (Option-cases (get contact node.chats)) [
      | inl new ↦
          let small = room _ false (total is_one node.chats) (rw new at passes) refl in
          omega (arith, rw new at grows, small, one_if-le (is_contact chat))
      | inr (old, is) ↦ elim (Bool-cases (is_contact old)) [
        | inl counted ↦
            omega (arith, rw (is, counted) at grows, within, one_if-le (is_contact chat))
        | inr uncounted ↦
            let small =
              room _ (is_contact old) (total is_one node.chats) (rw is at passes) uncounted in
            omega (arith, rw (is, uncounted) at grows, small, one_if-le (is_contact chat))
      ]
    ]
