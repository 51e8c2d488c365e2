-- ===== src/Wire/Frame.antt =====
-- The frames that cross a peer-to-peer stream (core/src/wire/mod.rs, `WireOlm` and `Frame`).
use nightdrop.Prelude.{ℕ, List}
use nightdrop.Prelude.Bytes.{Bytes}

pub record WireOlm : Type 0 where
  pub message_type : ℕ
  pub body : Bytes

pub data Frame : Type 0 where
  -- the identity key, the reply address and the first ciphertext
  hello : Bytes → Bytes → WireOlm → Frame
  pake : Bytes → Frame
  -- the sender, the message id and the ciphertext
  message : Bytes → Bytes → WireOlm → Frame
  edit unsend : Bytes → WireOlm → Frame
  burn : Bytes → Bytes → WireOlm → Frame
  burn_media viewed storage disappearing : Bytes → WireOlm → Frame
  -- the sender and the invite's code
  approved code_in_use : Bytes → Bytes → Frame
  closed backed_up verified captures burns mailbox_key ack name address relay_set version :
      Bytes → WireOlm → Frame
  client_key : Bytes → Bytes → Frame
  client_key_sealed media media_incoming screenshot : Bytes → WireOlm → Frame
  cover : List ℕ → Frame
  delivered : Bytes → WireOlm → Frame
