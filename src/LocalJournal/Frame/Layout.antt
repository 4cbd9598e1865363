-- ===== src/LocalJournal/Frame/Layout.antt =====
-- The pieces of an encoded frame, as the decoder cuts them out.
use tine_storage.Base.{◌+◌, ◌-◌, ◌≡◌, refl, ◌++◌, Bytes, length, take, drop, slice}
use tine_storage.Envelope
use tine_storage.LocalJournal.Frame.{frame_magic, frame_body}
use tine_storage.LocalJournal.Frame.Extent.{prefix_of}

pub frame_body-prefix :
    (hb payload : Bytes)
    → frame_body hb payload ≡ prefix_of (length hb) (length payload) ++ (hb ++ payload)
unfolding frame_body
frame_body-prefix hb payload = Envelope.body_of-prefix_of frame_magic refl hb payload

-- A frame with the checksum `cs`.
unfoldable pub framed : Bytes → Bytes → Bytes → Bytes
framed hb payload cs = frame_body hb payload ++ cs

-- The pieces that the decoder cuts from such bytes.
module _ (hb payload cs : Bytes) (length-cs : length cs ≡ 32) where
  pub length-framed : length (framed hb payload cs) ≡ length hb + length payload + 52
  unfolding framed frame_body Envelope.framed
  length-framed = Envelope.length-framed frame_magic refl hb payload cs length-cs

  pub take-framed : take 20 (framed hb payload cs) ≡ prefix_of (length hb) (length payload)
  unfolding framed frame_body Envelope.framed
  take-framed = Envelope.take-framed frame_magic refl hb payload cs length-cs

  pub header-framed : slice 20 (20 + length hb) (framed hb payload cs) ≡ hb
  unfolding framed frame_body Envelope.framed
  header-framed = Envelope.header-framed frame_magic refl hb payload cs length-cs

  pub payload-framed :
      slice (20 + length hb) (length hb + length payload + 52 - 32) (framed hb payload cs) ≡ payload
  unfolding framed frame_body Envelope.framed
  payload-framed = Envelope.payload-framed frame_magic refl hb payload cs length-cs

  pub body-framed :
      take (length hb + length payload + 52 - 32) (framed hb payload cs) ≡ frame_body hb payload
  unfolding framed frame_body Envelope.framed
  body-framed = Envelope.body-framed frame_magic refl hb payload cs length-cs

  pub checksum-framed : drop (length hb + length payload + 52 - 32) (framed hb payload cs) ≡ cs
  unfolding framed frame_body Envelope.framed
  checksum-framed = Envelope.checksum-framed frame_magic refl hb payload cs length-cs
