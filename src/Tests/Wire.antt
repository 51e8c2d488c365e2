-- ===== src/Tests/Wire.antt =====
-- Frames through a stand-in for serde_json that writes the version and one mark for a fixed frame.
use nightdrop.Prelude.{
  [], Option, String, arith, if◌then◌else◌, none, refl, some, take, ◌==◌, ◌∷◌, ◌≡◌,
}
use nightdrop.Prelude.Bytes.{Bytes, codes}
use nightdrop.Prelude.Result.{Result, ok, fail}
use nightdrop.Wire.Codec.{
  Envelope, Fields, Json, Value, decode, encode_at, wire_version, wrong_version,
}
use nightdrop.Wire.Codec.RoundTrip.{decode-encode_at, decode_truncated}
use nightdrop.Wire.Frame.{Frame}

abbrev sample : Frame
sample = Frame.message (codes "alice") (codes "m1") (record { message_type = 1; body = codes "hi" })

abbrev toy_read : Bytes → Result Envelope
toy_read (v ∷ mark ∷ []) = ok (record { v = v; f = sample })
toy_read _ = fail "not an envelope"

abbrev sample_fields : Fields
sample_fields =
    Fields.field (codes "t") (Value.str (codes "message"))
      (Fields.field (codes "from") (Value.str (codes "alice")) Fields.end)

abbrev toy_value : Bytes → Option Value
toy_value (v ∷ mark ∷ []) = some (
    Value.obj (
      Fields.field (codes "v") (Value.num v)
        (Fields.field (codes "f") (Value.obj sample_fields) Fields.end)))
toy_value _ = none

abbrev toy : Json
toy = record {
  to_vec = λ env. env.v ∷ 7 ∷ [];
  from_slice = toy_read;
  value_from_slice = toy_value;
  show = λ _. "n";
}

decode-encode_at_example :
    decode toy (encode_at toy sample 2)
    ≡ (if 2 == wire_version then ok sample else fail (wrong_version toy 2))
decode-encode_at_example = decode-encode_at toy sample 2 (omega arith) refl

decode_truncated_example : (e : String) × (decode toy (take 5 (encode_at toy sample 3)) ≡ fail e)
decode_truncated_example = decode_truncated toy sample 3 5 (omega arith) (omega arith)
