-- ===== src/Wire/Codec/RoundTrip.antt =====
-- Decoding what was encoded, and what the wire shows of a frame (core/src/wire/mod.rs, `encode_at`,
-- `decode`, `legacy_sender`).
use mathlib.Core.List.{append_assoc}
use native.Mathlib.Nat.{mod-eq_of_lt}
use nightdrop.Prelude.{
  arith, length, refl, replicate, some, take_of_length-le, ℕ, ◌%◌, ◌++◌, ◌+◌, ◌-◌, ◌<◌, ◌∙◌, ◌≡◌,
  ◌≤◌, String, ap, if◌then◌else◌, leb, length-append, length-replicate, le→leb, none, take,
  take_append, true, ◌==◌, false, length-take-le, lt→leb, suc, zero,
}
use nightdrop.Prelude.Bytes.{Bytes, codes, same}
use nightdrop.Prelude.Result.{ok, fail}
use nightdrop.Wire.Codec.{
  obj, field, num, str, end, Json, encode_at, read_prefix, resize, Fields, decode, legacy_sender,
  wire_version, wrong_version, get_field,
}
use nightdrop.Wire.Frame.{Frame}
use nightdrop.Wire.Padding.{padded_len, padded_len_lem, to_be_bytes, from_be_bytes-to_be_bytes}

resize-append :
    (n : ℕ) (xs : Bytes) → length xs ≤ n → resize n xs ≡ xs ++ replicate (n - length xs) 0
resize-append n xs h = rw (take_of_length-le n xs h) refl

length-to_be_bytes_append : (n : ℕ) (xs : Bytes) → length (to_be_bytes n ++ xs) ≡ 4 + length xs
unfolding to_be_bytes
length-to_be_bytes_append n xs = omega arith

module _ (json : Json) (frame : Frame) (v : ℕ) where
  abbrev body : Bytes
  body = json.to_vec (record { v = v; f = frame })

  abbrev padding : Bytes
  padding = replicate (padded_len (4 + length body) - (4 + length body)) 0

  -- An encoded frame is its prefix, its body and zeros.
  encode_at_parts :
      encode_at json frame v ≡ to_be_bytes (length body % 4294967296) ++ (body ++ padding)
  unfolding encode_at
  encode_at_parts =
      resize-append (padded_len (4 + length body)) (to_be_bytes (length body % 4294967296) ++ body)
        (omega (
          arith,
          length-to_be_bytes_append (length body % 4294967296) body,
          (padded_len_lem (4 + length body)).0,
        ))
      ∙ rw (length-to_be_bytes_append, append_assoc) refl

  -- The length of an encoded frame is the padded length of its body with the prefix: two frames
  -- whose bodies fall into the same bucket look alike.
  length-encode_at : length (encode_at json frame v) ≡ padded_len (4 + length body)
  length-encode_at = omega (
    arith,
    ap (length {A = ℕ}) encode_at_parts,
    length-to_be_bytes_append (length body % 4294967296) (body ++ padding),
    length-append {0} body padding,
    length-replicate {0} {A = ℕ} (padded_len (4 + length body) - (4 + length body)) 0,
    (padded_len_lem (4 + length body)).0,
  )

  read_prefix-encode_at :
      length body < 4294967296
      → read_prefix (encode_at json frame v)
        ≡ some (record { len = length body; rest = body ++ padding })
  unfolding read_prefix to_be_bytes
  read_prefix-encode_at h =
      rw (encode_at_parts, mod-eq_of_lt h, from_be_bytes-to_be_bytes (length body) h) refl

  body_within : leb (length body) (length (body ++ padding)) ≡ true
  body_within = le→leb _ _ (omega (arith, length-append {0} body padding))

  -- Decoding reads back the frame of an encoding in this build's version and refuses the encoding of
  -- any other version, given serde's law for this envelope, and a body whose length fits 32 bits.
  pub decode-encode_at :
      length body < 4294967296
      → json.from_slice body ≡ ok (record { v = v; f = frame })
      → decode json (encode_at json frame v)
        ≡ (if v == wire_version then ok frame else fail (wrong_version json v))
  unfolding decode
  decode-encode_at h law =
      rw (read_prefix-encode_at h, body_within, take_append body padding, law) refl

  -- The sender of a frame in an older version is read without decoding the frame; in this version or
  -- a newer one nothing is. The value of the body is taken to be the object that serde writes, and
  -- its length to fit 32 bits.
  legacy_sender-encode_at :
      (tag sender : Bytes) (rest : Fields)
      → length body < 4294967296
      → json.value_from_slice body
        ≡ some (
            obj (
              field (codes "v") (num v) (
                field
                  (codes "f")
                  (obj (field (codes "t") (str tag) (field (codes "from") (str sender) rest)))
                  end)))
      → legacy_sender json (encode_at json frame v)
        ≡ (if leb wire_version v then none else some sender)
  unfolding legacy_sender get_field same
  legacy_sender-encode_at tag sender rest h law =
      rw (read_prefix-encode_at h, body_within, take_append body padding, law) (ground arith)

-- A frame, of a body whose length fits 32 bits, that is cut anywhere inside its prefix or its body
-- is refused, never misread.
pub decode_truncated :
    (json : Json) (frame : Frame) (v k : ℕ)
    → length (json.to_vec (record { v = v; f = frame })) < 4294967296
    → k < 4 + length (json.to_vec (record { v = v; f = frame }))
    → (e : String) × (decode json (take k (encode_at json frame v)) ≡ fail e)
unfolding decode to_be_bytes
decode_truncated json frame v zero h cut = (_, refl)
decode_truncated json frame v (suc zero) h cut = rw (encode_at_parts json frame v) (_, refl)
decode_truncated json frame v (suc (suc zero)) h cut = rw (encode_at_parts json frame v) (_, refl)
decode_truncated json frame v (suc (suc (suc zero))) h cut =
    rw (encode_at_parts json frame v) (_, refl)
decode_truncated json frame v (suc (suc (suc (suc m)))) h cut =
    let short : leb (length (body json frame v))
          (length (take m (body json frame v ++ padding json frame v)))
        ≡ false =
      lt→leb _ _
        (omega (arith, length-take-le {0} m (body json frame v ++ padding json frame v))) in
    rw
      (
        encode_at_parts json frame v,
        mod-eq_of_lt h,
        from_be_bytes-to_be_bytes (length (body json frame v)) h,
        short,
      )
      (_, refl)
