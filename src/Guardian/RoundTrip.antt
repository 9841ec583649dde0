-- ===== src/Guardian/RoundTrip.antt =====
-- A frame that one process encodes is decoded by the other as the same message.
use open_switcher.Prelude.{
  ℕ, String, ◌+◌, ◌<◌, ◌≤◌, ◌≡◌, refl, ap, ◌∙◌, true, List, [], ◌∷◌, ◌++◌, length, length-append,
  append-nil, ok, arith,
}
use open_switcher.Guardian.Bytes.{Get, ◌>>=◌, to_be_bytes, finish}
use open_switcher.Guardian.Numbers.{length-to_be_bytes}
use open_switcher.Guardian.Codes.{
  Decodes, Decodes-bind, Decodes-last, read_array-Decodes, read_number-Decodes, read_tag-Decodes,
  u8,
}
use open_switcher.Guardian.Payload.{IsU16, IsU64, IsMessage, payload_of}
use open_switcher.Guardian.Lengths.{length-payload_of}
use open_switcher.Guardian.Encode.{encode_message, encode_frame, frame_of, header, magic}
use open_switcher.Guardian.Decode.{
  decode_message, decode_frame, decode_payload, read_header, is_magic, expect,
}
use open_switcher.Guardian.EncodeLaws.{encode_body-Encodes}
use open_switcher.Guardian.DecodeLaws.{decode_message-Decodes}
use open_switcher.Guardian.Wire.{Message, kind_of, DecodedFrame}

encode_message-payload :
    (m : Message) → IsMessage m → encode_message m ≡ ok (kind_of m, payload_of m)
unfolding encode_message
encode_message-payload m h =
    rw ((encode_body-Encodes m).writes [] (omega (arith, length-payload_of m h)), encode_message)
      refl

length-header : (kind payload_len sequence : ℕ) → length (header kind payload_len sequence) ≡ 17
length-header kind payload_len sequence = omega (
  arith,
  length-append (to_be_bytes 2 payload_len) (to_be_bytes 8 sequence),
  length-append (to_be_bytes 2 1) (kind ∷ (to_be_bytes 2 payload_len ++ to_be_bytes 8 sequence)),
  length-to_be_bytes 2 1,
  length-to_be_bytes 2 payload_len,
  length-to_be_bytes 8 sequence,
)

Decodes-expect :
    {B : Type 0} (context : String) (f : Unit {0} → Get B) {bs : List ℕ} {b : B}
    → Decodes (f tt) bs b
    → Decodes (expect true context >>= f) bs b
unfolding ◌>>=◌ expect
Decodes-expect context f d = record { reads = λ rest. d.reads rest }

read_header-Decodes :
    (kind payload_len sequence : ℕ)
    → IsU16 payload_len
    → IsU64 sequence
    → Decodes read_header (header kind payload_len sequence) (kind, payload_len, sequence)
unfolding read_header is_magic u8
read_header-Decodes kind payload_len sequence h k =
    Decodes-bind _ (read_array-Decodes 4 magic refl) (
      Decodes-expect "XTEST guardian frame magic is invalid" _ (
        Decodes-bind _ (read_number-Decodes 2 1 (omega arith)) (
          Decodes-expect "XTEST guardian protocol version is unsupported" _ (
            Decodes-bind _ {bs = u8 kind} (read_tag-Decodes kind) (
              Decodes-bind _ (read_number-Decodes 2 payload_len h)
                (Decodes-last _ (read_number-Decodes 8 sequence k)))))))

-- The frame of a message.
abbrev pub frame : ℕ → Message → List ℕ
frame sequence m = header (kind_of m) (length (payload_of m)) sequence ++ payload_of m

length-frame : (sequence : ℕ) (m : Message) → IsMessage m → length (frame sequence m) ≤ 85
length-frame sequence m h = omega (
  arith,
  length-append (header (kind_of m) (length (payload_of m)) sequence) (payload_of m),
  length-header (kind_of m) (length (payload_of m)) sequence,
  length-payload_of m h,
)

encode_frame-frame :
    (sequence : ℕ) (m : Message)
    → 0 < sequence
    → IsMessage m
    → encode_frame sequence m ≡ ok (frame sequence m)
unfolding encode_frame frame_of
encode_frame-frame sequence m pos h =
    ground (arith, encode_message-payload m h, length-payload_of m h)

decode_payload-payload :
    (sequence : ℕ) (m : Message)
    → IsMessage m
    → decode_payload (kind_of m) sequence (payload_of m)
      ≡ ok (record { sequence = sequence; message = m })
unfolding decode_payload finish
decode_payload-payload sequence m h =
    let read : decode_message (kind_of m) (payload_of m) ≡ ok (m, []) =
      rw (append-nil (payload_of m)) at ((decode_message-Decodes m h).reads []) in
    rw (read, decode_payload) refl

decode_frame-parts :
    (bytes payload : List ℕ) (kind payload_len sequence : ℕ) (f : DecodedFrame)
    → length bytes ≡ 17 + payload_len
    → payload_len ≤ 111
    → 0 < sequence
    → read_header bytes ≡ ok ((kind, payload_len, sequence), payload)
    → decode_payload kind sequence payload ≡ ok f
    → decode_frame bytes ≡ ok f
unfolding decode_frame
decode_frame-parts bytes payload kind payload_len sequence f e small pos head body = ground arith

-- For a message whose numbers and arrays have the widths of the source, and a sequence that is not 0
-- and fits 64 bits: encoding succeeds with a frame of at most 85 bytes, and decoding that frame gives
-- the sequence and the message again.
pub decode_frame-encode_frame :
    (sequence : ℕ) (m : Message)
    → 0 < sequence
    → IsU64 sequence
    → IsMessage m
    → (bytes : List ℕ) × (encode_frame sequence m ≡ ok bytes)
      × (length bytes ≤ 85)
      × (decode_frame bytes ≡ ok (record { sequence = sequence; message = m }))
decode_frame-encode_frame sequence m pos wide h =
    let small = length-payload_of m h in
    let payload_len = length (payload_of m) in
    (
      frame sequence m,
      encode_frame-frame sequence m pos h,
      length-frame sequence m h,
      decode_frame-parts (frame sequence m) (payload_of m) (kind_of m) payload_len sequence
          (record { sequence = sequence; message = m })
          (length-append (header (kind_of m) payload_len sequence) (payload_of m)
            ∙ ap (λ n. n + payload_len) (length-header (kind_of m) payload_len sequence))
          (omega arith) pos
          ((read_header-Decodes (kind_of m) payload_len sequence (omega arith) wide).reads
            (payload_of m))
          (decode_payload-payload sequence m h),
    )
