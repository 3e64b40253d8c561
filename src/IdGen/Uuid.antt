-- ===== src/IdGen/Uuid.antt =====
-- UUIDs and their base58 texts.
use go_svc_extn.Prelude.{◌≡◌, ◌↔◌, Bytes, IsBytes, length, ok, arith}
use go_svc_extn.IdGen.{Base58, from_bytes, encode_uuid, decode_to_uuid}

-- Every UUID is decoded from its text, and a text that decodes to another number of bytes than 16 is an
-- error: `DecodeToUuid` of the text of some bytes answers with them exactly if there are 16. Base58
-- decodes what it encoded.
pub decode_to_uuid_iff :
    (c : Base58) (lawful : (s : Bytes) → IsBytes s → c.decode (c.encode s) ≡ s) (u : Bytes)
    → IsBytes u
    → (decode_to_uuid c (encode_uuid c u) ≡ ok u) ↔ (length u ≡ 16)
unfolding decode_to_uuid encode_uuid from_bytes
decode_to_uuid_iff c lawful u h = rw (lawful u h) (ground (arith))
