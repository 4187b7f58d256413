-- ===== src/Nipc/Wire.antt =====
-- The layout of the packed struct `NipcMessage`: 9 bytes of header, the sector's number and its
-- 512 bytes, and the socket; 529 bytes in all.
use grage_fat.Base.{
  ℕ, ◌<◌, ◌^◌, ◌≡◌, ap₂, subst, List, ◌++◌, length, take, drop, bytes_of, value_of, take_append,
  drop_append, arith, length-append,
}
use grage_fat.Nipc.{
  NipcHeader, NipcPayload, NipcMessage, IsMessage, IsHeader, IsSector, sector_size,
}

abbrev pub message_size : ℕ
message_size = 529

unfoldable pub encode_header : NipcHeader → List ℕ
encode_header h =
    bytes_of 1 h.message_type
    ++ (bytes_of 2 h.payload_length
        ++ (bytes_of 1 h.operation_id
            ++ (bytes_of 4 h.response_code ++ bytes_of 1 h.process_handshake_id)))

unfoldable pub encode_payload : NipcPayload → List ℕ
encode_payload p =
    bytes_of 4 p.disk_sector.sector_number
    ++ (p.disk_sector.sector_content ++ bytes_of 4 p.pfs_socket)

unfoldable pub encode : NipcMessage → List ℕ
unfolding encode_header encode_payload
encode m = encode_header m.header ++ encode_payload m.payload

unfoldable pub decode_header : List ℕ → NipcHeader
decode_header bs = record {
  message_type = value_of (take 1 bs);
  payload_length = value_of (take 2 (drop 1 bs));
  operation_id = value_of (take 1 (drop 3 bs));
  response_code = value_of (take 4 (drop 4 bs));
  process_handshake_id = value_of (take 1 (drop 8 bs));
}

unfoldable pub decode_payload : List ℕ → NipcPayload
decode_payload bs = record {
  disk_sector = record {
    sector_number = value_of (take 4 bs);
    sector_content = take sector_size (drop 4 bs);
  };
  pfs_socket = value_of (take 4 (drop sector_size (drop 4 bs)));
}

unfoldable pub decode : List ℕ → NipcMessage
unfolding decode_header decode_payload
decode bs = record { header = decode_header bs; payload = decode_payload (drop 9 bs) }

decode_header-encode_header :
    (h : NipcHeader) (rest : List ℕ) → IsHeader h → decode_header (encode_header h ++ rest) ≡ h
unfolding decode_header encode_header
decode_header-encode_header h rest f = ground arith

decode_payload-encode_payload :
    (p : NipcPayload)
    → IsSector p.disk_sector
    → p.pfs_socket < 2 ^ 32
    → decode_payload (encode_payload p) ≡ p
unfolding decode_payload encode_payload
decode_payload-encode_payload p s f =
    let content = p.disk_sector.sector_content in
    let socket = bytes_of 4 p.pfs_socket in
    let front : take sector_size (content ++ socket) ≡ content =
      subst (λ n. take n (content ++ socket) ≡ content) s.content_fits
        (take_append content socket) in
    let back : drop sector_size (content ++ socket) ≡ socket =
      subst (λ n. drop n (content ++ socket) ≡ socket) s.content_fits
        (drop_append content socket) in
    rw (front, back) (ground arith)

-- What the kernel copies out of one process and into the other is the same message.
pub decode-encode : (m : NipcMessage) → IsMessage m → decode (encode m) ≡ m
unfolding decode encode
decode-encode m f =
    ap₂ (λ (h : NipcHeader) (p : NipcPayload). record { header = h; payload = p })
      (decode_header-encode_header m.header (encode_payload m.payload) f.header_fits)
      (decode_payload-encode_payload m.payload f.sector_fits f.socket_fits)

pub length-encode : (m : NipcMessage) → IsMessage m → length (encode m) ≡ message_size
unfolding encode encode_header encode_payload
length-encode m f = omega (
  arith,
  length-append m.payload.disk_sector.sector_content (bytes_of 4 m.payload.pfs_socket),
  f.sector_fits.content_fits,
)
