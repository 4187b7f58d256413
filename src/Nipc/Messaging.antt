-- ===== src/Nipc/Messaging.antt =====
-- nipc-messaging.c and nipc-facade.c: a message over a socket. What the kernel does with the
-- bytes is the parameter of `Commons.Socket`.
use grage_fat.Base.{ℕ, ◌^◌, ◌<◌, ◌≤◌, ◌≡◌, List, [], ◌∷◌, ◌∙◌, ap, true, arith}
use grage_fat.Commons.Socket.{
  send_bytes, receive_bytes, send_bytes_whole, receive_bytes_whole, receive_bytes_closed,
}
use grage_fat.Nipc.{
  NipcMessage, NipcPayload, build_nipc_message, add_message_type, add_process_id, add_operation_id,
  add_response_code, is_blank_message, IsMessage, type_handshake, process_ppd, IsSector,
}
use grage_fat.Nipc.Wire.{encode, decode, decode-encode, length-encode, message_size}

-- `nipc_messaging_send`: the bytes that the peer gets.
unfoldable pub send : List ℕ → NipcMessage → List ℕ
send accepted m = send_bytes accepted (encode m)

-- `nipc_messaging_receive`: the bytes replace those of a blank message.
unfoldable pub receive : NipcPayload → List (List ℕ) → NipcMessage
receive stale chunks = decode (receive_bytes chunks (encode (build_nipc_message stale)))

unfoldable pub handshake : NipcPayload → ℕ → NipcMessage
handshake stale process_id =
    add_process_id (add_message_type (build_nipc_message stale) type_handshake) process_id

-- The PPD's id travels in the operation's field and its size in the response code's.
unfoldable pub ppd_handshake : NipcPayload → ℕ → ℕ → NipcMessage
ppd_handshake stale ppd_id sectors_count =
    add_response_code
      (add_operation_id
        (add_process_id (add_message_type (build_nipc_message stale) type_handshake) process_ppd)
        ppd_id)
      sectors_count

-- The payload of a message on the stack is bytes of the right number.
pub record IsPayload (p : NipcPayload) : Type 0 where
  pub sector_fits : IsSector p.disk_sector
  pub socket_fits : p.pfs_socket < 2 ^ 32

build_nipc_message-IsMessage :
    (stale : NipcPayload) → IsPayload stale → IsMessage (build_nipc_message stale)
unfolding build_nipc_message
build_nipc_message-IsMessage stale f = record {
  header_fits = omega arith;
  sector_fits = f.sector_fits;
  socket_fits = f.socket_fits;
}

-- When the kernel carries the 529 bytes of a message in one piece, the receiver has the message
-- that was sent, whatever its stack held.
pub receive-send :
    (m : NipcMessage) (stale : NipcPayload) (n : ℕ) (accepted : List ℕ) (chunks : List (List ℕ))
    → IsMessage m
    → IsPayload stale
    → message_size ≤ n
    → receive stale (send (n ∷ accepted) m ∷ chunks) ≡ m
unfolding receive send
receive-send m stale n accepted chunks f g h =
    let blank = build_nipc_message stale in
    let size = length-encode m f in
    let size' = length-encode blank (build_nipc_message-IsMessage stale g) in
    let sent = send_bytes_whole (encode m) n accepted (omega arith) (omega arith) in
    rw sent (
      ap decode (receive_bytes_whole (encode m) chunks (encode blank) (omega arith) (omega arith))
      ∙ decode-encode m f)

-- A connection that ends before the first byte of a message reads as a blank message, which the
-- service threads take for the disconnection.
receive_closed :
    (stale : NipcPayload) (chunks : List (List ℕ))
    → IsPayload stale
    → is_blank_message (receive stale ([] ∷ chunks)) ≡ true
unfolding receive is_blank_message build_nipc_message
receive_closed stale chunks g =
    let blank = build_nipc_message stale in
    rw (
      receive_bytes_closed chunks (encode blank),
      decode-encode blank (build_nipc_message-IsMessage stale g),
    )
