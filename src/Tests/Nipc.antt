-- ===== src/Tests/Nipc.antt =====
-- A message with a sector, over a socket.
use grage_fat.Base.{ℕ, zero, suc, ◌<◌, ◌≡◌, refl, [], ◌∷◌, IsBytes, replicate, arith}
use grage_fat.Nipc.{NipcMessage, NipcPayload, put_sectors, IsMessage, field_blank}
use grage_fat.Nipc.Messaging.{send, receive, IsPayload, receive-send}

IsBytes-replicate : (n b : ℕ) → b < 256 → IsBytes (replicate n b)
IsBytes-replicate zero b h = tt
IsBytes-replicate (suc n) b h = (h, IsBytes-replicate n b h)

abbrev payload : NipcPayload
payload = record {
  disk_sector = record { sector_number = 70000; sector_content = replicate 512 7 };
  pfs_socket = 9;
}

abbrev message : NipcMessage
message = record {
  header = record {
    message_type = field_blank;
    payload_length = 512;
    operation_id = put_sectors;
    response_code = 11;
    process_handshake_id = field_blank;
  };
  payload = payload;
}

payload-IsPayload : IsPayload payload
payload-IsPayload = record {
  sector_fits = record {
    number_fits = omega arith;
    content_fits = refl;
    content_bytes = IsBytes-replicate 512 7 (omega arith);
  };
  socket_fits = omega arith;
}

message-IsMessage : IsMessage message
message-IsMessage = record {
  header_fits = record {
    type_fits = omega arith;
    length_fits = omega arith;
    operation_fits = omega arith;
    code_fits = omega arith;
    process_fits = omega arith;
  };
  sector_fits = payload-IsPayload.sector_fits;
  socket_fits = omega arith;
}

receive-send_example : receive payload (send (600 ∷ []) message ∷ []) ≡ message
receive-send_example =
    receive-send message payload 600 [] [] message-IsMessage payload-IsPayload (omega arith)
