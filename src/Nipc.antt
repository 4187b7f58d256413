-- ===== src/Nipc.antt =====
-- grage-nipc: the messages between the processes. The records of
-- grage-commons/app/includes/grage-commons.h and grage-nipc/app/includes/nipc-messaging.h, whose
-- fields are numbers within the width of their C type (`IsMessage`), and the builder of
-- nipc-message-builder.c. An argument of a builder function is taken at its own width.
pub mod Wire
pub mod Messaging
use grage_fat.Base.{ℕ, ◌<◌, ◌^◌, ◌≡◌, Bool, ◌&&◌, List, ◌==◌, length, IsBytes, take, drop, ◌++◌}

abbrev pub sector_size : ℕ
sector_size = 512

pub record DiskSector : Type 0 where
  pub sector_number : ℕ
  pub sector_content : List ℕ

pub record NipcHeader : Type 0 where
  pub message_type : ℕ
  pub payload_length : ℕ
  pub operation_id : ℕ
  pub response_code : ℕ
  pub process_handshake_id : ℕ

pub record NipcPayload : Type 0 where
  pub disk_sector : DiskSector
  pub pfs_socket : ℕ

pub record NipcMessage : Type 0 where
  pub header : NipcHeader
  pub payload : NipcPayload

-- The constants of nipc-messaging.h.
abbrev pub type_handshake : ℕ
type_handshake = 0

abbrev pub type_sync_process : ℕ
type_sync_process = b'S'

abbrev pub response_success : ℕ
response_success = 2

abbrev pub response_error : ℕ
response_error = 1

abbrev pub put_sectors : ℕ
put_sectors = b'P'

abbrev pub get_sectors : ℕ
get_sectors = b'G'

abbrev pub sync_put_sector : ℕ
sync_put_sector = b'p'

abbrev pub sync_get_sector : ℕ
sync_get_sector = b'g'

abbrev pub sync_end : ℕ
sync_end = b'e'

abbrev pub process_pfs : ℕ
process_pfs = 4

abbrev pub process_ppd : ℕ
process_ppd = 3

abbrev pub field_blank : ℕ
field_blank = 11

-- `NipcMessage builder;` leaves the payload as the stack had it: that is the argument `stale`.
unfoldable pub build_nipc_message : NipcPayload → NipcMessage
build_nipc_message stale = record {
  header = record {
    message_type = field_blank;
    payload_length = field_blank;
    operation_id = field_blank;
    response_code = field_blank;
    process_handshake_id = field_blank;
  };
  payload = stale;
}

unfoldable pub build_from_header : NipcPayload → NipcHeader → NipcMessage
build_from_header stale h = record { header = h; payload = stale }

unfoldable pub build_from_header_and_payload : NipcHeader → NipcPayload → NipcMessage
build_from_header_and_payload h p = record { header = h; payload = p }

unfoldable pub add_message_type : NipcMessage → ℕ → NipcMessage
add_message_type m v = record m { header = record (m.header) { message_type = v } }

unfoldable pub add_response_code : NipcMessage → ℕ → NipcMessage
add_response_code m v = record m { header = record (m.header) { response_code = v } }

unfoldable pub add_payload_length : NipcMessage → ℕ → NipcMessage
add_payload_length m v = record m { header = record (m.header) { payload_length = v } }

unfoldable pub add_operation_id : NipcMessage → ℕ → NipcMessage
add_operation_id m v = record m { header = record (m.header) { operation_id = v } }

unfoldable pub add_process_id : NipcMessage → ℕ → NipcMessage
add_process_id m v = record m { header = record (m.header) { process_handshake_id = v } }

unfoldable pub add_disk_sector : NipcMessage → DiskSector → NipcMessage
add_disk_sector m s = record m { payload = record (m.payload) { disk_sector = s } }

unfoldable pub add_disk_sector_id : NipcMessage → ℕ → NipcMessage
add_disk_sector_id m n = record m {
  payload = record (m.payload) {
    disk_sector = record (m.payload.disk_sector) { sector_number = n };
  };
}

-- `memcpy` of the first `count` bytes of `content`, which holds at least as many.
unfoldable pub add_disk_sector_content : NipcMessage → List ℕ → ℕ → NipcMessage
add_disk_sector_content m content count = record m {
  payload = record (m.payload) {
    disk_sector = record (m.payload.disk_sector) {
      sector_content = take count content ++ drop count m.payload.disk_sector.sector_content;
    };
  };
}

unfoldable pub is_blank_message : NipcMessage → Bool
is_blank_message m =
    m.header.message_type == field_blank
    && m.header.operation_id == field_blank
    && m.header.process_handshake_id == field_blank
    && m.header.response_code == field_blank

-- The fields fit the widths of their C types.
pub record IsSector (s : DiskSector) : Type 0 where
  pub number_fits : s.sector_number < 2 ^ 32
  pub content_fits : length s.sector_content ≡ sector_size
  pub content_bytes : IsBytes s.sector_content

pub record IsHeader (h : NipcHeader) : Type 0 where
  pub type_fits : h.message_type < 2 ^ 8
  pub length_fits : h.payload_length < 2 ^ 16
  pub operation_fits : h.operation_id < 2 ^ 8
  pub code_fits : h.response_code < 2 ^ 32
  pub process_fits : h.process_handshake_id < 2 ^ 8

pub record IsMessage (m : NipcMessage) : Type 0 where
  pub header_fits : IsHeader m.header
  pub sector_fits : IsSector m.payload.disk_sector
  pub socket_fits : m.payload.pfs_socket < 2 ^ 32
