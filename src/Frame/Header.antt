-- ===== src/Frame/Header.antt =====
-- src/frame.rs: frame types, flags and the fixed header of 8 bytes.
use bind.Common.{ℕ, ◌+◌, Bool, List, ◌∷◌, ◌==◌, if◌then◌else◌, get_or}
use bind.Common.Bytes.{u32_to_be_bytes, u32_from_be_bytes}
use bind.Pfp.{pfp_size, has_bit}
use bind.Sap.{sap_size}

abbrev pub header_size : ℕ
header_size = 8

abbrev pub max_payload_size : ℕ
max_payload_size = 0x0400_0000

abbrev pub flag_fin : ℕ
flag_fin = 0x01

abbrev pub flag_con : ℕ
flag_con = 0x02

abbrev pub flag_sec : ℕ
flag_sec = 0x04

abbrev pub flag_pfp_present : ℕ
flag_pfp_present = 0x08

abbrev pub flag_sap_present : ℕ
flag_sap_present = 0x10

pub data FrameType : Type 0 where
  frame_data heartbeat control vector handshake error key_rotation key_rotation_ack : FrameType
  unknown : ℕ → FrameType

-- `FrameType::from_byte`
unfoldable pub from_byte : ℕ → FrameType
from_byte b =
    if b == 1
    then frame_data
    else (if b == 2
        then heartbeat
        else (if b == 3
            then control
            else (if b == 4
                then vector
                else (if b == 5
                    then handshake
                    else (if b == 6
                        then error
                        else (if b == 7
                            then key_rotation
                            else (if b == 8 then key_rotation_ack else unknown b)))))))

-- `FrameType::to_byte`
unfoldable pub to_byte : FrameType → ℕ
to_byte frame_data = 1
to_byte heartbeat = 2
to_byte control = 3
to_byte vector = 4
to_byte handshake = 5
to_byte error = 6
to_byte key_rotation = 7
to_byte key_rotation_ack = 8
to_byte (unknown b) = b

pub record BindHeader : Type 0 where
  pub frame_type : FrameType
  pub channel_id : ℕ
  pub flags : ℕ
  pub sequence_id : ℕ
  pub payload_length : ℕ

-- `BindHeader::new`
abbrev pub new_header : FrameType → ℕ → ℕ → ℕ → ℕ → BindHeader
new_header t c f s n = record {
  frame_type = t;
  channel_id = c;
  flags = f;
  sequence_id = s;
  payload_length = n;
}

-- `BindHeader::encode`
unfoldable pub encode_header : BindHeader → List ℕ
encode_header h =
    to_byte h.frame_type ∷ h.channel_id ∷ h.flags ∷ h.sequence_id ∷ u32_to_be_bytes h.payload_length

-- `BindHeader::decode`
unfoldable pub decode_header : List ℕ → BindHeader
decode_header buf = record {
  frame_type = from_byte (get_or buf 0 0);
  channel_id = get_or buf 1 0;
  flags = get_or buf 2 0;
  sequence_id = get_or buf 3 0;
  payload_length =
      u32_from_be_bytes (get_or buf 4 0) (get_or buf 5 0) (get_or buf 6 0) (get_or buf 7 0);
}

-- `BindHeader::has_pfp`
unfoldable pub has_pfp : BindHeader → Bool
has_pfp h = has_bit h.flags flag_pfp_present

-- `BindHeader::has_sap`
unfoldable pub has_sap : BindHeader → Bool
has_sap h = has_bit h.flags flag_sap_present

-- `BindHeader::is_fin`
unfoldable pub is_fin : BindHeader → Bool
is_fin h = has_bit h.flags flag_fin

-- `BindHeader::is_con`
unfoldable pub is_con : BindHeader → Bool
is_con h = has_bit h.flags flag_con

-- `BindHeader::is_sec`
unfoldable pub is_sec : BindHeader → Bool
is_sec h = has_bit h.flags flag_sec

-- `BindHeader::extension_length`
unfoldable pub extension_length : BindHeader → ℕ
extension_length h =
    let len : ℕ = if has_pfp h then pfp_size else 0 in if has_sap h then len + sap_size else len

-- `BindHeader::total_frame_length`
unfoldable pub total_frame_length : BindHeader → ℕ
total_frame_length h = header_size + extension_length h + h.payload_length
