-- ===== src/Sap.antt =====
-- src/sap.rs: the Security Attestation Protocol, a header of 28 bytes.
-- A fixed array is a list of bytes; `IsValid` holds the lengths and ranges that the Rust types give.
pub mod Codec
mod Examples
mod UnitTests
use bind.Common.{
  ℕ, ◌+◌, ◌/◌, ◌%◌, ◌<◌, ◌≡◌, bit_and, Bool, true, List, [], ◌∷◌, ◌++◌, ◌==◌, leb, get_or, take,
  drop, length, All, replicate,
}
use bind.Common.Bytes.{IsU8, IsU16, u8, u16, u16_from_be_bytes}
use bind.Pfp.{family_magic}

abbrev pub sap_size : ℕ
sap_size = 28

abbrev pub sap_protocol_id : ℕ
sap_protocol_id = 1

abbrev pub current_version : ℕ
current_version = 1

abbrev pub pah_size : ℕ
pah_size = 14

abbrev pub sig_size : ℕ
sig_size = 8

abbrev pub seq_rotation_threshold : ℕ
seq_rotation_threshold = 65534

pub record SapHeader : Type 0 where
  pub sap_version : ℕ
  pub seq_counter : ℕ
  pub pah_hash : List ℕ
  pub pah_signature : List ℕ

-- What the types `u8`, `u16`, `[u8; 14]` and `[u8; 8]` give.
pub record IsValid (h : SapHeader) : Type 0 where
  pub version_byte : IsU8 h.sap_version
  pub seq_word : IsU16 h.seq_counter
  pub hash_length : length h.pah_hash ≡ pah_size
  pub signature_length : length h.pah_signature ≡ sig_size

-- `SapHeader::new`
abbrev pub new : ℕ → List ℕ → List ℕ → SapHeader
new seq hash signature = record {
  sap_version = current_version;
  seq_counter = seq;
  pah_hash = hash;
  pah_signature = signature;
}

-- `SapHeader::default`
abbrev pub default : SapHeader
default = new 0 (replicate pah_size 0) (replicate sig_size 0)

-- `SapHeader::encode`
unfoldable pub encode : SapHeader → List ℕ
encode h =
    u8 (family_magic / 256)
    ∷ u8 (bit_and family_magic 0xFF)
    ∷ sap_protocol_id
    ∷ bit_and h.sap_version 15
    ∷ u8 (h.seq_counter / 256)
    ∷ u8 (bit_and h.seq_counter 0xFF)
    ∷ (h.pah_hash ++ h.pah_signature)

-- `SapHeader::decode`
unfoldable pub decode : List ℕ → SapHeader
decode buf = record {
  sap_version = bit_and (get_or buf 3 0) 15;
  seq_counter = u16_from_be_bytes (get_or buf 4 0) (get_or buf 5 0);
  pah_hash = take pah_size (drop 6 buf);
  pah_signature = take sig_size (drop (6 + pah_size) buf);
}

-- `SapHeader::verify_magic`
unfoldable pub verify_magic : List ℕ → Bool
verify_magic buf = u16_from_be_bytes (get_or buf 0 0) (get_or buf 1 0) == family_magic

-- `SapHeader::verify_protocol_id`
unfoldable pub verify_protocol_id : List ℕ → Bool
verify_protocol_id buf = get_or buf 2 0 == sap_protocol_id

-- `SapHeader::is_version_current`
unfoldable pub is_version_current : SapHeader → Bool
is_version_current h = h.sap_version == current_version

-- `SapHeader::needs_key_rotation`
unfoldable pub needs_key_rotation : SapHeader → Bool
needs_key_rotation h = leb seq_rotation_threshold h.seq_counter

-- `SapHeader::increment_seq`, with `wrapping_add`: the new header and the new counter.
unfoldable pub increment_seq : SapHeader → SapHeader × ℕ
increment_seq h = let next = u16 (h.seq_counter + 1) in (record h { seq_counter = next }, next)
