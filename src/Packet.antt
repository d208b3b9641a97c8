-- ===== src/Packet.antt =====
-- model/bsdvr-packet.h and model/bsdvr-packet.cc: the headers TypeHeader, UpdateHeader and
-- HelloHeader.
-- Buffer::Iterator is ns-3's. `Wire` is what the headers use of it: a value of `Bytes` is what a
-- buffer holds from an iterator on, a write puts a number before the bytes that follow it, and a
-- read returns a number and the bytes after it. A read past the end, which fails an assertion of ns-3,
-- is one that goes over fewer bytes than it should: the assertion at the end of Deserialize fails.
pub mod Laws
mod Tests
use bsdvr_ns.Base.{ℕ, suc, ◌+◌, ◌-◌, ◌%◌, ◌^◌, ◌≡◌, Bool, true, false, ◌&&◌, ◌==◌, if◌then◌else◌}
use bsdvr_ns.Net.{Address}

pub record Wire : Type 1 where
  pub Bytes : Type 0
  pub size : Bytes → ℕ
  pub write_u8 : ℕ → Bytes → Bytes
  pub read_u8 : Bytes → ℕ × Bytes
  -- WriteHtonU32 and ReadNtohU32; WriteTo and ReadFrom of an Ipv4Address do the same with its bits
  pub write_u32 : ℕ → Bytes → Bytes
  pub read_u32 : Bytes → ℕ × Bytes

-- A read returns what a write put there, as an unsigned number of its width.
pub record IsWire (b : Wire) : Type 0 where
  pub read_write_u8 : (x : ℕ) (r : b.Bytes) → b.read_u8 (b.write_u8 x r) ≡ (x % 2 ^ 8, r)
  pub read_write_u32 : (x : ℕ) (r : b.Bytes) → b.read_u32 (b.write_u32 x r) ≡ (x % 2 ^ 32, r)
  pub size_u8 : (x : ℕ) (r : b.Bytes) → b.size (b.write_u8 x r) ≡ 1 + b.size r
  pub size_u32 : (x : ℕ) (r : b.Bytes) → b.size (b.write_u32 x r) ≡ 4 + b.size r

pub data MessageType : Type 0 where
  type_hello type_update : MessageType

-- The enumerators' values.
abbrev pub type_code : MessageType → ℕ
type_code type_hello = 1
type_code type_update = 2

pub record TypeHeader : Type 0 where
  pub message_type : MessageType
  pub valid : Bool

unfoldable pub new_type_header : MessageType → TypeHeader
new_type_header t = record { message_type = t; valid = true }

pub record UpdateHeader : Type 0 where
  pub origin : Address
  pub dst : Address
  pub hop_count : ℕ
  pub binary_state : ℕ

pub record HelloHeader : Type 0 where
  pub origin : Address
  pub dst : Address

abbrev pub type_header_eq : TypeHeader → TypeHeader → Bool
type_header_eq a b = type_code a.message_type == type_code b.message_type && same a.valid b.valid
  where
    same : Bool → Bool → Bool
    same true v = v
    same false true = false
    same false false = true

abbrev pub update_header_eq : UpdateHeader → UpdateHeader → Bool
update_header_eq a b =
    a.origin == b.origin
    && (a.dst == b.dst && (a.hop_count == b.hop_count && a.binary_state == b.binary_state))

abbrev pub hello_header_eq : HelloHeader → HelloHeader → Bool
hello_header_eq a b = a.origin == b.origin && a.dst == b.dst

-- The switch of TypeHeader::Deserialize, on the byte that it has read.
abbrev pub with_type : ℕ → TypeHeader → TypeHeader
with_type code t =
    if code == 1
    then record { message_type = type_hello; valid = true }
    else if code == 2
    then record { message_type = type_update; valid = true }
    else record t { valid = false }

-- Deserialize returns the distance that the iterator went and the header; the header that it is
-- called on gives the fields that it leaves alone.
module _ (b : Wire) where
  unfoldable pub serialize_type : TypeHeader → b.Bytes → b.Bytes
  serialize_type t r = b.write_u8 (type_code t.message_type) r

  unfoldable pub deserialize_type : b.Bytes → TypeHeader → ℕ × TypeHeader
  deserialize_type start t =
      let (code, i) = b.read_u8 start in (b.size start - b.size i, with_type code t)

  unfoldable pub serialize_update : UpdateHeader → b.Bytes → b.Bytes
  serialize_update u r =
      b.write_u32 u.origin
        (b.write_u32 u.dst (b.write_u32 u.hop_count (b.write_u32 u.binary_state r)))

  unfoldable pub deserialize_update : b.Bytes → ℕ × UpdateHeader
  deserialize_update start =
      let (origin, i) = b.read_u32 start in
      let (dst, j) = b.read_u32 i in
      let (hop_count, k) = b.read_u32 j in
      let (binary_state, l) = b.read_u32 k in
      (
        b.size start - b.size l,
        record { origin = origin; dst = dst; hop_count = hop_count; binary_state = binary_state },
      )

  unfoldable pub serialize_hello : HelloHeader → b.Bytes → b.Bytes
  serialize_hello h r = b.write_u32 h.origin (b.write_u32 h.dst r)

  unfoldable pub deserialize_hello : b.Bytes → ℕ × HelloHeader
  deserialize_hello start =
      let (origin, i) = b.read_u32 start in
      let (dst, j) = b.read_u32 i in
      (b.size start - b.size j, record { origin = origin; dst = dst })
