-- ===== src/Packet/Laws.antt =====
-- model/bsdvr-packet.cc: what Deserialize reads of what Serialize wrote.
use bsdvr_ns.Base.{ℕ, ◌-◌, ◌%◌, ◌^◌, ◌<◌, ◌≡◌, ◌≢◌, ◌↔◌, ◌⊎◌, inl, inr, refl, true, arith, ap, sym}
use bsdvr_ns.Packet.{
  Wire, IsWire, MessageType, type_hello, type_update, TypeHeader, UpdateHeader, HelloHeader,
  type_code, with_type, serialize_type, deserialize_type, serialize_update, deserialize_update,
  serialize_hello, deserialize_hello,
}

word_lem : (x : ℕ) → x < 2 ^ 32 → x % 2 ^ 32 ≡ x
word_lem x h = omega arith

code_lem : (m : MessageType) → type_code m % 2 ^ 8 ≡ type_code m
code_lem type_hello = refl
code_lem type_update = refl

with_type_lem :
    (m : MessageType) (u : TypeHeader)
    → with_type (type_code m) u ≡ record { message_type = m; valid = true }
with_type_lem type_hello u = refl
with_type_lem type_update u = refl

module _ (b : Wire) (laws : IsWire b) where
  distance_u8 : (x : ℕ) (r : b.Bytes) → b.size (b.write_u8 x r) - b.size r ≡ 1
  distance_u8 x r = rw (laws.size_u8 x r) (omega arith)

  -- Over a buffer whose reads return what was written, TypeHeader::Deserialize reads back a valid
  -- header that Serialize wrote, whatever header it is called on and whatever follows it in the
  -- buffer, and it goes over one byte.
  pub deserialize_type-serialize_type :
      (t u : TypeHeader) (r : b.Bytes)
      → t.valid ≡ true
      → deserialize_type b (serialize_type b t r) u ≡ (1, t)
  unfolding deserialize_type serialize_type
  deserialize_type-serialize_type t u r v =
      let m = t.message_type in
      rw (
        laws.read_write_u8 (type_code m) r,
        distance_u8 (type_code m) r,
        code_lem m,
        with_type_lem m u,
        ap {B = TypeHeader} (λ x. record { message_type = m; valid = x }) (sym v),
      )

  -- Over a buffer whose reads return what was written, TypeHeader::Deserialize takes a byte for
  -- valid exactly if it is the number of one of the two message types, and leaves the type as it
  -- was for any other byte.
  pub deserialize_type-IsValid :
      (code : ℕ) (u : TypeHeader) (r : b.Bytes)
      → code < 2 ^ 8
      → (((deserialize_type b (b.write_u8 code r) u).1.valid ≡ true) ↔ ((code ≡ 1) ⊎ (code ≡ 2)))
        × (code ≢ 1
            → code ≢ 2
            → (deserialize_type b (b.write_u8 code r) u).1.message_type ≡ u.message_type)
  unfolding deserialize_type
  deserialize_type-IsValid code u r h =
      let z : code % 2 ^ 8 ≡ code = omega arith in
      rw (laws.read_write_u8 code r, z)
        ((λ e. ground arith, λ e. elim e [ inl p ↦ rw p | inr p ↦ rw p ]), λ p q. ground arith)

  -- Over a buffer whose reads return what was written, UpdateHeader::Deserialize reads back the
  -- header that Serialize wrote, if its fields have 32 bits, whatever follows it in the buffer, and
  -- it goes over the 16 bytes of GetSerializedSize.
  pub deserialize_update-serialize_update :
      (u : UpdateHeader) (r : b.Bytes)
      → u.origin < 2 ^ 32
      → u.dst < 2 ^ 32
      → u.hop_count < 2 ^ 32
      → u.binary_state < 2 ^ 32
      → deserialize_update b (serialize_update b u r) ≡ (16, u)
  unfolding deserialize_update serialize_update
  deserialize_update-serialize_update u r p q s t =
      let r3 = b.write_u32 u.binary_state r in
      let r2 = b.write_u32 u.hop_count r3 in
      let r1 = b.write_u32 u.dst r2 in
      let d : (b.size (b.write_u32 u.origin r1) - b.size r) ≡ 16 =
        rw
          (
            laws.size_u32 u.origin r1,
            laws.size_u32 u.dst r2,
            laws.size_u32 u.hop_count r3,
            laws.size_u32 u.binary_state r,
          )
          (omega arith) in
      rw (
        laws.read_write_u32 u.origin r1,
        laws.read_write_u32 u.dst r2,
        laws.read_write_u32 u.hop_count r3,
        laws.read_write_u32 u.binary_state r,
        d,
        word_lem u.origin p,
        word_lem u.dst q,
        word_lem u.hop_count s,
        word_lem u.binary_state t,
      )

  -- Over a buffer whose reads return what was written, HelloHeader::Deserialize reads back the
  -- header that Serialize wrote, if its addresses have 32 bits, whatever follows it in the buffer,
  -- and it goes over the 8 bytes of GetSerializedSize.
  pub deserialize_hello-serialize_hello :
      (h : HelloHeader) (r : b.Bytes)
      → h.origin < 2 ^ 32
      → h.dst < 2 ^ 32
      → deserialize_hello b (serialize_hello b h r) ≡ (8, h)
  unfolding deserialize_hello serialize_hello
  deserialize_hello-serialize_hello h r p q =
      let r1 = b.write_u32 h.dst r in
      let d : (b.size (b.write_u32 h.origin r1) - b.size r) ≡ 8 =
        rw (laws.size_u32 h.origin r1, laws.size_u32 h.dst r) (omega arith) in
      rw (
        laws.read_write_u32 h.origin r1,
        laws.read_write_u32 h.dst r,
        d,
        word_lem h.origin p,
        word_lem h.dst q,
      )
