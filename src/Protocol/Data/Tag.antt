-- ===== src/Protocol/Data/Tag.antt =====
-- model/bsdvr.cc: DeferredRouteOutputTag, the tag of a packet that RouteOutput sends to the loopback
-- device, and its form in a packet.
-- TagBuffer is ns-3's. `TagBuffer` here is what the tag uses of it: a value of `Bytes` is what a
-- buffer holds from its position on. An int32_t that is not -1 is its 32 bits, as everywhere in the
-- model of the tag.
use bsdvr_ns.Base.{ℕ, ◌%◌, ◌^◌, ◌<◌, ◌≡◌, Option, none, some, if◌then◌else◌, ◌==◌, arith, refl}
use bsdvr_ns.Net.{World}
use bsdvr_ns.Protocol.Data.{tag_interface}

pub record TagBuffer : Type 1 where
  pub Bytes : Type 0
  pub write_u32 : ℕ → Bytes → Bytes
  pub read_u32 : Bytes → ℕ × Bytes

-- A read returns what a write put there, in 32 bits.
pub record IsTagBuffer (b : TagBuffer) : Type 0 where
  pub read_write_u32 : (x : ℕ) (r : b.Bytes) → b.read_u32 (b.write_u32 x r) ≡ (x % 2 ^ 32, r)

-- An int32_t as a uint32_t, and back.
unfoldable pub to_u32 : Option ℕ → ℕ
to_u32 none = 4294967295
to_u32 (some oif) = oif

unfoldable pub of_u32 : ℕ → Option ℕ
of_u32 x = if x == 4294967295 then none else some x

unfoldable pub serialize_tag : (b : TagBuffer) → Option ℕ → b.Bytes → b.Bytes
serialize_tag b oif i = b.write_u32 (to_u32 oif) i

unfoldable pub deserialize_tag : (b : TagBuffer) → b.Bytes → Option ℕ
deserialize_tag b i = of_u32 (b.read_u32 i).0

of_u32-to_u32 :
    (w : World) (oif : Option ℕ) → of_u32 (to_u32 (tag_interface w oif)) ≡ tag_interface w oif
unfolding to_u32 of_u32
of_u32-to_u32 w none = refl
of_u32-to_u32 w (some oif) = ground arith

bits_lem :
    (w : World)
    → ((d : ℕ) → w.interface_for_device d < 2 ^ 32)
    → (oif : Option ℕ) → to_u32 (tag_interface w oif) % 2 ^ 32 ≡ to_u32 (tag_interface w oif)
unfolding to_u32
bits_lem w h none = refl
bits_lem w h (some oif) = let k = h oif in ground arith

-- Where every device's interface has 32 bits and a buffer returns what was written, Deserialize
-- reads back the tag that RouteOutput adds to a packet.
deserialize_tag-serialize_tag :
    (w : World) (b : TagBuffer)
    → IsTagBuffer b
    → (oif : Option ℕ) (i : b.Bytes) → ((d : ℕ) → w.interface_for_device d < 2 ^ 32)
    → deserialize_tag b (serialize_tag b (tag_interface w oif) i) ≡ tag_interface w oif
unfolding deserialize_tag serialize_tag
deserialize_tag-serialize_tag w b laws oif i h =
    rw (laws.read_write_u32 (to_u32 (tag_interface w oif)) i, bits_lem w h oif, of_u32-to_u32 w oif)
