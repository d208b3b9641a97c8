-- ===== src/Packet/Tests.antt =====
-- The headers on the buffer of Samples.
use bsdvr_ns.Base.{ℕ, ◌≡◌, ◌≢◌, ◌↔◌, ◌⊎◌, true, [], arith}
use bsdvr_ns.Packet.{
  type_hello, type_update, TypeHeader, UpdateHeader, HelloHeader, deserialize_type,
}
use bsdvr_ns.Samples.{bytes, bytes_lem}
use bsdvr_ns.Packet.Laws.{deserialize_type-IsValid}

abbrev hello_type : TypeHeader
hello_type = record { message_type = type_hello; valid = true }

abbrev update_type : TypeHeader
update_type = record { message_type = type_update; valid = true }

abbrev unknown_code : ℕ
unknown_code = 3

deserialize_type-IsValid_example :
    (((deserialize_type bytes (bytes.write_u8 unknown_code []) update_type).1.valid ≡ true)
      ↔ ((unknown_code ≡ 1) ⊎ (unknown_code ≡ 2)))
    × (unknown_code ≢ 1
        → unknown_code ≢ 2
        → (deserialize_type bytes (bytes.write_u8 unknown_code []) update_type).1.message_type
          ≡ type_update)
deserialize_type-IsValid_example =
    deserialize_type-IsValid bytes bytes_lem unknown_code update_type [] (omega arith)

abbrev an_update : UpdateHeader
an_update = record { origin = 167837953; dst = 7; hop_count = 3; binary_state = 1 }

abbrev a_hello : HelloHeader
a_hello = record { origin = 167837953; dst = 167837953 }
