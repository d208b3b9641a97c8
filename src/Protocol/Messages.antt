-- ===== src/Protocol/Messages.antt =====
-- model/bsdvr.cc: what RecvBsdv does with the packets that the protocol sends.
use bsdvr_ns.Base.{none, ◌==◌, if◌then◌else◌, ℕ, ◌<◌, ◌^◌, ◌≡◌, refl, and_then, ap, ◌∙◌}
use bsdvr_ns.Net.{Address, World}
use bsdvr_ns.Packet.{
  Wire, IsWire, MessageType, type_code, TypeHeader, type_hello, type_update, UpdateHeader,
  HelloHeader, new_type_header, serialize_type, serialize_update, serialize_hello,
}
use bsdvr_ns.Packet.Laws.{
  deserialize_type-serialize_type, deserialize_update-serialize_update,
  deserialize_hello-serialize_hello,
}
use bsdvr_ns.PacketQueue.{ForwardingStatus, Status}
use bsdvr_ns.Protocol.{Protocol, Message, update_message, hello_message}
use bsdvr_ns.Protocol.Handlers.{recv_hello}
use bsdvr_ns.Protocol.Receive.{receiver_of, recv_update, dispatch, recv_bsdv}

-- The packet that SendUpdate and SendHello make of a header, before what is in the packet already.
abbrev pub packet_of : (b : Wire) → Message → b.Bytes → b.Bytes
packet_of b (update_message u) r =
    serialize_type b (new_type_header type_update) (serialize_update b u r)
packet_of b (hello_message h) r =
    serialize_type b (new_type_header type_hello) (serialize_hello b h r)

module _ (w : World) (status_of : ForwardingStatus → Status) (b : Wire) (laws : IsWire b)
    (fuel socket : ℕ) (sender : Address) (p : Protocol) where
  read_type : (t : TypeHeader) (rest : b.Bytes) → (b.read_u8 (serialize_type b t rest)).1 ≡ rest
  unfolding serialize_type
  read_type t rest = rw (laws.read_write_u8 (type_code t.message_type) rest)

  recv_bsdv-serialize_type :
      (m : MessageType) (rest : b.Bytes)
      → recv_bsdv w status_of b fuel socket (serialize_type b (new_type_header m) rest) sender p
        ≡ and_then
            (receiver_of socket p)
            (λ receiver. dispatch w status_of b fuel m rest receiver sender p)
  unfolding recv_bsdv new_type_header
  recv_bsdv-serialize_type m rest =
      let t = new_type_header m in
      rw (
        deserialize_type-serialize_type b laws t (new_type_header type_update) rest refl,
        read_type t rest,
      )

  -- Over a buffer whose reads return what was written, a packet with a type header and an update or
  -- hello header, as SendUpdate and SendHello make them with fields of 32 bits, is handed to
  -- RecvUpdate or RecvHello with the header that was sent, with the address of the socket that it
  -- came through and, for an update, with its sender; a socket that is unknown fails the assertion.
  pub recv_bsdv-serialize :
      (u : UpdateHeader) (h : HelloHeader) (r : b.Bytes)
      → u.origin < 2 ^ 32
      → u.dst < 2 ^ 32
      → u.hop_count < 2 ^ 32
      → u.binary_state < 2 ^ 32
      → h.origin < 2 ^ 32
      → h.dst < 2 ^ 32
      → (recv_bsdv w status_of b fuel socket
            (serialize_type b (new_type_header type_update) (serialize_update b u r))
            sender
            p
          ≡ and_then (receiver_of socket p) (λ my. recv_update w status_of fuel u my sender p))
        × (recv_bsdv w status_of b fuel socket
              (serialize_type b (new_type_header type_hello) (serialize_hello b h r))
              sender
              p
            ≡ and_then (receiver_of socket p) (λ my. recv_hello w h my p))
  unfolding dispatch
  recv_bsdv-serialize u h r uo ud uh ub ho hd = (
    recv_bsdv-serialize_type type_update (serialize_update b u r)
        ∙ ap
            (λ x.
              and_then (receiver_of socket p)
                (λ my. if x.0 == 16 then recv_update w status_of fuel x.1 my sender p else none))
            (deserialize_update-serialize_update b laws u r uo ud uh ub),
    recv_bsdv-serialize_type type_hello (serialize_hello b h r)
        ∙ ap
            (λ x.
              and_then (receiver_of socket p)
                (λ my. if x.0 == 8 then recv_hello w x.1 my p else none))
            (deserialize_hello-serialize_hello b laws h r ho hd),
  )
