-- ===== src/Protocol/Start.antt =====
-- model/bsdvr.cc and model/bsdvr.h: the constructor, the setters, DoInitialize, Start and DoDispose.
use bsdvr_ns.Base.{ℕ, suc, Bool, false, none, List, [], ◌∷◌, ◌++◌, if◌then◌else◌}
use bsdvr_ns.Base.Map.{Map}
use bsdvr_ns.Net.{InterfaceAddress, World, schedule_timer}
use bsdvr_ns.Neighbors.{new_neighbors, schedule_ntimer}
use bsdvr_ns.PendingReplies as Replies
use bsdvr_ns.PacketQueue as Buffer
use bsdvr_ns.Protocol.{Protocol}

-- The constructor, for the length of a second. It does not set m_enableBroadcast, which is whatever
-- the memory held. The state of the model's own begins with nothing tagged, drawn, made or sent.
unfoldable pub new_protocol : World → ℕ → Bool → Protocol
new_protocol w second memory = record {
  main_address = w.no_address;
  socket_addresses = [];
  socket_broadcast_addresses = [];
  routing_table = record {
    forwarding_table = [];
    distance_vector_table = [];
    routes = record {
      route_at = λ x. record {
        destination = w.no_address;
        gateway = w.no_address;
        source = w.no_address;
        output_device = 0;
      };
      fresh = 0;
    };
  };
  lo = none;
  has_ipv4 = false;
  starting = false;
  sockets_made = 0;
  closed_sockets = [];
  traced = [];
  enable_hello = false;
  enable_broadcast = memory;
  hello_interval = second;
  nb = new_neighbors second;
  max_queue_len = 64;
  queue = Buffer.new_queue 64;
  max_pr_queue_len = 50;
  max_pr_queue_time = second;
  prqueue = Replies.new_queue 50 second;
  htimer = record { delay = 0; expires = none };
  last_bcast_time = 0;
  tag_of = λ x. none;
  drawn = 0;
  sent = [];
  forwarded = [];
}

-- The setters behind the attributes.
unfoldable pub set_max_queue_len : ℕ → Protocol → Protocol
set_max_queue_len len p = record p {
  max_queue_len = len;
  queue = Buffer.set_max_queue_len len p.queue;
}

unfoldable pub set_max_pr_queue_len : ℕ → Protocol → Protocol
set_max_pr_queue_len len p = record p {
  max_pr_queue_len = len;
  prqueue = Replies.set_max_queue_len len p.prqueue;
}

unfoldable pub set_max_pr_queue_time : ℕ → Protocol → Protocol
set_max_pr_queue_time t p = record p {
  max_pr_queue_time = t;
  prqueue = Replies.set_queue_timeout t p.prqueue;
}

unfoldable pub set_hello_enable : Bool → Protocol → Protocol
set_hello_enable f p = record p { enable_hello = f }

unfoldable pub set_broadcast_enable : Bool → Protocol → Protocol
set_broadcast_enable f p = record p { enable_broadcast = f }

abbrev keys : Map InterfaceAddress → List ℕ
keys [] = []
keys ((socket, _) ∷ m) = socket ∷ keys m

unfoldable pub do_dispose : Protocol → Protocol
do_dispose p = record p {
  has_ipv4 = false;
  closed_sockets = p.closed_sockets ++ keys p.socket_addresses ++ keys p.socket_broadcast_addresses;
  socket_addresses = [];
  socket_broadcast_addresses = [];
}

-- `jitter` is the start time that is drawn.
unfoldable pub do_initialize : World → (ℕ → ℕ) → Protocol → Protocol
do_initialize w jitter p =
    if p.enable_hello
    then record p { htimer = schedule_timer w (jitter p.drawn) p.htimer; drawn = suc p.drawn }
    else p

-- Start, an event that SetIpv4 schedules.
unfoldable pub start : World → Protocol → Protocol
start w p =
    let q = record p { starting = false } in
    if p.enable_hello then record q { nb = schedule_ntimer w p.nb } else q
