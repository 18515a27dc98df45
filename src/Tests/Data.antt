-- ===== src/Tests/Data.antt =====
-- Sessions on channel 0: order, reads and acknowledgements.
use okam_ha_native.Base.{ℕ, ◌+◌, ◌*◌, ◌%◌, true, false, [], ◌∷◌, ◌≡◌, refl, some, replicate}
use okam_ha_native.Base.Bytes.{Bytes, from_big}
use okam_ha_native.Base.Text.{codes}
use okam_ha_native.Cs2.Address.{Endpoint}
use okam_ha_native.Cs2.Channel.{buffer_of, take_bytes}
use okam_ha_native.Cs2.Data.{
  lookup, drain, keeps, accept, data_is_valid, ack_packet, handle_data, data_packet,
}
use okam_ha_native.Cs2.Cipher.{encrypt_packet}
use okam_ha_native.Cs2.Wire.{encode_wire_packets, has_type}
use okam_ha_native.Cs2.Session.{Cs2Session, World, nothing, opened, transmit}

abbrev pub peer_at : Endpoint
peer_at = record { host = codes "203.0.113.7"; port = 41000 }

abbrev pub quiet : World
quiet = record {
  clock = λ n. n * 100;
  clock_calls = 0;
  arrivals = λ _. nothing;
  arrival_calls = 0;
  send_fails = λ _. false;
  send_calls = 0;
  sent = [];
}

-- A connected session with nothing on its channels.
abbrev pub idle : Cs2Session
idle = record {
  prefer_relay = true;
  uid = replicate 20 0x41;
  servers = codes "198.51.100.1" ∷ [];
  key = codes "SSD@cs2-network.";
  socket = opened;
  peer = some peer_at;
  outgoing_sequence = replicate 8 0;
  incoming_sequence = replicate 8 0;
  channel_buffers = replicate 8 [];
  out_of_order = replicate 8 [];
  pending = [];
  closed = false;
  counters = [];
  close_targets = [];
  connect_path = "relay";
  world = quiet;
}

-- The peer sends the payloads 0 1, 1 2, 2 3, ….
abbrev pairs : ℕ → Bytes
pairs i = i ∷ (i + 1) ∷ []

abbrev arrive : ℕ → Cs2Session → Cs2Session
arrive i s = (handle_data (data_packet 0 (i % 65536) (pairs i)) s).1

-- Payload 1 comes before payload 0.
abbrev early : Cs2Session
early = arrive 1 idle

abbrev both : Cs2Session
both = arrive 0 early

abbrev rest : Cs2Session
rest = (take_bytes 0 3 both).1

-- What a run of `_handle_data` computes with.
unfoldable pub receiving : Unit {0}
unfolding handle_data data_packet data_is_valid from_big transmit encode_wire_packets has_type
    encrypt_packet accept keeps lookup drain ack_packet
receiving = tt

reordered : buffer_of 0 both ≡ 0 ∷ 1 ∷ 1 ∷ 2 ∷ []
unfolding receiving
reordered = refl
