-- ===== src/Tests/Channel.antt =====
-- Runs of `write`, `read_exact` and the helpers around them.
use okam_ha_native.Base.{
  ◌==◌, ℕ, ◌≤◌, true, not, ◌&&◌, [], ◌∷◌, ◌≡◌, ◌≢◌, refl, arith, ok, err, out_of_fuel, length, All,
  ◌<◌, replicate,
}
use okam_ha_native.Base.Bytes.{Bytes, equal}
use okam_ha_native.Cs2.Address.{same_endpoint}
use okam_ha_native.Cs2.Pump.{pump, retransmit}
use okam_ha_native.Cs2.Wire.{open_datagram, starts_f1}
use okam_ha_native.Cs2.Channel.{
  send_chunks, send_chunk, read_exact, write, chunks, any_pending, drw_chunk_bytes,
}
use okam_ha_native.Cs2.Channel.Chunks.{chunks_lem, joined}
use okam_ha_native.Cs2.Channel.Ends.{Advances, read_exact_ends}
use okam_ha_native.Cs2.Channel.Write.{write_ends}
use okam_ha_native.Cs2.Data.{is_pending, handle_ack}
use okam_ha_native.Cs2.Data.Ack.{ack_of, member, handle_ack_exact}
use okam_ha_native.Cs2.Session.{
  receive_clear, bump, Cs2Session, datagram, has_counter, bump_kind, Counters,
}
use okam_ha_native.Cs2.Video.{inspect_h264}
use okam_ha_native.Cs2.Video.Inspect.{inspect_h264-has_nal, has_nal, is_video, is_key}
use okam_ha_native.Tests.Data.{idle, quiet, peer_at, receiving}
use text.Mathlib.Text.{◌==◌ as str_eq}

-- The clock of `quiet` goes on by 100 ms at each reading.
quiet-Advances : Advances 500 5 idle
quiet-Advances m n h = omega (arith, h)

read_exact_ends_example : (read_exact 5 0 10 500 idle).0 ≢ err out_of_fuel
read_exact_ends_example =
    read_exact_ends 5 0 10 500 5 idle quiet-Advances (omega arith) (omega arith)

write_ends_example : (write 5 0 (1 ∷ 2 ∷ 3 ∷ []) 500 idle).0 ≢ err out_of_fuel
write_ends_example =
    write_ends 5 0 (1 ∷ 2 ∷ 3 ∷ []) 500 5 idle quiet-Advances (omega arith) (omega arith)

-- Three bytes have come in on channel 0.
abbrev filled : Cs2Session
filled = record idle { channel_buffers = (7 ∷ 8 ∷ 9 ∷ []) ∷ replicate 7 [] }

abbrev two : Bytes
two = 7 ∷ 8 ∷ []

abbrev after_read : Cs2Session
after_read = (read_exact 1 0 2 500 filled).1

-- The acknowledgement of packet 0 comes in at the first `recvfrom`.
abbrev acked : Cs2Session
acked = record idle {
  world = record quiet { arrivals = λ n. datagram (ack_of 0 (0 ∷ [])) peer_at };
}

-- What a run of `write` computes with.
unfoldable pub running : Unit {0}
unfolding write send_chunks send_chunk chunks any_pending is_pending pump retransmit receive_clear
    open_datagram handle_ack same_endpoint starts_f1 equal bump bump_kind has_counter receiving
running = tt

abbrev after_write : Cs2Session
after_write = (write 3 0 (1 ∷ 2 ∷ 3 ∷ []) 500 acked).1

-- Packet 4 of channel 0 is acknowledged, packet 5 stays.
abbrev sent : Cs2Session
sent = record idle {
  pending =
      record { channel = 0; sequence = 4; frame = []; sent_at = 0; attempts = 1 }
      ∷ record { channel = 0; sequence = 5; frame = []; sent_at = 0; attempts = 1 }
      ∷ [];
}

handle_ack_exact_example :
    ((handle_ack (ack_of 0 (4 ∷ [])) sent).0 ≡ ok tt)
    × ((i j : ℕ)
        → is_pending i j (handle_ack (ack_of 0 (4 ∷ [])) sent).1.pending
          ≡ (is_pending i j sent.pending && not (0 == i && member j (4 ∷ []))))
handle_ack_exact_example =
    handle_ack_exact sent 0 (4 ∷ []) (omega arith) (omega arith) (omega arith, tt)

chunks_lem_example :
    (joined (chunks two) ≡ two)
    × All (λ c. (0 < length c) × (length c ≤ drw_chunk_bytes)) (chunks two)
chunks_lem_example = chunks_lem two

abbrev some_counters : Counters
some_counters = ("pump_packets", 3) ∷ []

-- A key frame behind a long start code.
abbrev frame : Bytes
frame = 0 ∷ 0 ∷ 0 ∷ 1 ∷ 0x65 ∷ []

inspect_h264_example : inspect_h264 frame ≡ (has_nal is_video frame, has_nal is_key frame)
inspect_h264_example = inspect_h264-has_nal frame

key_frame : inspect_h264 frame ≡ (true, true)
unfolding inspect_h264 equal
key_frame = refl
