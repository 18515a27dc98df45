-- ===== src/Tests/Payload.antt =====
-- A payload of one chunk arrives.
use okam_ha_native.Base.{◌+◌, ◌<◌, ◌≡◌, [], ◌∷◌, ◌++◌, refl, arith, length, ◌%◌}
use okam_ha_native.Base.Bytes.{Bytes}
use okam_ha_native.Cs2.Channel.{chunks, buffer_of}
use okam_ha_native.Cs2.Channel.Chunks.{nth_chunk}
use okam_ha_native.Cs2.Data.{handle_data, data_packet}
use okam_ha_native.Cs2.Delivery.{Receives, moved}
use okam_ha_native.Cs2.Delivery.Payload.{payload_arrives}
use okam_ha_native.Cs2.Session.{Cs2Session}
use okam_ha_native.Tests.Channel.{running}
use okam_ha_native.Tests.Data.{idle, peer_at}

abbrev payload : Bytes
payload = 7 ∷ 8 ∷ []

abbrev received : Cs2Session
received = (handle_data (data_packet 0 (0 % 65536) (nth_chunk (chunks payload) 0)) idle).1

short : length (nth_chunk (chunks payload) 0) < 65532
unfolding running
short = omega arith

moved_once : moved 0 idle received ≡ 1
unfolding moved running
moved_once = refl

one_chunk : length (chunks payload) ≡ 1
unfolding running
one_chunk = refl

payload_arrives_example :
    (rest : Bytes) × (([] ++ buffer_of 0 received) ++ rest ≡ payload)
    × ((0 + moved 0 idle received) ≡ length (chunks payload) → rest ≡ [])
payload_arrives_example =
    payload_arrives payload 0 (omega arith)
      (Receives.packet 0 peer_at refl (omega arith, omega arith) short
        (Receives.start (record { numbers = refl; buffers = refl; waiting = refl })))
      (omega (arith, moved_once, one_chunk))
