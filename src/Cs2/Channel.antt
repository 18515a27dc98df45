-- ===== src/Cs2/Channel.antt =====
-- `write` and `read_exact`. A `while` loop takes fuel, and `out_of_fuel` stands for a loop that goes
-- on; a timeout that the clock reaches ends it.
pub mod Chunks
pub mod Ends
pub mod Read
pub mod Write
pub mod Attempts
use okam_ha_native.Base.{
  ℕ, zero, suc, ◌+◌, ◌*◌, ◌%◌, Bool, true, false, not, ◌&&◌, ◌||◌, List, [], ◌∷◌, ◌++◌, Option,
  none, some, ltb, leb, ◌==◌, if◌then◌else◌, String, Error, Result, ok, err, cs2_error, cs2_timeout,
  assertion, out_of_fuel, length, take, drop, set, get_or, any,
}
use okam_ha_native.Base.Action.{Action, pure, done, raise, modify, gets, check, ◌>>=◌, ◌>>◌}
use okam_ha_native.Base.Bytes.{Bytes}
use okam_ha_native.Cs2.Address.{Endpoint}
use okam_ha_native.Cs2.Session.{Cs2Session, Pending, monotonic, send_clear, require_connected}
use okam_ha_native.Cs2.Data.{data_packet, is_pending}
use okam_ha_native.Cs2.Pump.{is_entry, pump}

abbrev pub drw_chunk_bytes : ℕ
drw_chunk_bytes = 1024

abbrev pub max_frame_bytes : ℕ
max_frame_bytes = 8 * 1024 * 1024

-- `payload[offset : offset + DRW_CHUNK_BYTES]` for each offset; a chunk is not empty, so that the
-- length of the payload bounds their number.
pub chunks_within : ℕ → Bytes → List Bytes
chunks_within zero payload = []
chunks_within (suc fuel) [] = []
chunks_within (suc fuel) (b ∷ payload) =
    take drw_chunk_bytes (b ∷ payload) ∷ chunks_within fuel (drop drw_chunk_bytes (b ∷ payload))

unfoldable pub chunks : Bytes → List Bytes
unfolding chunks_within
chunks payload = chunks_within (length payload) payload

-- `self._pending[(channel, sequence)] = …`
pub put_pending : Pending → List Pending → List Pending
put_pending e [] = e ∷ []
put_pending e (x ∷ rest) =
    if is_entry e.channel e.sequence x then e ∷ rest else x ∷ put_pending e rest

send_to : Option Endpoint → Bytes → Action Cs2Session Unit
send_to none p = raise assertion
send_to (some address) p = send_clear p address

remember : ℕ → ℕ → Bytes → ℕ → Cs2Session → Cs2Session
unfolding put_pending
remember channel sequence p now s = record s {
  pending =
      put_pending
        (record { channel = channel; sequence = sequence; frame = p; sent_at = now; attempts = 1 })
        s.pending;
}

send_numbered : Option Endpoint → ℕ → ℕ → Bytes → Action Cs2Session ℕ
unfolding send_to remember
send_numbered peer channel sequence p = do
  send_to peer p
  now ← monotonic
  modify (remember channel sequence p now)
  pure sequence

abbrev pub next_number : ℕ → Cs2Session → ℕ
next_number channel s = get_or s.outgoing_sequence channel 0

abbrev advance_sequence : ℕ → Cs2Session → Cs2Session
advance_sequence channel s = record s {
  outgoing_sequence = set s.outgoing_sequence channel ((next_number channel s + 1) % 65536);
}

-- One round of the first loop of `write`; it returns the sequence number.
unfoldable pub send_chunk : ℕ → Bytes → Action Cs2Session ℕ
unfolding send_numbered
send_chunk channel chunk s =
    let sequence = next_number channel s in
    send_numbered s.peer channel sequence (data_packet channel sequence chunk)
      (advance_sequence channel s)

unfoldable pub send_chunks : ℕ → List Bytes → Action Cs2Session (List ℕ)
send_chunks channel [] = pure []
send_chunks channel (c ∷ cs) = do
  sequence ← send_chunk channel c
  sequences ← send_chunks channel cs
  pure (sequence ∷ sequences)

-- `any(sequence in self._pending for sequence in sent_sequences)`
unfoldable pub any_pending : ℕ → List ℕ → List Pending → Bool
unfolding is_pending
any_pending channel sequences pending = any (λ n. is_pending channel n pending) sequences

-- A round that the deadline has not ended.
pub turn : ℕ → ℕ → Error → Action Cs2Session Unit → Action Cs2Session Unit
turn deadline now expired go_on = if leb deadline now then raise expired else (do pump; go_on)

abbrev acks_expired : Error
acks_expired = cs2_error "camera did not acknowledge native P2P data"

abbrev read_expired : Error
read_expired = cs2_timeout "camera channel read timed out"

-- The `while` loop of `write`.
pub await_acks : ℕ → ℕ → ℕ → List ℕ → Action Cs2Session Unit
await_acks zero deadline channel sequences s = (err out_of_fuel, s)
await_acks (suc fuel) deadline channel sequences s =
    let go_on = await_acks fuel deadline channel sequences in
    if any_pending channel sequences s.pending
    then (do now ← monotonic; turn deadline now acks_expired go_on) s
    else (ok tt, s)

write_valid : ℕ → ℕ → Bytes → ℕ → Action Cs2Session Unit
unfolding await_acks turn send_chunks
write_valid fuel channel payload timeout = do
  sequences ← send_chunks channel (chunks payload)
  start ← monotonic
  await_acks fuel (start + timeout) channel sequences

unfoldable pub write : ℕ → ℕ → Bytes → ℕ → Action Cs2Session Unit
unfolding write_valid
write fuel channel payload timeout = do
  require_connected
  buffers ← gets (λ s. length s.channel_buffers)
  check (ltb channel buffers) "P2P channel is invalid"
  write_valid fuel channel payload timeout

abbrev pub buffer_of : ℕ → Cs2Session → Bytes
buffer_of channel s = get_or s.channel_buffers channel []

-- The `while` loop of `read_exact`.
await_bytes : ℕ → ℕ → ℕ → ℕ → Action Cs2Session Unit
await_bytes zero deadline channel size s = (err out_of_fuel, s)
await_bytes (suc fuel) deadline channel size s =
    let go_on = await_bytes fuel deadline channel size in
    if ltb (length (buffer_of channel s)) size
    then (do now ← monotonic; turn deadline now read_expired go_on) s
    else (ok tt, s)

-- `result = bytes(buffer[:size]); del buffer[:size]`
unfoldable pub take_bytes : ℕ → ℕ → Action Cs2Session Bytes
take_bytes channel size s = (
  ok (take size (buffer_of channel s)),
  record s { channel_buffers = set s.channel_buffers channel (drop size (buffer_of channel s)) },
)

read_valid : ℕ → ℕ → ℕ → ℕ → Action Cs2Session Bytes
unfolding await_bytes turn take_bytes
read_valid fuel channel size timeout = do
  start ← monotonic
  await_bytes fuel (start + timeout) channel size
  take_bytes channel size

-- A negative `size` is no number here.
unfoldable pub read_exact : ℕ → ℕ → ℕ → ℕ → Action Cs2Session Bytes
unfolding read_valid
read_exact fuel channel size timeout = do
  require_connected
  buffers ← gets (λ s. length s.channel_buffers)
  check (ltb channel buffers && leb size max_frame_bytes) "P2P read request is invalid"
  read_valid fuel channel size timeout
