-- ===== src/Cs2/Data.antt =====
-- `_handle_data` and `_handle_ack`: the ordered, reliable channels over the datagrams.
pub mod Drain
pub mod Order
pub mod Accept
pub mod Delivery
pub mod Ack
use okam_ha_native.Base.{
  ℕ, zero, suc, ◌+◌, ◌-◌, ◌*◌, ◌%◌, Bool, true, false, not, ◌&&◌, ◌||◌, List, [], ◌∷◌, ◌++◌, Option,
  none, some, ltb, leb, ◌==◌, if◌then◌else◌, String, Result, ok, err, assertion, length, drop, set,
  get_or, is_some,
}
use okam_ha_native.Base.Action.{Action, done, raise, modify, ◌>>=◌, ◌>>◌}
use okam_ha_native.Base.Bytes.{Bytes, byte_at, slice, from_big, big2}
use okam_ha_native.Base.Names.{decimal}
use okam_ha_native.Cs2.Address.{Endpoint}
use okam_ha_native.Cs2.Session.{Cs2Session, Pending, count, count_by, send_clear}
use Prim.Native.String.{◌++◌ as concat}

abbrev pub Waiting : Type 0
Waiting = List (ℕ × Bytes)

-- A data packet, as `write` builds it.
unfoldable pub data_packet : ℕ → ℕ → Bytes → Bytes
data_packet channel sequence chunk =
    let body = 0xd1 ∷ channel ∷ (big2 sequence ++ chunk) in
    0xf1 ∷ 0xd0 ∷ (big2 (length body) ++ body)

-- `_out_of_order[channel]`, a dictionary from sequence numbers to payloads
unfoldable pub lookup : ℕ → Waiting → Option Bytes
lookup k [] = none
lookup k ((j, b) ∷ m) = if j == k then some b else lookup k m

unfoldable pub remove : ℕ → Waiting → Waiting
remove k [] = []
remove k ((j, b) ∷ m) = let rest = remove k m in if j == k then rest else (j, b) ∷ rest

-- What one channel knows: the next sequence number, the buffer, and the early payloads.
pub record Inbound : Type 0 where
  pub expected : ℕ
  pub buffer : Bytes
  pub waiting : Waiting

-- `while expected in self._out_of_order[channel]`; each round takes an entry out.
unfoldable pub drain : ℕ → Inbound → Inbound
drain zero c = c
drain (suc fuel) c = elim (lookup c.expected c.waiting) [
  | none ↦ c
  | some b ↦ drain fuel (record {
    expected = (c.expected + 1) % 65536;
    buffer = c.buffer ++ b;
    waiting = remove c.expected c.waiting;
  })
]

-- The two tests behind `elif`: the number is new, there is room, and it is ahead of the expected one.
unfoldable pub keeps : ℕ → Inbound → Bool
keeps sequence c =
    let distance = (sequence + 65536 - c.expected) % 65536 in
    not (is_some (lookup sequence c.waiting))
    && ltb (length c.waiting) 64
    && (ltb 0 distance && ltb distance 0x8000)

-- The last `if` of `_handle_data`, on the payload with number `sequence`.
unfoldable pub accept : ℕ → Bytes → Inbound → Inbound
accept sequence payload c =
    if sequence == c.expected
    then drain (length c.waiting)
        (record c { buffer = c.buffer ++ payload; expected = (c.expected + 1) % 65536 })
    else if keeps sequence c
    then record c { waiting = c.waiting ++ ((sequence, payload) ∷ []) }
    else c

abbrev pub inbound : ℕ → Cs2Session → Inbound
inbound channel s = record {
  expected = get_or s.incoming_sequence channel 0;
  buffer = get_or s.channel_buffers channel [];
  waiting = get_or s.out_of_order channel [];
}

abbrev pub set_inbound : ℕ → Inbound → Cs2Session → Cs2Session
set_inbound channel c s = record s {
  incoming_sequence = set s.incoming_sequence channel c.expected;
  channel_buffers = set s.channel_buffers channel c.buffer;
  out_of_order = set s.out_of_order channel c.waiting;
}

-- `assert self._peer is not None`, then a packet to the peer
abbrev pub send_to_peer : Bytes → Action Cs2Session Unit
send_to_peer p s = elim s.peer [ none ↦ (err assertion, s) | some address ↦ send_clear p address s ]

-- The test of the header; -1 for the length of a packet under four bytes equals no length.
unfoldable pub data_is_valid : Bytes → Bool
data_is_valid p =
    let body = drop 4 p in
    leb 4 (length p)
    && from_big (slice 2 4 p) == length body
    && (leb 4 (length body) && byte_at body 0 == 0xd1 && ltb (byte_at body 1) 8)

unfoldable pub ack_packet : ℕ → Bytes → Bytes
ack_packet channel number = 0xf1 ∷ 0xd1 ∷ 0x00 ∷ 0x06 ∷ 0xd1 ∷ channel ∷ 0x00 ∷ 0x01 ∷ number

-- Behind the test of the header.
pub handle_valid_data : Bytes → Action Cs2Session Unit
handle_valid_data body = do
  let channel = byte_at body 1
  count (concat "channel" (concat (decimal channel) "_packets"))
  count_by (length body - 4) (concat "channel" (concat (decimal channel) "_bytes"))
  send_to_peer (ack_packet channel (slice 2 4 body))
  modify (λ s.
      set_inbound channel (accept (from_big (slice 2 4 body)) (drop 4 body) (inbound channel s)) s)

unfoldable pub handle_data : Bytes → Action Cs2Session Unit
unfolding handle_valid_data
handle_data p =
    if data_is_valid p then handle_valid_data (drop 4 p) else count "data_packets_invalid"

-- `(channel, sequence) in self._pending`
unfoldable pub is_pending : ℕ → ℕ → List Pending → Bool
is_pending channel sequence [] = false
is_pending channel sequence (e ∷ rest) =
    (e.channel == channel && e.sequence == sequence) || is_pending channel sequence rest

-- `self._pending.pop((channel, sequence), None)`
unfoldable pub drop_pending : ℕ → ℕ → List Pending → List Pending
drop_pending channel sequence [] = []
drop_pending channel sequence (e ∷ rest) =
    let kept = drop_pending channel sequence rest in
    if e.channel == channel && e.sequence == sequence then kept else e ∷ kept

-- The loop over the `count` numbers of an acknowledgement.
unfoldable pub acknowledge : ℕ → ℕ → Bytes → List Pending → List Pending
acknowledge channel (suc left) (hi ∷ lo ∷ numbers) pending =
    acknowledge channel left numbers (drop_pending channel (from_big (hi ∷ lo ∷ [])) pending)
acknowledge channel left numbers pending = pending

unfoldable pub ack_is_valid : Bytes → Bool
ack_is_valid body =
    leb 4 (length body)
    && byte_at body 0 == 0xd1
    && ltb (byte_at body 1) 8
    && (leb (from_big (slice 2 4 body)) 512 && length body == 4 + from_big (slice 2 4 body) * 2)

unfoldable pub handle_ack : Bytes → Action Cs2Session Unit
unfolding acknowledge drop_pending ack_is_valid
handle_ack p =
    let body = drop 4 p in
    if ack_is_valid body
    then modify (λ s. record s {
      pending = acknowledge (byte_at body 1) (from_big (slice 2 4 body)) (drop 4 body) s.pending;
    })
    else done
