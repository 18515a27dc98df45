-- ===== src/Cs2/Data/Delivery.antt =====
-- Reliable delivery through `_handle_data`: from the packets that the network brings to the text in
-- the channel's buffer.
use okam_ha_native.Base.{
  ℕ, ◌+◌, ◌%◌, ◌≤◌, ◌<◌, true, false, [], ◌≡◌, ◌≢◌, ◌∙◌, some, arith, length, Option-cases,
  Bool-cases, inl, inr, Result, ok, err, get_or-set_self, get_or-set_ne, drop, ◌⊎◌, length-set,
}
use okam_ha_native.Base.Action.{continue, modify}
use okam_ha_native.Base.Bytes.{Bytes, byte_at, from_big-big2}
use okam_ha_native.Cs2.Address.{Endpoint}
use okam_ha_native.Cs2.Session.{Counters, World, Cs2Session, transmit}
use okam_ha_native.Cs2.Data.{
  Inbound, accept, inbound, set_inbound, send_to_peer, data_is_valid, handle_data, data_packet,
}
use okam_ha_native.Cs2.Data.Order.{InOrder, InWindow}
use okam_ha_native.Cs2.Data.Accept.{accept-InOrder}

-- The lists of the receiving side have one entry for each of the eight channels.
pub record HasChannels (s : Cs2Session) : Type 0 where
  pub numbers : length s.incoming_sequence ≡ 8
  pub buffers : length s.channel_buffers ≡ 8
  pub waiting : length s.out_of_order ≡ 8

inbound-set_inbound :
    (channel : ℕ) (c : Inbound) (s : Cs2Session)
    → channel < 8
    → HasChannels s
    → inbound channel (set_inbound channel c s) ≡ c
inbound-set_inbound channel c s h l = cc (
  get_or-set_self s.incoming_sequence channel c.expected 0 (omega arith),
  get_or-set_self s.channel_buffers channel c.buffer [] (omega arith),
  get_or-set_self s.out_of_order channel c.waiting [] (omega arith),
)

data_packet-valid :
    (channel number : ℕ) (payload : Bytes)
    → channel < 8
    → length payload < 65532
    → data_is_valid (data_packet channel number payload) ≡ true
unfolding data_packet data_is_valid
data_packet-valid channel number payload h k =
    ground (arith, from_big-big2 (length payload + 4) (omega arith))

module _ (chunk : ℕ → Bytes) (channel : ℕ) (below : channel < 8) where
  -- At rest with `n` payloads out, on a session that has its channels.
  pub record Ready (taken : Bytes) (n : ℕ) (s : Cs2Session) : Type 0 where
    pub channels : HasChannels s
    pub order : InOrder chunk taken n (inbound channel s)

  -- Counters and the world do not matter.
  recounted :
      {taken : Bytes} {n : ℕ} {s : Cs2Session} (m : Counters) (w : World)
      → Ready taken n s
      → Ready taken n (record s { counters = m; world = w })
  recounted m w h = record {
    channels = record {
      numbers = h.channels.numbers;
      buffers = h.channels.buffers;
      waiting = h.channels.waiting;
    };
    order = h.order;
  }

  set_inbound-Ready :
      {taken : Bytes} {n : ℕ} {s : Cs2Session} (c : Inbound)
      → HasChannels s
      → InOrder chunk taken n c
      → Ready taken n (set_inbound channel c s)
  set_inbound-Ready {s = s} c l o = record {
    channels = record {
      numbers = length-set s.incoming_sequence channel c.expected ∙ l.numbers;
      buffers = length-set s.channel_buffers channel c.buffer ∙ l.buffers;
      waiting = length-set s.out_of_order channel c.waiting ∙ l.waiting;
    };
    order = rw (inbound-set_inbound channel c s below l) o;
  }

  -- Behind the send, whether it raised or not.
  after_send :
      {taken : Bytes} {n : ℕ} (i : ℕ) (r : Result (Unit {0})) (t : Cs2Session)
      → Ready taken n t
      → InWindow n i
      → (m : ℕ) × (n ≤ m)
        × (m ≤ n + 65)
        × Ready taken m
            (continue
              (r, t)
              (λ _.
                modify (λ s.
                  set_inbound channel (accept (i % 65536) (chunk i) (inbound channel s)) s))).1
  after_send {n = n} i (err e) t h w = (n, omega arith, omega arith, h)
  after_send i (ok u) t h w =
      let (m, from, to, o) = accept-InOrder chunk i h.order w in
      (
        m,
        from,
        to,
        set_inbound-Ready (accept (i % 65536) (chunk i) (inbound channel t)) h.channels o,
      )

  send_then_accept :
      {taken : Bytes} {n : ℕ} (a : Bytes) (i : ℕ) (p : Endpoint) (t : Cs2Session)
      → t.peer ≡ some p
      → Ready taken n t
      → InWindow n i
      → (m : ℕ) × (n ≤ m)
        × (m ≤ n + 65)
        × Ready taken m
            (continue (send_to_peer a t) (λ _.
              modify
                (λ s. set_inbound channel (accept (i % 65536) (chunk i) (inbound channel s)) s))).1
  send_then_accept a i p t peer h w =
      let (r, after) = transmit t.socket t.key a p t.world in
      rw (peer, send_to_peer)
        (after_send i r (record t { world = after }) (recounted t.counters after h) w)

  -- One data packet of the peer, with a number in the window, leaves the channel in order.
  pub handle_data-Ready :
      {taken : Bytes} {n : ℕ} {s : Cs2Session} (i : ℕ) (p : Endpoint)
      → s.peer ≡ some p
      → Ready taken n s
      → InWindow n i
      → length (chunk i) < 65532
      → (m : ℕ) × (n ≤ m)
        × (m ≤ n + 65)
        × Ready taken m (handle_data (data_packet channel (i % 65536) (chunk i)) s).1
  unfolding handle_data
  handle_data-Ready {s = s} i p peer h w short =
      rw (data_packet-valid channel (i % 65536) (chunk i) below short) (
        unfold data_packet in
        rw (from_big-big2 (i % 65536) (omega arith))
          (send_then_accept _ i p _ peer (recounted _ s.world h) w))

  set_inbound_elsewhere :
      {taken : Bytes} {n : ℕ} {s : Cs2Session} (j : ℕ) (c : Inbound)
      → j ≢ channel
      → Ready taken n s
      → Ready taken n (set_inbound j c s)
  set_inbound_elsewhere {taken} {n} {s} j c other h = record {
    channels = record {
      numbers = length-set s.incoming_sequence j c.expected ∙ h.channels.numbers;
      buffers = length-set s.channel_buffers j c.buffer ∙ h.channels.buffers;
      waiting = length-set s.out_of_order j c.waiting ∙ h.channels.waiting;
    };
    order =
        let same : inbound channel (set_inbound j c s) ≡ inbound channel s = cc (
          get_or-set_ne s.incoming_sequence j channel c.expected 0 other,
          get_or-set_ne s.channel_buffers j channel c.buffer [] other,
          get_or-set_ne s.out_of_order j channel c.waiting [] other,
        ) in
        rw same h.order;
  }

  after_send_elsewhere :
      {taken : Bytes} {n : ℕ} (j : ℕ) (f : Cs2Session → Inbound) (r : Result (Unit {0}))
      (t : Cs2Session)
      → j ≢ channel
      → Ready taken n t
      → Ready taken n (continue (r, t) (λ _. modify (λ s. set_inbound j (f s) s))).1
  after_send_elsewhere j f (err e) t other h = h
  after_send_elsewhere j f (ok u) t other h = set_inbound_elsewhere j (f t) other h

  send_elsewhere :
      {taken : Bytes} {n : ℕ} (a : Bytes) (j : ℕ) (f : Cs2Session → Inbound) (t : Cs2Session)
      → j ≢ channel
      → Ready taken n t
      → Ready taken n (continue (send_to_peer a t) (λ _. modify (λ s. set_inbound j (f s) s))).1
  send_elsewhere a j f t other h = elim (Option-cases t.peer) [
    | inl gone ↦ rw (gone, send_to_peer) h
    | inr (p, peer) ↦
        let (r, after) = transmit t.socket t.key a p t.world in
        rw (peer, send_to_peer)
          (after_send_elsewhere j f r (record t { world = after }) other
            (recounted t.counters after h))
  ]

  -- A packet for another channel, or none, does not touch the channel.
  pub handle_data_elsewhere :
      {taken : Bytes} {n : ℕ} {s : Cs2Session} (p : Bytes)
      → (data_is_valid p ≡ false) ⊎ (byte_at (drop 4 p) 1 ≢ channel)
      → Ready taken n s
      → Ready taken n (handle_data p s).1
  unfolding handle_data
  handle_data_elsewhere {s = s} p cause h = elim (Bool-cases (data_is_valid p)) [
    | inr invalid ↦ rw invalid (recounted _ s.world h)
    | inl valid ↦ elim cause [
      | inl invalid ↦ absurd (cc (valid, invalid))
      | inr other ↦
          rw valid (send_elsewhere _ (byte_at (drop 4 p) 1) _ _ other (recounted _ s.world h))
    ]
  ]
