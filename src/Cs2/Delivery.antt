-- ===== src/Cs2/Delivery.antt =====
-- Reliable delivery, over all that happens to a channel: data packets in any order, repeated or lost,
-- other packets in between, and reads.
pub mod Payload
use okam_ha_native.Base.{
  ℕ, ◌+◌, ◌-◌, ◌%◌, ◌≤◌, ◌<◌, false, [], ◌++◌, ◌≡◌, ◌≢◌, refl, sym, ap, ◌∙◌, none, some, arith,
  length, replicate, take, drop, get_or, get_or-set_self, get_or-replicate, length-set, ◌⊎◌,
  take-append-drop, append_assoc,
}
use okam_ha_native.Base.Bytes.{Bytes, byte_at}
use okam_ha_native.Cs2.Address.{Endpoint}
use okam_ha_native.Cs2.Channel.{buffer_of, take_bytes}
use okam_ha_native.Cs2.Data.{lookup, inbound, data_is_valid, handle_data, data_packet}
use okam_ha_native.Cs2.Data.Order.{InOrder, InWindow, delivered}
use okam_ha_native.Cs2.Data.Delivery.{Ready, handle_data-Ready, handle_data_elsewhere}
use okam_ha_native.Cs2.Session.{Cs2Session}

-- How far the expected sequence number has moved.
unfoldable pub moved : ℕ → Cs2Session → Cs2Session → ℕ
moved channel s t =
    (get_or t.incoming_sequence channel 0 + 65536 - get_or s.incoming_sequence channel 0) % 65536

-- The lists that `__init__` makes.
pub record IsFresh (s : Cs2Session) : Type 0 where
  pub numbers : s.incoming_sequence ≡ replicate 8 0
  pub buffers : s.channel_buffers ≡ replicate 8 []
  pub waiting : s.out_of_order ≡ replicate 8 []

module _ (chunk : ℕ → Bytes) (channel : ℕ) where
  -- The session can be reached by reads of the channel, by data packets of the peer, in any order
  -- and any number of times each, whose numbers lie in the window when they come, and by data
  -- packets that are malformed or for another channel. `taken` is what was read, and `n` counts the
  -- payloads that came out.
  pub data Receives : Cs2Session → Bytes → ℕ → Type 0 where
    start : {s : Cs2Session} → IsFresh s → Receives s [] 0
    packet :
        {s : Cs2Session} {taken : Bytes} {n : ℕ} (i : ℕ) (p : Endpoint)
        → s.peer ≡ some p
        → InWindow n i
        → length (chunk i) < 65532
        → Receives s taken n
        → Receives
            (handle_data (data_packet channel (i % 65536) (chunk i)) s).1
            taken
            (n + moved channel s (handle_data (data_packet channel (i % 65536) (chunk i)) s).1)
    stray :
        {s : Cs2Session} {taken : Bytes} {n : ℕ} (p : Bytes)
        → (data_is_valid p ≡ false) ⊎ (byte_at (drop 4 p) 1 ≢ channel)
        → Receives s taken n
        → Receives (handle_data p s).1 taken n
    read :
        {s : Cs2Session} {taken : Bytes} {n : ℕ} (size : ℕ)
        → Receives s taken n
        → Receives (take_bytes channel size s).1 (taken ++ take size (buffer_of channel s)) n

  fresh-inbound :
      (s : Cs2Session)
      → IsFresh s
      → inbound channel s ≡ record { expected = 0; buffer = []; waiting = [] }
  fresh-inbound s f = cc (
    ap (λ l. get_or l channel 0) f.numbers ∙ get_or-replicate 8 channel 0,
    ap (λ l. get_or l channel []) f.buffers ∙ get_or-replicate 8 channel [],
    ap (λ l. get_or l channel []) f.waiting ∙ get_or-replicate 8 channel [],
  )

  nothing-InOrder : InOrder chunk [] 0 (record { expected = 0; buffer = []; waiting = [] })
  unfolding lookup
  nothing-InOrder = record {
    follows = record { next_number = refl; text = refl; early = λ seq b found. absurd (cc found) };
    missing = refl;
    few = omega arith;
  }

  module _ (below : channel < 8) where
    fresh-Ready : {s : Cs2Session} → IsFresh s → Ready chunk channel below [] 0 s
    fresh-Ready {s} f = record {
      channels = record {
        numbers = ap length f.numbers;
        buffers = ap length f.buffers;
        waiting = ap length f.waiting;
      };
      order = rw (fresh-inbound s f) nothing-InOrder;
    }

    take_bytes-Ready :
        {s : Cs2Session} {taken : Bytes} {n : ℕ} (size : ℕ)
        → Ready chunk channel below taken n s
        → Ready chunk channel below
            (taken ++ take size (buffer_of channel s))
            n
            (take_bytes channel size s).1
    unfolding take_bytes
    take_bytes-Ready {s} {taken} size h =
        let buffer = buffer_of channel s in
        let rest =
          get_or-set_self s.channel_buffers channel (drop size buffer) []
            (omega (arith, h.channels.buffers)) in
        record {
          channels = record {
            numbers = h.channels.numbers;
            buffers = length-set s.channel_buffers channel (drop size buffer) ∙ h.channels.buffers;
            waiting = h.channels.waiting;
          };
          order = record {
            follows = record {
              next_number = h.order.follows.next_number;
              text = rw rest (
                  append_assoc taken (take size buffer) (drop size buffer)
                  ∙ ap (λ b. taken ++ b) (take-append-drop size buffer)
                  ∙ h.order.follows.text);
              early = h.order.follows.early;
            };
            missing = h.order.missing;
            few = h.order.few;
          };
        }

    -- The count of payloads is what the sequence number shows.
    moved_by :
        {s t : Cs2Session} {taken : Bytes} {n m : ℕ}
        → Ready chunk channel below taken n s
        → Ready chunk channel below taken m t
        → n ≤ m
        → m ≤ n + 65
        → n + moved channel s t ≡ m
    unfolding moved
    moved_by h k p q = omega (arith, h.order.follows.next_number, k.order.follows.next_number)

    Receives-Ready :
        {s : Cs2Session} {taken : Bytes} {n : ℕ}
        → Receives s taken n
        → Ready chunk channel below taken n s
    Receives-Ready (start f) = fresh-Ready f
    Receives-Ready (packet i p peer w short r) =
        let h = Receives-Ready r in
        let (m, from, to, k) = handle_data-Ready chunk channel below i p peer h w short in
        rw (moved_by h k from to) k
    Receives-Ready (stray p cause r) =
        handle_data_elsewhere chunk channel below p cause (Receives-Ready r)
    Receives-Ready (read size r) = take_bytes-Ready size (Receives-Ready r)

    pub delivered_in_order :
        {s : Cs2Session} {taken : Bytes} {n : ℕ}
        → Receives s taken n
        → (taken ++ buffer_of channel s ≡ delivered chunk n)
          × (lookup (n % 65536) (get_or s.out_of_order channel []) ≡ none)
          × (length (get_or s.out_of_order channel []) ≤ 64)
    delivered_in_order r =
        let h = Receives-Ready r in
        (h.order.follows.text, rw (sym h.order.follows.next_number) h.order.missing, h.order.few)
