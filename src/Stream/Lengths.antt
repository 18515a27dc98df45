-- ===== src/Stream/Lengths.antt =====
-- What the operations of a stream do to the length of its queues, and to their number.
use okam_ha_native.Base.{
  ℕ, ◌≤◌, Bool, true, false, List, [], ◌∷◌, ◌≡◌, refl, arith, map, ltb, ◌==◌, if◌then◌else◌, length,
  drop, All, length-append, length-drop, Bool-cases, inl, inr,
}
use okam_ha_native.Base.Bytes.{Bytes}
use okam_ha_native.Stream.{
  next_chunk, end_of_stream, first_items, Item, chunk, queue_size, offer, Viewer, without, is_empty,
}

pub length-offer :
    (x : Item) (q : List Item) → length q ≤ queue_size → length (offer x q) ≤ queue_size
unfolding offer
length-offer x q h = elim (Bool-cases (ltb (length q) queue_size)) [
  | inl room ↦ rw room (ground (arith, room, length-append q (x ∷ [])))
  | inr full ↦ rw full (omega (arith, h, length-append (drop 1 q) (x ∷ []), length-drop 1 q))
]

pub length-first_items : (b : Bytes) → length (first_items b) ≤ queue_size
length-first_items [] = omega arith
length-first_items (b ∷ bs) = omega arith

pub without-queues :
    (id : ℕ) (viewers : List Viewer)
    → All (λ (v : Viewer). length v.1 ≤ queue_size) viewers
    → All (λ (v : Viewer). length v.1 ≤ queue_size) (without id viewers)
unfolding without
without-queues id [] h = tt
without-queues id ((k, q) ∷ viewers) h = elim (Bool-cases (k == id)) [
  | inl same ↦ rw same (without-queues id viewers h.1)
  | inr other ↦ rw other (h.0, without-queues id viewers h.1)
]

pub offered-queues :
    (bytes : Bytes) (viewers : List Viewer)
    → All (λ (v : Viewer). length v.1 ≤ queue_size) viewers
    → All
        (λ (v : Viewer). length v.1 ≤ queue_size)
        (map (λ (v : Viewer). (v.0, offer (chunk bytes) v.1)) viewers)
offered-queues bytes [] h = tt
offered-queues bytes (v ∷ viewers) h =
    (length-offer (chunk bytes) v.1 h.0, offered-queues bytes viewers h.1)

pub is_empty-without :
    (id : ℕ) (viewers : List Viewer)
    → is_empty viewers ≡ true
    → is_empty (without id viewers) ≡ true
unfolding without
is_empty-without id [] h = refl
is_empty-without id (v ∷ viewers) h = absurd (cc h)

pub is_empty-map :
    (f : Viewer → Viewer) (viewers : List Viewer)
    → is_empty viewers ≡ true
    → is_empty (map f viewers) ≡ true
is_empty-map f [] h = refl
is_empty-map f (v ∷ viewers) h = absurd (cc h)

next_chunk-shorter : (q : List Item) → length (next_chunk q).1 ≤ length q
unfolding next_chunk
next_chunk-shorter [] = omega arith
next_chunk-shorter (end_of_stream ∷ q) = omega arith
next_chunk-shorter (chunk b ∷ q) = omega arith

read_queue : (b : Bool) (q : List Item) → length (if b then (next_chunk q).1 else q) ≤ length q
read_queue true q = next_chunk-shorter q
read_queue false q = omega arith

pub read-queues :
    (id : ℕ) (viewers : List Viewer)
    → All (λ (v : Viewer). length v.1 ≤ queue_size) viewers
    → All
        (λ (v : Viewer). length v.1 ≤ queue_size)
        (map (λ (v : Viewer). (v.0, if v.0 == id then (next_chunk v.1).1 else v.1)) viewers)
read-queues id [] h = tt
read-queues id ((k, q) ∷ viewers) h =
    (omega (arith, read_queue (k == id) q, h.0), read-queues id viewers h.1)
