-- ===== src/Stream/Queue.antt =====
-- What a viewer that does not read finds in its queue.
use okam_ha_native.Base.{
  suc, ◌-◌, ◌≤◌, List, [], ◌∷◌, ◌++◌, ◌≡◌, refl, sym, ap, ◌∙◌, arith, map, ltb, length, drop, All,
  append_assoc, append-nil, length-append, Bool-cases, inl, inr,
}
use okam_ha_native.Base.Bytes.{Bytes}
use okam_ha_native.Stream.{Item, chunk, queue_size, offer, Viewer, Stream, on_chunk}
use okam_ha_native.Stream.Lengths.{length-offer}

-- The newest items of a queue.
abbrev pub newest : List Item → List Item
newest q = drop (length q - queue_size) q

abbrev offers : List Item → List Item → List Item
offers [] q = q
offers (x ∷ xs) q = offers xs (offer x q)

newest-short : (q : List Item) → length q ≤ queue_size → newest q ≡ q
newest-short q h =
    let none_lost : length q - queue_size ≡ 0 = omega (arith, h) in ap (λ n. drop n q) none_lost

newest-long :
    (y x : Item) (q xs : List Item)
    → length (y ∷ q) ≡ queue_size
    → newest ((q ++ (x ∷ [])) ++ xs) ≡ newest ((y ∷ q) ++ (x ∷ xs))
newest-long y x q xs h =
    let short : length (q ++ (x ∷ xs)) - queue_size ≡ length xs =
      omega (arith, h, length-append q (x ∷ xs)) in
    let long : length (y ∷ (q ++ (x ∷ xs))) - queue_size ≡ suc (length xs) =
      omega (arith, h, length-append q (x ∷ xs)) in
    rw (append_assoc q (x ∷ []) xs)
      (ap (λ n. drop n (q ++ (x ∷ xs))) short ∙ sym (ap (λ n. drop n (y ∷ (q ++ (x ∷ xs)))) long))

newest-offer :
    (x : Item) (q xs : List Item)
    → length q ≤ queue_size
    → newest (offer x q ++ xs) ≡ newest (q ++ (x ∷ xs))
unfolding offer
newest-offer x [] xs h = refl
newest-offer x (y ∷ q) xs h = elim (Bool-cases (ltb (length (y ∷ q)) queue_size)) [
  | inl room ↦ rw room (ap newest (append_assoc (y ∷ q) (x ∷ []) xs))
  | inr full ↦ rw full (newest-long y x q xs (ground (arith, full, h)))
]

offers-newest : (xs q : List Item) → length q ≤ queue_size → offers xs q ≡ newest (q ++ xs)
offers-newest [] q h = sym (ap newest (append-nil q) ∙ newest-short q h)
offers-newest (x ∷ xs) q h =
    offers-newest xs (offer x q) (length-offer x q h) ∙ newest-offer x q xs h

-- Chunks that come in one after the other.
abbrev pub on_chunks : List Bytes → Stream → Stream
on_chunks [] s = s
on_chunks (b ∷ bs) s = on_chunks bs (on_chunk b s)

offer_all : List Item → List Viewer → List Viewer
offer_all xs viewers = map (λ (v : Viewer). (v.0, offers xs v.1)) viewers

offer_all-nil : (viewers : List Viewer) → viewers ≡ offer_all [] viewers
unfolding offer_all
offer_all-nil [] = refl
offer_all-nil ((id, q) ∷ viewers) = ap (λ r. (id, q) ∷ r) (offer_all-nil viewers)

offer_all-cons :
    (x : Item) (xs : List Item) (viewers : List Viewer)
    → offer_all xs (map (λ (v : Viewer). (v.0, offer x v.1)) viewers) ≡ offer_all (x ∷ xs) viewers
unfolding offer_all
offer_all-cons x xs [] = refl
offer_all-cons x xs ((id, q) ∷ viewers) =
    ap (λ r. (id, offers xs (offer x q)) ∷ r) (offer_all-cons x xs viewers)

on_chunks-offer_all :
    (bs : List Bytes) (s : Stream)
    → (on_chunks bs s).subscribers ≡ offer_all (map chunk bs) s.subscribers
unfolding on_chunk
on_chunks-offer_all [] s = offer_all-nil s.subscribers
on_chunks-offer_all (b ∷ bs) s =
    on_chunks-offer_all bs (on_chunk b s) ∙ offer_all-cons (chunk b) (map chunk bs) s.subscribers

offer_all-newest :
    (xs : List Item) (viewers : List Viewer)
    → All (λ (v : Viewer). length v.1 ≤ queue_size) viewers
    → offer_all xs viewers ≡ map (λ (v : Viewer). (v.0, newest (v.1 ++ xs))) viewers
unfolding offer_all
offer_all-newest xs [] h = refl
offer_all-newest xs ((id, q) ∷ viewers) h =
    let rest = offer_all-newest xs viewers h.1 in
    ap (λ (n : List Item). (id, n) ∷ offer_all xs viewers) (offers-newest xs q h.0)
    ∙ ap (λ (r : List Viewer). (id, newest (q ++ xs)) ∷ r) rest

-- After any run of chunks that no viewer reads, each viewer's queue holds the newest 32 items of what
-- it held before with the chunks behind, in their order; no viewer comes or goes.
pub on_chunks-newest :
    (bs : List Bytes) (s : Stream)
    → All (λ (v : Viewer). length v.1 ≤ queue_size) s.subscribers
    → (on_chunks bs s).subscribers
      ≡ map (λ (v : Viewer). (v.0, newest (v.1 ++ map chunk bs))) s.subscribers
on_chunks-newest bs s h = on_chunks-offer_all bs s ∙ offer_all-newest (map chunk bs) s.subscribers h
