-- ===== src/Cs2/Channel/Chunks.antt =====
-- The chunks of `write` make up the payload, and its packets carry consecutive numbers.
use okam_ha_native.Base.{
  ℕ, zero, suc, ◌≤◌, ◌<◌, List, [], ◌∷◌, ◌++◌, ◌≡◌, refl, sym, ap, ◌∙◌, arith, length, take, drop,
  get_or, All, take-append-drop, length-take, length-drop, append_assoc, append-nil,
}
use okam_ha_native.Base.Bytes.{Bytes}
use okam_ha_native.Cs2.Channel.{chunks_within, chunks, drw_chunk_bytes}
use okam_ha_native.Cs2.Data.Order.{delivered}

abbrev pub joined : List Bytes → Bytes
joined [] = []
joined (c ∷ cs) = c ++ joined cs

joined-chunks_within :
    (fuel : ℕ) (payload : Bytes)
    → length payload ≤ fuel
    → joined (chunks_within fuel payload) ≡ payload
unfolding chunks_within
joined-chunks_within zero [] h = refl
joined-chunks_within zero (b ∷ payload) h = absurd (omega arith)
joined-chunks_within (suc fuel) [] h = refl
joined-chunks_within (suc fuel) (b ∷ payload) h =
    let rest = drop drw_chunk_bytes (b ∷ payload) in
    let less : length rest ≤ fuel = omega (arith, length-drop drw_chunk_bytes (b ∷ payload)) in
    ap (λ r. take drw_chunk_bytes (b ∷ payload) ++ r) (joined-chunks_within fuel rest less)
    ∙ take-append-drop drw_chunk_bytes (b ∷ payload)

sizes-chunks_within :
    (fuel : ℕ) (payload : Bytes)
    → All (λ c. (0 < length c) × (length c ≤ drw_chunk_bytes)) (chunks_within fuel payload)
unfolding chunks_within
sizes-chunks_within zero payload = tt
sizes-chunks_within (suc fuel) [] = tt
sizes-chunks_within (suc fuel) (b ∷ payload) =
    let size = length-take drw_chunk_bytes (b ∷ payload) in
    (
      (omega (arith, size), omega (arith, size)),
      sizes-chunks_within fuel (drop drw_chunk_bytes (b ∷ payload)),
    )

-- The chunks of a payload are 1 to 1024 bytes each, and joined they are the payload.
pub chunks_lem :
    (payload : Bytes)
    → (joined (chunks payload) ≡ payload)
      × All (λ c. (0 < length c) × (length c ≤ drw_chunk_bytes)) (chunks payload)
unfolding chunks
chunks_lem payload = (
  joined-chunks_within (length payload) payload (omega arith),
  sizes-chunks_within (length payload) payload,
)

-- The i-th chunk, as a peer sends it.
abbrev pub nth_chunk : List Bytes → ℕ → Bytes
nth_chunk cs i = get_or cs i []

delivered-shift :
    (c : Bytes) (cs : List Bytes) (n : ℕ)
    → delivered (nth_chunk (c ∷ cs)) (suc n) ≡ c ++ delivered (nth_chunk cs) n
delivered-shift c cs zero = sym (append-nil c)
delivered-shift c cs (suc n) =
    rw (delivered-shift c cs n) (append_assoc c (delivered (nth_chunk cs) n) (nth_chunk cs n))

delivered-joined : (cs : List Bytes) → delivered (nth_chunk cs) (length cs) ≡ joined cs
delivered-joined [] = refl
delivered-joined (c ∷ cs) =
    delivered-shift c cs (length cs) ∙ ap (λ r. c ++ r) (delivered-joined cs)

-- Once all chunks of a payload are out in order, the text is the payload.
pub delivered-chunks :
    (payload : Bytes) → delivered (nth_chunk (chunks payload)) (length (chunks payload)) ≡ payload
delivered-chunks payload = delivered-joined (chunks payload) ∙ (chunks_lem payload).0
