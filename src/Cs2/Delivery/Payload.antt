-- ===== src/Cs2/Delivery/Payload.antt =====
-- A payload that `write` cuts into chunks, on the other side of the network.
use okam_ha_native.Base.{
  ℕ, zero, suc, ◌+◌, ◌-◌, ◌≤◌, ◌<◌, [], ◌++◌, ◌≡◌, sym, ap, ◌∙◌, arith, length, append-nil,
  append_assoc,
}
use okam_ha_native.Base.Bytes.{Bytes}
use okam_ha_native.Cs2.Channel.{chunks, buffer_of}
use okam_ha_native.Cs2.Channel.Chunks.{nth_chunk, delivered-chunks}
use okam_ha_native.Cs2.Data.Order.{delivered}
use okam_ha_native.Cs2.Delivery.{Receives, delivered_in_order}
use okam_ha_native.Cs2.Session.{Cs2Session}

abbrev after : ℕ → ℕ → ℕ
after n zero = n
after n (suc k) = suc (after n k)

after_lem : (n k : ℕ) → after n k ≡ n + k
after_lem n zero = omega arith
after_lem n (suc k) = omega (arith, after_lem n k)

-- The `k` chunks from number `n` on.
abbrev later : (ℕ → Bytes) → ℕ → ℕ → Bytes
later chunk n zero = []
later chunk n (suc k) = later chunk n k ++ chunk (after n k)

delivered-later :
    (chunk : ℕ → Bytes) (n k : ℕ)
    → delivered chunk (after n k) ≡ delivered chunk n ++ later chunk n k
delivered-later chunk n zero = sym (append-nil (delivered chunk n))
delivered-later chunk n (suc k) =
    ap (λ text. text ++ chunk (after n k)) (delivered-later chunk n k)
    ∙ append_assoc (delivered chunk n) (later chunk n k) (chunk (after n k))

-- When the peer sends the chunks of a payload, what was read of the channel and what stands in its
-- buffer are at every moment a prefix of the payload, and all of it once as many payloads have come
-- out as there are chunks.
pub payload_arrives :
    (payload : Bytes) (channel : ℕ)
    → channel < 8
    → {s : Cs2Session} {taken : Bytes} {n : ℕ}
    → Receives (nth_chunk (chunks payload)) channel s taken n
    → n ≤ length (chunks payload)
    → (rest : Bytes) × ((taken ++ buffer_of channel s) ++ rest ≡ payload)
      × (n ≡ length (chunks payload) → rest ≡ [])
payload_arrives payload channel below {s} {taken} {n} r few =
    let chunk = nth_chunk (chunks payload) in
    let left = length (chunks payload) - n in
    let come = (delivered_in_order chunk channel below r).0 in
    let total : after n left ≡ length (chunks payload) = omega (arith, few, after_lem n left) in
    (
      later chunk n left,
      ap (λ text. text ++ later chunk n left) come
          ∙ sym (delivered-later chunk n left)
          ∙ ap (delivered chunk) total
          ∙ delivered-chunks payload,
      λ complete.
          let none_left : left ≡ 0 = omega (arith, complete) in ap (later chunk n) none_left,
    )
