-- ===== src/Cs2/Video/Inspect.antt =====
-- `inspect_h264` finds the NAL units behind 3-byte start codes, and those are all.
use okam_ha_native.Base.{
  ℕ, ◌%◌, Bool, false, ◌&&◌, ◌||◌, [], ◌∷◌, ◌≡◌, ◌∙◌, ap, arith, some, leb, ◌==◌,
}
use okam_ha_native.Base.Bytes.{Bytes, equal}
use okam_ha_native.Cs2.Video.{nal_after, inspect_nal, inspect_from, inspect_h264}

-- A unit whose kind passes the test stands behind a start code 0 0 1.
abbrev pub has_nal : (ℕ → Bool) → Bytes → Bool
has_nal test (a ∷ b ∷ c ∷ d ∷ s) =
    (a == 0 && (b == 0 && c == 1) && test (d % 32)) || has_nal test (b ∷ c ∷ d ∷ s)
has_nal test _ = false

abbrev pub is_video : ℕ → Bool
is_video kind = leb 1 kind && leb kind 12

abbrev pub is_key : ℕ → Bool
is_key kind = kind == 5 || kind == 7

-- What one position adds to a flag.
abbrev here : (ℕ → Bool) → Bytes → Bool
here test (a ∷ b ∷ c ∷ d ∷ e ∷ s) =
    (a == 0 && (b == 0 && c == 1) && test (d % 32))
    || (a == 0 && (b == 0 && (c == 0 && d == 1)) && test (e % 32))
here test (a ∷ b ∷ c ∷ d ∷ []) = a == 0 && (b == 0 && c == 1) && test (d % 32)
here test _ = false

inspect_nal-kind :
    (b : ℕ) (s : Bytes) (valid keyframe : Bool)
    → inspect_nal (some (b ∷ s)) (valid, keyframe)
      ≡ (valid || is_video (b % 32), keyframe || is_key (b % 32))
unfolding inspect_nal
inspect_nal-kind b s valid keyframe = ground arith

inspect_nal-here :
    (s : Bytes) (valid keyframe : Bool)
    → inspect_nal (nal_after s) (valid, keyframe)
      ≡ (valid || here is_video s, keyframe || here is_key s)
unfolding inspect_nal nal_after equal
inspect_nal-here [] valid keyframe = ground arith
inspect_nal-here (a ∷ []) valid keyframe = ground arith
inspect_nal-here (a ∷ b ∷ []) valid keyframe = ground arith
inspect_nal-here (a ∷ b ∷ c ∷ []) valid keyframe = ground arith
inspect_nal-here (a ∷ b ∷ c ∷ d ∷ []) valid keyframe = ground arith
inspect_nal-here (a ∷ b ∷ c ∷ d ∷ e ∷ s) valid keyframe = ground arith

here-has_nal :
    (test : ℕ → Bool) (a : ℕ) (s : Bytes) (flag : Bool)
    → (flag || here test (a ∷ s)) || has_nal test s ≡ (flag || has_nal test (a ∷ s))
here-has_nal test a [] flag = ground arith
here-has_nal test a (b ∷ []) flag = ground arith
here-has_nal test a (b ∷ c ∷ []) flag = ground arith
here-has_nal test a (b ∷ c ∷ d ∷ []) flag = ground arith
here-has_nal test a (b ∷ c ∷ d ∷ e ∷ s) flag = ground arith

inspect_from-has_nal :
    (s : Bytes) (valid keyframe : Bool)
    → inspect_from s (valid, keyframe) ≡ (valid || has_nal is_video s, keyframe || has_nal is_key s)
unfolding inspect_from
inspect_from-has_nal [] valid keyframe = ground arith
inspect_from-has_nal (b ∷ s) valid keyframe =
    ap (inspect_from s) (inspect_nal-here (b ∷ s) valid keyframe)
    ∙ inspect_from-has_nal s (valid || here is_video (b ∷ s)) (keyframe || here is_key (b ∷ s))
    ∙ cc (here-has_nal is_video b s valid, here-has_nal is_key b s keyframe)

-- The two flags of `inspect_h264`: some unit has a kind from 1 to 12, and some unit has kind 5 or 7.
-- The longer start code adds nothing.
pub inspect_h264-has_nal :
    (payload : Bytes) → inspect_h264 payload ≡ (has_nal is_video payload, has_nal is_key payload)
unfolding inspect_h264
inspect_h264-has_nal payload = inspect_from-has_nal payload false false
