-- ===== src/Protocol/Tests.antt =====
-- Concrete frame headers, and the theorems of Protocol/RoundTrip at concrete inputs.
use vpnd.Base.{ℕ, ◌≡◌, refl, true, false, List, [], ◌∷◌, drop, arith}
use vpnd.Protocol.{encode_frame_header, decode_frame_header}
use vpnd.Protocol.RoundTrip.{decode-encode}

abbrev blank : List ℕ
blank = 0 ∷ 0 ∷ 0 ∷ 0 ∷ 0 ∷ 9 ∷ []

encode_little : encode_frame_header true blank 8 300 ≡ 8 ∷ 44 ∷ 1 ∷ 0 ∷ 0 ∷ 9 ∷ []
unfolding encode_frame_header
encode_little = refl

encode_big : encode_frame_header false blank 8 300 ≡ 8 ∷ 0 ∷ 0 ∷ 1 ∷ 44 ∷ 9 ∷ []
unfolding encode_frame_header
encode_big = refl

decode-encode_example :
    (decode_frame_header true (encode_frame_header true blank 8 300) ≡ (8, 300))
    × (drop 5 (encode_frame_header true blank 8 300) ≡ 9 ∷ [])
decode-encode_example = decode-encode true blank 8 300 (omega arith) (omega arith)
