-- ===== src/Protocol/RoundTrip.antt =====
-- Encoding and decoding a frame header (src/protocol.c).
use vpnd.Base.{
  ℕ, ◌+◌, ◌*◌, ◌/◌, ◌%◌, ◌^◌, ◌≤◌, ◌<◌, ◌≡◌, refl, ◌∙◌, bit_or, Bool, true, false, not, List, [],
  ◌∷◌, ◌++◌, length, drop, arith,
}
use vpnd.Base.Bits.{and-low_byte, or-multiple}
use vpnd.Protocol.{byte_of, join_bytes, read_uint32, encode_frame_header, decode_frame_header}

pub byte_of-eq : (v k : ℕ) → byte_of v k ≡ v / 2 ^ k % 256
byte_of-eq v k = omega (arith, and-low_byte (v / 2 ^ k))

join_bytes-eq :
    (a b c d : ℕ)
    → a < 256
    → b < 256
    → c < 256
    → d < 256
    → join_bytes a b c d ≡ ((a * 256 + b) * 256 + c) * 256 + d
unfolding join_bytes
join_bytes-eq a b c d ha hb hc hd =
    let e₀ : bit_or 0 (a * 2 ^ 24 % 2 ^ 32) ≡ a * 2 ^ 24 =
      or-multiple 32 0 0 (a * 2 ^ 24 % 2 ^ 32) refl (omega arith) ∙ omega arith in
    let e₁ : bit_or (a * 2 ^ 24) (b * 2 ^ 16 % 2 ^ 32) ≡ a * 2 ^ 24 + b * 2 ^ 16 =
      or-multiple 24 a (a * 2 ^ 24) (b * 2 ^ 16 % 2 ^ 32) refl (omega arith) ∙ omega arith in
    let e₂ : bit_or (a * 2 ^ 24 + b * 2 ^ 16) (c * 2 ^ 8 % 2 ^ 32)
        ≡ a * 2 ^ 24 + b * 2 ^ 16 + c * 2 ^ 8 =
      or-multiple 16 (a * 2 ^ 8 + b) (a * 2 ^ 24 + b * 2 ^ 16) (c * 2 ^ 8 % 2 ^ 32) (omega arith)
        (omega arith)
      ∙ omega arith in
    let e₃ : bit_or (a * 2 ^ 24 + b * 2 ^ 16 + c * 2 ^ 8) d
        ≡ a * 2 ^ 24 + b * 2 ^ 16 + c * 2 ^ 8 + d =
      or-multiple 8 (a * 2 ^ 16 + b * 2 ^ 8 + c) (a * 2 ^ 24 + b * 2 ^ 16 + c * 2 ^ 8) d
        (omega arith) hd in
    rw (e₀, e₁, e₂, e₃) (omega arith)

-- The four length bytes as they stand on the wire.
unfoldable pub length_bytes : Bool → ℕ → List ℕ
length_bytes true v = v % 256 ∷ (v / 2 ^ 8 % 256) ∷ (v / 2 ^ 16 % 256) ∷ (v / 2 ^ 24 % 256) ∷ []
length_bytes false v = (v / 2 ^ 24 % 256) ∷ (v / 2 ^ 16 % 256) ∷ (v / 2 ^ 8 % 256) ∷ (v % 256) ∷ []

-- A header in a buffer with room for it: the type, then the length; the rest of the buffer stays.
pub encode_frame_header-bytes :
    (little : Bool) (buf : List ℕ) (type v : ℕ)
    → 5 ≤ length buf
    → encode_frame_header little buf type v ≡ type ∷ (length_bytes little v ++ drop 5 buf)
unfolding encode_frame_header length_bytes
encode_frame_header-bytes true (a ∷ b ∷ c ∷ d ∷ e ∷ rest) type v h =
    ground (arith, byte_of-eq v 0, byte_of-eq v 8, byte_of-eq v 16, byte_of-eq v 24)
encode_frame_header-bytes false (a ∷ b ∷ c ∷ d ∷ e ∷ rest) type v h =
    ground (arith, byte_of-eq v 0, byte_of-eq v 8, byte_of-eq v 16, byte_of-eq v 24)
encode_frame_header-bytes little _ type v h = absurd (omega arith)

read_uint32-length_bytes :
    (little : Bool) (v : ℕ) (rest : List ℕ)
    → v < 2 ^ 32
    → read_uint32 little (length_bytes little v ++ rest) ≡ v
unfolding read_uint32 length_bytes
read_uint32-length_bytes true v rest h =
    omega (arith, join_bytes-eq (v / 2 ^ 24 % 256) (v / 2 ^ 16 % 256) (v / 2 ^ 8 % 256) (v % 256))
read_uint32-length_bytes false v rest h =
    omega (arith, join_bytes-eq (v / 2 ^ 24 % 256) (v / 2 ^ 16 % 256) (v / 2 ^ 8 % 256) (v % 256))

pub decode_bytes :
    (little : Bool) (type v : ℕ) (rest : List ℕ)
    → v < 2 ^ 32
    → decode_frame_header little (type ∷ (length_bytes little v ++ rest)) ≡ (type, v)
unfolding decode_frame_header
decode_bytes little type v rest h = rw (read_uint32-length_bytes little v rest h)

drop_bytes :
    (little : Bool) (type v : ℕ) (rest : List ℕ)
    → drop 5 (type ∷ (length_bytes little v ++ rest)) ≡ rest
unfolding length_bytes
drop_bytes true type v rest = refl
drop_bytes false type v rest = refl

-- A machine reads back the type and the length that it wrote, for every buffer with room for a
-- header, every type and every 32-bit length, on either byte order; the bytes behind the header
-- are not touched.
pub decode-encode :
    (little : Bool) (buf : List ℕ) (type v : ℕ)
    → 5 ≤ length buf
    → v < 2 ^ 32
    → (decode_frame_header little (encode_frame_header little buf type v) ≡ (type, v))
      × (drop 5 (encode_frame_header little buf type v) ≡ drop 5 buf)
decode-encode little buf type v h fits =
    rw (encode_frame_header-bytes little buf type v h)
      (decode_bytes little type v (drop 5 buf) fits, drop_bytes little type v (drop 5 buf))

-- A length as a machine of the other byte order reads it.
pub byte_swap : ℕ → ℕ
byte_swap v =
    v % 256 * 2 ^ 24 + v / 2 ^ 8 % 256 * 2 ^ 16 + v / 2 ^ 16 % 256 * 2 ^ 8 + v / 2 ^ 24 % 256

decode_swapped :
    (little : Bool) (type v : ℕ) (rest : List ℕ)
    → decode_frame_header (not little) (type ∷ (length_bytes little v ++ rest))
      ≡ (type, byte_swap v)
unfolding decode_frame_header length_bytes byte_swap
decode_swapped true type v rest =
    ground (arith, join_bytes-eq (v % 256) (v / 2 ^ 8 % 256) (v / 2 ^ 16 % 256) (v / 2 ^ 24 % 256))
decode_swapped false type v rest =
    ground (arith, join_bytes-eq (v % 256) (v / 2 ^ 8 % 256) (v / 2 ^ 16 % 256) (v / 2 ^ 24 % 256))

-- Between machines of different byte orders the type arrives and the length arrives with its four
-- bytes reversed, for every buffer with room for a header and every 32-bit length.
pub decode-encode_mixed :
    (little : Bool) (buf : List ℕ) (type v : ℕ)
    → 5 ≤ length buf
    → v < 2 ^ 32
    → decode_frame_header (not little) (encode_frame_header little buf type v) ≡ (type, byte_swap v)
unfolding byte_swap
decode-encode_mixed little buf type v h fits =
    rw (encode_frame_header-bytes little buf type v h) (decode_swapped little type v (drop 5 buf))

pub length-length_bytes : (little : Bool) (v : ℕ) → length (length_bytes little v) ≡ 4
unfolding length_bytes
length-length_bytes true v = refl
length-length_bytes false v = refl
