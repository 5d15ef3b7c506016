-- ===== src/Protocol.antt =====
-- src/protocol.c and include/protocol.h: the frame header, one type byte and a 32-bit length.
-- `little` stands for `is_little_endian()`, which asks the machine. A buffer is the list of its
-- bytes, and `buf + 1` is the list without its first byte.
pub mod RoundTrip
mod Tests
use vpnd.Base.{
  ℕ, ◌*◌, ◌/◌, ◌%◌, ◌^◌, ◌+◌, bit_and, bit_or, Bool, List, ◌++◌, if◌then◌else◌, get_or, set, take,
  drop,
}

abbrev pub frame_payload_maxsize : ℕ
frame_payload_maxsize = 2048

abbrev pub frame_header_size : ℕ
frame_header_size = 5

abbrev pub frame_maxsize : ℕ
frame_maxsize = frame_header_size + frame_payload_maxsize

-- The four frame types.
abbrev pub hdr_auth : ℕ
hdr_auth = 0b0001

abbrev pub hdr_close : ℕ
hdr_close = 0b0010

abbrev pub hdr_reserved : ℕ
hdr_reserved = 0b0100

abbrev pub hdr_netpacket : ℕ
hdr_netpacket = 0b1000

-- `buf[i]`, and `x << k` on a uint32.
abbrev pub byte_at : List ℕ → ℕ → ℕ
byte_at buf i = get_or buf i 0

abbrev shl32 : ℕ → ℕ → ℕ
shl32 x k = x * 2 ^ k % 2 ^ 32

-- `(byte_t) ((size >> k) & 0xff)`
abbrev byte_of : ℕ → ℕ → ℕ
byte_of size k = bit_and (size / 2 ^ k) 0xff % 256

-- Four bytes joined by `|=`, the first in the highest place.
join_bytes : ℕ → ℕ → ℕ → ℕ → ℕ
join_bytes a b c d = bit_or (bit_or (bit_or (bit_or 0 (shl32 a 24)) (shl32 b 16)) (shl32 c 8)) d

unfoldable pub read_uint32 : Bool → List ℕ → ℕ
unfolding join_bytes
read_uint32 little buf =
    if little
    then join_bytes (byte_at buf 3) (byte_at buf 2) (byte_at buf 1) (byte_at buf 0)
    else join_bytes (byte_at buf 0) (byte_at buf 1) (byte_at buf 2) (byte_at buf 3)

unfoldable pub write_uint32 : Bool → List ℕ → ℕ → List ℕ
write_uint32 little buf size =
    if little
    then set (set (set (set buf 3 (byte_of size 24)) 2 (byte_of size 16)) 1 (byte_of size 8)) 0
        (byte_of size 0)
    else set (set (set (set buf 0 (byte_of size 24)) 1 (byte_of size 16)) 2 (byte_of size 8)) 3
        (byte_of size 0)

unfoldable pub encode_frame_header : Bool → List ℕ → ℕ → ℕ → List ℕ
unfolding write_uint32
encode_frame_header little buf type data_len =
    let typed = set buf 0 type in take 1 typed ++ write_uint32 little (drop 1 typed) data_len

unfoldable pub decode_frame_header : Bool → List ℕ → ℕ × ℕ
unfolding read_uint32
decode_frame_header little buf = (byte_at buf 0, read_uint32 little (drop 1 buf))
