-- ===== src/PeerNet/Wire/Bounds.antt =====
-- What `receive_frame` of src/peer_net.c returns, and the bounds of its buffer.
use vpnd.Base.{
  ℕ, ◌+◌, ◌≤◌, ◌<◌, ◌≡◌, refl, ◌∙◌, ◌⊎◌, inl, inr, not, Option, none, some, List, ltb, ◌==◌, length,
  Outcome, ok, arith, Bool-cases, ltb→lt, ltb_false→le,
}
use vpnd.Protocol.{frame_payload_maxsize, frame_header_size, frame_maxsize, decode_frame_header}
use vpnd.Socket.{Net, net_recv}
use vpnd.Socket.Receiving.{net_recv-outgoing}
use vpnd.Socket.Safety.{Returned, recv_loop-Returned, put_at-fits, length-net_recv}
use vpnd.Daemon.{Env}
use vpnd.PeerNet.Wire.{Frame, frame, receive_payload, receive_on, payload_done, header_done}

-- The frames that `receive_frame` hands on: a whole frame of at most 2048 bytes, or the header of a
-- larger one with the return value 0.
abbrev pub IsFrame : Option Frame → Type 0
IsFrame none = Unit {0}
IsFrame (some f) =
    (length f.buf ≡ frame_maxsize)
    × (((f.total ≡ f.data_len + frame_header_size) × (f.data_len ≤ frame_payload_maxsize))
        ⊎ ((f.total ≡ 0) × (frame_payload_maxsize < f.data_len)))

abbrev pub Answered : Net → Outcome (Option Frame × Net) → Type 0
Answered w r =
    (got : Option Frame) × (w' : Net) × (r ≡ ok (got, w'))
    × IsFrame got
    × (w'.outgoing ≡ w.outgoing)

payload-Answered :
    (type len : ℕ) (buf : List ℕ) (w : Net) (r : Outcome (Option ℕ × List ℕ × Net))
    → length buf ≡ frame_maxsize
    → len ≤ frame_payload_maxsize
    → Returned len buf w r
    → Answered w (payload_done (type, len) r)
payload-Answered type len buf w r size small ret = elim ret.complete [
  | inl lost ↦ (none, ret.after, rw (ret.returns, lost), tt, ret.sent_nothing)
  | inr all ↦ (
    some (frame (len + frame_header_size) (type, len) ret.buffer),
    ret.after,
    rw (ret.returns, all),
    (ret.size ∙ size, inl (refl, small)),
    ret.sent_nothing,
  )
]

receive_payload-Answered :
    (e : Env) (s : Option ℕ) (type len : ℕ) (buf : List ℕ) (w : Net)
    → length buf ≡ frame_maxsize
    → Answered w (receive_payload e s (type, len) buf w)
unfolding receive_payload
receive_payload-Answered e s type len buf w size =
    elim (Bool-cases (ltb frame_payload_maxsize len)) [
      | inl large ↦
          let (bytes, w₁) = net_recv e.kernel s frame_maxsize w in
          let (b, put, same) =
            put_at-fits buf bytes 0 (omega (arith, length-net_recv e.kernel s frame_maxsize w)) in
          (
            some (frame 0 (type, len) b),
            w₁,
            rw (large, put),
            (same ∙ size, inr (refl, ltb→lt 2048 len large)),
            net_recv-outgoing e.kernel s frame_maxsize w,
          )
      | inr small ↦
          let le : len ≤ 2048 = ltb_false→le 2048 len small in
          elim (Bool-cases (ltb 0 len)) [
            | inl some_bytes ↦
                rw (small, some_bytes)
                  (payload-Answered type len buf w _ size le (
                    recv_loop-Returned e.kernel (λ t. ltb t len) 5 len s (λ t h g. ltb→lt t len g)
                      (λ t h g. omega (arith, ltb_false→le t len g)) (len + 1) 0 buf w (omega arith)
                      (omega arith) (omega arith)))
            | inr no_bytes ↦ (
              some (frame 5 (type, len) buf),
              w,
              rw (small, no_bytes),
              (size, inl (omega (arith, ltb_false→le 0 len no_bytes), le)),
              refl,
            )
          ]
    ]

header-Answered :
    (e : Env) (s : Option ℕ) (buf : List ℕ) (w : Net) (r : Outcome (Option ℕ × List ℕ × Net))
    → length buf ≡ frame_maxsize
    → Returned 5 buf w r
    → Answered w (header_done e s r)
header-Answered e s buf w r size ret = elim ret.complete [
  | inl lost ↦ (none, ret.after, rw (ret.returns, lost), tt, ret.sent_nothing)
  | inr all ↦
      let (got, w', r', ok_frame, out) =
        receive_payload-Answered e s (decode_frame_header e.little ret.buffer).0
          (decode_frame_header e.little ret.buffer).1 ret.buffer ret.after (ret.size ∙ size) in
      (got, w', rw (ret.returns, all) r', ok_frame, out ∙ ret.sent_nothing)
]

-- On every stream and for all answers of the kernel, `receive_frame` on a buffer of FRAME_MAXSIZE
-- bytes ends without leaving the buffer and sends nothing. It returns -1, or the size of a whole
-- frame of at most 2048 bytes of payload, or 0 with a length above 2048.
pub receive_on-Answered :
    (e : Env) (s : Option ℕ) (buf : List ℕ) (w : Net)
    → length buf ≡ frame_maxsize
    → Answered w (receive_on e s buf w)
unfolding receive_on
receive_on-Answered e s buf w size = header-Answered e s buf w _ size (
    recv_loop-Returned e.kernel (λ t. not (t == 5)) 0 5 s (λ t h g. ground arith)
      (λ t h g. ground arith) 6 0 buf w (omega arith) (omega arith) (omega arith))
