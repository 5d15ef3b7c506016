-- ===== src/PeerNet/Wire/Endings.antt =====
-- The ends of the frame loops of src/peer_net.c, and what they take from the streams.
use vpnd.Base.{
  ℕ, ◌+◌, ◌≤◌, ◌≡◌, ◌∙◌, inl, inr, not, Option, none, some, List, ltb, ◌==◌, length, Outcome, ok,
  fault, stuck, arith, Bool-cases, ltb→lt, leb,
}
use vpnd.Protocol.{
  frame_payload_maxsize, frame_header_size, frame_maxsize, encode_frame_header, decode_frame_header,
}
use vpnd.Socket.{Net, net_recv, put_at}
use vpnd.Socket.Endings.{
  Quiet, send_loop-Quiet, left_on, Shrunk, Drained, net_recv-drained, recv_loop-Drained,
}
use vpnd.Daemon.{Env}
use vpnd.PeerNet.Wire.{
  Frame, then_net, blank_header, send_frame, discarded, receive_payload, payload_done, header_done,
  receive_on,
}

abbrev pub QuietNet : Net → Outcome Net → Type 0
QuietNet w (ok v) = v.incoming ≡ w.incoming
QuietNet w fault = Unit {0}
QuietNet w stuck = ⊥

QuietNet-then :
    (w : Net) (r : Outcome (ℕ × Net)) (f : Net → Outcome Net)
    → Quiet w r
    → ((v : Net) → v.incoming ≡ w.incoming → QuietNet w (f v))
    → QuietNet w (then_net r f)
QuietNet-then w (ok (n, v)) f h k = k v h
QuietNet-then w fault f h k = tt
QuietNet-then w stuck f h k = h

QuietNet-trans :
    (w v : Net) (r : Outcome Net) → v.incoming ≡ w.incoming → QuietNet v r → QuietNet w r
QuietNet-trans w v (ok u) e q = q ∙ e
QuietNet-trans w v fault e q = tt
QuietNet-trans w v stuck e q = q

pub send_frame-Quiet :
    (e : Env) (type : ℕ) (bytes : List ℕ) (len : ℕ) (s : Option ℕ) (w : Net)
    → QuietNet w (send_frame e type bytes len s w)
unfolding send_frame
send_frame-Quiet e type bytes len s w =
    QuietNet-then w _ _
      (send_loop-Quiet e.kernel 6 s (encode_frame_header e.little blank_header type len) 5 0 w
        (omega arith))
      λ w₁ q. QuietNet-trans w w₁ _ q (
        QuietNet-then w₁ _ _ (send_loop-Quiet e.kernel (len + 1) s bytes len 0 w₁ (omega arith))
          (λ w₂ q₂. q₂))

-- A call of `receive_frame` that returns a frame has taken at least its header from the stream.
abbrev pub Consumed : Option ℕ → Net → Outcome (Option Frame × Net) → Type 0
Consumed s w (ok (none, v)) = Shrunk w v
Consumed s w (ok (some f, v)) = Shrunk w v × (left_on s v + frame_header_size ≤ left_on s w)
Consumed s w fault = Unit {0}
Consumed s w stuck = ⊥

-- The same with the header gone.
abbrev Ate : Option ℕ → Net → Outcome (Option Frame × Net) → Type 0
Ate s w (ok (none, v)) = Shrunk w v
Ate s w (ok (some f, v)) = Shrunk w v × (left_on s v ≤ left_on s w)
Ate s w fault = Unit {0}
Ate s w stuck = ⊥

payload_done-Ate :
    (s : Option ℕ) (hdr : ℕ × ℕ) (w : Net) (r : Outcome (Option ℕ × List ℕ × Net))
    → Drained (λ t. ltb t hdr.1) s 0 w r
    → Ate s w (payload_done hdr r)
payload_done-Ate s hdr w (ok (none, buf, v)) d = d
payload_done-Ate s hdr w (ok (some n, buf, v)) d = (d.0, omega (arith, d.1))
payload_done-Ate s hdr w fault d = tt
payload_done-Ate s hdr w stuck d = d

discarded-Ate :
    (s : Option ℕ) (hdr : ℕ × ℕ) (w v : Net) (buf bytes : List ℕ)
    → Shrunk w v
    → left_on s v ≤ left_on s w
    → Ate s w (discarded hdr v (put_at buf 0 bytes))
unfolding put_at
discarded-Ate s hdr w v buf bytes sh le = elim (Bool-cases (leb (0 + length bytes) (length buf))) [
  | inl fits ↦ rw fits (sh, le)
  | inr outside ↦ rw outside tt
]

receive_payload-Ate :
    (e : Env) (s : Option ℕ) (type len : ℕ) (buf : List ℕ) (w : Net)
    → Ate s w (receive_payload e s (type, len) buf w)
unfolding receive_payload
receive_payload-Ate e s type len buf w = elim (Bool-cases (ltb frame_payload_maxsize len)) [
  | inl large ↦
      let (bytes, v) = net_recv e.kernel s frame_maxsize w in
      let (sh, less) = net_recv-drained e.kernel s frame_maxsize w in
      rw large (discarded-Ate s (type, len) w v buf bytes sh (omega (arith, less)))
  | inr small ↦ elim (Bool-cases (ltb 0 len)) [
    | inl some_bytes ↦
        rw (small, some_bytes)
          (payload_done-Ate s (type, len) w _
            (recv_loop-Drained e.kernel (λ t. ltb t len) 5 len (len + 1) s 0 buf w
              (λ t h g. ltb→lt t len g) (omega arith) (omega arith)))
    | inr no_bytes ↦ rw (small, no_bytes) (λ t. omega arith, omega arith)
  ]
]

Consumed-trans :
    (s : Option ℕ) (w v : Net) (r : Outcome (Option Frame × Net))
    → Shrunk w v
    → left_on s v + 5 ≤ left_on s w
    → Ate s v r
    → Consumed s w r
Consumed-trans s w v (ok (none, u)) sh le a = λ t. omega (arith, sh t, a t)
Consumed-trans s w v (ok (some f, u)) sh le a =
    (λ t. omega (arith, sh t, a.0 t), omega (arith, a.1))
Consumed-trans s w v fault sh le a = tt
Consumed-trans s w v stuck sh le a = a

header_done-Consumed :
    (e : Env) (s : Option ℕ) (w : Net) (r : Outcome (Option ℕ × List ℕ × Net))
    → Drained (λ t. not (t == 5)) s 0 w r
    → Consumed s w (header_done e s r)
header_done-Consumed e s w (ok (none, buf, v)) d = d
header_done-Consumed e s w (ok (some n, buf, v)) d =
    let hdr = decode_frame_header e.little buf in
    Consumed-trans s w v _ d.0 (ground (arith, d.1, d.2))
      (receive_payload-Ate e s hdr.0 hdr.1 buf v)
header_done-Consumed e s w fault d = tt
header_done-Consumed e s w stuck d = d

pub receive_on-Consumed :
    (e : Env) (s : Option ℕ) (buf : List ℕ) (w : Net) → Consumed s w (receive_on e s buf w)
unfolding receive_on
receive_on-Consumed e s buf w = header_done-Consumed e s w _ (
    recv_loop-Drained e.kernel (λ t. not (t == 5)) 0 5 6 s 0 buf w (λ t h g. ground arith)
      (omega arith) (omega arith))
