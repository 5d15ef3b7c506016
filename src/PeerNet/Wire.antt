-- ===== src/PeerNet/Wire.antt =====
-- Frames on the wire: `send_data_to_peer`, `broadcast_data_to_peers` and `receive_frame` of
-- src/peer_net.c, and `tuntap_write` of src/interface.c, whose loop over `write` has the same form
-- as the loops over `send`.
pub mod Delivery
pub mod Bounds
pub mod Endings
pub mod Flooding
pub mod Farewell
pub mod Keeps
use vpnd.Base.{
  ℕ, zero, suc, ◌+◌, ◌-◌, Bool, true, false, not, ◌&&◌, Option, none, some, List, [], ◌∷◌,
  if◌then◌else◌, ltb, leb, ◌==◌, length, take, drop, Outcome, ok, fault, stuck,
}
use vpnd.Protocol.{
  frame_payload_maxsize, frame_header_size, frame_maxsize, encode_frame_header, decode_frame_header,
}
use vpnd.Socket.{Net, net_recv, put_at, send_loop, recv_loop}
use vpnd.Encryption.{aes_encrypt, aes_decrypt}
use vpnd.Peer.{Peer}
use vpnd.Daemon.{Env, Daemon, Code, pure, give_up, crash, attempt, ◌>>=◌, ◌>>◌, peer_at}

-- The header on the stack before it is written.
abbrev pub blank_header : List ℕ
blank_header = 0 ∷ 0 ∷ 0 ∷ 0 ∷ 0 ∷ []

abbrev then_net : Outcome (ℕ × Net) → (Net → Outcome Net) → Outcome Net
then_net (ok (sent, w)) f = f w
then_net fault f = fault
then_net stuck f = stuck

-- The header, then the payload. A loop that breaks off does not stop the next one.
unfoldable pub send_frame : Env → ℕ → List ℕ → ℕ → Option ℕ → Net → Outcome Net
send_frame e hdr_type bytes data_len s w =
    let frame_hdr = encode_frame_header e.little blank_header hdr_type data_len in
    then_net (send_loop e.kernel (frame_header_size + 1) s frame_hdr frame_header_size 0 w)
      λ w₁. then_net (send_loop e.kernel (data_len + 1) s bytes data_len 0 w₁) ok

abbrev pub with_net : Daemon → Outcome Net → Outcome (Option (Unit {0}) × Daemon)
with_net d (ok w) = ok (some tt, record d { net = w })
with_net d fault = fault
with_net d stuck = stuck

abbrev with_ctxs :
    Daemon → Outcome (Option (List ℕ) × List (Option ℕ)) → Outcome (Option (List ℕ) × Daemon)
with_ctxs d (ok (out, ctxs)) = ok (out, record d { ctxs = ctxs })
with_ctxs d fault = fault
with_ctxs d stuck = stuck

-- The calls of `aes_encrypt` and `aes_decrypt`, into a buffer of `room` bytes.
unfoldable pub encrypt_into : Env → ℕ → Option ℕ → List ℕ → Code (List ℕ)
encrypt_into e room ctx bytes d = with_ctxs d (aes_encrypt e.evp d.ctxs ctx bytes room)

unfoldable pub decrypt_into : Env → ℕ → Option ℕ → List ℕ → Code (List ℕ)
decrypt_into e room ctx bytes d = with_ctxs d (aes_decrypt e.evp d.ctxs ctx bytes room)

unfoldable pub emit : Env → ℕ → List ℕ → ℕ → Option ℕ → Code (Unit {0})
emit e hdr_type bytes data_len s d = with_net d (send_frame e hdr_type bytes data_len s d.net)

send_encrypted : Env → ℕ → List ℕ → ℕ → Peer → Code (Unit {0})
send_encrypted e hdr_type bytes data_len peer = do
  enc ← encrypt_into e frame_payload_maxsize peer.enc_ctx (take data_len bytes)
  emit e hdr_type enc (length enc) peer.s

unfoldable pub send_to : Env → ℕ → List ℕ → ℕ → Bool → Peer → Code (Unit {0})
unfolding send_encrypted
send_to e hdr_type bytes data_len encrypt peer =
    if peer.alive
    then (if encrypt
        then (if not peer.authenticated
            then pure tt
            else attempt (send_encrypted e hdr_type bytes data_len peer))
        else emit e hdr_type bytes data_len peer.s)
    else pure tt

unfoldable pub send_data_to_peer : Env → ℕ → List ℕ → ℕ → Bool → ℕ → Code (Unit {0})
send_data_to_peer e hdr_type bytes data_len encrypt i = do
  peer ← peer_at i
  send_to e hdr_type bytes data_len encrypt peer

abbrev is_excluded : ℕ → Option ℕ → Bool
is_excluded i none = false
is_excluded i (some j) = i == j

-- The loop from slot `i` on, where `peers` is what is left of the list.
unfoldable pub broadcast_from :
    Env → ℕ → List ℕ → ℕ → Bool → Option ℕ → ℕ → List Peer → Code (Unit {0})
broadcast_from e hdr_type bytes data_len encrypt exclude i [] = pure tt
broadcast_from e hdr_type bytes data_len encrypt exclude i (peer ∷ next) =
    (if not (is_excluded i exclude) && peer.alive
      then send_to e hdr_type bytes data_len encrypt peer
      else pure tt)
    >> broadcast_from e hdr_type bytes data_len encrypt exclude (i + 1) next

unfoldable pub broadcast_data_to_peers : Env → ℕ → List ℕ → ℕ → Bool → Option ℕ → Code (Unit {0})
broadcast_data_to_peers e hdr_type bytes data_len encrypt exclude d =
    broadcast_from e hdr_type bytes data_len encrypt exclude 0 d.peers d

-- What `receive_frame` gives its caller when it does not return -1.
pub record Frame : Type 0 where
  pub total : ℕ
  pub header_type : ℕ
  pub data_len : ℕ
  pub buf : List ℕ

abbrev pub frame : ℕ → ℕ × ℕ → List ℕ → Frame
frame total (type, len) buf = record {
  total = total;
  header_type = type;
  data_len = len;
  buf = buf;
}

abbrev payload_done : ℕ × ℕ → Outcome (Option ℕ × List ℕ × Net) → Outcome (Option Frame × Net)
payload_done hdr (ok (none, buf, w)) = ok (none, w)
payload_done hdr (ok (some total, buf, w)) =
    ok (some (frame (total + frame_header_size) hdr buf), w)
payload_done hdr fault = fault
payload_done hdr stuck = stuck

-- A frame that is too large: one `recv` over the buffer, and the header is handed on.
abbrev discarded : ℕ × ℕ → Net → Outcome (List ℕ) → Outcome (Option Frame × Net)
discarded hdr w (ok buf) = ok (some (frame 0 hdr buf), w)
discarded hdr w fault = fault
discarded hdr w stuck = stuck

unfoldable pub receive_payload :
    Env → Option ℕ → ℕ × ℕ → List ℕ → Net → Outcome (Option Frame × Net)
receive_payload e s (type, len) buf w =
    let step = net_recv e.kernel s frame_maxsize w in
    if ltb frame_payload_maxsize len
    then discarded (type, len) step.1 (put_at buf 0 step.0)
    else if ltb 0 len
    then payload_done (type, len)
        (recv_loop e.kernel (λ t. ltb t len) frame_header_size len (len + 1) s 0 buf w)
    else ok (some (frame frame_header_size (type, len) buf), w)

abbrev header_done :
    Env → Option ℕ → Outcome (Option ℕ × List ℕ × Net) → Outcome (Option Frame × Net)
header_done e s (ok (none, buf, w)) = ok (none, w)
header_done e s (ok (some total, buf, w)) =
    receive_payload e s (decode_frame_header e.little buf) buf w
header_done e s fault = fault
header_done e s stuck = stuck

unfoldable pub receive_on : Env → Option ℕ → List ℕ → Net → Outcome (Option Frame × Net)
receive_on e s buf w = header_done e s (
    recv_loop e.kernel (λ t. not (t == frame_header_size)) 0 frame_header_size
      (frame_header_size + 1) s 0 buf w)

abbrev pub framed : Daemon → Outcome (Option Frame × Net) → Outcome (Option Frame × Daemon)
framed d (ok (got, w)) = ok (got, record d { net = w })
framed d fault = fault
framed d stuck = stuck

-- `none` is the return of -1.
unfoldable pub receive_frame : Env → ℕ → List ℕ → Code Frame
receive_frame e i buf = do peer ← peer_at i; λ d. framed d (receive_on e peer.s buf d.net)

abbrev pub after_write : Daemon → Outcome (ℕ × Net) → Outcome (Option (Unit {0}) × Daemon)
after_write d (ok (n, w)) = ok (some tt, record d { net = w })
after_write d fault = fault
after_write d stuck = stuck

abbrev pub write_fd : Env → List ℕ → ℕ → Option ℕ → Code (Unit {0})
write_fd e bytes n none d = ok (some tt, d)
write_fd e bytes n (some fd) d =
    after_write d (send_loop e.kernel (n + 1) (some fd) bytes n 0 d.net)

-- The number of bytes written is not looked at by any caller.
unfoldable pub tuntap_write : Env → List ℕ → ℕ → Code (Unit {0})
tuntap_write e bytes n d = write_fd e bytes n d.if_fd d
