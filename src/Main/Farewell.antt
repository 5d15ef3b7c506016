-- ===== src/Main/Farewell.antt =====
-- The CLOSE frames that the interrupt of src/signals.c sends, and what they end at the other side: the
-- loop of `peer_receive` of src/peer_net.c.
use vpnd.Base.{
  ℕ, zero, suc, ◌≡◌, ◌≢◌, refl, sym, ap, ◌∙◌, true, false, Option, none, some, List, [], ◌++◌,
  length, get_elem?, Outcome, ok, fault, stuck, arith, subst,
}
use vpnd.Protocol.{hdr_close, frame_maxsize}
use vpnd.Socket.{Net}
use vpnd.Socket.Sending.{Accepts}
use vpnd.Socket.Receiving.{Delivers}
use vpnd.Peer.{Peer}
use vpnd.Daemon.{Env, Daemon, and_then, no_result}
use vpnd.PeerNet.Wire.{broadcast_from, broadcast_data_to_peers}
use vpnd.PeerNet.Wire.Flooding.{Apart}
use vpnd.PeerNet.Wire.Farewell.{close_frame, Tells, broadcast_from-Tells}
use vpnd.PeerNet.Process.{process_frame}
use vpnd.PeerNet.Handshake.{receive_frames}
use vpnd.PeerNet.Handshake.Agreement.{receive_frame-reads}
use vpnd.PeerNet.Handshake.Secrets.{append_cancel}
use vpnd.Interface.{close_device, tuntap_close}
use vpnd.Tcp.{tcp_server_close}
use vpnd.Main.{interrupt_program_handler}

tuntap_close-net : (d : Daemon) → (tuntap_close d).net ≡ d.net
unfolding tuntap_close
tuntap_close-net d = choose d.if_fd
  where
    choose : (o : Option ℕ) → (close_device d o).net ≡ d.net
    choose none = refl
    choose (some zero) = refl
    choose (some (suc n)) = refl

-- The interrupt puts one CLOSE frame on the descriptor of a connected peer that shares it with no other.
interrupt_program_handler-Tells :
    (e : Env) (i s : ℕ) (p : Peer) (d : Daemon)
    → Accepts e.kernel
    → get_elem? d.peers i ≡ some p
    → p.alive ≡ true
    → p.s ≡ some s
    → ((k : ℕ) (q : Peer) → get_elem? d.peers k ≡ some q → k ≢ i → Apart s q.s)
    → Tells s (close_frame e.little) d (interrupt_program_handler e d)
unfolding interrupt_program_handler broadcast_data_to_peers tcp_server_close
interrupt_program_handler-Tells e i s p d accepts found alive socket others =
    last (broadcast_from e hdr_close [] 0 false none 0 d.peers (tcp_server_close d)) (
      broadcast_from-Tells e s accepts 0 i p d.peers (tcp_server_close d) found alive socket others)
  where
    last :
        (r : Outcome (Option (Unit {0}) × Daemon))
        → Tells s (close_frame e.little) (tcp_server_close d) r
        → Tells s
            (close_frame e.little)
            d
            (and_then (no_result r) (λ _ d₁. ok (some tt, tuntap_close d₁)))
    last (ok (o, d₁)) h = ap (λ (w : Net). w.outgoing s) (tuntap_close-net d₁) ∙ h
    last fault h = tt
    last stuck h = tt

-- A CLOSE frame ends the loop over the frames at once.
receive_frames-close :
    (f : Env) (j t fuel : ℕ) (buf rest : List ℕ) (c : Daemon) (q : Peer)
    → Delivers f.kernel
    → get_elem? c.peers j ≡ some q
    → q.s ≡ some t
    → length buf ≡ frame_maxsize
    → c.net.incoming t ≡ close_frame f.little ++ rest
    → (c' : Daemon) × (receive_frames f j (suc fuel) buf c ≡ ok (some tt, c'))
      × (c'.net.incoming t ≡ rest)
unfolding receive_frames process_frame
receive_frames-close f j t fuel buf rest c q live found socket size stream =
    let (buf', w, got, bytes, size', left) =
      receive_frame-reads f j t c q live found socket hdr_close [] rest buf (omega arith) size
        stream in
    (record c { net = w }, rw got refl, left)

-- The interrupt of one daemon ends the connections of its peers: when the handler has returned, a peer
-- whose stream carries next what the handler sent to it leaves its loop over the frames at the first
-- turn, and takes no more than the CLOSE frame. The connection must have its own descriptor, the
-- kernels may cut the stream anywhere but refuse nothing, and the machines have the same byte order.
pub interrupt_program_handler-ends_peer :
    (e f : Env) (i s j t fuel : ℕ) (p q : Peer) (sent rest buf : List ℕ) (d d' c : Daemon)
    → Accepts e.kernel
    → Delivers f.kernel
    → e.little ≡ f.little
    → get_elem? d.peers i ≡ some p
    → p.alive ≡ true
    → p.s ≡ some s
    → ((k : ℕ) (x : Peer) → get_elem? d.peers k ≡ some x → k ≢ i → Apart s x.s)
    → interrupt_program_handler e d ≡ ok (some tt, d')
    → d'.net.outgoing s ≡ d.net.outgoing s ++ sent
    → get_elem? c.peers j ≡ some q
    → q.s ≡ some t
    → length buf ≡ frame_maxsize
    → c.net.incoming t ≡ sent ++ rest
    → (c' : Daemon) × (receive_frames f j (suc fuel) buf c ≡ ok (some tt, c'))
      × (c'.net.incoming t ≡ rest)
interrupt_program_handler-ends_peer e f i s j t fuel p q sent rest buf d d' c accepts live order
      found alive socket others interrupts out found' socket' size stream =
    let told : d'.net.outgoing s ≡ d.net.outgoing s ++ close_frame e.little =
      subst (Tells s (close_frame e.little) d) interrupts
        (interrupt_program_handler-Tells e i s p d accepts found alive socket others) in
    let frame_sent : sent ≡ close_frame f.little =
      append_cancel (d.net.outgoing s) sent (close_frame e.little) (sym out ∙ told)
      ∙ ap close_frame order in
    receive_frames-close f j t fuel buf rest c q live found' socket' size
      (stream ∙ ap (λ (b : List ℕ). b ++ rest) frame_sent)
