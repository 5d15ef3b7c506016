-- ===== src/PeerNet/Device/Local.antt =====
-- The local routes: what `_broadcast_tuntap_device` of src/peer.c does to them.
use vpnd.Base.{
  [], ok, ◌+◌, ℕ, zero, suc, ◌≤◌, ◌<◌, ◌≡◌, refl, sym, ap, ◌∙◌, subst, inl, inr, true, false,
  Option, none, some, List, ◌++◌, ◌==◌, length, drop, arith, Bool-cases, Option-cases,
}
use vpnd.Protocol.{hdr_netpacket}
use vpnd.Netroute.{Netroute, netroute_in_array}
use vpnd.Netroute.Table.{Distinct, add_netroute-Distinct}
use vpnd.PacketHeader.{parse_packet_addr}
use vpnd.Socket.{Net, net_recv}
use vpnd.Socket.Endings.{left_on, Shrunk, net_recv-drained}
use vpnd.Peer.{is_local_route, get_peer_route}
use vpnd.Daemon.{Env, Daemon, Code}
use vpnd.Daemon.Stays.{Holds, Holds-bind, Kept, Runs, by, Runs-bind, Runs-weaken, Keeps, Keeps-pure}
use vpnd.PeerNet.Wire.Keeps.{send_data_to_peer-Keeps, broadcast-Keeps}
use vpnd.PeerNet.Handshake.Keeps.{daemon-Keeps}
use vpnd.PeerNet.Device.{
  read_fd, tuntap_read, learn_local, send_toward, local_packet, broadcast_tuntap_device,
}

-- A step that keeps the device and the local routes free of repetitions.
pub record Tidy (a b : Daemon) : Type 0 where
  pub if_fd : b.if_fd ≡ a.if_fd
  pub peers : b.peers ≡ a.peers
  pub trusted_keys : b.trusted_keys ≡ a.trusted_keys
  pub shrunk : Shrunk a.net b.net
  pub distinct : Distinct a.local_routes → Distinct b.local_routes

Tidy-trans : (a b c : Daemon) → Tidy a b → Tidy b c → Tidy a c
Tidy-trans a b c h k = record {
  if_fd = k.if_fd ∙ h.if_fd;
  peers = k.peers ∙ h.peers;
  trusted_keys = k.trusted_keys ∙ h.trusted_keys;
  shrunk = λ t. omega (arith, h.shrunk t, k.shrunk t);
  distinct = λ x. k.distinct (h.distinct x);
}

Tidy-of_Kept : (a b : Daemon) → Kept a b → Tidy a b
Tidy-of_Kept a b k = record {
  if_fd = k.if_fd;
  peers = k.peers;
  trusted_keys = k.trusted_keys;
  shrunk = k.shrunk;
  distinct = λ x. subst Distinct (sym k.local_routes) x;
}

pub tidy : {A : Type 0} {m : Code A} → Keeps m → Runs Tidy m
tidy h = Runs-weaken Tidy-of_Kept h

pub learn_local-Tidy : (e : Env) (route : Netroute) → Runs Tidy (learn_local e route)
unfolding learn_local is_local_route
learn_local-Tidy e route = by λ d. elim (Option-cases (netroute_in_array route d.local_routes)) [
  | inl missing ↦
      rw (missing, Holds)
        (record {
          if_fd = refl;
          peers = refl;
          trusted_keys = refl;
          shrunk = λ t. omega arith;
          distinct =
              λ x. add_netroute-Distinct (e.memory d.net.calls) route d.local_routes missing x;
        })
  | inr (r, found) ↦
      rw (found, Holds)
        (record {
          if_fd = refl;
          peers = refl;
          trusted_keys = refl;
          shrunk = λ t. omega arith;
          distinct = λ x. x;
        })
]

pub send_toward-Keeps :
    (e : Env) (buf : List ℕ) (n : ℕ) (o : Option ℕ) → Keeps (send_toward e buf n o)
unfolding send_toward
send_toward-Keeps e buf n (some target) = send_data_to_peer-Keeps e hdr_netpacket buf n true target
send_toward-Keeps e buf n none = broadcast-Keeps e hdr_netpacket buf n true none

pub local_packet-Tidy :
    (e : Env) (buf : List ℕ) (n : ℕ) (route : Netroute) → Runs Tidy (local_packet e buf n route)
unfolding local_packet
local_packet-Tidy e buf n route = Runs-bind Tidy-trans (tidy daemon-Keeps) λ d.
    let source = parse_packet_addr d.if_tap e.little buf route true in
    let destination = parse_packet_addr d.if_tap e.little buf source false in
    Runs-bind Tidy-trans (learn_local-Tidy e source) λ _.
      Runs-bind Tidy-trans (tidy (send_toward-Keeps e buf n (get_peer_route destination d.peers)))
        λ _. tidy (Keeps-pure destination)

left_on-Shrunk :
    (s : Option ℕ) (a b : Daemon) → Shrunk a.net b.net → left_on s b.net ≤ left_on s a.net
left_on-Shrunk none a b h = omega arith
left_on-Shrunk (some s) a b h = h s

read_fd-drained :
    (e : Env) (d : Daemon) (o : Option ℕ)
    → (bytes : List ℕ) × (w : Net) × (read_fd e 2048 o d ≡ ok (some bytes, record d { net = w }))
      × Shrunk d.net w
      × (left_on o w + length bytes ≤ left_on o d.net)
read_fd-drained e d none = ([], d.net, refl, λ t. omega arith, omega arith)
read_fd-drained e d (some fd) =
    let (sh, less) = net_recv-drained e.kernel (some fd) 2048 d.net in
    (
      (net_recv e.kernel (some fd) 2048 d.net).0,
      (net_recv e.kernel (some fd) 2048 d.net).1,
      refl,
      sh,
      less,
    )

-- The loop over the device ends with the bytes that the device has to deliver, and keeps the local
-- routes free of repetitions, whatever the packets are and whatever the kernel and the memory answer.
pub broadcast_tuntap_device-Distinct :
    (e : Env) (fuel : ℕ) (buf : List ℕ) (route : Netroute) (d : Daemon)
    → left_on d.if_fd d.net < fuel
    → Distinct d.local_routes
    → Holds (λ d'. Distinct d'.local_routes) (broadcast_tuntap_device e fuel buf route d)
unfolding broadcast_tuntap_device tuntap_read
broadcast_tuntap_device-Distinct e zero buf route d f x = absurd (omega arith)
broadcast_tuntap_device-Distinct e (suc fuel) buf route d f x =
    let (bytes, w, ran, sh, less) = read_fd-drained e d d.if_fd in
    let d₁ : Daemon = record d { net = w } in
    rw ran (elim (Bool-cases (length bytes == 0)) [
      | inl closed ↦ rw (closed, Holds) x
      | inr some_bytes ↦
          rw (some_bytes, Holds)
            (Holds-bind (Tidy d₁) (λ d'. Distinct d'.local_routes) _ _
              ((local_packet-Tidy e (bytes ++ drop (length bytes) buf) (length bytes) route).keeps
                d₁)
              (λ next d₂ t.
                broadcast_tuntap_device-Distinct e fuel (bytes ++ drop (length bytes) buf) next d₂
                  (ground (
                    arith,
                    less,
                    ap (λ (s : Option ℕ). left_on s d₂.net) t.if_fd,
                    left_on-Shrunk d.if_fd d₁ d₂ t.shrunk,
                  ))
                  (t.distinct x))
              (λ d₂ t. t.distinct x))
    ])
