-- ===== src/PeerNet/Device/Stale.antt =====
-- A packet from the device that is neither IPv4 nor IPv6, in TUN mode: `_broadcast_tuntap_device` of
-- src/peer.c.
use vpnd.Base.{
  ℕ, ◌≡◌, refl, ap, ◌∙◌, inl, inr, Bool, true, false, some, List, ◌==◌, is_some, ok, arith,
  Option-cases,
}
use vpnd.Netroute.{Netroute, netroute_in_array, add_netroute}
use vpnd.Netroute.Keys.{compare_netroutes_refl}
use vpnd.Netroute.Table.{in_array-add}
use vpnd.PacketHeader.{parse_packet_addr, ether_type, eth_p_ip, eth_p_ipv6}
use vpnd.Peer.{is_local_route, get_peer_route}
use vpnd.Daemon.{Env, Daemon}
use vpnd.Daemon.Stays.{Post, Post-bind, Post-Keeps}
use vpnd.PeerNet.Device.{learn_local, send_toward, local_packet}
use vpnd.PeerNet.Device.Local.{send_toward-Keeps}

learn_local-learns :
    (e : Env) (route : Netroute) (d : Daemon)
    → e.memory d.net.calls ≡ true
    → (d' : Daemon) × (learn_local e route d ≡ ok (some tt, d'))
      × (is_local_route route d'.local_routes ≡ true)
unfolding learn_local is_local_route
learn_local-learns e route d memory = elim (Option-cases (netroute_in_array route d.local_routes)) [
  | inl missing ↦ (
    record d { local_routes = add_netroute (e.memory d.net.calls) route d.local_routes },
    rw missing refl,
    ground (
      arith,
      in_array-add (e.memory d.net.calls) route route d.local_routes,
      compare_netroutes_refl route,
    ),
  )
  | inr (r, found) ↦ (d, rw found refl, ap is_some found)
]

parse_packet_addr-other :
    (little source : Bool) (packet : List ℕ) (route : Netroute)
    → (ether_type packet == eth_p_ip) ≡ false
    → (ether_type packet == eth_p_ipv6) ≡ false
    → parse_packet_addr false little packet route source ≡ route
unfolding parse_packet_addr
parse_packet_addr-other little source packet route h k = rw (h, k) refl

-- When there is memory, a TUN packet that is neither IPv4 nor IPv6 makes a local route of what
-- `route` holds when the turn begins; the turn ends with that route in its place, or not at all.
pub local_packet_not_ip :
    (e : Env) (buf : List ℕ) (n : ℕ) (route : Netroute) (d : Daemon)
    → d.if_tap ≡ false
    → (ether_type buf == eth_p_ip) ≡ false
    → (ether_type buf == eth_p_ipv6) ≡ false
    → e.memory d.net.calls ≡ true
    → Post
        (λ next d'. (next ≡ route) × (is_local_route route d'.local_routes ≡ true))
        (λ d'. is_local_route route d'.local_routes ≡ true)
        (local_packet e buf n route d)
unfolding local_packet
local_packet_not_ip e buf n route d tun not4 not6 memory =
    let kept : (b : Bool) → parse_packet_addr d.if_tap e.little buf route b ≡ route = λ b.
      ap (λ (t : Bool). parse_packet_addr t e.little buf route b) tun
      ∙ parse_packet_addr-other e.little b buf route not4 not6 in
    let (d₁, learnt, is_local) = learn_local-learns e route d memory in
    rw (kept true, kept false, learnt)
      (Post-bind (λ a d'. is_local_route route d'.local_routes ≡ true) _
        (λ d'. is_local_route route d'.local_routes ≡ true) _ _
        (Post-Keeps (send_toward e buf n (get_peer_route route d.peers)) d₁ _ _
          (send_toward-Keeps e buf n (get_peer_route route d.peers))
          (λ a d' k. ap (is_local_route route) k.local_routes ∙ is_local)
          (λ d' k. ap (is_local_route route) k.local_routes ∙ is_local))
        (λ a d' h. (refl, h)))
