-- ===== src/PeerNet/Senders/Alone.antt =====
-- The turns of one caller of `send_data_to_peer` (src/peer_net.c) against its two loops in one go.
use vpnd.Base.{
  ℕ, zero, suc, ◌+◌, ◌-◌, ◌≤◌, ◌<◌, ◌≡◌, refl, sym, ap, ◌∙◌, inl, inr, some, ltb, ◌==◌, Outcome, ok,
  take, drop, arith, Bool-cases, ltb→lt,
}
use vpnd.Socket.{Net, send_loop, net_send}
use vpnd.Daemon.{Env}
use vpnd.PeerNet.Wire.{send_frame}
use vpnd.PeerNet.Senders.{
  Message, Stage, waiting, in_header, in_payload, unlocking, returned, Senders, frame_hdr, turn_at,
  turn, run, at_rest,
}
use vpnd.PeerNet.Senders.Whole.{at_self}
use vpnd.PeerNet.Senders.Finishing.{turns, turns_left}

module _ (e : Env) (s : ℕ) (message : ℕ → Message) (i : ℕ) where
  abbrev len : ℕ
  len = (message i).data_len

  abbrev after : ℕ → Senders → Senders
  after n st = run e s message (turns i n) st

  one_turn :
      (n : ℕ) (st : Senders) (y : Stage)
      → st.stage i ≡ y
      → (after (suc n) st).net ≡ (after n (turn_at e s message i y st)).net
  unfolding run turn
  one_turn n st y at_y = ap (λ (z : Stage). (after n (turn_at e s message i z st)).net) at_y

  -- Behind its loops a caller leaves the network alone.
  ended :
      (n : ℕ) (st : Senders) (y : Stage)
      → st.stage i ≡ y
      → turns_left len y ≤ 1
      → (after n st).net ≡ st.net
  unfolding turn_at
  ended zero st y at_y le = unfold run in refl
  ended (suc n) st waiting at_y le = absurd (omega arith)
  ended (suc n) st (in_header k) at_y le = absurd (omega arith)
  ended (suc n) st (in_payload k) at_y le = absurd (omega arith)
  ended (suc n) st unlocking at_y le =
      one_turn n st unlocking at_y ∙ ended n _ returned (at_self st.stage i returned) (omega arith)
  ended (suc n) st returned at_y le =
      one_turn n st returned at_y ∙ ended n st returned at_y (omega arith)

  -- What a loop that returns `m` leaves, in terms of the turns.
  abbrev Leaves : Outcome (ℕ × Net) → Net → Type 0
  Leaves r w = (m : ℕ) × (r ≡ ok (m, w))

  payload_alone :
      (n fuel sent : ℕ) (st : Senders)
      → st.stage i ≡ in_payload sent
      → turns_left len (in_payload sent) ≤ n
      → len - sent < fuel
      → Leaves (send_loop e.kernel fuel (some s) (message i).bytes len sent st.net) (after n st).net
  unfolding turn_at send_loop
  payload_alone zero fuel sent st at_y le f = absurd (omega arith)
  payload_alone (suc n) zero sent st at_y le f = absurd (omega arith)
  payload_alone (suc n) (suc fuel) sent st at_y le f =
      rw (one_turn n st (in_payload sent) at_y) (elim (Bool-cases (ltb sent len)) [
        | inr stop ↦ rw stop (
          sent,
          ap (λ (w : Net). ok (sent, w))
              (sym (ended n _ unlocking (at_self st.stage i unlocking) (omega arith))),
        )
        | inl go ↦
            let (k, w) =
              net_send e.kernel (some s) (take (len - sent) (drop sent (message i).bytes)) st.net in
            elim (Bool-cases (k == 0)) [
              | inl refused ↦
                  rw (go, refused)
                    (
                      sent,
                      ap (λ (v : Net). ok (sent, v))
                          (sym (ended n _ unlocking (at_self st.stage i unlocking) (omega arith))),
                    )
              | inr taken ↦
                  let more : 0 < k = ground (arith, taken) in
                  rw (go, taken)
                    (payload_alone n fuel (sent + k) _ (at_self st.stage i (in_payload (sent + k)))
                      (omega (arith, ltb→lt sent len go)) (omega (arith, ltb→lt sent len go)))
            ]
      ])

  -- The first loop, and then the second one.
  abbrev BothLeave : Outcome (ℕ × Net) → Net → Type 0
  BothLeave r w' =
      (m : ℕ) × (w : Net) × (r ≡ ok (m, w))
      × Leaves (send_loop e.kernel (len + 1) (some s) (message i).bytes len 0 w) w'

  header_alone :
      (n fuel sent : ℕ) (st : Senders)
      → st.stage i ≡ in_header sent
      → turns_left len (in_header sent) ≤ n
      → 5 - sent < fuel
      → BothLeave
          (send_loop e.kernel fuel (some s) (frame_hdr e s message i) 5 sent st.net)
          (after n st).net
  unfolding turn_at send_loop
  header_alone zero fuel sent st at_y le f = absurd (omega arith)
  header_alone (suc n) zero sent st at_y le f = absurd (omega arith)
  header_alone (suc n) (suc fuel) sent st at_y le f =
      rw (one_turn n st (in_header sent) at_y) (elim (Bool-cases (ltb sent 5)) [
        | inr stop ↦ rw stop (
          sent,
          st.net,
          refl,
          payload_alone n (len + 1) 0 _ (at_self st.stage i (in_payload 0)) (omega arith)
              (omega arith),
        )
        | inl go ↦
            let (k, w) =
              net_send e.kernel (some s) (take (5 - sent) (drop sent (frame_hdr e s message i)))
                st.net in
            elim (Bool-cases (k == 0)) [
              | inl refused ↦
                  rw (go, refused)
                    (
                      sent,
                      w,
                      refl,
                      payload_alone n (len + 1) 0 _ (at_self st.stage i (in_payload 0))
                          (omega (arith, ltb→lt sent 5 go)) (omega arith),
                    )
              | inr taken ↦
                  let more : 0 < k = ground (arith, taken) in
                  rw (go, taken)
                    (header_alone n fuel (sent + k) _ (at_self st.stage i (in_header (sent + k)))
                      (omega (arith, ltb→lt sent 5 go)) (omega (arith, ltb→lt sent 5 go)))
            ]
      ])

  -- A caller that nobody disturbs does to the network exactly what the two loops of
  -- `send_data_to_peer` do in one go, whatever the kernel takes or refuses: nine turns more than its
  -- payload has bytes are enough.
  pub run_alone :
      (w : Net)
      → send_frame e (message i).frame_hdr_type (message i).bytes len (some s) w
        ≡ ok (run e s message (turns i (len + 9)) (at_rest w)).net
  unfolding send_frame turn_at
  run_alone w =
      let st : Senders = turn_at e s message i waiting (at_rest w) in
      let (m, w₁, hdr, (k, payload)) =
        header_alone (len + 8) 6 0 st (at_self (λ j. waiting) i (in_header 0)) (omega arith)
          (omega arith) in
      let count : len + 9 ≡ suc (len + 8) = omega arith in
      let same : (after (len + 9) (at_rest w)).net ≡ (after (len + 8) st).net =
        ap (λ (n : ℕ). (after n (at_rest w)).net) count
        ∙ one_turn (len + 8) (at_rest w) waiting refl in
      rw (same, hdr) (rw payload refl)
