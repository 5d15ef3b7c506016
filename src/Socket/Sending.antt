-- ===== src/Socket/Sending.antt =====
-- What the loop over `send` of src/peer_net.c puts on the wire.
use vpnd.Base.{
  ℕ, zero, suc, ◌+◌, ◌-◌, ◌≤◌, ◌<◌, ◌≡◌, refl, sym, ap, ◌∙◌, inl, inr, false, some, List, ◌++◌, ltb,
  ◌==◌, length, take, drop, Outcome, ok, arith, length-take, length-drop, Bool-cases, ltb→lt, ==→eq,
  ltb_false→le, take-add, take-take, drop-add, ==-refl,
}
use mathlib.Core.List.{append_assoc, append-nil}
use vpnd.Socket.{Kernel, Net, net_send, send_loop}

-- The kernel takes at least one byte of what it is offered.
abbrev pub Accepts : Kernel → Type 0
Accepts k = (i s offered : ℕ) → 0 < offered → 0 < k.send i s offered

-- The loop returned: `count` bytes from `sent` on went out on `s`, and nothing else happened.
pub record Sent (k : Kernel) (s : ℕ) (bytes : List ℕ) (len sent : ℕ) (w : Net)
    (r : Outcome (ℕ × Net)) : Type 0 where
  pub count : ℕ
  pub after : Net
  pub returns : r ≡ ok (sent + count, after)
  pub within : sent + count ≤ len
  pub wire : after.outgoing s ≡ w.outgoing s ++ take count (drop sent bytes)
  pub others : (t : ℕ) → (t == s) ≡ false → after.outgoing t ≡ w.outgoing t
  pub received_nothing : after.incoming ≡ w.incoming
  pub complete : Accepts k → sent + count ≡ len

-- One call: `size` bytes of the front of `bytes` from `sent` on go out.
pub record Passed (k : Kernel) (s : ℕ) (bytes : List ℕ) (want sent : ℕ) (w : Net) (size : ℕ)
    (after : Net) : Type 0 where
  pub within : size ≤ want
  pub wire : after.outgoing s ≡ w.outgoing s ++ take size (drop sent bytes)
  pub others : (t : ℕ) → (t == s) ≡ false → after.outgoing t ≡ w.outgoing t
  pub received_nothing : after.incoming ≡ w.incoming
  pub positive : Accepts k → 0 < want → 0 < size

pub net_send-Passed :
    (k : Kernel) (s : ℕ) (bytes : List ℕ) (want sent : ℕ) (w : Net)
    → sent + want ≤ length bytes
    → let r = net_send k (some s) (take want (drop sent bytes)) w in
      Passed k s bytes want sent w r.0 r.1
unfolding net_send
net_send-Passed k s bytes want sent w h =
    let offered : List ℕ = take want (drop sent bytes) in
    let size : length offered ≡ want =
      omega (arith, length-take want (drop sent bytes), length-drop sent bytes) in
    let le : k.send w.calls s (length offered) ≤ want =
      omega (arith, k.send_le w.calls s (length offered), size) in
    record {
      within = le;
      wire = rw (==-refl s) (
          ap (◌++◌ (w.outgoing s))
            (take-take (k.send w.calls s (length offered)) want (drop sent bytes) le));
      others = λ t other. rw other;
      received_nothing = refl;
      positive = λ a p. a w.calls s (length offered) (omega (arith, size));
    }

module _ (k : Kernel) (s : ℕ) (bytes : List ℕ) (len : ℕ) (room : len ≤ length bytes) where
  pub send_loop-Sent :
      (fuel sent : ℕ) (w : Net)
      → sent ≤ len
      → len - sent < fuel
      → Sent k s bytes len sent w (send_loop k fuel (some s) bytes len sent w)
  unfolding send_loop
  send_loop-Sent zero sent w le f = absurd (omega arith)
  send_loop-Sent (suc fuel) sent w le f = elim (Bool-cases (ltb sent len)) [
    | inr stop ↦ record {
      count = 0;
      after = w;
      returns = rw stop (ap (λ (n : ℕ). ok (n, w)) (omega arith));
      within = omega arith;
      wire = sym (append-nil (w.outgoing s));
      others = λ t h. refl;
      received_nothing = refl;
      complete = λ a. omega (arith, ltb_false→le sent len stop);
    }
    | inl go ↦
        let (n, w₁) = net_send k (some s) (take (len - sent) (drop sent bytes)) w in
        let p : Passed k s bytes (len - sent) sent w n w₁ =
          net_send-Passed k s bytes (len - sent) sent w (omega (arith, ltb→lt sent len go)) in
        elim (Bool-cases (n == 0)) [
          | inl refused ↦ record {
            count = 0;
            after = w₁;
            returns = rw (go, refused) (ap (λ (m : ℕ). ok (m, w₁)) (omega arith));
            within = omega arith;
            wire =
                p.wire
                ∙ ap (λ (m : ℕ). w.outgoing s ++ take m (drop sent bytes)) (==→eq n 0 refused);
            others = p.others;
            received_nothing = p.received_nothing;
            complete =
                λ a. absurd (omega (arith, p.positive a, ltb→lt sent len go, ==→eq n 0 refused));
          }
          | inr taken ↦
              let r =
                send_loop-Sent fuel (sent + n) w₁ (omega (arith, p.within, ltb→lt sent len go))
                  (ground (arith, p.within, ltb→lt sent len go)) in
              record {
                count = n + r.count;
                after = r.after;
                returns =
                    rw (go, taken) (r.returns ∙ ap (λ (m : ℕ). ok (m, r.after)) (omega arith));
                within = omega (arith, r.within);
                wire =
                    r.wire
                    ∙ ap (λ (b : List ℕ). b ++ take r.count (drop (sent + n) bytes)) p.wire
                    ∙ append_assoc (w.outgoing s) (take n (drop sent bytes))
                        (take r.count (drop (sent + n) bytes))
                    ∙ ap (◌++◌ (w.outgoing s)) (
                        sym (
                          take-add n r.count (drop sent bytes)
                          ∙ ap (λ (b : List ℕ). take n (drop sent bytes) ++ take r.count b)
                              (sym (drop-add sent n bytes))));
                others = λ t h. r.others t h ∙ p.others t h;
                received_nothing = r.received_nothing ∙ p.received_nothing;
                complete = λ a. omega (arith, r.complete a);
              }
        ]
  ]

-- A whole buffer on a descriptor whose kernel never refuses.
abbrev pub AllSent : (s : ℕ) (out : List ℕ) (len : ℕ) (w : Net) → Outcome (ℕ × Net) → Type 0
AllSent s out len w r =
    (w' : Net) × (r ≡ ok (len, w'))
    × (w'.outgoing s ≡ w.outgoing s ++ out)
    × ((t : ℕ) → (t == s) ≡ false → w'.outgoing t ≡ w.outgoing t)
    × (w'.incoming ≡ w.incoming)

Sent-complete :
    (k : Kernel) (s : ℕ) (bytes : List ℕ) (len : ℕ) (w : Net) (r : Outcome (ℕ × Net))
    → Accepts k
    → Sent k s bytes len 0 w r
    → AllSent s (take len bytes) len w r
Sent-complete k s bytes len w r accepts p =
    let all : p.count ≡ len = omega (arith, p.complete accepts) in
    (
      p.after,
      p.returns ∙ ap (λ (n : ℕ). ok (n, p.after)) (omega arith),
      p.wire ∙ ap (λ (n : ℕ). w.outgoing s ++ take n bytes) all,
      p.others,
      p.received_nothing,
    )

pub send_loop-AllSent :
    (k : Kernel) (s : ℕ) (bytes : List ℕ) (len : ℕ) (w : Net)
    → Accepts k
    → len ≤ length bytes
    → AllSent s (take len bytes) len w (send_loop k (len + 1) (some s) bytes len 0 w)
send_loop-AllSent k s bytes len w accepts room =
    Sent-complete k s bytes len w _ accepts
      (send_loop-Sent k s bytes len room (len + 1) 0 w (omega arith) (omega arith))
