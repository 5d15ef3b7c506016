-- ===== src/Socket/Endings.antt =====
-- The ends of the loops over `send` and `recv` of src/peer_net.c, and what they take from the streams.
use vpnd.Base.{
  ℕ, zero, suc, ◌+◌, ◌-◌, ◌≤◌, ◌<◌, ◌≡◌, refl, ◌∙◌, inl, inr, Bool, true, false, Option, none, some,
  List, ltb, ◌==◌, length, take, drop, Outcome, ok, fault, stuck, ◌>>=◌, arith, length-take,
  length-drop, Bool-cases, ltb→lt, if◌then◌else◌, leb, ==-refl, ==→eq,
}
use vpnd.Socket.{Kernel, Net, net_send, net_recv, put_at, send_loop, recv_loop}
use vpnd.Socket.Safety.{length-net_recv}

-- A send that ended took nothing from any stream.
abbrev pub Quiet : Net → Outcome (ℕ × Net) → Type 0
Quiet w (ok (n, w')) = w'.incoming ≡ w.incoming
Quiet w fault = Unit {0}
Quiet w stuck = ⊥

net_send-bound :
    (k : Kernel) (s : Option ℕ) (bytes : List ℕ) (w : Net)
    → ((net_send k s bytes w).0 ≤ length bytes) × ((net_send k s bytes w).1.incoming ≡ w.incoming)
unfolding net_send
net_send-bound k none bytes w = (omega arith, refl)
net_send-bound k (some s) bytes w = (k.send_le w.calls s (length bytes), refl)

Quiet-trans : (w v : Net) (r : Outcome (ℕ × Net)) → v.incoming ≡ w.incoming → Quiet v r → Quiet w r
Quiet-trans w v (ok (n, u)) e q = q ∙ e
Quiet-trans w v fault e q = tt
Quiet-trans w v stuck e q = q

pub send_loop-Quiet :
    (k : Kernel) (fuel : ℕ) (s : Option ℕ) (bytes : List ℕ) (len sent : ℕ) (w : Net)
    → len - sent < fuel
    → Quiet w (send_loop k fuel s bytes len sent w)
unfolding send_loop
send_loop-Quiet k zero s bytes len sent w f = absurd (omega arith)
send_loop-Quiet k (suc fuel) s bytes len sent w f = elim (Bool-cases (ltb sent len)) [
  | inr stop ↦ rw stop refl
  | inl go ↦
      let offered : List ℕ = take (len - sent) (drop sent bytes) in
      let (n, w₁) = net_send k s offered w in
      let (few, same) = net_send-bound k s offered w in
      elim (Bool-cases (n == 0)) [
        | inl refused ↦ rw (go, refused) same
        | inr taken ↦
            rw (go, taken)
              (Quiet-trans w w₁ _ same (
                send_loop-Quiet k fuel s bytes len (sent + n) w₁
                  (ground (arith, ltb→lt sent len go))))
      ]
]

-- How much a descriptor has yet to deliver.
abbrev pub left_on : Option ℕ → Net → ℕ
left_on none w = 0
left_on (some s) w = length (w.incoming s)

-- No stream grew.
abbrev pub Shrunk : Net → Net → Type 0
Shrunk w v = (t : ℕ) → length (v.incoming t) ≤ length (w.incoming t)

-- A receive that ended: no stream grew, and what it counted on top of `total` left the stream; with
-- that count `more` is false.
abbrev pub Drained : (ℕ → Bool) → Option ℕ → ℕ → Net → Outcome (Option ℕ × List ℕ × Net) → Type 0
Drained more s total w (ok (none, buf, v)) = Shrunk w v
Drained more s total w (ok (some n, buf, v)) =
    Shrunk w v × (left_on s v + n ≤ left_on s w + total) × (more n ≡ false)
Drained more s total w fault = Unit {0}
Drained more s total w stuck = ⊥

pub net_recv-drained :
    (k : Kernel) (s : Option ℕ) (want : ℕ) (w : Net)
    → let r = net_recv k s want w in Shrunk w r.1 × (left_on s r.1 + length r.0 ≤ left_on s w)
unfolding net_recv
net_recv-drained k none want w = (λ t. omega arith, omega arith)
net_recv-drained k (some s) want w =
    let n = k.recv w.calls s want (length (w.incoming s)) in
    (
      λ t. shrinks n t (t == s) refl,
      rw (==-refl s) (omega (arith, length-take n (w.incoming s), length-drop n (w.incoming s))),
    )
  where
    shrinks :
        (n t : ℕ) (b : Bool)
        → (t == s) ≡ b
        → length (if b then drop n (w.incoming s) else w.incoming t) ≤ length (w.incoming t)
    shrinks n t true e = rw (==→eq t s e) (omega (arith, length-drop n (w.incoming s)))
    shrinks n t false e = omega arith

Drained-step :
    (more : ℕ → Bool) (s : Option ℕ) (total m : ℕ) (w v : Net)
    (r : Outcome (Option ℕ × List ℕ × Net))
    → Shrunk w v
    → left_on s v + m ≤ left_on s w
    → Drained more s (total + m) v r
    → Drained more s total w r
Drained-step more s total m w v (ok (none, buf, u)) sh le d = λ t. omega (arith, sh t, d t)
Drained-step more s total m w v (ok (some n, buf, u)) sh le d =
    (λ t. omega (arith, sh t, d.0 t), omega (arith, d.1), d.2)
Drained-step more s total m w v fault sh le d = tt
Drained-step more s total m w v stuck sh le d = d

put_at-Drained :
    (more : ℕ → Bool) (s : Option ℕ) (total : ℕ) (w : Net) (buf bytes : List ℕ) (i : ℕ)
    (rest : List ℕ → Outcome (Option ℕ × List ℕ × Net))
    → ((b : List ℕ) → Drained more s total w (rest b))
    → Drained more s total w (put_at buf i bytes >>= rest)
unfolding put_at
put_at-Drained more s total w buf bytes i rest h =
    elim (Bool-cases (leb (i + length bytes) (length buf))) [
      | inl fits ↦ rw fits (h _)
      | inr outside ↦ rw outside tt
    ]

pub recv_loop-Drained :
    (k : Kernel) (more : ℕ → Bool) (base limit fuel : ℕ) (s : Option ℕ) (total : ℕ) (buf : List ℕ)
    (w : Net)
    → ((t : ℕ) → t ≤ limit → more t ≡ true → t < limit)
    → total ≤ limit
    → limit - total < fuel
    → Drained more s total w (recv_loop k more base limit fuel s total buf w)
unfolding recv_loop
recv_loop-Drained k more base limit zero s total buf w within le f = absurd (omega arith)
recv_loop-Drained k more base limit (suc fuel) s total buf w within le f =
    elim (Bool-cases (more total)) [
      | inr stop ↦ rw stop (λ t. omega arith, omega arith, stop)
      | inl go ↦
          let (bytes, v) = net_recv k s (limit - total) w in
          let (sh, less) = net_recv-drained k s (limit - total) w in
          let few : length bytes ≤ limit - total = length-net_recv k s (limit - total) w in
          elim (Bool-cases (length bytes == 0)) [
            | inl lost ↦ rw (go, lost) sh
            | inr some_bytes ↦
                rw (go, some_bytes)
                  (put_at-Drained more s total w buf bytes (base + total) _ λ b.
                    Drained-step more s total (length bytes) w v _ sh less (
                      recv_loop-Drained k more base limit fuel s (total + length bytes) b v within
                        (omega (arith, within total le go)) (ground (arith, within total le go))))
          ]
    ]
