-- ===== src/Socket/Safety.antt =====
-- The loop over `recv` of src/peer_net.c and the bounds of its buffer.
use vpnd.Base.{
  ℕ, zero, suc, ◌+◌, ◌-◌, ◌≤◌, ◌<◌, ◌≡◌, refl, ap, ◌∙◌, ◌⊎◌, inl, inr, Bool, true, false, Option,
  none, some, List, ◌++◌, ◌==◌, length, take, drop, Outcome, ok, arith, length-take, length-drop,
  length-append, leb-true, Bool-cases,
}
use vpnd.Socket.{Kernel, Net, net_recv, put_at, recv_loop}
use vpnd.Socket.Receiving.{net_recv-outgoing}

pub length-net_recv :
    (k : Kernel) (s : Option ℕ) (want : ℕ) (w : Net) → length (net_recv k s want w).0 ≤ want
unfolding net_recv
length-net_recv k none want w = omega arith
length-net_recv k (some s) want w =
    let n = k.recv w.calls s want (length (w.incoming s)) in
    omega (arith, length-take n (w.incoming s), k.recv_le w.calls s want (length (w.incoming s)))

-- A write that fits leaves a buffer of the same size.
pub put_at-fits :
    (buf bytes : List ℕ) (i : ℕ)
    → i + length bytes ≤ length buf
    → (b : List ℕ) × (put_at buf i bytes ≡ ok b) × (length b ≡ length buf)
unfolding put_at
put_at-fits buf bytes i h = (
  take i buf ++ (bytes ++ drop (i + length bytes) buf),
  rw (leb-true _ _ h),
  omega (
    arith,
    length-append (take i buf) (bytes ++ drop (i + length bytes) buf),
    length-append bytes (drop (i + length bytes) buf),
    length-take i buf,
    length-drop (i + length bytes) buf,
  ),
)

-- The loop returned: with everything or with an error, and a buffer of the same size.
pub record Returned (limit : ℕ) (buf : List ℕ) (w : Net) (r : Outcome (Option ℕ × List ℕ × Net))
    : Type 0 where
  pub got : Option ℕ
  pub buffer : List ℕ
  pub after : Net
  pub returns : r ≡ ok (got, buffer, after)
  pub complete : (got ≡ none) ⊎ (got ≡ some limit)
  pub size : length buffer ≡ length buf
  pub sent_nothing : after.outgoing ≡ w.outgoing

module _ (k : Kernel) (more : ℕ → Bool) (base limit : ℕ) (s : Option ℕ)
    (within : (t : ℕ) → t ≤ limit → more t ≡ true → t < limit)
    (stops : (t : ℕ) → t ≤ limit → more t ≡ false → t ≡ limit) where
  pub recv_loop-Returned :
      (fuel total : ℕ) (buf : List ℕ) (w : Net)
      → base + limit ≤ length buf
      → total ≤ limit
      → limit - total < fuel
      → Returned limit buf w (recv_loop k more base limit fuel s total buf w)
  unfolding recv_loop
  recv_loop-Returned zero total buf w room le f = absurd (omega arith)
  recv_loop-Returned (suc fuel) total buf w room le f = elim (Bool-cases (more total)) [
    | inr stop ↦ record {
      got = some total;
      buffer = buf;
      after = w;
      returns = rw stop;
      complete = inr (ap some (stops total le stop));
      size = refl;
      sent_nothing = refl;
    }
    | inl go ↦
        let chunk = (net_recv k s (limit - total) w).0 in
        elim (Bool-cases (length chunk == 0)) [
          | inl lost ↦ record {
            got = none;
            buffer = buf;
            after = (net_recv k s (limit - total) w).1;
            returns = rw (go, lost);
            complete = inl refl;
            size = refl;
            sent_nothing = net_recv-outgoing k s (limit - total) w;
          }
          | inr some_bytes ↦
              let few : length chunk ≤ limit - total = length-net_recv k s (limit - total) w in
              let (b, put, same) =
                put_at-fits buf chunk (base + total) (omega (arith, within total le go)) in
              let r =
                recv_loop-Returned fuel (total + length chunk) b (net_recv k s (limit - total) w).1
                  (omega arith) (omega arith) (ground arith) in
              record {
                got = r.got;
                buffer = r.buffer;
                after = r.after;
                returns = rw (go, some_bytes, put) r.returns;
                complete = r.complete;
                size = r.size ∙ same;
                sent_nothing = r.sent_nothing ∙ net_recv-outgoing k s (limit - total) w;
              }
        ]
  ]
