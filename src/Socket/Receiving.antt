-- ===== src/Socket/Receiving.antt =====
-- What the receive loop does, whatever the sizes of the kernel's answers.
use vpnd.Base.{
  ℕ, zero, suc, ◌+◌, ◌-◌, ◌≤◌, ◌<◌, ◌≡◌, refl, sym, ap, ◌∙◌, Bool, true, false, Option, none, some,
  List, [], ◌∷◌, ◌++◌, leb, ◌==◌, length, take, drop, Outcome, ok, arith, length-take, length-drop,
  length-append, take-length-append, drop-length-append, drop-add, leb-true, drop-append,
  take-append, take-append-drop, ==-refl,
}
use mathlib.Core.List.{append_assoc}
use vpnd.Socket.{Kernel, Net, net_recv, put_at, recv_loop}

-- A write over the front of a hole between two parts of a buffer.
put_at-hole :
    (pre bytes hole post : List ℕ) (i : ℕ)
    → i ≡ length pre
    → length bytes ≤ length hole
    → put_at (pre ++ (hole ++ post)) i bytes
      ≡ ok ((pre ++ bytes) ++ (drop (length bytes) hole ++ post))
unfolding put_at
put_at-hole pre bytes hole post i e h =
    let fits : leb (length pre + length bytes) (length (pre ++ (hole ++ post))) ≡ true =
      leb-true _ _ (omega (arith, length-append pre (hole ++ post), length-append hole post)) in
    let behind : drop (length pre + length bytes) (pre ++ (hole ++ post))
        ≡ drop (length bytes) hole ++ post =
      rw
        (
          drop-add (length pre) (length bytes) (pre ++ (hole ++ post)),
          drop-length-append pre (hole ++ post),
        )
        (drop-append (length bytes) hole post h) in
    rw (e, fits, behind, take-length-append pre (hole ++ post))
      (ap ok (sym (append_assoc pre bytes (drop (length bytes) hole ++ post))))

-- The kernel delivers what has come in: a call that wants bytes gets at least one if there is one.
abbrev pub Delivers : Kernel → Type 0
Delivers k = (i s want available : ℕ) → 0 < want → 0 < available → 0 < k.recv i s want available

-- What a call of `recv` returns, when `bytes` is what the loop still waits for.
pub record Chunk (k : Kernel) (s : ℕ) (bytes rest : List ℕ) (w : Net) : Type 0 where
  pub size : ℕ
  pub positive : 0 < size
  pub within : size ≤ length bytes
  pub got : (net_recv k (some s) (length bytes) w).0 ≡ take size bytes
  pub left : (net_recv k (some s) (length bytes) w).1.incoming s ≡ drop size bytes ++ rest

net_recv-Chunk :
    (k : Kernel) (s : ℕ) (bytes rest : List ℕ) (w : Net)
    → Delivers k
    → 0 < length bytes
    → w.incoming s ≡ bytes ++ rest
    → Chunk k s bytes rest w
unfolding net_recv
net_recv-Chunk k s bytes rest w live h e =
    let n = k.recv w.calls s (length bytes) (length (w.incoming s)) in
    let le : n ≤ length bytes = k.recv_le w.calls s (length bytes) (length (w.incoming s)) in
    record {
      size = n;
      positive =
          live w.calls s (length bytes) (length (w.incoming s)) h
            (omega (arith, ap length e, length-append bytes rest));
      within = le;
      got = ap (take n) e ∙ take-append n bytes rest le;
      left = rw (==-refl s) (ap (drop n) e ∙ drop-append n bytes rest le);
    }

pub net_recv-outgoing :
    (k : Kernel) (s : Option ℕ) (want : ℕ) (w : Net) → (net_recv k s want w).1.outgoing ≡ w.outgoing
unfolding net_recv
net_recv-outgoing k none want w = refl
net_recv-outgoing k (some s) want w = refl

-- The loop ended with all it waited for: the bytes stand in the buffer, and nothing else changed.
abbrev pub Filled :
    (limit s : ℕ) (buf rest : List ℕ) (w : Net) → Outcome (Option ℕ × List ℕ × Net) → Type 0
Filled limit s buf rest w r =
    (w' : Net) × (r ≡ ok (some limit, buf, w'))
    × (w'.incoming s ≡ rest)
    × (w'.outgoing ≡ w.outgoing)

joined :
    (pre bytes post : List ℕ) (n : ℕ)
    → (pre ++ take n bytes) ++ (drop n bytes ++ post) ≡ pre ++ (bytes ++ post)
joined pre bytes post n =
    append_assoc pre (take n bytes) (drop n bytes ++ post)
    ∙ ap (◌++◌ pre) (
        sym (append_assoc (take n bytes) (drop n bytes) post)
        ∙ ap (λ (b : List ℕ). b ++ post) (take-append-drop n bytes))

module _ (k : Kernel) (live : Delivers k) (more : ℕ → Bool) (base limit s : ℕ)
    (goes_on : (t : ℕ) → t < limit → more t ≡ true) (stops : more limit ≡ false) where
  -- One round that gets some bytes and goes on.
  recv_loop-round :
      (fuel total : ℕ) (pre hole post bytes rest : List ℕ) (w : Net)
      → (c : Chunk k s bytes rest w) → 0 < length bytes
      → length pre ≡ base + total
      → length hole ≡ length bytes
      → total + length bytes ≡ limit
      → recv_loop k more base limit (suc fuel) (some s) total (pre ++ (hole ++ post)) w
        ≡ recv_loop k more base limit fuel
            (some s)
            (total + c.size)
            ((pre ++ take c.size bytes) ++ (drop c.size hole ++ post))
            (net_recv k (some s) (length bytes) w).1
  unfolding recv_loop
  recv_loop-round fuel total pre hole post bytes rest w c h hp hh hb =
      let want : limit - total ≡ length bytes = omega arith in
      let size : length (take c.size bytes) ≡ c.size =
        omega (arith, length-take c.size bytes, c.within) in
      let put : put_at (pre ++ (hole ++ post)) (base + total) (take c.size bytes)
          ≡ ok ((pre ++ take c.size bytes) ++ (drop c.size hole ++ post)) =
        rw size at (
          put_at-hole pre (take c.size bytes) hole post (base + total) (sym hp)
            (omega (arith, size, c.within))) in
      let some_bytes : (c.size == 0) ≡ false = ground (arith, c.positive) in
      rw (want, goes_on total (omega arith), c.got, size, some_bytes, put)

  recv_loop-done :
      (fuel total : ℕ) (buf : List ℕ) (w : Net)
      → total ≡ limit
      → recv_loop k more base limit (suc fuel) (some s) total buf w ≡ ok (some limit, buf, w)
  unfolding recv_loop
  recv_loop-done fuel total buf w e = rw (e, stops)

  pub recv_loop-Filled :
      (fuel total : ℕ) (pre hole post bytes rest : List ℕ) (w : Net)
      → length pre ≡ base + total
      → length hole ≡ length bytes
      → total + length bytes ≡ limit
      → length bytes < fuel
      → w.incoming s ≡ bytes ++ rest
      → Filled limit s
          (pre ++ (bytes ++ post))
          rest
          w
          (recv_loop k more base limit fuel (some s) total (pre ++ (hole ++ post)) w)
  recv_loop-Filled zero total pre hole post bytes rest w hp hh hb hf hi = absurd (omega arith)
  recv_loop-Filled (suc fuel) total pre [] post [] rest w hp hh hb hf hi =
      let e : total ≡ limit = omega arith in
      (w, recv_loop-done fuel total (pre ++ post) w e, hi, refl)
  recv_loop-Filled (suc fuel) total pre (y ∷ hole) post [] rest w hp hh hb hf hi =
      absurd (omega arith)
  recv_loop-Filled (suc fuel) total pre hole post (x ∷ bytes) rest w hp hh hb hf hi =
      let bs : List ℕ = x ∷ bytes in
      let c = net_recv-Chunk k s bs rest w live (omega arith) hi in
      let w₁ = (net_recv k (some s) (length bs) w).1 in
      let ih =
        recv_loop-Filled fuel (total + c.size) (pre ++ take c.size bs) (drop c.size hole) post
          (drop c.size bs) rest w₁
          (omega (arith, length-append pre (take c.size bs), length-take c.size bs, c.within))
          (omega (arith, length-drop c.size hole, length-drop c.size bs))
          (omega (arith, length-drop c.size bs, c.within))
          (omega (arith, length-drop c.size bs, c.within, c.positive)) c.left in
      (
        ih.0,
        recv_loop-round fuel total pre hole post bs rest w c (omega arith) hp hh hb
            ∙ ih.1
            ∙ ap (λ (b : List ℕ). ok (some limit, b, ih.0)) (joined pre bs post c.size),
        ih.2,
        ih.3 ∙ net_recv-outgoing k (some s) (length bs) w,
      )
