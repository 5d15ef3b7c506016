-- ===== src/Socket.antt =====
-- The sockets under src/peer_net.c. `send` and `recv` belong to the kernel, so they are parameters:
-- a `Kernel` says for every call, by its number, how many bytes pass. Zero stands for a result that
-- is not positive (an error, or the end of the stream). The laws are what the manual pages promise:
-- no call passes more than it was asked for, and `recv` none that has not come in.
pub mod Receiving
pub mod Safety
pub mod Sending
pub mod Endings
use vpnd.Base.{
  ℕ, zero, suc, ◌+◌, ◌-◌, ◌≤◌, ◌<◌, ◌≡◌, Bool, true, false, Option, none, some, List, [], ◌∷◌, ◌++◌,
  if◌then◌else◌, ltb, leb, ◌==◌, length, take, drop, Outcome, ok, fault, stuck, ◌>>=◌,
}

pub record Kernel : Type 0 where
  -- call number, descriptor, bytes offered
  pub send : ℕ → ℕ → ℕ → ℕ
  pub send_le : (i s k : ℕ) → send i s k ≤ k
  -- call number, descriptor, bytes wanted, bytes that have come in or will
  pub recv : ℕ → ℕ → ℕ → ℕ → ℕ
  pub recv_le : (i s k a : ℕ) → recv i s k a ≤ k
  pub recv_le_available : (i s k a : ℕ) → recv i s k a ≤ a

-- The network as one daemon sees it: the calls made so far, what each descriptor has yet to deliver,
-- and what each has accepted.
pub record Net : Type 0 where
  pub calls : ℕ
  pub incoming : ℕ → List ℕ
  pub outgoing : ℕ → List ℕ

abbrev pub update : (ℕ → List ℕ) → ℕ → List ℕ → ℕ → List ℕ
update f s bytes t = if t == s then bytes else f t

-- A descriptor of -1 is `none`: a call on it fails.
unfoldable pub net_send : Kernel → Option ℕ → List ℕ → Net → ℕ × Net
net_send k none bytes w = (0, record w { calls = w.calls + 1 })
net_send k (some s) bytes w =
    let n = k.send w.calls s (length bytes) in
    (
      n,
      record w {
        calls = w.calls + 1;
        outgoing = update w.outgoing s (w.outgoing s ++ take n bytes);
      },
    )

-- The bytes that `recv` puts into the buffer; none for a result that is not positive.
unfoldable pub net_recv : Kernel → Option ℕ → ℕ → Net → List ℕ × Net
net_recv k none want w = ([], record w { calls = w.calls + 1 })
net_recv k (some s) want w =
    let n = k.recv w.calls s want (length (w.incoming s)) in
    (
      take n (w.incoming s),
      record w { calls = w.calls + 1; incoming = update w.incoming s (drop n (w.incoming s)) },
    )

-- A write of `bytes` at `buf + i`; a fault if it leaves the buffer.
unfoldable pub put_at : List ℕ → ℕ → List ℕ → Outcome (List ℕ)
put_at buf i bytes =
    if leb (i + length bytes) (length buf)
    then ok (take i buf ++ (bytes ++ drop (i + length bytes) buf))
    else fault

-- `while (sent < len) { n = send(s, data + sent, len - sent); if (n <= 0) break; sent += n; }`
-- with the bytes that were sent in the end.
unfoldable pub send_loop : Kernel → ℕ → Option ℕ → List ℕ → ℕ → ℕ → Net → Outcome (ℕ × Net)
send_loop k zero s bytes len sent w = stuck
send_loop k (suc fuel) s bytes len sent w =
    let step = net_send k s (take (len - sent) (drop sent bytes)) w in
    let rest = send_loop k fuel s bytes len (sent + step.0) step.1 in
    if ltb sent len then (if step.0 == 0 then ok (sent, step.1) else rest) else ok (sent, w)

-- `while (more) { n = recv(s, buf + base + total, limit - total); if (n <= 0) return -1; total += n; }`
-- with `none` for the return of -1, and the buffer as the loop leaves it.
unfoldable pub recv_loop :
    Kernel
    → (ℕ → Bool)
    → ℕ
    → ℕ
    → ℕ
    → Option ℕ
    → ℕ
    → List ℕ
    → Net
    → Outcome (Option ℕ × List ℕ × Net)
recv_loop k more base limit zero s total buf w = stuck
recv_loop k more base limit (suc fuel) s total buf w =
    let step = net_recv k s (limit - total) w in
    let rest =
      λ (buf' : List ℕ). recv_loop k more base limit fuel s (total + length step.0) buf' step.1 in
    if more total
    then (if length step.0 == 0
        then ok (none, buf, step.1)
        else (put_at buf (base + total) step.0 >>= rest))
    else ok (some total, buf, w)
