-- ===== src/PeerNet/Senders/Finishing.antt =====
-- No caller of `send_data_to_peer` of src/peer_net.c is locked out for good.
use vpnd.Base.{
  ℕ, zero, suc, ◌+◌, ◌-◌, ◌≤◌, ◌<◌, ◌≡◌, refl, subst, inl, inr, Option, none, some, List, [], ◌∷◌,
  ◌++◌, ltb, ◌==◌, length, arith, Bool-cases, ltb→lt, ==-false→neq,
}
use vpnd.Protocol.{frame_header_size}
use vpnd.Socket.{Net}
use vpnd.Daemon.{Env}
use vpnd.PeerNet.Senders.{
  Message, Stage, waiting, in_header, in_payload, unlocking, returned, Senders, at, sends, Turn,
  caller, turn_at, turn, run, at_rest,
}
use vpnd.PeerNet.Senders.Whole.{Whole, SoFar, Stream, at_self}
use vpnd.PeerNet.Senders.Whole.Frames.{run-Whole}

-- `n` turns of caller `i`.
abbrev pub turns : ℕ → ℕ → List Turn
turns i zero = []
turns i (suc n) = caller i ∷ turns i n

-- How many turns the call of a message of `len` bytes takes at most from a stage on.
abbrev pub turns_left : ℕ → Stage → ℕ
turns_left len waiting = len + 9
turns_left len (in_header sent) = (5 - sent) + (len + 3)
turns_left len (in_payload sent) = (len - sent) + 2
turns_left len unlocking = 1
turns_left len returned = 0

-- The caller need not wait, and has not left the mutex locked.
abbrev IsReady : Stage → Option ℕ → Type 0
IsReady waiting o = o ≡ none
IsReady returned o = o ≡ none
IsReady _ o = Unit {0}

-- The caller has returned and the mutex is free.
abbrev pub Gone : ℕ → Senders → Type 0
Gone i st = (st.stage i ≡ returned) × (st.holder ≡ none)

module _ (e : Env) (s : ℕ) (message : ℕ → Message) (i : ℕ) where
  abbrev len : ℕ
  len = (message i).data_len

  -- Nearer to the end than `n` turns.
  record Near (n : ℕ) (st : Senders) : Type 0 where
    at_stage : Stage
    stands : st.stage i ≡ at_stage
    is_ready : IsReady at_stage st.holder
    left : turns_left len at_stage ≤ n

  Near-at :
      (w : Net) (o : Option ℕ) (stage : ℕ → Stage) (x : Stage) (n : ℕ)
      → IsReady x o
      → turns_left len x ≤ n
      → Near n (record { net = w; holder = o; stage = at stage i x })
  Near-at w o stage x n is_ready left = record {
    at_stage = x;
    stands = at_self stage i x;
    is_ready = is_ready;
    left = left;
  }

  sends-Near :
      (st : Senders) (r : ℕ × Net) (refused : Stage) (accepted : ℕ → Stage) (n : ℕ)
      → IsReady refused st.holder
      → ((k : ℕ) → IsReady (accepted k) st.holder)
      → turns_left len refused ≤ n
      → ((k : ℕ) → 0 < k → turns_left len (accepted k) ≤ n)
      → Near n (sends e s message i st r refused accepted)
  sends-Near st (k, w) refused accepted n h h' le le' = elim (Bool-cases (k == 0)) [
    | inl stop ↦ rw stop (Near-at w st.holder st.stage refused n h le)
    | inr go ↦ rw go (
        Near-at w st.holder st.stage (accepted k) n (h' k)
          (le' k (omega (arith, λ (z : k ≡ 0). ==-false→neq k 0 go z))))
  ]

  turn_at-Near :
      (st : Senders) (n : ℕ) (y : Stage)
      → st.stage i ≡ y
      → IsReady y st.holder
      → turns_left len y ≤ suc n
      → Near n (turn_at e s message i y st)
  unfolding turn_at
  turn_at-Near st n waiting at_y free le =
      rw free (Near-at st.net (some i) st.stage (in_header 0) n tt (omega arith))
  turn_at-Near st n (in_header sent) at_y h le = elim (Bool-cases (ltb sent frame_header_size)) [
    | inl go ↦ rw go (
        sends-Near st _ (in_payload 0) (λ k. in_header (sent + k)) n tt (λ k. tt)
          (omega (arith, ltb→lt sent 5 go)) (λ k pos. omega (arith, ltb→lt sent 5 go)))
    | inr stop ↦ rw stop (Near-at st.net st.holder st.stage (in_payload 0) n tt (omega arith))
  ]
  turn_at-Near st n (in_payload sent) at_y h le = elim (Bool-cases (ltb sent len)) [
    | inl go ↦ rw go (
        sends-Near st _ unlocking (λ k. in_payload (sent + k)) n tt (λ k. tt) (omega arith)
          (λ k pos. omega (arith, ltb→lt sent len go)))
    | inr stop ↦ rw stop (Near-at st.net st.holder st.stage unlocking n tt (omega arith))
  ]
  turn_at-Near st n unlocking at_y h le = Near-at st.net none st.stage returned n refl (omega arith)
  turn_at-Near st n returned at_y h le = record {
    at_stage = returned;
    stands = at_y;
    is_ready = h;
    left = omega arith;
  }

  turns-Gone : (n : ℕ) (st : Senders) → Near n st → Gone i (run e s message (turns i n) st)
  unfolding run turn
  turns-Gone zero st h = at_end h.at_stage h.stands h.is_ready h.left
    where
      at_end : (y : Stage) → st.stage i ≡ y → IsReady y st.holder → turns_left len y ≤ 0 → Gone i st
      at_end waiting at_y ready le = absurd (omega arith)
      at_end (in_header k) at_y ready le = absurd (omega arith)
      at_end (in_payload k) at_y ready le = absurd (omega arith)
      at_end unlocking at_y ready le = absurd (omega arith)
      at_end returned at_y ready le = (at_y, ready)
  turns-Gone (suc n) st h =
      turns-Gone n (turn_at e s message i (st.stage i) st)
        (rw h.stands (turn_at-Near st n h.at_stage h.stands h.is_ready h.left))

  IsReady-free : (y : Stage) (o : Option ℕ) → o ≡ none → IsReady y o
  IsReady-free waiting o h = h
  IsReady-free (in_header k) o h = tt
  IsReady-free (in_payload k) o h = tt
  IsReady-free unlocking o h = tt
  IsReady-free returned o h = h

  turns_left-le : (y : Stage) → turns_left len y ≤ len + 9
  turns_left-le waiting = omega arith
  turns_left-le (in_header k) = omega arith
  turns_left-le (in_payload k) = omega arith
  turns_left-le unlocking = omega arith
  turns_left-le returned = omega arith

  pub ready-Gone :
      (st : Senders)
      → IsReady (st.stage i) st.holder
      → Gone i (run e s message (turns i (len + 9)) st)
  ready-Gone st h = turns-Gone (len + 9) st (record {
    at_stage = st.stage i;
    stands = refl;
    is_ready = h;
    left = turns_left-le (st.stage i);
  })

  pub free-Gone :
      (st : Senders) → st.holder ≡ none → Gone i (run e s message (turns i (len + 9)) st)
  free-Gone st free = ready-Gone st (IsReady-free (st.stage i) st.holder free)

-- The turns that let caller `i` finish: first those of the holder of the mutex.
abbrev pub finishing : (ℕ → Message) → ℕ → Option ℕ → List Turn
finishing message i none = turns i ((message i).data_len + 9)
finishing message i (some j) =
    turns j ((message j).data_len + 9) ++ turns i ((message i).data_len + 9)

module _ (e : Env) (s : ℕ) (message : ℕ → Message)
    (room : (i : ℕ) → (message i).data_len ≤ length (message i).bytes) where
  run-append :
      (ts us : List Turn) (st : Senders)
      → run e s message (ts ++ us) st ≡ run e s message us (run e s message ts st)
  unfolding run
  run-append [] us st = refl
  run-append (t ∷ ts) us st = run-append ts us (turn e s message t st)

  holder-IsReady :
      (start : List ℕ) (st : Senders) (j : ℕ)
      → Whole e s message start st
      → st.holder ≡ some j
      → IsReady (st.stage j) st.holder
  holder-IsReady start st j h held = by_stage (st.stage j) refl
    where
      not_outside :
          (y : Stage)
          → st.stage j ≡ y
          → SoFar e s message j y
              (subst
                (λ (o : Option ℕ). Stream e s message start h.pieces o (st.net.outgoing s) st.stage)
                held
                h.stream).0
      not_outside y at_y =
          let stream =
            subst
              (λ (o : Option ℕ). Stream e s message start h.pieces o (st.net.outgoing s) st.stage)
              held h.stream in
          subst (λ (z : Stage). SoFar e s message j z stream.0) at_y stream.2

      by_stage : (y : Stage) → st.stage j ≡ y → IsReady y st.holder
      by_stage waiting at_y = absurd (not_outside waiting at_y)
      by_stage (in_header k) at_y = tt
      by_stage (in_payload k) at_y = tt
      by_stage unlocking at_y = tt
      by_stage returned at_y = absurd (not_outside returned at_y)

  -- Whatever the schedule was, whatever the other threads did to the rest of the network, and whatever
  -- the kernel takes or refuses: every caller can still finish. The turns of the holder of the mutex,
  -- if there is one, and then those of the caller, at most nine more than its payload has bytes, let it
  -- return, and the mutex is free.
  pub callers_finish :
      (ts : List Turn) (w : Net) (i : ℕ)
      → let st = run e s message ts (at_rest w) in
        Gone i (run e s message (finishing message i st.holder) st)
  callers_finish ts w i = by_holder (run e s message ts (at_rest w)).holder refl
    where
      by_holder :
          (o : Option ℕ)
          → (run e s message ts (at_rest w)).holder ≡ o
          → Gone i (run e s message (finishing message i o) (run e s message ts (at_rest w)))
      by_holder none free = free-Gone e s message i _ free
      by_holder (some j) held = rw run-append (
          free-Gone e s message i _
            (ready-Gone e s message j _
              (holder-IsReady (w.outgoing s) _ j (run-Whole e s message room ts w) held)).1)
