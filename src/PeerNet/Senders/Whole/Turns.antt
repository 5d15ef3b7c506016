-- ===== src/PeerNet/Senders/Whole/Turns.antt =====
-- One turn of a caller of `send_data_to_peer` of src/peer_net.c, by the stage that it is in.
use vpnd.Base.{
  ℕ, ◌+◌, ◌-◌, ◌≤◌, ◌<◌, ◌≡◌, refl, sym, ap, ◌∙◌, subst, inl, inr, true, false, Option, none, some,
  List, [], ◌∷◌, ◌++◌, ltb, ◌==◌, length, take, drop, arith, Bool-cases, ltb→lt, ltb_false→le,
  ==→eq, take-add,
}
use mathlib.Core.List.{append_assoc, append-nil}
use vpnd.Protocol.{frame_header_size}
use vpnd.Protocol.RoundTrip.{length_bytes, length-length_bytes, encode_frame_header-bytes}
use vpnd.Socket.{net_send}
use vpnd.Socket.Sending.{Accepts, Passed, net_send-Passed}
use vpnd.Daemon.{Env}
use vpnd.PeerNet.Wire.{blank_header}
use vpnd.PeerNet.Senders.{
  Message, Stage, waiting, in_header, in_payload, unlocking, returned, Senders, at, frame_hdr,
  sends, turn_at,
}
use vpnd.PeerNet.Senders.Whole.{
  Piece, times, finished, IsOutside, piece_bytes, pieces_bytes, SoFar, Stream, Whole, Inside,
  inside, Whole-moved, at_self, at_once, at_others,
}

take-more :
    (sent n : ℕ) (bytes : List ℕ)
    → take sent bytes ++ take n (drop sent bytes) ≡ take (sent + n) bytes
take-more sent n bytes = sym (take-add sent n bytes)

-- Appending behind what stood there.
stands-more :
    (start ps part more out out' : List ℕ)
    → out ≡ start ++ (ps ++ part)
    → out' ≡ out ++ more
    → out' ≡ start ++ (ps ++ (part ++ more))
stands-more start ps part more out out' h k =
    k
    ∙ ap (λ (b : List ℕ). b ++ more) h
    ∙ append_assoc start (ps ++ part) more
    ∙ ap (◌++◌ start) (append_assoc ps part more)

module _ (e : Env) (s : ℕ) (message : ℕ → Message)
    (room : (i : ℕ) → (message i).data_len ≤ length (message i).bytes) where
  pub length-frame_hdr : (i : ℕ) → length (frame_hdr e s message i) ≡ 5
  length-frame_hdr i =
      rw
        (
          encode_frame_header-bytes e.little blank_header (message i).frame_hdr_type
              (message i).data_len (omega arith),
          append-nil (length_bytes e.little (message i).data_len),
        )
        (omega (arith, length-length_bytes e.little (message i).data_len))

  module _ (start : List ℕ) (st : Senders) (i : ℕ) (h : Whole e s message start st) where
    abbrev Inner : Type 0
    Inner = Inside e s message start h.pieces i st.holder (st.net.outgoing s) st.stage

    abbrev Kept : Senders → Type 0
    Kept = Whole e s message start

    inner : (y : Stage) → st.stage i ≡ y → ¬ IsOutside y → Inner
    inner y at_y active =
        inside e s message start h.pieces i st.holder (st.net.outgoing s) st.stage
          (subst (λ (z : Stage). ¬ IsOutside z) (sym at_y) active) h.stream

    module _ (y : Stage) (at_y : st.stage i ≡ y) (k : Inner) (running : finished y ≡ 0) where
      -- No more is sent.
      moved_on :
          (x : Stage) (part : List ℕ)
          → k.part ≡ part
          → finished x ≡ 0
          → SoFar e s message i x part
          → Kept (record { net = st.net; holder = st.holder; stage = at st.stage i x })
      moved_on x part eq unfinished so_far =
          Whole-moved e s message start st i x st.net part h k
            (unfinished ∙ sym running ∙ ap finished (sym at_y)) so_far
            (k.stands ∙ ap (λ (b : List ℕ). start ++ (pieces_bytes e s message h.pieces ++ b)) eq)

      -- One call of `send`.
      sent_on :
          (before bytes : List ℕ) (want sent : ℕ) (refused : Stage) (accepted : ℕ → Stage)
          → sent + want ≤ length bytes
          → 0 < want
          → k.part ≡ before ++ take sent bytes
          → finished refused ≡ 0
          → ((n : ℕ) → finished (accepted n) ≡ 0)
          → (¬ Accepts e.kernel → SoFar e s message i refused (before ++ take sent bytes))
          → ((n : ℕ)
              → n ≤ want
              → SoFar e s message i (accepted n) (before ++ take (sent + n) bytes))
          → Kept (
              sends e s message i st
                (net_send e.kernel (some s) (take want (drop sent bytes)) st.net)
                refused
                accepted)
      sent_on before bytes want sent refused accepted fits more eq unfinished goes_on stops passes =
          let (n, w) = net_send e.kernel (some s) (take want (drop sent bytes)) st.net in
          let p : Passed e.kernel s bytes want sent st.net n w =
            net_send-Passed e.kernel s bytes want sent st.net fits in
          let stands : w.outgoing s
              ≡ start ++ (pieces_bytes e s message h.pieces ++ (before ++ take (sent + n) bytes)) =
            stands-more start (pieces_bytes e s message h.pieces) k.part (take n (drop sent bytes))
              (st.net.outgoing s) (w.outgoing s) k.stands p.wire
            ∙ ap (λ (b : List ℕ). start ++ (pieces_bytes e s message h.pieces ++ b))
                (ap (λ (b : List ℕ). b ++ take n (drop sent bytes)) eq
                  ∙ append_assoc before (take sent bytes) (take n (drop sent bytes))
                  ∙ ap (◌++◌ before) (take-more sent n bytes)) in
          elim (Bool-cases (n == 0)) [
            | inr taken ↦ rw taken (
                Whole-moved e s message start st i (accepted n) w (before ++ take (sent + n) bytes)
                  h k (goes_on n ∙ sym running ∙ ap finished (sym at_y)) (passes n p.within) stands)
            | inl none_sent ↦ rw none_sent (
                Whole-moved e s message start st i refused w (before ++ take sent bytes) h k
                  (unfinished ∙ sym running ∙ ap finished (sym at_y))
                  (stops (λ a. omega (arith, p.positive a more, ==→eq n 0 none_sent)))
                  (stands
                    ∙ ap
                        (λ (m : ℕ).
                          start ++ (pieces_bytes e s message h.pieces ++ (before ++ take m bytes)))
                        (omega (arith, ==→eq n 0 none_sent))))
          ]

    pub header-Whole :
        (sent : ℕ) → st.stage i ≡ in_header sent → Kept (turn_at e s message i (in_header sent) st)
    unfolding turn_at
    header-Whole sent at_y =
        let k : Inner = inner (in_header sent) at_y (λ z. z) in
        let so_far = subst (λ (z : Stage). SoFar e s message i z k.part) at_y k.so_far in
        let hdr : List ℕ = frame_hdr e s message i in
        elim (Bool-cases (ltb sent frame_header_size)) [
          | inr stop ↦ rw stop (
              moved_on (in_header sent) at_y k refl (in_payload 0) (take sent hdr ++ [])
                (so_far.1 ∙ sym (append-nil (take sent hdr))) refl
                (
                  sent,
                  so_far.0,
                  λ a. omega (arith, so_far.0, ltb_false→le sent 5 stop),
                  omega arith,
                  refl,
                ))
          | inl go ↦ rw go (
              sent_on (in_header sent) at_y k refl [] hdr (5 - sent) sent (in_payload 0)
                (λ n. in_header (sent + n)) (omega (arith, length-frame_hdr i, so_far.0))
                (omega (arith, ltb→lt sent 5 go)) so_far.1 refl (λ n. refl)
                (λ refuses. (
                  sent,
                  so_far.0,
                  λ a. absurd (refuses a),
                  omega arith,
                  sym (append-nil (take sent hdr)),
                ))
                (λ n le. (omega (arith, so_far.0), refl)))
        ]

    pub payload-Whole :
        (sent : ℕ)
        → st.stage i ≡ in_payload sent
        → Kept (turn_at e s message i (in_payload sent) st)
    unfolding turn_at
    payload-Whole sent at_y =
        let k : Inner = inner (in_payload sent) at_y (λ z. z) in
        let (a, le, whole, sent_le, eq) =
          subst (λ (z : Stage). SoFar e s message i z k.part) at_y k.so_far in
        let len : ℕ = (message i).data_len in
        let piece : Piece = record { by = i; of_header = a; of_payload = sent } in
        elim (Bool-cases (ltb sent len)) [
          | inr stop ↦ rw stop (
              moved_on (in_payload sent) at_y k refl unlocking (piece_bytes e s message piece) eq
                refl
                (
                  piece,
                  refl,
                  record {
                    header_le = le;
                    payload_le = sent_le;
                    header_whole = whole;
                    payload_whole = λ c. omega (arith, ltb_false→le sent len stop);
                  },
                  refl,
                ))
          | inl go ↦ rw go (
              sent_on (in_payload sent) at_y k refl (take a (frame_hdr e s message i))
                (message i).bytes (len - sent) sent unlocking (λ n. in_payload (sent + n))
                (omega (arith, room i, sent_le)) (omega (arith, ltb→lt sent len go)) eq refl
                (λ n. refl)
                (λ refuses. (
                  piece,
                  refl,
                  record {
                    header_le = le;
                    payload_le = sent_le;
                    header_whole = whole;
                    payload_whole = λ c. absurd (refuses c);
                  },
                  refl,
                ))
                (λ n small. (a, le, whole, omega (arith, sent_le), refl)))
        ]

    pub unlocking-Whole : st.stage i ≡ unlocking → Kept (turn_at e s message i unlocking st)
    unfolding turn_at
    unlocking-Whole at_y =
        let k : Inner = inner unlocking at_y (λ z. z) in
        let (p, mine, fits, eq) =
          subst (λ (z : Stage). SoFar e s message i z k.part) at_y k.so_far in
        record {
          pieces = p ∷ h.pieces;
          fits = (fits, h.fits);
          once = λ j. one_more p mine j;
          stream = (
            k.stands ∙ ap (λ (b : List ℕ). start ++ (pieces_bytes e s message h.pieces ++ b)) eq,
            λ j. outside k j,
          );
        }
      where
        one_more :
            (p : Piece)
            → p.by ≡ i
            → (j : ℕ) → times j (p ∷ h.pieces) ≡ finished (at st.stage i returned j)
        one_more p mine j = rw mine (elim (Bool-cases (j == i)) [
          | inl same ↦
              let e : j ≡ i = ==→eq j i same in
              let before : times j h.pieces ≡ 0 =
                h.once j ∙ ap (λ (m : ℕ). finished (st.stage m)) e ∙ ap finished at_y in
              let turned : (i == j) ≡ true = ground (arith, e) in
              rw (same, turned) (omega (arith, before))
          | inr other ↦
              let turned : (i == j) ≡ false = ground (arith, other) in
              rw (other, turned) (omega (arith, h.once j))
        ])

        outside : Inner → (j : ℕ) → IsOutside (at st.stage i returned j)
        outside k j = elim (Bool-cases (j == i)) [
          | inl same ↦ rw same tt
          | inr other ↦ rw other (k.others j other)
        ]

    pub waiting-Whole : st.stage i ≡ waiting → Kept (turn_at e s message i waiting st)
    unfolding turn_at
    waiting-Whole at_y = by_holder st.holder refl
      where
        by_holder :
            (o : Option ℕ)
            → st.holder ≡ o
            → Kept (elim o [
              | none ↦ record { net = st.net; holder = some i; stage = at st.stage i (in_header 0) }
              | some j ↦ st
            ])
        by_holder (some j) held = h
        by_holder none free =
            let stream =
              subst
                (λ (o : Option ℕ). Stream e s message start h.pieces o (st.net.outgoing s) st.stage)
                free h.stream in
            record {
              pieces = h.pieces;
              fits = h.fits;
              once = at_once h.pieces st.stage i (in_header 0) (sym (ap finished at_y)) h.once;
              stream = (
                [],
                stream.0 ∙ ap (◌++◌ start) (sym (append-nil (pieces_bytes e s message h.pieces))),
                subst (λ (y : Stage). SoFar e s message i y [])
                    (sym (at_self st.stage i (in_header 0))) (omega arith, refl),
                at_others st.stage i (in_header 0) (λ j other. stream.1 j),
              );
            }
