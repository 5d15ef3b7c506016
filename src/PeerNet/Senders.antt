-- ===== src/PeerNet/Senders.antt =====
-- Several threads in `send_data_to_peer` of src/peer_net.c for one peer, from `pthread_mutex_lock` to
-- `pthread_mutex_unlock`, one call of `send` at a time. A thread that sends several frames counts as
-- one caller for each. Which caller moves next is a schedule; between its turns the other threads of
-- the daemon may do anything to the network, except write to this peer's stream.
pub mod Whole
pub mod Finishing
pub mod Alone
mod Tests
use vpnd.Base.{ℕ, ◌+◌, ◌-◌, Option, none, some, List, [], ◌∷◌, if◌then◌else◌, ltb, ◌==◌, take, drop}
use vpnd.Protocol.{frame_header_size, encode_frame_header}
use vpnd.Socket.{Net, update, net_send}
use vpnd.Daemon.{Env}
use vpnd.PeerNet.Wire.{blank_header}

-- What a caller sends: `frame_hdr_type`, and `data` and `data_len` as they are behind the encryption.
pub record Message : Type 0 where
  pub frame_hdr_type : ℕ
  pub bytes : List ℕ
  pub data_len : ℕ

-- Where a caller stands: before the lock, in one of the two loops with its `sent`, before the unlock,
-- or behind it.
pub data Stage : Type 0 where
  waiting : Stage
  in_header : ℕ → Stage
  in_payload : ℕ → Stage
  unlocking : Stage
  returned : Stage

-- `holder` is the caller that has `peer->mutex`.
pub record Senders : Type 0 where
  pub net : Net
  pub holder : Option ℕ
  pub stage : ℕ → Stage

abbrev pub at : (ℕ → Stage) → ℕ → Stage → ℕ → Stage
at stage i x j = if j == i then x else stage j

-- A turn of a caller, or what the other threads make of the network.
pub data Turn : Type 0 where
  caller : ℕ → Turn
  elsewhere : Net → Turn

module _ (e : Env) (s : ℕ) (message : ℕ → Message) where
  abbrev pub frame_hdr : ℕ → List ℕ
  frame_hdr i =
      encode_frame_header e.little blank_header (message i).frame_hdr_type (message i).data_len

  abbrev goes_to : ℕ → Stage → Senders → Senders
  goes_to i x st = record { net = st.net; holder = st.holder; stage = at st.stage i x }

  -- Behind one call of `send`: on to `refused` when it sent nothing, to `accepted` otherwise.
  abbrev pub sends : ℕ → Senders → ℕ × Net → Stage → (ℕ → Stage) → Senders
  sends i st (n, w) refused accepted = record {
    net = w;
    holder = st.holder;
    stage = at st.stage i (if n == 0 then refused else accepted n);
  }

  -- One turn of caller `i`, by the stage it is in. A caller that waits for the mutex stays where it is
  -- while another has it.
  unfoldable pub turn_at : ℕ → Stage → Senders → Senders
  turn_at i waiting st = elim st.holder [
    | none ↦ record { net = st.net; holder = some i; stage = at st.stage i (in_header 0) }
    | some j ↦ st
  ]
  turn_at i (in_header sent) st =
      if ltb sent frame_header_size
      then sends i st
          (net_send e.kernel (some s) (take (frame_header_size - sent) (drop sent (frame_hdr i)))
            st.net)
          (in_payload 0) (λ n. in_header (sent + n))
      else goes_to i (in_payload 0) st
  turn_at i (in_payload sent) st =
      if ltb sent (message i).data_len
      then sends i st
          (net_send e.kernel (some s)
            (take ((message i).data_len - sent) (drop sent (message i).bytes)) st.net)
          unlocking (λ n. in_payload (sent + n))
      else goes_to i unlocking st
  turn_at i unlocking st = record { net = st.net; holder = none; stage = at st.stage i returned }
  turn_at i returned st = st

  unfoldable pub turn : Turn → Senders → Senders
  turn (caller i) st = turn_at i (st.stage i) st
  turn (elsewhere w) st = record {
    net = record w { outgoing = update w.outgoing s (st.net.outgoing s) };
    holder = st.holder;
    stage = st.stage;
  }

  unfoldable pub run : List Turn → Senders → Senders
  run [] st = st
  run (t ∷ ts) st = run ts (turn t st)

-- Nobody has called yet.
abbrev pub at_rest : Net → Senders
at_rest w = record { net = w; holder = none; stage = λ i. waiting }
