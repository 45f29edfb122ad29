-- ===== src/Server/Receive.antt =====
-- The server's face to the network (src/SVServer/src/server.cpp): `startServer`, `stopServer` and
-- `receiveData`, which cuts the messages out of what has come in and appends them to the ring.
use svisual.Prelude.{
  ℕ, sym, ◌+◌, ◌-◌, ◌*◌, ◌%◌, ◌^◌, ◌<◌, ◌≡◌, refl, ap, ◌∙◌, List, [], ◌∷◌, ◌++◌, Bool, true, false,
  Option, none, some, if◌then◌else◌, length, append-nil, append_assoc, All, arith,
}
use svisual.Prelude.Bytes.{Bytes}
use svisual.Prelude.Rings.{wrap}
use svisual.Server.Config.{Config, cycle_save_ms}
use svisual.Server.Scan.{cut}
use svisual.Server.Scan.Frames.{IsPayload}
use svisual.Server.Scan.Stream.{stream, Pending, cut-stream}
use svisual.Server.Buffer.{InputData, BufferData, init, update_data_signals}
use svisual.Server.Buffer.Queue.{
  IsValid, IsIdle, unread, contents, taken, decoded, after, update-eq-after, contents-after,
  after-IsValid,
}

-- `m_isRunning`, `cng`, `m_buffData`, and whether `m_pThrUpdSignal` is not null.
pub record Server : Type 0 where
  pub is_running : Bool
  pub cng : Config
  pub ring : BufferData
  pub has_thread : Bool

-- `startServer`; it returns true in both cases.
unfoldable pub start_server : Config → Server → Server
start_server c s =
    if s.has_thread
    then s
    else record { is_running = true; cng = c; ring = init c s.ring; has_thread = true }

-- `stopServer`
unfoldable pub stop_server : Server → Server
stop_server s = record s { is_running = false; has_thread = false }

-- `bTm - (psz - i) * SV_CYCLESAVE_MS` in `uint64_t`, for the `n` messages from this one on.
unfoldable pub message_time : ℕ → ℕ → ℕ → ℕ
message_time cycle b_tm n = (b_tm + 2 ^ 64 - (n * cycle) % 2 ^ 64) % 2 ^ 64

-- The `for` loop over the messages.
unfoldable pub feed : ℕ → ℕ → List Bytes → BufferData → Option BufferData
feed cycle b_tm [] b = some b
feed cycle b_tm (p ∷ ps) b =
    elim (update_data_signals b p (message_time cycle b_tm (length (p ∷ ps)))) [
      | none ↦ none
      | some b' ↦ feed cycle b_tm ps b'
    ]

-- `receiveData` at time `now`: the server, and what `inout` becomes.
unfoldable pub receive_data : ℕ → Bytes → Server → Option (Server × Bytes)
receive_data now inout s =
    if s.is_running
    then elim (cut inout) [
      | none ↦ none
      | some (ps, rest) ↦ elim (feed (cycle_save_ms s.cng) now ps s.ring) [
        | none ↦ none
        | some b ↦ some (record s { ring = b }, rest)
      ]
    ]
    else some (s, inout)

-- How many records the messages bring, and which.
abbrev pub all_taken : BufferData → List Bytes → ℕ
all_taken b [] = 0
all_taken b (p ∷ ps) = taken b p + all_taken b ps

unfoldable pub all_decoded : ℕ → ℕ → List Bytes → BufferData → List InputData
all_decoded cycle b_tm [] b = []
all_decoded cycle b_tm (p ∷ ps) b =
    let t = message_time cycle b_tm (length (p ∷ ps)) in
    decoded b p t ++ all_decoded cycle b_tm ps (after b p t)

-- A message leaves the configuration and the size of the ring alone.
all_taken-after :
    (ps : List Bytes) (b : BufferData) (p : Bytes) (t : ℕ)
    → all_taken (after b p t) ps ≡ all_taken b ps
all_taken-after [] b p t = refl
all_taken-after (q ∷ ps) b p t = ap (λ k. taken b q + k) (all_taken-after ps b p t)

feed_lem :
    (cycle b_tm : ℕ) (ps : List Bytes) (b : BufferData)
    → IsValid b
    → IsIdle b
    → unread b + all_taken b ps < b.buff_sz
    → (b' : BufferData) × (feed cycle b_tm ps b ≡ some b')
      × IsValid b'
      × IsIdle b'
      × (contents b' ≡ contents b ++ all_decoded cycle b_tm ps b)
unfolding feed all_decoded
feed_lem cycle b_tm [] b v idle room = (b, refl, v, idle, sym (append-nil (contents b)))
feed_lem cycle b_tm (p ∷ ps) b v idle room =
    let t = message_time cycle b_tm (length (p ∷ ps)) in
    let (b', e, v', idle', now) =
      feed_lem cycle b_tm ps (after b p t) (after-IsValid b p t v)
        (ap (λ k. wrap b.buff_sz (k + taken b p)) idle) more_room in
    (
      b',
      rw (feed, update-eq-after b p t v idle) e,
      v',
      idle',
      now
          ∙ ap (λ ds. ds ++ all_decoded cycle b_tm ps (after b p t))
              (contents-after b p t v idle (omega arith))
          ∙ append_assoc (contents b) (decoded b p t) (all_decoded cycle b_tm ps (after b p t)),
    )
  where
    more_room :
        unread (after b p (message_time cycle b_tm (length (p ∷ ps))))
          + all_taken (after b p (message_time cycle b_tm (length (p ∷ ps)))) ps
        < b.buff_sz
    more_room = ground (
      arith,
      all_taken-after ps b p (message_time cycle b_tm (length (p ∷ ps))),
      v.read_in,
      v.write_in,
      v.reader_in,
    )

received :
    (now : ℕ) (inout t : Bytes) (ps : List Bytes) (s : Server) (b : BufferData)
    → s.is_running ≡ true
    → cut inout ≡ some (ps, t)
    → feed (cycle_save_ms s.cng) now ps s.ring ≡ some b
    → receive_data now inout s ≡ some (record s { ring = b }, t)
unfolding receive_data
received now inout t ps s b runs messages e = ground arith

-- `receiveData` on any number of whole messages and the beginning of another: the records of all
-- of them are appended to what the reader has still to take, in order, and `inout` keeps the
-- beginning, in which no begin mark stands but its own. The server is running, no other writer is at
-- work, and the records find room.
pub receive_data-stream :
    (now : ℕ) (ps : List Bytes) (t : Bytes) (s : Server)
    → s.is_running ≡ true
    → All IsPayload ps
    → Pending t
    → IsValid s.ring
    → IsIdle s.ring
    → unread s.ring + all_taken s.ring ps < s.ring.buff_sz
    → (s' : Server) × (receive_data now (stream ps ++ t) s ≡ some (s', t))
      × (s'.is_running ≡ true)
      × IsValid s'.ring
      × IsIdle s'.ring
      × (contents s'.ring ≡ contents s.ring ++ all_decoded (cycle_save_ms s.cng) now ps s.ring)
receive_data-stream now ps t s runs ok more v idle room =
    let (b', e, v', idle', held) = feed_lem (cycle_save_ms s.cng) now ps s.ring v idle room in
    (
      record s { ring = b' },
      received now (stream ps ++ t) t ps s b' runs (cut-stream ps t ok more) e,
      runs,
      v',
      idle',
      held,
    )
