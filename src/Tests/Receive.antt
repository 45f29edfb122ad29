-- ===== src/Tests/Receive.antt =====
-- `receiveData` at a message and the beginning of the next.
use svisual.Prelude.{◌≡◌, refl, ◌++◌, [], ◌∷◌, true, some, arith}
use svisual.Prelude.Bytes.{encode32, encode_words}
use svisual.Server.Config.{cycle_save_ms}
use svisual.Server.Scan.Stream.{stream}
use svisual.Server.Buffer.Queue.{IsValid, IsIdle, contents}
use svisual.Server.Receive.{Server, receive_data, all_decoded, receive_data-stream}
use svisual.Tests.Scan.{started, started-Pending}
use svisual.Tests.Buffer.{two_values, small_ring, small_ring-IsValid, message}

abbrev pub running : Server
running = record { is_running = true; cng = two_values; ring = small_ring; has_thread = true }

receive_data-stream_example :
    (s : Server) × (receive_data 5000 (stream (message ∷ []) ++ started) running
      ≡ some (s, started))
    × (s.is_running ≡ true)
    × IsValid s.ring
    × IsIdle s.ring
    × (contents s.ring
        ≡ contents small_ring
          ++ all_decoded (cycle_save_ms two_values) 5000 (message ∷ []) small_ring)
unfolding encode32 encode_words
receive_data-stream_example =
    receive_data-stream 5000 (message ∷ []) started running refl (omega arith) started-Pending
      small_ring-IsValid refl (omega arith)
