-- ===== src/Tests/Tcp.antt =====
-- The TCP client and server: a message that goes out in two pieces, an answer that comes in three,
-- and a server that is started, stopped and started again.
use svisual.Prelude.{
  ◌++◌, ◌≡◌, refl, List, [], ◌∷◌, true, false, Option, none, some, ℕ, take, drop, take-append-drop,
  ◌+◌, arith,
}
use svisual.Prelude.Bytes.{Bytes, codes, encode32, encode_words}
use svisual.Misc.TcpClient.{Sent, room, interrupted, Received, came, again, Client, Dial, send_data}
use svisual.Misc.TcpServer.{
  Server, new_server, Calls, busy, start, stop, Conn, new_conn, chunk, on_read,
}
use svisual.Misc.TcpServer.Laws.{IsSettled, succeeds, start-stop}
use svisual.Misc.TcpServer.Stream.{receive_cback, on_read-stream, send_data-on_read}
use svisual.Server.Config.{cycle_save_ms}
use svisual.Server.Scan.Stream.{stream}
use svisual.Server.Buffer.Queue.{IsValid, IsIdle, contents}
use svisual.Server.Receive as Receive
use svisual.Server.Receive.{all_decoded}
use svisual.Tests.Scan.{started, started-Pending}
use svisual.Tests.Buffer.{two_values, small_ring, small_ring-IsValid, message}
use svisual.Tests.Receive.{running}

abbrev held_client : Client
held_client = record { socket = some 5; opened = 5 ∷ []; wire = [] }

abbrev request : Bytes
request = codes "value"

abbrev sends : List Sent
sends = room 2 ∷ interrupted ∷ room 9 ∷ []

abbrev recvs : List Received
recvs = again ∷ came 49 (50 ∷ []) ∷ came 51 [] ∷ again ∷ came 52 (0 ∷ []) ∷ []

abbrev refused : Dial
refused = record { descriptor = some 7; is_address = true; is_accepted = false }

abbrev all_good : Calls
all_good = record {
  stop0 = false;
  loop_init = 0;
  stop1 = false;
  async_init = 0;
  stop2 = false;
  tcp_init = 0;
  keepalive = 0;
  ip4_addr = 0;
  bind = 0;
  listen = 0;
  stop3 = false;
  loop_close = busy ∷ 0 ∷ [];
}

abbrev serving : Server
serving = record new_server {
  has_loop = true;
  stop_inited = true;
  joinable = true;
  listen_ready = true;
}

serving-IsSettled : IsSettled serving
serving-IsSettled = record { stoppable = refl; healthy = λ _. refl; alive = λ _. refl }

start-stop_example :
    (s' : Server) × (start true all_good (stop all_good serving) ≡ some (s', succeeds all_good))
    × IsSettled s'
    × (s'.has_loop ≡ succeeds all_good)
start-stop_example =
    start-stop all_good all_good serving 1 [] serving-IsSettled refl refl (omega arith)

-- The connection has kept the first bytes of the message.
abbrev whole : Bytes
whole = stream (message ∷ []) ++ started

abbrev conn : Conn
conn = record new_conn { in_mess = take 10 whole }

on_read-stream_example :
    (s : Receive.Server) × (on_read
        (some (receive_cback 5000))
        true
        (chunk (drop 10 whole))
        conn
        running
      ≡ some (s, record conn { in_mess = started; out_mess = [] }, none))
    × IsValid s.ring
    × IsIdle s.ring
    × (contents s.ring
        ≡ contents small_ring
          ++ all_decoded (cycle_save_ms two_values) 5000 (message ∷ []) small_ring)
unfolding stream encode32 encode_words
on_read-stream_example =
    on_read-stream 5000 true (message ∷ []) started (drop 10 whole) conn running
      (take-append-drop 10 whole) refl refl (omega arith) started-Pending small_ring-IsValid refl
      (omega arith)

-- A callback that answers every message with "1234" and counts them.
abbrev answers : Bytes → Bytes → ℕ → Option (ℕ × Bytes × Bytes)
answers mess out n = some (n + 1, [], codes "1234")

send_data-on_read_example :
    (c : Client) × (send_data sends recvs request [] false false held_client
      ≡ some (c, codes "1234" ++ (0 ∷ []), true))
    × (c.wire ≡ request)
    × (c.socket ≡ some 5)
unfolding on_read
send_data-on_read_example =
    send_data-on_read answers true request [] (codes "1234") (codes "1234" ++ (0 ∷ [])) new_conn
      new_conn 0 1 sends recvs [] 5 held_client refl refl (omega arith) refl refl (omega arith)
      (omega arith) refl
