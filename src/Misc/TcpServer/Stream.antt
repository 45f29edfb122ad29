-- ===== src/Misc/TcpServer/Stream.antt =====
-- What comes through the TCP server to `receiveData`, and what goes back to a client
-- (src/SVMisc/src/tcp_server.cpp with src/SVServer/src/server.cpp and src/SVMisc/src/tcp_client.cpp).
use svisual.Prelude.{
  Bool, ℕ, ◌+◌, ◌≤◌, ◌<◌, ◌≡◌, ap, ◌∙◌, List, [], ◌∷◌, ◌++◌, true, false, Option, none, some,
  length, arith, All,
}
use svisual.Prelude.Bytes.{Bytes, NoZero}
use svisual.Misc.TcpServer.{Conn, chunk, on_read, is_empty}
use svisual.Misc.TcpClient.{Sent, Received, Client, send_data}
use svisual.Misc.TcpClient.Laws.{room_of}
use svisual.Misc.TcpClient.Answer.{IsOpen, bytes_of, send_data_lem}
use svisual.Server.Receive.{Server, receive_data, receive_data-stream, all_taken, all_decoded}
use svisual.Server.Scan.Frames.{IsPayload}
use svisual.Server.Scan.Stream.{stream, Pending}
use svisual.Server.Buffer.Queue.{IsValid, IsIdle, unread, contents}
use svisual.Server.Config.{cycle_save_ms}

-- `receiveData(inout, out)`, which leaves `out` alone.
abbrev pub receive_cback : ℕ → Bytes → Bytes → Server → Option (Server × Bytes × Bytes)
receive_cback now mess out s = elim (receive_data now mess s) [
  | none ↦ none
  | some (s', rest) ↦ some (s', rest, out)
]

-- A read that brings, behind what the connection has kept, whole messages and the beginning of
-- another: their records are appended to the ring, in order, the connection keeps the beginning,
-- and nothing is written back. No begin mark stands in that beginning but its own. The server is
-- running, no other writer is at work, the records find room, and no answer is pending.
pub on_read-stream :
    (now : ℕ) (takes : Bool) (ps : List Bytes) (t bs : Bytes) (c : Conn) (s : Server)
    → c.in_mess ++ bs ≡ stream ps ++ t
    → c.out_mess ≡ []
    → s.is_running ≡ true
    → All IsPayload ps
    → Pending t
    → IsValid s.ring
    → IsIdle s.ring
    → unread s.ring + all_taken s.ring ps < s.ring.buff_sz
    → (s' : Server) × (on_read (some (receive_cback now)) takes (chunk bs) c s
        ≡ some (s', record c { in_mess = t; out_mess = [] }, none))
      × IsValid s'.ring
      × IsIdle s'.ring
      × (contents s'.ring ≡ contents s.ring ++ all_decoded (cycle_save_ms s.cng) now ps s.ring)
unfolding on_read
on_read-stream now takes ps t bs c s e quiet runs ok more v idle room =
    let (s', got, _, v', idle', held) = receive_data-stream now ps t s runs ok more v idle room in
    let called : receive_data now (c.in_mess ++ bs) s ≡ some (s', t) =
      ap (λ m. receive_data now m s) e ∙ got in
    (s', ground (arith, called, quiet), v', idle', held)

-- A client sends a message and waits, the server's callback answers with a text in one read, and
-- what the server writes comes back in any chunks: the client's `sendData` returns and succeeds,
-- its message has gone out whole, and what it has is the text and a zero byte. The system takes the
-- message, and the text is not empty and has no zero byte; that something is written means that the
-- server's system takes it.
pub send_data-on_read {ℓ} :
    {S : Type ℓ} (f : Bytes → Bytes → S → Option (S × Bytes × Bytes)) (takes : Bool)
    (bs rest text w : Bytes) (c c' : Conn) (s s' : S) (sends : List Sent) (recvs : List Received)
    (out : Bytes) (k : ℕ) (client : Client)
    → f (c.in_mess ++ bs) c.out_mess s ≡ some (s', rest, text)
    → is_empty text ≡ false
    → NoZero text
    → on_read (some f) takes (chunk bs) c s ≡ some (s', c', some w)
    → client.socket ≡ some k
    → length bs ≤ room_of sends
    → All IsOpen recvs
    → bytes_of recvs ≡ w
    → (client' : Client) × (send_data sends recvs bs out false false client
        ≡ some (client', text ++ (0 ∷ []), true))
      × (client'.wire ≡ client.wire ++ bs)
      × (client'.socket ≡ some k)
unfolding on_read
send_data-on_read f takes bs rest text w c c' s s' sends recvs out k client called some_text h e
      have room op back =
    let written : w ≡ text ++ (0 ∷ []) = ground (arith, called, some_text) in
    send_data_lem sends recvs bs text out false k client have room op h (back ∙ written)
