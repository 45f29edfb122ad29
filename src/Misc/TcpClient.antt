-- ===== src/Misc/TcpClient.antt =====
-- The blocking TCP client (src/SVMisc/src/tcp_client.cpp), as it is built for POSIX systems. What the
-- system's calls return is an argument, one result for each call: a run that has no result left
-- waits in that call for ever, which is `none`.
pub mod Laws
pub mod Answer
use svisual.Prelude.{
  ℕ, zero, suc, ◌+◌, ◌-◌, List, [], ◌∷◌, ◌++◌, Bool, true, false, Option, none, some, if◌then◌else◌,
  ltb, ◌==◌, length, take, drop, min,
}
use svisual.Prelude.Bytes.{Bytes}

-- `send`: it takes at most what it has room for, is interrupted (`EINTR`), or fails.
pub data Sent : Type 0 where
  room : ℕ → Sent
  interrupted : Sent
  failed : Sent

-- `recv`: the first byte and the others of what came (no more than the buffer holds), nothing yet
-- (`EAGAIN`), or the end of the connection or an error.
pub data Received : Type 0 where
  came : ℕ → Bytes → Received
  again : Received
  ended : Received

-- The file-scope `_socket`, which is -1 at `none`, the descriptors of this process that are open
-- for it, and what has gone out through it.
pub record Client : Type 0 where
  pub socket : Option ℕ
  pub opened : List ℕ
  pub wire : Bytes

abbrev pub remove : ℕ → List ℕ → List ℕ
remove k [] = []
remove k (j ∷ js) = if j == k then js else j ∷ remove k js

-- `closeSocket`
unfoldable pub close_socket : Client → Client
close_socket c = elim c.socket [
  | none ↦ c
  | some s ↦ record c { socket = none; opened = remove s c.opened }
]

-- What `socket`, `inet_aton` and `connect` return: the descriptor, and whether the others succeed.
pub record Dial : Type 0 where
  pub descriptor : Option ℕ
  pub is_address : Bool
  pub is_accepted : Bool

-- `connect`
unfoldable pub connect : Dial → Client → Client × Bool
connect d c =
    let c0 = close_socket c in
    elim d.descriptor [
      | none ↦ (record c0 { socket = none }, false)
      | some s ↦
          let c1 : Client = record c0 { socket = some s; opened = s ∷ c0.opened; wire = [] } in
          if d.is_address
          then if d.is_accepted then (c1, true) else (close_socket c1, false)
          else (close_socket c1, false)
    ]

-- `disconnect`
unfoldable pub disconnect : Client → Client × Bool
disconnect c = (close_socket c, true)

-- The loop of `sendAll` from `total` on, with what has gone out: whether it returns `total`, and
-- what has gone out then.
unfoldable pub send_all : List Sent → Bytes → ℕ → Bytes → Option (Bool × Bytes)
send_all [] mess total wire = if ltb total (length mess) then none else some (true, wire)
send_all (room n ∷ rs) mess total wire =
    let n' = min n (length mess - total) in
    let rest = send_all rs mess (total + n') (wire ++ take n' (drop total mess)) in
    if ltb total (length mess) then rest else some (true, wire)
send_all (interrupted ∷ rs) mess total wire =
    let rest = send_all rs mess total wire in
    if ltb total (length mess) then rest else some (true, wire)
send_all (failed ∷ rs) mess total wire =
    if ltb total (length mess) then some (false, wire) else some (true, wire)

-- The last byte of a chunk that begins with `b`.
abbrev pub chunk_end : ℕ → Bytes → ℕ
chunk_end b [] = b
chunk_end b (c ∷ cs) = chunk_end c cs

-- The loop of `sendData` over `recv`: what `out` becomes, and the results that are left.
unfoldable pub recv_loop : List Received → Bytes → Option (Bytes × List Received)
recv_loop [] out = none
recv_loop (came b bs ∷ rs) out =
    let rest = recv_loop rs (out ++ b ∷ bs) in
    if chunk_end b bs == 0 then some (out ++ b ∷ bs, rs) else rest
recv_loop (again ∷ rs) out = recv_loop rs out
recv_loop (ended ∷ rs) out = some (out, rs)

-- `sendData`: the client, what `out` becomes, and whether it succeeds.
unfoldable pub send_data :
    List Sent
    → List Received
    → Bytes
    → Bytes
    → Bool
    → Bool
    → Client
    → Option (Client × Bytes × Bool)
send_data sends recvs mess out disconn only_send c = elim c.socket [
  | none ↦ some (c, out, false)
  | some s ↦ elim (send_all sends mess 0 c.wire) [
    | none ↦ none
    | some (false, w) ↦ some (close_socket (record c { wire = w }), out, false)
    | some (true, w) ↦
        let c1 : Client = record c { wire = w } in
        let c2 = if disconn then close_socket c1 else c1 in
        if only_send
        then some (c2, out, true)
        else elim (recv_loop recvs []) [ none ↦ none | some (out', _) ↦ some (c2, out', true) ]
  ]
]
