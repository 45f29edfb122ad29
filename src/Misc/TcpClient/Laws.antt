-- ===== src/Misc/TcpClient/Laws.antt =====
-- What the client sends is the message or a beginning of it, the answer is read up to its end, and
-- no descriptor is left open (src/SVMisc/src/tcp_client.cpp).
use svisual.Prelude.{
  ℕ, ◌+◌, ◌-◌, ◌≤◌, ◌≡◌, refl, sym, ap, ◌∙◌, inl, inr, List, [], ◌∷◌, ◌++◌, Bool, true, false,
  Option, none, some, ltb, length, take, drop, min, arith, Bool-cases, Option-cases, drop_all,
  take-append-drop, take-append-take, drop-drop, append_assoc, append-nil,
}
use svisual.Prelude.Bytes.{Bytes}
use svisual.Misc.TcpClient.{
  Sent, room, interrupted, failed, Received, Client, remove, close_socket, Dial, connect, send_all,
  send_data,
}

abbrev pub is_some : {A : Type 0} → Option A → Bool
is_some none = false
is_some (some a) = true

-- Only the socket that is held is open.
abbrev pub held : Option ℕ → List ℕ
held none = []
held (some s) = s ∷ []

abbrev pub NoLeak : Client → Type 0
NoLeak c = c.opened ≡ held c.socket

pub close_socket_lem :
    (c : Client)
    → NoLeak c
    → ((close_socket c).socket ≡ none)
      × ((close_socket c).opened ≡ [])
      × ((close_socket c).wire ≡ c.wire)
unfolding close_socket
close_socket_lem c h = elim (Option-cases c.socket) [
  | inl free ↦ rw (free, close_socket) (free, h ∙ ap held free, refl)
  | inr (s, taken) ↦
      rw (taken, close_socket) (refl, ap (remove s) (h ∙ ap held taken) ∙ ground arith, refl)
]

close_socket-NoLeak : (c : Client) → NoLeak c → NoLeak (close_socket c)
close_socket-NoLeak c h = let (free, gone, _) = close_socket_lem c h in gone ∙ sym (ap held free)

-- However the calls of the system end, connecting leaves no socket open but the one that is held,
-- and it holds one exactly if it succeeds.
pub connect-NoLeak :
    (d : Dial) (c : Client)
    → NoLeak c
    → NoLeak (connect d c).0 × ((connect d c).1 ≡ is_some (connect d c).0.socket)
unfolding connect
connect-NoLeak d c h = elim (Option-cases d.descriptor) [
  | inl refused ↦ rw (refused, connect) ((close_socket_lem c h).1, refl)
  | inr (s, given) ↦
      let c1 : Client = record (close_socket c) {
        socket = some s;
        opened = s ∷ (close_socket c).opened;
        wire = [];
      } in
      let one : NoLeak c1 = ap (λ o. s ∷ o) (close_socket_lem c h).1 in
      rw (given, connect)
        (
          ground (arith, one, close_socket-NoLeak c1 one, close_socket_lem c1 one),
          ground (arith, close_socket_lem c1 one),
        )
]

-- Sending leaves no socket open but the one that is held, also where it fails or disconnects.
pub send_data-NoLeak :
    (sends : List Sent) (recvs : List Received) (mess out : Bytes) (disconn only_send : Bool)
    (c c' : Client) (out' : Bytes) (done : Bool)
    → NoLeak c
    → send_data sends recvs mess out disconn only_send c ≡ some (c', out', done)
    → NoLeak c'
unfolding send_data
send_data-NoLeak sends recvs mess out disconn only_send c c' out' done h e =
    elim (Option-cases c.socket) [
      | inl free ↦ ground (arith, free)
      | inr (s, have) ↦ elim (Option-cases (send_all sends mess 0 c.wire)) [
        | inl waits ↦ ground (arith, have, waits)
        | inr ((ok, w), sent) ↦
            ground (arith, have, sent, close_socket-NoLeak (record c { wire = w }) h)
      ]
    ]

-- What the system can take before a call fails.
abbrev pub room_of : List Sent → ℕ
room_of [] = 0
room_of (room n ∷ rs) = n + room_of rs
room_of (interrupted ∷ rs) = room_of rs
room_of (failed ∷ rs) = 0

-- With room for the message, `sendAll` returns, and all of it has gone out, in order.
pub send_all-delivers :
    (rs : List Sent) (mess : Bytes) (total : ℕ) (wire : Bytes)
    → total ≤ length mess
    → length mess ≤ total + room_of rs
    → send_all rs mess total wire ≡ some (true, wire ++ drop total mess)
unfolding send_all
send_all-delivers [] mess total wire hi enough =
    ground (arith, drop_all total mess, append-nil wire)
send_all-delivers (room n ∷ rs) mess total wire hi enough =
    let k = min n (length mess - total) in
    let moved : (wire ++ take k (drop total mess)) ++ drop (total + k) mess
        ≡ wire ++ drop total mess =
      append_assoc wire (take k (drop total mess)) (drop (total + k) mess)
      ∙ ap (λ t. wire ++ (take k (drop total mess) ++ t)) (sym (drop-drop total k mess))
      ∙ ap (λ t. wire ++ t) (take-append-drop k (drop total mess)) in
    ground (
      arith,
      drop_all total mess,
      append-nil wire,
      moved,
      send_all-delivers rs mess (total + k) (wire ++ take k (drop total mess)),
    )
send_all-delivers (interrupted ∷ rs) mess total wire hi enough =
    ground (arith, drop_all total mess, append-nil wire, send_all-delivers rs mess total wire)
send_all-delivers (failed ∷ rs) mess total wire hi enough =
    ground (arith, drop_all total mess, append-nil wire)

-- `w` is `wire` and a beginning of `rest`, and all of it if `ok`.
abbrev pub Begun : Bytes → Bytes → Bool → Bytes → Type 0
Begun wire rest ok w = (k : ℕ) × (w ≡ wire ++ take k rest) × (ok ≡ true → w ≡ wire ++ rest)

Begun-nothing :
    (total : ℕ) (mess wire : Bytes) (ok : Bool) (w : Bytes)
    → length mess ≤ total
    → wire ≡ w
    → Begun wire (drop total mess) ok w
Begun-nothing total mess wire ok w done same =
    let all : w ≡ wire ++ drop total mess =
      sym same ∙ sym (append-nil wire) ∙ ap (λ t. wire ++ t) (sym (drop_all total mess done)) in
    (0, sym same ∙ sym (append-nil wire), λ _. all)

Begun-more :
    (j : ℕ) (rest wire : Bytes) (ok : Bool) (w : Bytes)
    → Begun (wire ++ take j rest) (drop j rest) ok w
    → Begun wire rest ok w
Begun-more j rest wire ok w (k, part, all) = (
  j + k,
  part
      ∙ append_assoc wire (take j rest) (take k (drop j rest))
      ∙ ap (λ t. wire ++ t) (take-append-take j k rest),
  λ h.
      all h
      ∙ append_assoc wire (take j rest) (drop j rest)
      ∙ ap (λ t. wire ++ t) (take-append-drop j rest),
)

-- However the calls of `send` end, what has gone out is a beginning of the message, and all of it
-- if `sendAll` succeeds.
pub send_all-Begun :
    (rs : List Sent) (mess : Bytes) (total : ℕ) (wire : Bytes) (ok : Bool) (w : Bytes)
    → send_all rs mess total wire ≡ some (ok, w)
    → Begun wire (drop total mess) ok w
unfolding send_all
send_all-Begun [] mess total wire ok w e = elim (Bool-cases (ltb total (length mess))) [
  | inl more ↦ ground (arith, more)
  | inr done ↦ Begun-nothing total mess wire ok w (ground arith) (ground (arith, done))
]
send_all-Begun (room n ∷ rs) mess total wire ok w e = elim (Bool-cases (ltb total (length mess))) [
  | inl more ↦
      let k = min n (length mess - total) in
      let sent : Begun (wire ++ take k (drop total mess)) (drop (total + k) mess) ok w =
        send_all-Begun rs mess (total + k) (wire ++ take k (drop total mess)) ok w
          (ground (arith, more)) in
      Begun-more k (drop total mess) wire ok w (rw (drop-drop total k mess) sent)
  | inr done ↦ Begun-nothing total mess wire ok w (ground arith) (ground (arith, done))
]
send_all-Begun (interrupted ∷ rs) mess total wire ok w e =
    elim (Bool-cases (ltb total (length mess))) [
      | inl more ↦ send_all-Begun rs mess total wire ok w (ground (arith, more))
      | inr done ↦ Begun-nothing total mess wire ok w (ground arith) (ground (arith, done))
    ]
send_all-Begun (failed ∷ rs) mess total wire ok w e = elim (Bool-cases (ltb total (length mess))) [
  | inl more ↦ (0, ground (arith, more, append-nil wire), λ h. absurd (ground (arith, more)))
  | inr done ↦ Begun-nothing total mess wire ok w (ground arith) (ground (arith, done))
]
