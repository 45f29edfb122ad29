-- ===== src/Misc/TcpClient/Answer.antt =====
-- `sendData` reads an answer up to the zero byte that ends it, however it is cut into chunks
-- (src/SVMisc/src/tcp_client.cpp).
use svisual.Prelude.{
  ℕ, ◌≤◌, ◌<◌, ◌≡◌, ◌⊎◌, refl, sym, ap, ◌∙◌, inl, inr, List, [], ◌∷◌, ◌++◌, Bool, true, false, none,
  some, if◌then◌else◌, length, arith, Bool-cases, append_assoc, All, subst,
}
use svisual.Prelude.Bytes.{Bytes, NoZero}
use svisual.Misc.TcpClient.{
  Sent, Received, came, again, ended, Client, close_socket, send_all, chunk_end, recv_loop,
  send_data,
}
use svisual.Misc.TcpClient.Laws.{room_of, send_all-delivers}

-- What has come, and whether the connection has held so far.
abbrev pub bytes_of : List Received → Bytes
bytes_of [] = []
bytes_of (came b bs ∷ rs) = b ∷ (bs ++ bytes_of rs)
bytes_of (again ∷ rs) = bytes_of rs
bytes_of (ended ∷ rs) = bytes_of rs

abbrev pub IsOpen : Received → Type 0
IsOpen (came b bs) = Unit {0}
IsOpen again = Unit {0}
IsOpen ended = ⊥

-- What comes first of an answer is the whole of it or a beginning of the text in it.
first_part :
    (xs ys text : Bytes)
    → NoZero text
    → xs ++ ys ≡ text ++ (0 ∷ [])
    → ((xs ≡ text ++ (0 ∷ [])) × (ys ≡ []))
      ⊎ ((rest : Bytes) × NoZero rest × (text ≡ xs ++ rest) × (ys ≡ rest ++ (0 ∷ [])))
first_part [] ys text h e = inr (text, h, refl, e)
first_part (x ∷ []) ys [] h e = inl (ground arith, ground arith)
first_part (x ∷ x' ∷ xs) ys [] h e = absurd (ground arith)
first_part (x ∷ xs) ys (t ∷ text) h e =
    let same : x ≡ t = ground arith in
    elim (first_part xs ys text h.1 (ground arith)) [
      | inl (all, none_left) ↦ inl (ground arith, none_left)
      | inr (rest, h', split, e') ↦ inr (rest, h', ground arith, e')
    ]

chunk_end-zero : (b : ℕ) (bs text : Bytes) → b ∷ bs ≡ text ++ (0 ∷ []) → chunk_end b bs ≡ 0
chunk_end-zero b [] [] e = ground arith
chunk_end-zero b [] (t ∷ []) e = absurd (ground arith)
chunk_end-zero b [] (t ∷ t' ∷ text) e = absurd (ground arith)
chunk_end-zero b (c ∷ bs) [] e = absurd (ground arith)
chunk_end-zero b (c ∷ bs) (t ∷ text) e = chunk_end-zero c bs text (ground arith)

chunk_end-NoZero : (b : ℕ) (bs rest : Bytes) → NoZero (b ∷ (bs ++ rest)) → 0 < chunk_end b bs
chunk_end-NoZero b [] rest h = h.0
chunk_end-NoZero b (c ∷ bs) rest h = chunk_end-NoZero c bs rest h.1

-- The answer is a text and a zero byte: whatever its chunks and the waiting between them, the loop
-- returns it whole and stops behind it.
recv_loop-answer :
    (rs : List Received) (text out : Bytes)
    → All IsOpen rs
    → NoZero text
    → bytes_of rs ≡ text ++ (0 ∷ [])
    → (left : List Received) × (recv_loop rs out ≡ some (out ++ (text ++ (0 ∷ [])), left))
      × (bytes_of left ≡ [])
unfolding recv_loop
recv_loop-answer [] [] out op h e = absurd (ground arith)
recv_loop-answer [] (t ∷ text) out op h e = absurd (ground arith)
recv_loop-answer (again ∷ rs) text out op h e = recv_loop-answer rs text out op.1 h e
recv_loop-answer (ended ∷ rs) text out op h e = absurd op.0
recv_loop-answer (came b bs ∷ rs) text out op h e =
    elim (first_part (b ∷ bs) (bytes_of rs) text h e) [
      | inl (all, nothing) ↦ (
        rs,
        rw (chunk_end-zero b bs text all, recv_loop) (ap (λ o. some (out ++ o, rs)) all),
        nothing,
      )
      | inr (rest, h', split, e') ↦
          let (left, got, nothing) = recv_loop-answer rs rest (out ++ (b ∷ bs)) op.1 h' e' in
          let whole : (out ++ (b ∷ bs)) ++ (rest ++ (0 ∷ [])) ≡ out ++ (text ++ (0 ∷ [])) =
            append_assoc out (b ∷ bs) (rest ++ (0 ∷ []))
            ∙ ap (λ t. out ++ t)
                (sym (append_assoc (b ∷ bs) rest (0 ∷ [])) ∙ ap (λ t. t ++ (0 ∷ [])) (sym split)) in
          let inside : 0 < chunk_end b bs = chunk_end-NoZero b bs rest (subst NoZero split h) in
          (left, ground (arith, inside, whole), nothing)
    ]

closed_wire : (c : Client) → (close_socket c).wire ≡ c.wire
unfolding close_socket
closed_wire c = ground arith

closed_socket : (c : Client) → (close_socket c).socket ≡ none
unfolding close_socket
closed_socket c = ground arith

-- `sendData` on a held socket, where the system takes the message and the answer comes, ended by
-- its zero byte: it returns and succeeds, the whole message has gone out, and `out` is the answer
-- with its zero byte. The socket is then closed if that was wanted, and is held otherwise.
pub send_data_lem :
    (sends : List Sent) (recvs : List Received) (mess text out : Bytes) (disconn : Bool) (s : ℕ)
    (c : Client)
    → c.socket ≡ some s
    → length mess ≤ room_of sends
    → All IsOpen recvs
    → NoZero text
    → bytes_of recvs ≡ text ++ (0 ∷ [])
    → (c' : Client) × (send_data sends recvs mess out disconn false c
        ≡ some (c', text ++ (0 ∷ []), true))
      × (c'.wire ≡ c.wire ++ mess)
      × (c'.socket ≡ (if disconn then none else some s))
unfolding send_data
send_data_lem sends recvs mess text out disconn s c have enough op h e =
    let (left, got, _) = recv_loop-answer recvs text [] op h e in
    let sent : send_all sends mess 0 c.wire ≡ some (true, c.wire ++ mess) =
      send_all-delivers sends mess 0 c.wire (omega arith) (omega arith) in
    let c1 : Client = record c { wire = c.wire ++ mess } in
    (
      if disconn then close_socket c1 else c1,
      ground (arith, have, sent, got),
      elim (Bool-cases disconn) [
        | inl ends ↦ rw (ends, closed_wire c1) refl
        | inr stays ↦ rw stays refl
      ],
      elim (Bool-cases disconn) [
        | inl ends ↦ rw (ends, closed_socket c1) refl
        | inr stays ↦ rw stays have
      ],
    )
