-- ===== src/Misc/TcpServer/Laws.antt =====
-- Starting and stopping the TCP server (src/SVMisc/src/tcp_server.cpp).
use svisual.Prelude.{
  ℕ, zero, suc, ◌+◌, ◌<◌, ◌≡◌, ◌≢◌, refl, sym, ap, ◌∙◌, inl, inr, List, [], ◌∷◌, ◌++◌, Bool, true,
  false, not, ◌&&◌, ◌||◌, replicate, some, if◌then◌else◌, ◌==◌, arith, Bool-cases,
}
use svisual.Prelude.Bytes.{Bytes}
use svisual.Misc.TcpServer.{
  Server, Act, ready, ran, Calls, busy, close_rounds, close_loop, bring_up, set_up, start_impl,
  is_empty, told, start, stop,
}

-- The thread that waits for the worker is told before the loop runs.
abbrev pub ready_first : List Act → Bool
ready_first [] = false
ready_first (ready ∷ acts) = true
ready_first (ran ∷ acts) = false
ready_first (a ∷ acts) = ready_first acts

abbrev pub times_ready : List Act → ℕ
times_ready [] = 0
times_ready (ready ∷ acts) = 1 + times_ready acts
times_ready (a ∷ acts) = times_ready acts

-- Every call succeeds and no stop is seen.
abbrev pub succeeds : Calls → Bool
succeeds u =
    not u.stop0
    && not u.stop1
    && not u.stop2
    && not u.stop3
    && u.loop_init == 0
    && u.async_init == 0
    && u.tcp_init == 0
    && u.keepalive == 0
    && u.ip4_addr == 0
    && u.bind == 0
    && u.listen == 0

pub start_impl-ready :
    (u : Calls) (s : Server)
    → (ready_first (start_impl u s).1 ≡ true)
      × (times_ready (start_impl u s).1 ≡ 1)
      × ((start_impl u s).0.listen_ready ≡ true)
unfolding start_impl set_up close_loop
start_impl-ready u s = ground arith

-- The state between calls by other threads: the loop is there exactly as long as its stop can be
-- sent, and it runs without an error.
pub record IsSettled (s : Server) : Type 0 where
  pub stoppable : s.stop_inited ≡ s.has_loop
  pub healthy : s.has_loop ≡ true → s.error ≡ []
  pub alive : s.has_loop ≡ true → s.loop_dead ≡ false

-- What `startImpl` leaves when it signals, for a server that was reset.
record IsUp (ok : Bool) (s : Server) : Type 0 where
  told_ready : s.listen_ready ≡ true
  no_error : is_empty s.error ≡ ok
  has : s.has_loop ≡ ok
  inited : s.stop_inited ≡ ok
  lives : ok ≡ true → s.loop_dead ≡ false

set_up-IsUp :
    (u : Calls) (s : Server)
    → s.has_loop ≡ false
    → s.stop_inited ≡ false
    → s.loop_dead ≡ false
    → s.error ≡ []
    → IsUp (succeeds u) (set_up u s).0
unfolding set_up close_loop bring_up
set_up-IsUp u s h i d e = record {
  told_ready = ground arith;
  no_error = ground arith;
  has = ground arith;
  inited = ground arith;
  lives = ground arith;
}

is_empty→eq : (bs : Bytes) → is_empty bs ≡ true → bs ≡ []
is_empty→eq [] h = refl
is_empty→eq (b ∷ bs) h = cc

told_lem :
    (s : Server) (ok : Bool)
    → IsUp ok s
    → (s' : Server) × (told s ≡ some (s', ok)) × IsSettled s' × (ok ≡ s'.has_loop)
told_lem s true up = (
  s,
  ground (arith, up),
  record {
    stoppable = up.inited ∙ sym up.has;
    healthy = λ _. is_empty→eq s.error up.no_error;
    alive = λ _. up.lives refl;
  },
  sym up.has,
)
told_lem s false up = (
  record s { joinable = false },
  ground (arith, up),
  record {
    stoppable = up.inited ∙ sym up.has;
    healthy = λ h. ground (arith, up);
    alive = λ h. ground (arith, up);
  },
  sym up.has,
)

-- The state that a new worker finds.
abbrev fresh : Server → Server
fresh s = record s { joinable = true; error = []; stop_requested = false; listen_ready = false }

start-told :
    (u : Calls) (s : Server)
    → s.loop_dead ≡ false
    → s.has_loop ≡ false
    → start true u s ≡ told (set_up u (fresh s)).0
unfolding start
start-told u s alive idle = ground arith

-- A start in another thread never waits for ever. It returns true exactly if the server runs then;
-- on a server that was not running and whose loop is not dead, exactly if every call succeeds and
-- no stop is seen.
pub start_lem :
    (u : Calls) (s : Server)
    → IsSettled s
    → (s' : Server) × (ok : Bool) × (start true u s ≡ some (s', ok))
      × IsSettled s'
      × (ok ≡ s'.has_loop)
      × (ok ≡ (if s.has_loop then true else not s.loop_dead && succeeds u))
unfolding start
start_lem u s v = elim (Bool-cases s.loop_dead) [
  | inl dead ↦
      let idle : s.has_loop ≡ false = ground (arith, v) in
      (s, false, rw (dead, start) refl, v, sym idle, rw (idle, dead) refl)
  | inr alive ↦ elim (Bool-cases s.has_loop) [
    | inl runs ↦ (s, true, rw (alive, runs, start) refl, v, sym runs, rw runs refl)
    | inr idle ↦
        let (s', e, v', has) =
          told_lem (set_up u (fresh s)).0 (succeeds u)
            (set_up-IsUp u (fresh s) idle (v.stoppable ∙ idle) alive refl) in
        (s', succeeds u, start-told u s alive idle ∙ e, v', has, rw (idle, alive) refl)
  ]
]

-- After a stop there is no loop, and the state is settled; the server can be started again if it
-- could before and the closing of a loop that ran ends within its rounds.
pub stop_lem :
    (u : Calls) (s : Server)
    → IsSettled s
    → IsSettled (stop u s)
      × ((stop u s).has_loop ≡ false)
      × ((stop u s).loop_dead
          ≡ (s.loop_dead || (s.has_loop && not (close_rounds 64 busy u.loop_close == 0))))
unfolding stop close_loop
stop_lem u s v = (
  record { stoppable = ground arith; healthy = ground arith; alive = ground arith },
  ground arith,
  ground arith,
)

rounds_over : (n rc : ℕ) (rcs : List ℕ) → rc ≢ busy → close_rounds n rc rcs ≡ rc
unfolding close_rounds
rounds_over zero rc rcs ne = refl
rounds_over (suc n) rc [] ne = refl
rounds_over (suc n) rc (r ∷ rcs) ne = ground arith

-- The rounds end with the first result that is not `UV_EBUSY`, if it is one of the first `n`.
pub close_rounds_lem :
    (k n rc : ℕ) (rcs : List ℕ)
    → k < n
    → rc ≢ busy
    → close_rounds n busy (replicate k busy ++ rc ∷ rcs) ≡ rc
unfolding close_rounds
close_rounds_lem k zero rc rcs h ne = absurd (omega arith)
close_rounds_lem zero (suc n) rc rcs h ne = rounds_over n rc rcs ne
close_rounds_lem (suc k) (suc n) rc rcs h ne = close_rounds_lem k n rc rcs (omega arith) ne

and_false : (b : Bool) → (b && false) ≡ false
and_false true = refl
and_false false = refl

-- A server that is stopped, and whose loop is closed within its 64 rounds, can be started again:
-- the start returns, and it succeeds and the server runs exactly if every call succeeds and no stop
-- is seen.
pub start-stop :
    (u u' : Calls) (s : Server) (k : ℕ) (rcs : List ℕ)
    → IsSettled s
    → s.loop_dead ≡ false
    → u.loop_close ≡ replicate k busy ++ 0 ∷ rcs
    → k < 64
    → (s' : Server) × (start true u' (stop u s) ≡ some (s', succeeds u'))
      × IsSettled s'
      × (s'.has_loop ≡ succeeds u')
start-stop u u' s k rcs v alive closes few =
    let (settled, idle, dead) = stop_lem u s v in
    let zeroed : close_rounds 64 busy u.loop_close ≡ 0 =
      ap (close_rounds 64 busy) closes ∙ close_rounds_lem k 64 0 rcs few (omega arith) in
    let alive' : (stop u s).loop_dead ≡ false = dead ∙ rw (alive, zeroed) (and_false s.has_loop) in
    let (s', ok, e, v', has, eq) = start_lem u' (stop u s) settled in
    let all : ok ≡ succeeds u' = eq ∙ rw (idle, alive') refl in
    (s', e ∙ ap (λ b. some (s', b)) all, v', sym has ∙ all)
