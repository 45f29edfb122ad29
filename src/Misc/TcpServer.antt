-- ===== src/Misc/TcpServer.antt =====
-- The TCP server (src/SVMisc/src/tcp_server.cpp): its life from `start` to the end of its loop, and
-- what it does with a connection. What the calls of libuv return is an argument, 0 for success.
pub mod Laws
pub mod Stream
use svisual.Prelude.{
  ℕ, zero, suc, ◌+◌, ◌-◌, ◌<◌, List, [], ◌∷◌, ◌++◌, Bool, true, false, not, ◌&&◌, ◌||◌, Option,
  none, some, if◌then◌else◌, ltb, ◌==◌, length,
}
use svisual.Prelude.Bytes.{Bytes, codes}

-- What `Server_m` keeps: whether `u_loop` is not null, and so on. `error` is without the code.
pub record Server : Type 0 where
  pub has_loop : Bool
  pub stop_inited : Bool
  pub stop_requested : Bool
  pub loop_dead : Bool
  pub joinable : Bool
  pub listen_ready : Bool
  pub error : Bytes

abbrev pub new_server : Server
new_server = record {
  has_loop = false;
  stop_inited = false;
  stop_requested = false;
  loop_dead = false;
  joinable = false;
  listen_ready = false;
  error = [];
}

-- What a thread that starts the server does that others can see.
pub data Act : Type 0 where
  reported ready stop_sent ran loop_closed : Act

-- What libuv returns, and where `stop_requested` is seen: before the loop is made, and behind it,
-- behind the handle for the stop, and behind the call that listens. `loop_close` are the results
-- of `uv_loop_close`, one for a round.
pub record Calls : Type 0 where
  pub stop0 : Bool
  pub loop_init : ℕ
  pub stop1 : Bool
  pub async_init : ℕ
  pub stop2 : Bool
  pub tcp_init : ℕ
  pub keepalive : ℕ
  pub ip4_addr : ℕ
  pub bind : ℕ
  pub listen : ℕ
  pub stop3 : Bool
  pub loop_close : List ℕ

-- `UV_EBUSY`, as any number that is not zero.
abbrev pub busy : ℕ
busy = 16

-- The rounds of `closeLoop`; a round that has no result is not made.
unfoldable pub close_rounds : ℕ → ℕ → List ℕ → ℕ
close_rounds zero rc rcs = rc
close_rounds (suc n) rc [] = rc
close_rounds (suc n) rc (r ∷ rcs) =
    let rest = close_rounds n r rcs in if rc == busy then rest else rc

-- `closeLoop` on a loop that is there. Closing the handles also closes the one for the stop.
unfoldable pub close_loop : List ℕ → Server → Server
close_loop rcs s =
    let rc = close_rounds 64 busy rcs in
    record s {
      has_loop = false;
      stop_inited = false;
      loop_dead = if rc == 0 then s.loop_dead else true;
    }

-- `reportError`
abbrev pub report : Bytes → Server → Server
report mess s = record s { error = mess }

-- `signalListenReady`
abbrev pub signal_ready : Server → Server
signal_ready s = record s { listen_ready = true }

-- The calls up to the one that listens: each is made only if those before it succeed.
unfoldable pub bring_up : Calls → ℕ
bring_up u =
    if u.keepalive == 0
    then if u.ip4_addr == 0 then if u.bind == 0 then u.listen else u.bind else u.ip4_addr
    else u.keepalive

abbrev pub stopped : Bytes
stopped = codes "initConnection::stopped"

-- `failAndClose`, and `signalListenReady` with `requestStopAndRun`, with the error that is reported
-- before.
abbrev pub fail_and_close : Bytes → Calls → Server → Server × Bool × List Act
fail_and_close mess u s = (
  signal_ready (close_loop u.loop_close (report mess s)),
  false,
  reported ∷ loop_closed ∷ ready ∷ [],
)

abbrev pub stop_and_run : Bytes → Calls → Server → Server × Bool × List Act
stop_and_run mess u s = (
  close_loop u.loop_close (signal_ready (report mess s)),
  false,
  reported ∷ ready ∷ stop_sent ∷ ran ∷ loop_closed ∷ [],
)

-- `startImpl` up to its last `uv_run`, and whether it comes there.
unfoldable pub set_up : Calls → Server → Server × Bool × List Act
set_up u s =
    if u.stop0
    then (signal_ready (report stopped s), false, reported ∷ ready ∷ [])
    else if not (u.loop_init == 0)
    then (
      signal_ready (report (codes "initConnection::uv_loop_init error") s),
      false,
      reported ∷ ready ∷ [],
    )
    else let s1 : Server = record s { has_loop = true } in
      if u.stop1
      then fail_and_close stopped u s1
      else if not (u.async_init == 0)
      then fail_and_close (codes "initConnection::uv_async_init error") u s1
      else let s2 : Server = record s1 { stop_inited = true } in
        if u.stop2
        then stop_and_run stopped u s2
        else if not (u.tcp_init == 0)
        then stop_and_run (codes "initConnection::uv_tcp_init error") u s2
        else if not (bring_up u == 0) || u.stop3
        then stop_and_run (if bring_up u == 0 then stopped else codes "initConnection error") u s2
        else (signal_ready s2, true, ready ∷ [])

-- The end of `startImpl`, which `uv_run` returns to when all handles are closed.
abbrev pub run_down : Calls → Server → Server
run_down u s = close_loop u.loop_close s

unfoldable pub start_impl : Calls → Server → Server × List Act
unfolding set_up
start_impl u s =
    let (s', serves, acts) = set_up u s in
    if serves then (run_down u s', acts ++ ran ∷ loop_closed ∷ []) else (s', acts)

abbrev pub is_empty : Bytes → Bool
is_empty [] = true
is_empty (b ∷ bs) = false

-- The wait for the worker, which is joined if it has failed.
abbrev pub told : Server → Option (Server × Bool)
told s =
    if s.listen_ready
    then if is_empty s.error then some (s, true) else some (record s { joinable = false }, false)
    else none

-- `start` by a thread that is not the worker, and what it returns. With `into_other_thread` this is
-- when the worker has signalled, and `none` is a wait for ever; else it is when the loop has ended.
unfoldable pub start : Bool → Calls → Server → Option (Server × Bool)
start into_other_thread u s =
    if s.loop_dead
    then some (s, false)
    else if s.has_loop
    then some (s, true)
    else let s0 : Server = record s {
      joinable = false;
      error = [];
      stop_requested = false;
      listen_ready = false;
    } in
      if into_other_thread
      then told ((set_up u (record s0 { joinable = true })).0)
      else some ((start_impl u s0).0, is_empty (start_impl u s0).0.error)

-- `stop` by a thread that is not the worker, when the loop that it stops has ended.
unfoldable pub stop : Calls → Server → Server
stop u s =
    let s1 : Server = record s { stop_requested = true } in
    if not s.has_loop && not s.joinable
    then s1
    else record (if s.stop_inited then run_down u s1 else s1) { joinable = false }

-- `Client_m`: the length of `u_buf`, `inMess` and `outMess`, and whether its handle is closing.
pub record Conn : Type 0 where
  pub buf_len : ℕ
  pub in_mess : Bytes
  pub out_mess : Bytes
  pub is_closing : Bool

abbrev pub new_conn : Conn
new_conn = record { buf_len = 0; in_mess = []; out_mess = []; is_closing = false }

-- `alloc_cb`: the length of the buffer that is offered; `has_memory` is whether `realloc` succeeds.
unfoldable pub alloc_cb : Bool → ℕ → Conn → Conn × ℕ
alloc_cb has_memory suggested c =
    if ltb c.buf_len suggested
    then if has_memory then (record c { buf_len = suggested }, suggested) else (c, 0)
    else (c, c.buf_len)

-- What `on_read` is called with: bytes, none, or an error or the end of the connection.
pub data Read : Type 0 where
  chunk : Bytes → Read
  nothing : Read
  broken : Read

-- `on_read` with the callback, which may fail; and what is written, if anything. `takes` is whether
-- `uv_write` takes it; if it does not, the text is lost. A text that was moved from is empty.
unfoldable pub on_read {ℓ} :
    {S : Type ℓ}
    → Option (Bytes → Bytes → S → Option (S × Bytes × Bytes))
    → Bool
    → Read
    → Conn
    → S
    → Option (S × Conn × Option Bytes)
on_read data_cback takes (chunk bs) c s =
    let mess = c.in_mess ++ bs in
    let called : Option (_ × Bytes × Bytes) = elim data_cback [
      | none ↦ some (s, mess, c.out_mess)
      | some f ↦ f mess c.out_mess s
    ] in
    elim called [
      | none ↦ none
      | some (s', mess', out) ↦
          if is_empty out
          then some (s', record c { in_mess = mess'; out_mess = out }, none)
          else some (
            s',
            record c { in_mess = mess'; out_mess = [] },
            if takes then some (out ++ (0 ∷ [])) else none,
          )
    ]
on_read data_cback takes nothing c s = some (s, c, none)
on_read data_cback takes broken c s = some (s, record c { is_closing = true }, none)

-- `on_connect`: what is reported, and the connection if its reading starts. In the other cases it is
-- deleted, or closed and deleted by the callback.
unfoldable pub on_connect : ℕ → ℕ → ℕ → ℕ → Bytes × Option Conn
on_connect sts tcp_init accept read_start =
    if not (sts == 0)
    then (codes "on_connect::sts error", none)
    else if not (tcp_init == 0)
    then (codes "on_connect::uv_tcp_init error", none)
    else if not (accept == 0)
    then (codes "on_connect::uv_accept error", none)
    else if not (read_start == 0)
    then (codes "on_connect::uv_read_start error", none)
    else ([], some new_conn)
