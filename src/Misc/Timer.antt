-- ===== src/Misc/Timer.antt =====
-- `SV_Misc::TimerDelay` (src/SVMisc/timer_delay.h): a delay timer for each id, counted in the ms of
-- the caller's cycle. `now` is what the system clock returns, and the time of day enters as the
-- hour, minute and second of `localtime_r`, or `none` where it fails.
use svisual.Prelude.{
  ℕ, zero, suc, ◌+◌, ◌-◌, ◌*◌, ◌%◌, ◌^◌, ◌≤◌, ◌<◌, ◌≡◌, refl, sym, ap₂, subst, ◌∙◌, List, [], ◌∷◌,
  ◌++◌, map, Bool, true, false, not, ◌&&◌, ◌||◌, Option, none, some, if◌then◌else◌, leb, ltb, ◌==◌,
  length, get_or, set, replicate, arith, length-append, length-replicate, get_or-set_self,
}

-- `TmBase`
pub record TmBase : Type 0 where
  pub count : ℕ
  pub active : Bool

-- What the timer reads of `tm`.
pub record Clock : Type 0 where
  pub hour : ℕ
  pub minute : ℕ
  pub second : ℕ

pub record TimerDelay : Type 0 where
  pub tmrs : List TmBase
  pub prev_cyc_tm : ℕ
  pub cycle_tm : ℕ
  pub prev_tm : Clock
  pub sec_onc : Bool
  pub min_onc : Bool
  pub hour_onc : Bool

abbrev pub idle_tmr : TmBase
idle_tmr = record { count = 0; active = false }

-- `uint64_t` a - b
abbrev pub sub64 : ℕ → ℕ → ℕ
sub64 a b = (a + 2 ^ 64 - b) % 2 ^ 64

-- The constructor.
unfoldable pub new_timer : ℕ → Option Clock → TimerDelay
new_timer now lct = record {
  tmrs = [];
  prev_cyc_tm = now;
  cycle_tm = now;
  prev_tm = elim lct [ none ↦ record { hour = 0; minute = 0; second = 0 } | some c ↦ c ];
  sec_onc = false;
  min_onc = false;
  hour_onc = false;
}

-- A timer that was not asked since the last `update` starts again.
abbrev pub refresh : TmBase → TmBase
refresh t = record { count = if t.active then t.count else 0; active = false }

-- `update`
unfoldable pub update : ℕ → Option Clock → TimerDelay → TimerDelay
update now lct d =
    let d' : TimerDelay = record d {
      cycle_tm = sub64 now d.prev_cyc_tm;
      prev_cyc_tm = now;
      tmrs = map refresh d.tmrs;
    } in
    elim lct [
      | none ↦ d'
      | some c ↦ record d' {
        hour_onc = not (c.hour == d.prev_tm.hour);
        min_onc = not (c.minute == d.prev_tm.minute);
        sec_onc = not (c.second == d.prev_tm.second);
        prev_tm = c;
      }
    ]

-- `getCTime`
abbrev pub get_c_time : ℕ → TimerDelay → ℕ
get_c_time now d = sub64 now d.prev_cyc_tm

-- The `resize` at the head of the calls below.
abbrev pub grown : ℕ → List TmBase → List TmBase
grown id tmrs = tmrs ++ replicate (id + 1 - length tmrs) idle_tmr

-- `onDelayMS`: on when `start` has been on for `delay_ms`.
unfoldable pub on_delay_ms : Bool → ℕ → ℕ → TimerDelay → Bool × TimerDelay
on_delay_ms start delay_ms id d =
    let tmrs' = grown id d.tmrs in
    let total = if start then ((get_or tmrs' id idle_tmr).count + d.cycle_tm) % 2 ^ 64 else 0 in
    (
      start && leb delay_ms total,
      record d { tmrs = set tmrs' id (record { count = total; active = true }) },
    )

-- `offDelayMS`: on while `start` is on, and for `delay_ms` after.
unfoldable pub off_delay_ms : Bool → ℕ → ℕ → TimerDelay → Bool × TimerDelay
off_delay_ms start delay_ms id d =
    let tmrs' = grown id d.tmrs in
    let old = (get_or tmrs' id idle_tmr).count in
    let left = if start then delay_ms else old - d.cycle_tm in
    (start || ltb 0 old, record d { tmrs = set tmrs' id (record { count = left; active = true }) })

-- `onDelaySec`, `offDelaySec`
abbrev pub on_delay_sec : Bool → ℕ → ℕ → TimerDelay → Bool × TimerDelay
on_delay_sec start delay_sec id d = on_delay_ms start (delay_sec * 1000) id d

abbrev pub off_delay_sec : Bool → ℕ → ℕ → TimerDelay → Bool × TimerDelay
off_delay_sec start delay_sec id d = off_delay_ms start (delay_sec * 1000) id d

-- How long the timer of an id has been running.
abbrev pub elapsed : ℕ → TimerDelay → ℕ
elapsed id d = (get_or d.tmrs id idle_tmr).count

get_or-idle : (n i : ℕ) → get_or (replicate n idle_tmr) i idle_tmr ≡ idle_tmr
get_or-idle zero i = refl
get_or-idle (suc n) zero = refl
get_or-idle (suc n) (suc i) = get_or-idle n i

get_or-grown :
    (tmrs : List TmBase) (k i : ℕ)
    → get_or (tmrs ++ replicate k idle_tmr) i idle_tmr ≡ get_or tmrs i idle_tmr
get_or-grown [] k i = get_or-idle k i
get_or-grown (t ∷ tmrs) k zero = refl
get_or-grown (t ∷ tmrs) k (suc i) = get_or-grown tmrs k i

length-grown : (id : ℕ) (tmrs : List TmBase) → id < length (grown id tmrs)
length-grown id tmrs = omega (
  arith,
  length-append tmrs (replicate (id + 1 - length tmrs) idle_tmr),
  length-replicate (id + 1 - length tmrs) idle_tmr,
)

-- One cycle of a caller that asks the timer: `update` at time `now`, then `onDelayMS`.
unfoldable pub on_delay_cycle : ℕ → Option Clock → Bool → ℕ → ℕ → TimerDelay → Bool × TimerDelay
on_delay_cycle now lct start delay_ms id d = on_delay_ms start delay_ms id (update now lct d)

get_or-map-refresh :
    (tmrs : List TmBase) (i : ℕ)
    → get_or (map refresh tmrs) i idle_tmr ≡ refresh (get_or tmrs i idle_tmr)
get_or-map-refresh [] i = refl
get_or-map-refresh (t ∷ tmrs) zero = refl
get_or-map-refresh (t ∷ tmrs) (suc i) = get_or-map-refresh tmrs i

-- The timer of `id` has been running since `t0`: it was asked in the last cycle, and has counted
-- the time up to it; or nothing is counted yet and the last cycle was at `t0`.
abbrev pub RunsSince : ℕ → ℕ → TimerDelay → Type 0
RunsSince id t0 d =
    let t = get_or d.tmrs id idle_tmr in
    (t0 ≤ d.prev_cyc_tm) × ((refresh t).count + t0 ≡ d.prev_cyc_tm) × (d.prev_cyc_tm < 2 ^ 64)

-- What the timer of `id` holds when it is asked after an `update`, and after it was asked.
counted :
    (tmrs : List TmBase) (id : ℕ)
    → get_or (grown id (map refresh tmrs)) id idle_tmr ≡ refresh (get_or tmrs id idle_tmr)
counted tmrs id =
    get_or-grown (map refresh tmrs) (id + 1 - length (map refresh tmrs)) id
    ∙ get_or-map-refresh tmrs id

asked :
    (tmrs : List TmBase) (id : ℕ) (t : TmBase)
    → get_or (set (grown id (map refresh tmrs)) id t) id idle_tmr ≡ t
asked tmrs id t =
    get_or-set_self (grown id (map refresh tmrs)) id t idle_tmr (length-grown id (map refresh tmrs))

-- A cycle at time `now` in which the timer is asked with `start` on counts all the time since
-- `t0`, and answers whether that has reached the delay.
pub on_delay_cycle_on :
    (now : ℕ) (lct : Option Clock) (delay_ms id t0 : ℕ) (d : TimerDelay)
    → RunsSince id t0 d
    → d.prev_cyc_tm ≤ now
    → now < 2 ^ 64
    → ((on_delay_cycle now lct true delay_ms id d).0 ≡ leb delay_ms (now - t0))
      × RunsSince id t0 (on_delay_cycle now lct true delay_ms id d).1
      × ((on_delay_cycle now lct true delay_ms id d).1.prev_cyc_tm ≡ now)
unfolding on_delay_cycle on_delay_ms update
on_delay_cycle_on now none delay_ms id t0 d runs later small =
    rw (asked d.tmrs id, counted d.tmrs id) (ground arith)
on_delay_cycle_on now (some c) delay_ms id t0 d runs later small =
    rw (asked d.tmrs id, counted d.tmrs id) (ground arith)

-- The answers of a timer that is asked with `start` on at each of the times.
unfoldable pub on_delay_run : ℕ → ℕ → List (ℕ × Option Clock) → TimerDelay → List Bool
on_delay_run delay_ms id [] d = []
on_delay_run delay_ms id ((now, lct) ∷ ts) d =
    let (r, d') = on_delay_cycle now lct true delay_ms id d in r ∷ on_delay_run delay_ms id ts d'

-- The times do not go back.
abbrev pub Rising : ℕ → List (ℕ × Option Clock) → Type 0
Rising t [] = Unit {0}
Rising t ((now, lct) ∷ ts) = (t ≤ now) × (now < 2 ^ 64) × Rising now ts

-- While `start` stays on, a timer that runs since `t0` answers at each time whether the delay has
-- passed since `t0`, however the time is cut into cycles.
pub on_delay_run_lem :
    (delay_ms id t0 : ℕ) (ts : List (ℕ × Option Clock)) (d : TimerDelay)
    → RunsSince id t0 d
    → Rising d.prev_cyc_tm ts
    → on_delay_run delay_ms id ts d ≡ map (λ e. leb delay_ms (e.0 - t0)) ts
unfolding on_delay_run
on_delay_run_lem delay_ms id t0 [] d runs up = refl
on_delay_run_lem delay_ms id t0 ((now, lct) ∷ ts) d runs up =
    let (now_on, runs', at_now) = on_delay_cycle_on now lct delay_ms id t0 d runs up.0 up.1 in
    ap₂ ◌∷◌ now_on (
      on_delay_run_lem delay_ms id t0 ts (on_delay_cycle now lct true delay_ms id d).1 runs'
        (subst (λ t. Rising t ts) (sym at_now) up.2))
