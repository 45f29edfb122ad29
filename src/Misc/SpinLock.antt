-- ===== src/Misc/SpinLock.antt =====
-- `SV_Misc::SpinLock` (src/SVMisc/spin_lock.h), as the steps of any number of threads. Threads are
-- alike, so the state says how many of them stand at each place of `lock` and `unlock`; a thread that
-- waits at the first loop, or is outside, needs no count. Each step is one access to an atomic.
use svisual.Prelude.{ℕ, ◌+◌, ◌-◌, ◌≤◌, ◌<◌, ◌≡◌, Bool, true, false, if◌then◌else◌, ltb, ◌⊎◌, arith}

pub record Lock : Type 0 where
  pub read_count : ℕ
  pub read_lock : Bool
  pub write_lock : Bool
  -- Behind the first loop, before `isBlock` is computed.
  pub gated_r : ℕ
  pub gated_w : ℕ
  -- Before the exchange of the second loop: readers, and writers by their `isBlock`.
  pub tested_r : ℕ
  pub blocked_w : ℕ
  pub free_w : ℕ
  -- Behind the second loop; a reader before and after `++m_readCount`.
  pub entered_r : ℕ
  pub counted_r : ℕ
  pub entered_w : ℕ
  -- `lock` has returned.
  pub holding_r : ℕ
  pub holding_w : ℕ

abbrev pub new_lock : Lock
new_lock = record {
  read_count = 0;
  read_lock = false;
  write_lock = false;
  gated_r = 0;
  gated_w = 0;
  tested_r = 0;
  blocked_w = 0;
  free_w = 0;
  entered_r = 0;
  counted_r = 0;
  entered_w = 0;
  holding_r = 0;
  holding_w = 0;
}

-- `isBlock = (act == WRITE) && (m_readCount.load() > 0)` of a writer.
abbrev pub tested : Lock → Lock
tested s =
    if ltb 0 s.read_count
    then record s { gated_w = s.gated_w - 1; blocked_w = s.blocked_w + 1 }
    else record s { gated_w = s.gated_w - 1; free_w = s.free_w + 1 }

-- An exchange that fails, also one that fails for no reason, leads back to the test.
pub data Step : Lock → Lock → Type 0 where
  gate_r :
      (s : Lock)
      → s.read_lock ≡ false
      → Step s (record s { read_lock = true; gated_r = s.gated_r + 1 })
  gate_w :
      (s : Lock)
      → s.read_lock ≡ false
      → Step s (record s { read_lock = true; gated_w = s.gated_w + 1 })
  test_r :
      (s : Lock)
      → 0 < s.gated_r
      → Step s (record s { gated_r = s.gated_r - 1; tested_r = s.tested_r + 1 })
  test_w : (s : Lock) → 0 < s.gated_w → Step s (tested s)
  enter_r :
      (s : Lock)
      → 0 < s.tested_r
      → s.write_lock ≡ false
      → Step s
          (record s { tested_r = s.tested_r - 1; entered_r = s.entered_r + 1; write_lock = false })
  retry_r :
      (s : Lock)
      → 0 < s.tested_r
      → Step s (record s { tested_r = s.tested_r - 1; gated_r = s.gated_r + 1 })
  enter_blocked :
      (s : Lock)
      → 0 < s.blocked_w
      → s.write_lock ≡ true
      → Step s
          (record s { blocked_w = s.blocked_w - 1; entered_w = s.entered_w + 1; write_lock = true })
  retry_blocked :
      (s : Lock)
      → 0 < s.blocked_w
      → Step s (record s { blocked_w = s.blocked_w - 1; gated_w = s.gated_w + 1 })
  enter_free :
      (s : Lock)
      → 0 < s.free_w
      → s.write_lock ≡ false
      → Step s (record s { free_w = s.free_w - 1; entered_w = s.entered_w + 1; write_lock = true })
  retry_free :
      (s : Lock)
      → 0 < s.free_w
      → Step s (record s { free_w = s.free_w - 1; gated_w = s.gated_w + 1 })
  count_r :
      (s : Lock)
      → 0 < s.entered_r
      → Step s (record s {
        entered_r = s.entered_r - 1;
        counted_r = s.counted_r + 1;
        read_count = s.read_count + 1;
      })
  open_r :
      (s : Lock)
      → 0 < s.counted_r
      → Step s
          (record s { counted_r = s.counted_r - 1; holding_r = s.holding_r + 1; read_lock = false })
  open_w :
      (s : Lock)
      → 0 < s.entered_w
      → Step s
          (record s { entered_w = s.entered_w - 1; holding_w = s.holding_w + 1; read_lock = false })
  leave_r :
      (s : Lock)
      → 0 < s.holding_r
      → Step s (record s { holding_r = s.holding_r - 1; read_count = s.read_count - 1 })
  leave_w :
      (s : Lock)
      → 0 < s.holding_w
      → Step s (record s { holding_w = s.holding_w - 1; write_lock = false })

pub data Reachable : Lock → Type 0 where
  start : Reachable new_lock
  more : {s t : Lock} → Reachable s → Step s t → Reachable t

abbrev bit : Bool → ℕ
bit b = if b then 1 else 0

-- What is true of the lock at all times.
record Inv (s : Lock) : Type 0 where
  pub gate :
      s.gated_r + s.gated_w + s.tested_r + s.blocked_w + s.free_w + s.entered_r + s.counted_r
        + s.entered_w
      ≡ bit s.read_lock
  pub readers : s.counted_r + s.holding_r ≡ s.read_count
  pub writers : s.entered_w + s.holding_w ≡ bit s.write_lock
  pub apart : (s.write_lock ≡ false) ⊎ (s.read_count + s.entered_r + s.blocked_w ≡ 0)
  pub free : (s.free_w ≡ 0) ⊎ (s.read_count ≡ 0)

Step-Inv : {s t : Lock} → Step s t → Inv s → Inv t
Step-Inv (gate_r s h) i = ground arith
Step-Inv (gate_w s h) i = ground arith
Step-Inv (test_r s h) i = ground arith
Step-Inv (test_w s h) i = ground arith
Step-Inv (enter_r s h w) i = ground arith
Step-Inv (retry_r s h) i = ground arith
Step-Inv (enter_blocked s h w) i = ground arith
Step-Inv (retry_blocked s h) i = ground arith
Step-Inv (enter_free s h w) i = ground arith
Step-Inv (retry_free s h) i = ground arith
Step-Inv (count_r s h) i = ground arith
Step-Inv (open_r s h) i = ground arith
Step-Inv (open_w s h) i = ground arith
Step-Inv (leave_r s h) i = ground arith
Step-Inv (leave_w s h) i = ground arith

Reachable-Inv : {s : Lock} → Reachable s → Inv s
Reachable-Inv start = ground arith
Reachable-Inv (more r st) = Step-Inv st (Reachable-Inv r)

-- However the threads' steps interleave, at most one writer holds the lock, a writer that holds it
-- excludes every reader, and `m_readCount` is the number of the readers that hold it once nobody is
-- inside `lock`.
pub exclusion :
    {s : Lock}
    → Reachable s
    → (s.holding_w ≤ 1)
      × ((0 < s.holding_w) → s.holding_r ≡ 0)
      × ((s.read_lock ≡ false) → s.read_count ≡ s.holding_r)
exclusion r =
    let i = Reachable-Inv r in (ground (arith, i), λ w. ground (arith, i), λ out. ground (arith, i))
