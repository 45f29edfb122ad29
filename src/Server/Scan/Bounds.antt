-- ===== src/Server/Scan/Bounds.antt =====
-- The scanning loop ends, and every message that it cuts out lies inside the received bytes.
use svisual.Prelude.{
  ℕ, zero, suc, ◌+◌, ◌-◌, ◌≤◌, ◌<◌, ◌≡◌, ◌≢◌, Option, none, some, length, drop, length-drop, arith,
  Option-cases, inl, inr,
}
use svisual.Prelude.Bytes.{Bytes, find, find_at_ge, find_at_le}
use svisual.Server.Scan.{begin_mess, begin_len, m_len, end_len, all_sz, scan_loop, scan}

-- A mark that `find` reports is not before the start of the search and is whole.
pub find_bounds :
    (s : Bytes) (pos j : ℕ)
    → find begin_mess s pos ≡ some j
    → (pos ≤ j) × (j + begin_len ≤ pos + (length s - pos))
unfolding find
find_bounds s pos j h = omega (
  arith,
  find_at_ge begin_mess (drop pos s) pos j h,
  find_at_le begin_mess (drop pos s) pos j h,
  length-drop pos s,
)

-- The next search starts behind the mark that was found, so the measure falls.
abbrev Fits : ℕ → Bytes → Option ℕ → Type 0
Fits fuel s none = 0 < fuel
Fits fuel s (some st_pos) = (length s < fuel + st_pos) × (st_pos < length s)

find-Fits :
    (fuel : ℕ) (s : Bytes) (pos : ℕ)
    → length s < fuel + pos
    → 0 < fuel
    → Fits fuel s (find begin_mess s pos)
find-Fits fuel s pos h k = elim (Option-cases (find begin_mess s pos)) [
  | inl e ↦ rw e k
  | inr (j, e) ↦ rw e (fits j (find_bounds s pos j e))
]
  where
    fits :
        (j : ℕ)
        → (pos ≤ j) × (j + begin_len ≤ pos + (length s - pos))
        → (length s < fuel + j) × (j < length s)
    fits j b = omega arith

scan_loop-IsSome :
    (fuel : ℕ) (s : Bytes) (st : Option ℕ) → Fits fuel s st → scan_loop fuel s st ≢ none
unfolding scan_loop
scan_loop-IsSome zero s none h = absurd (omega arith)
scan_loop-IsSome zero s (some st_pos) h = absurd (omega arith)
scan_loop-IsSome (suc fuel) s none h = ground arith
scan_loop-IsSome (suc fuel) s (some st_pos) h = ground (
  arith,
  scan_loop-IsSome fuel s (find begin_mess s (st_pos + begin_len)) skip_fits,
  scan_loop-IsSome fuel s (find begin_mess s found_pos) found_fits,
)
  where
    found_pos : ℕ
    found_pos = st_pos + begin_len + m_len + all_sz s st_pos + end_len

    skip_fits : Fits fuel s (find begin_mess s (st_pos + begin_len))
    skip_fits = find-Fits fuel s (st_pos + begin_len) (omega arith) (omega arith)

    found_fits : Fits fuel s (find begin_mess s found_pos)
    found_fits = find-Fits fuel s found_pos (omega arith) (omega arith)

-- The loop never runs out of its fuel, so `receiveData` always comes to an end.
pub scan-IsSome : (s : Bytes) → scan s ≢ none
unfolding scan
scan-IsSome s =
    scan_loop-IsSome (suc (suc (length s))) s (find begin_mess s 0)
      (find-Fits (suc (suc (length s))) s 0 (omega arith) (omega arith))
