-- ===== src/Server/Scan.antt =====
-- The scanning loop of `SV_Srv::receiveData` (src/SVServer/src/server.cpp): cuts the messages of the clients out of the
-- bytes that have come in so far. A message is `=begin=`, the size of its payload as an `int32_t`,
-- the payload, and `=end=`.
pub mod Bounds
pub mod Frames
pub mod Stream
use svisual.Prelude.{
  ℕ, zero, suc, ◌+◌, ◌-◌, ◌*◌, ◌%◌, ◌^◌, List, [], ◌∷◌, ◌++◌, Bool, true, false, ◌&&◌, Option, none,
  some, if◌then◌else◌, ltb, leb, length, take, drop, map,
}
use svisual.Prelude.Bytes.{Bytes, codes, starts_with, find, str_eq, decode32}

abbrev pub begin_mess : Bytes
begin_mess = codes "=begin="

abbrev pub end_mess : Bytes
end_mess = codes "=end="

abbrev pub begin_len : ℕ
begin_len = 7

abbrev pub end_len : ℕ
end_len = 5

abbrev pub m_len : ℕ
m_len = 4

-- `std::string_view(s.data() + from, n)`
abbrev pub slice : Bytes → ℕ → ℕ → Bytes
slice s from n = take n (drop from s)

-- `int32_t allSz` as it is read at a begin mark; a negative one counts as 0, since the code
-- only goes on with `allSz > 0`.
unfoldable pub all_sz : Bytes → ℕ → ℕ
unfolding decode32
all_sz s st_pos = let w = decode32 (drop (st_pos + begin_len) s) in if ltb w (2 ^ 31) then w else 0

-- The test of the two nested `if`s: the size is positive, the payload and the end mark are there.
unfoldable pub complete : Bytes → ℕ → Bool
complete s st_pos =
    let sz = all_sz s st_pos in
    let end_pos = st_pos + begin_len + m_len + sz in
    ltb 0 sz && (leb (end_pos + end_len) (length s) && str_eq end_mess (slice s end_pos end_len))

-- `bePos` begins with a pair, and goes on with what the rest of the loop finds.
abbrev pub with_pair : ℕ × ℕ → Option (List (ℕ × ℕ)) → Option (List (ℕ × ℕ))
with_pair e none = none
with_pair e (some rest) = some (e ∷ rest)

-- The `while` loop, on fuel: the pairs of first and last position that it pushes on `bePos`.
-- `none` means that the fuel ran out.
unfoldable pub scan_loop : ℕ → Bytes → Option ℕ → Option (List (ℕ × ℕ))
scan_loop zero s st = none
scan_loop (suc fuel) s none = some []
scan_loop (suc fuel) s (some st_pos) =
    let first = st_pos + begin_len + m_len in
    let end_pos = first + all_sz s st_pos in
    let found = scan_loop fuel s (find begin_mess s (end_pos + end_len)) in
    let skipped = scan_loop fuel s (find begin_mess s (st_pos + begin_len)) in
    if ltb first (length s)
    then if complete s st_pos then with_pair (first, end_pos) found else skipped
    else some []

-- The pairs for all of `inout`. The fuel is more than the loop needs (`Bounds.scan-IsSome`).
unfoldable pub scan : Bytes → Option (List (ℕ × ℕ))
scan s = scan_loop (suc (suc (length s))) s (find begin_mess s 0)

-- The payloads that the pairs stand for, in order.
abbrev pub payloads : Bytes → List (ℕ × ℕ) → List Bytes
payloads s = map (λ e. slice s (e.0) (e.1 - e.0))

-- What `inout` keeps: everything after the last message, or all of it if there was none.
unfoldable pub leftover : Bytes → List (ℕ × ℕ) → Bytes
leftover s [] = s
leftover s ((first, end_pos) ∷ []) = drop (end_pos + end_len) s
leftover s (e ∷ d ∷ es) = leftover s (d ∷ es)

-- The messages that one call of `receiveData` takes out of `inout`, and what `inout` becomes.
unfoldable pub cut : Bytes → Option (List Bytes × Bytes)
cut s = elim (scan s) [ none ↦ none | some r ↦ some (payloads s r, leftover s r) ]
