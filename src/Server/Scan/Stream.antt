-- ===== src/Server/Scan/Stream.antt =====
-- A stream of messages with the beginning of another one behind it: the loop cuts out exactly the
-- messages, and leaves the beginning for the next call.
use svisual.Prelude.{
  ℕ, suc, ◌+◌, ◌-◌, ◌≤◌, ◌<◌, ◌≡◌, refl, sym, ap, ap₂, ◌∙◌, ◌⊎◌, inl, inr, List, [], ◌∷◌, ◌++◌,
  false, none, some, length, length-append, append_assoc, append-nil, All, arith, drop, drop-append,
  drop-append_add, ltb, Bool-cases,
}
use svisual.Prelude.Bytes.{Bytes, find, find_at, find_at-append, find_at-eq-none, decode32}
use svisual.Server.Scan.{
  begin_mess, begin_len, m_len, end_len, slice, all_sz, complete, with_pair, scan_loop, scan,
  payloads, leftover, cut,
}
use native.Mathlib.Nat.{zero-add}
use svisual.Server.Scan.Frames.{
  frame, IsPayload, length-frame, drop_rest, slice_payload, scan_loop-frame,
}

unfoldable pub stream : List Bytes → Bytes
stream [] = []
stream (p ∷ ps) = frame p ++ stream ps

-- What may stand behind the last whole message: bytes with no begin mark, or a begin mark behind
-- which the size or the payload or the end mark is not all there yet.
pub data Pending (t : Bytes) : Type 0 where
  no_mark : find_at begin_mess t 0 ≡ none → Pending t
  partial :
      (rest : Bytes)
      → t ≡ begin_mess ++ rest
      → find_at begin_mess rest 0 ≡ none
      → (length rest ≤ m_len) ⊎ (length rest < m_len + decode32 rest + end_len)
      → Pending t

-- A turn of the loop at a mark whose message is not complete.
scan_loop_skipped :
    (fuel : ℕ) (s : Bytes) (st_pos : ℕ)
    → find begin_mess s (st_pos + begin_len) ≡ none
    → (ltb (st_pos + begin_len + m_len) (length s) ≡ false) ⊎ (complete s st_pos ≡ false)
    → scan_loop (suc (suc fuel)) s (some st_pos) ≡ some []
unfolding scan_loop
scan_loop_skipped fuel s st_pos none_left (inl short) = rw short
scan_loop_skipped fuel s st_pos none_left (inr open_end) =
    elim (Bool-cases (ltb (st_pos + begin_len + m_len) (length s))) [
      | inl long ↦ rw (long, open_end, none_left)
      | inr short ↦ rw short
    ]

-- A begin mark that stands behind `pre`, with `rest` behind it.
module _ (pre rest : Bytes) where
  abbrev marked : Bytes
  marked = pre ++ (begin_mess ++ rest)

  drop-marked : drop (length pre + begin_len) marked ≡ rest
  drop-marked = drop-append_add begin_len pre (begin_mess ++ rest) ∙ drop-append begin_mess rest

  length-marked : length marked ≡ length pre + begin_len + length rest
  length-marked =
      omega (arith, length-append pre (begin_mess ++ rest), length-append begin_mess rest)

  find-marked :
      find_at begin_mess rest 0 ≡ none → find begin_mess marked (length pre + begin_len) ≡ none
  unfolding find
  find-marked e = rw drop-marked (find_at-eq-none begin_mess rest 0 (length pre + begin_len) e)

  complete-marked :
      length rest < m_len + decode32 rest + end_len → complete marked (length pre) ≡ false
  unfolding complete all_sz
  complete-marked h = rw (drop-marked, length-marked) (ground arith)

  not_complete :
      (length rest ≤ m_len) ⊎ (length rest < m_len + decode32 rest + end_len)
      → (ltb (length pre + begin_len + m_len) (length marked) ≡ false)
        ⊎ (complete marked (length pre) ≡ false)
  not_complete (inl h) = inl (rw length-marked (ground arith))
  not_complete (inr h) = inr (complete-marked h)

-- The loop cuts nothing out of what is still pending.
scan_loop-Pending :
    (fuel : ℕ) (pre t : Bytes)
    → Pending t
    → scan_loop (suc (suc fuel)) (pre ++ t) (find_at begin_mess t (length pre)) ≡ some []
unfolding scan_loop
scan_loop-Pending fuel pre t (no_mark e) = rw (find_at-eq-none begin_mess t 0 (length pre) e)
scan_loop-Pending fuel pre t (partial rest e none_left short) =
    rw (e, find_at-append begin_mess rest (length pre))
      (scan_loop_skipped fuel (marked pre rest) (length pre) (find-marked pre rest none_left)
        (not_complete pre rest short))

-- The pairs of the messages of a stream whose first byte has position `i`.
pairs : ℕ → List Bytes → List (ℕ × ℕ)
pairs i [] = []
pairs i (p ∷ ps) =
    (i + begin_len + m_len, i + begin_len + m_len + length p)
    ∷ pairs (i + begin_len + m_len + length p + end_len) ps

-- Moving one message from the stream to what is already behind the loop.
text-shift :
    (pre p : Bytes) (ps : List Bytes) (t : Bytes)
    → pre ++ (stream (p ∷ ps) ++ t) ≡ (pre ++ frame p) ++ (stream ps ++ t)
unfolding stream
text-shift pre p ps t =
    ap (λ z. pre ++ z) (append_assoc (frame p) (stream ps) t)
    ∙ sym (append_assoc pre (frame p) (stream ps ++ t))

length-shift :
    (pre p : Bytes) → length (pre ++ frame p) ≡ length pre + begin_len + m_len + length p + end_len
length-shift pre p = omega (arith, length-append pre (frame p), length-frame p)

find_at-frame : (p t : Bytes) (i : ℕ) → find_at begin_mess (frame p ++ t) i ≡ some i
unfolding frame
find_at-frame p t i =
    ap (λ z. find_at begin_mess z i) (append_assoc begin_mess _ t) ∙ find_at-append begin_mess _ i

scan_loop-stream :
    (ps : List Bytes) (pre t : Bytes) (fuel : ℕ)
    → All IsPayload ps
    → Pending t
    → scan_loop
        (length ps + suc (suc fuel))
        (pre ++ (stream ps ++ t))
        (find_at begin_mess (stream ps ++ t) (length pre))
      ≡ some (pairs (length pre) ps)
unfolding stream pairs
scan_loop-stream [] pre t fuel ok more = rw zero-add (scan_loop-Pending fuel pre t more)
scan_loop-stream (p ∷ ps) pre t fuel ok more =
    rw (append_assoc (frame p) (stream ps) t, find_at-frame p (stream ps ++ t) (length pre), turns)
      (scan_loop-frame pre p (stream ps ++ t) ok.0 (length ps + suc (suc fuel))
        ∙ ap (with_pair _) (
            rw (append_assoc pre (frame p) (stream ps ++ t), length-shift pre p) at
              (scan_loop-stream ps (pre ++ frame p) t fuel ok.1 more)))
  where
    turns : suc (length ps) + suc (suc fuel) ≡ suc (length ps + suc (suc fuel))
    turns = omega arith

payloads-pairs :
    (ps : List Bytes) (pre t : Bytes)
    → payloads (pre ++ (stream ps ++ t)) (pairs (length pre) ps) ≡ ps
unfolding stream pairs
payloads-pairs [] pre t = refl
payloads-pairs (p ∷ ps) pre t = ap₂ ◌∷◌ first (
    ap₂ (λ z i. payloads z (pairs i ps)) (text-shift pre p ps t) (sym (length-shift pre p))
    ∙ payloads-pairs ps (pre ++ frame p) t)
  where
    size : length pre + begin_len + m_len + length p - (length pre + begin_len + m_len) ≡ length p
    size = omega arith

    first :
        slice
          (pre ++ ((frame p ++ stream ps) ++ t))
          (length pre + begin_len + m_len)
          (length pre + begin_len + m_len + length p - (length pre + begin_len + m_len))
        ≡ p
    first = rw (size, append_assoc (frame p) (stream ps) t) (slice_payload pre p (stream ps ++ t))

leftover-pairs :
    (p : Bytes) (ps : List Bytes) (pre t : Bytes)
    → leftover (pre ++ (stream (p ∷ ps) ++ t)) (pairs (length pre) (p ∷ ps)) ≡ t
unfolding stream pairs leftover
leftover-pairs p [] pre t =
    ap (λ z. drop (length pre + begin_len + m_len + length p + end_len) (pre ++ (z ++ t)))
      (append-nil (frame p))
    ∙ drop_rest pre p t
leftover-pairs p (q ∷ ps) pre t =
    ap₂ (λ z i. leftover z (pairs i (q ∷ ps))) (text-shift pre p (q ∷ ps) t)
      (sym (length-shift pre p))
    ∙ leftover-pairs q ps (pre ++ frame p) t

leftover-stream : (ps : List Bytes) (t : Bytes) → leftover (stream ps ++ t) (pairs 0 ps) ≡ t
leftover-stream [] t = unfold stream pairs leftover in refl
leftover-stream (p ∷ ps) t = leftover-pairs p ps [] t

length-stream-ge : (ps : List Bytes) → length ps ≤ length (stream ps)
unfolding stream
length-stream-ge [] = omega arith
length-stream-ge (p ∷ ps) =
    omega (arith, length-stream-ge ps, length-append (frame p) (stream ps), length-frame p)

-- One call cuts exactly the messages of the stream out, in order, and keeps exactly what is
-- pending behind them, in which no begin mark stands but its own.
pub cut-stream :
    (ps : List Bytes) (t : Bytes)
    → All IsPayload ps
    → Pending t
    → cut (stream ps ++ t) ≡ some (ps, t)
unfolding cut
cut-stream ps t ok more =
    rw (scanned, cut) (ap₂ (λ a b. some (a, b)) (payloads-pairs ps [] t) (leftover-stream ps t))
  where
    spare : ℕ
    spare = length (stream ps ++ t) - length ps

    turns : suc (suc (length (stream ps ++ t))) ≡ length ps + suc (suc spare)
    turns = omega (arith, length-stream-ge ps, length-append (stream ps) t)

    scanned : scan (stream ps ++ t) ≡ some (pairs 0 ps)
    scanned = unfold scan find in rw turns (scan_loop-stream ps [] t spare ok more)
