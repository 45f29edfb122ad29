-- ===== src/Server/Scan/Frames.antt =====
-- What the scanning loop makes of a stream of well-formed messages.
use svisual.Prelude.{
  ℕ, suc, ◌+◌, ◌<◌, ◌^◌, ◌≡◌, sym, ap, ◌∙◌, ◌++◌, true, some, ltb, length, take, drop,
  length-append, drop-append, drop-append_add, drop-append_of_length, take-append, append_assoc,
  drop-drop, arith, tests,
}
use svisual.Prelude.Bytes.{
  Bytes, find, find_at, encode32, decode32-encode32, length-encode32, str_eq,
}
use svisual.Server.Scan.{
  begin_mess, end_mess, begin_len, m_len, end_len, slice, all_sz, complete, with_pair, scan_loop,
}

-- One message of a client.
unfoldable pub frame : Bytes → Bytes
frame p = begin_mess ++ (encode32 (length p) ++ (p ++ end_mess))

abbrev pub IsPayload : Bytes → Type 0
IsPayload p = (0 < length p) × (length p < 2 ^ 31)

pub length-frame : (p : Bytes) → length (frame p) ≡ length p + 16
unfolding frame encode32
length-frame p = omega (arith, length-append p end_mess)

-- A turn of the loop at a message that is complete.
scan_loop_found :
    (fuel : ℕ) (s : Bytes) (st_pos : ℕ)
    → ltb (st_pos + begin_len + m_len) (length s) ≡ true
    → complete s st_pos ≡ true
    → scan_loop (suc fuel) s (some st_pos)
      ≡ with_pair
          (st_pos + begin_len + m_len, st_pos + begin_len + m_len + all_sz s st_pos)
          (scan_loop fuel s
            (find begin_mess s (st_pos + begin_len + m_len + all_sz s st_pos + end_len)))
unfolding scan_loop
scan_loop_found fuel s st_pos h k = rw (h, k)

-- The parts of a message that stands behind `pre` and before `t`.
module _ (pre p t : Bytes) where
  abbrev pub text : Bytes
  text = pre ++ (frame p ++ t)

  drop_mark : drop (length pre + begin_len) text ≡ encode32 (length p) ++ (p ++ (end_mess ++ t))
  unfolding frame encode32
  drop_mark =
      drop-append_add begin_len pre (frame p ++ t)
      ∙ ap (λ z. encode32 (length p) ++ z) (append_assoc p end_mess t)

  drop_payload : drop (length pre + begin_len + m_len) text ≡ p ++ (end_mess ++ t)
  drop_payload =
      sym (drop-drop (length pre + begin_len) m_len text)
      ∙ ap (drop m_len) drop_mark
      ∙ drop-append_of_length m_len (encode32 (length p)) (p ++ (end_mess ++ t)) (length-encode32 _)

  drop_end : drop (length pre + begin_len + m_len + length p) text ≡ end_mess ++ t
  drop_end =
      sym (drop-drop (length pre + begin_len + m_len) (length p) text)
      ∙ ap (drop (length p)) drop_payload
      ∙ drop-append p (end_mess ++ t)

  pub drop_rest : drop (length pre + begin_len + m_len + length p + end_len) text ≡ t
  drop_rest =
      sym (drop-drop (length pre + begin_len + m_len + length p) end_len text)
      ∙ ap (drop end_len) drop_end
      ∙ drop-append end_mess t

  length-text : length text ≡ length pre + (length p + 16) + length t
  length-text =
      omega (arith, length-append pre (frame p ++ t), length-append (frame p) t, length-frame p)

  pub slice_payload : slice text (length pre + begin_len + m_len) (length p) ≡ p
  slice_payload = ap (take (length p)) drop_payload ∙ take-append p (end_mess ++ t)

  module _ (ok : IsPayload p) where
    all_sz-text : all_sz text (length pre) ≡ length p
    unfolding all_sz
    all_sz-text =
        rw (drop_mark, decode32-encode32 (length p) (p ++ (end_mess ++ t)) (omega arith))
          (ground arith)

    complete-text : complete text (length pre) ≡ true
    unfolding complete str_eq
    complete-text = rw (all_sz-text, drop_end) (ground (arith, length-text))

    -- One turn of the loop cuts the message out and goes on behind it.
    pub scan_loop-frame :
        (fuel : ℕ)
        → scan_loop (suc fuel) text (some (length pre))
          ≡ with_pair
              (length pre + begin_len + m_len, length pre + begin_len + m_len + length p)
              (scan_loop fuel text
                (find_at begin_mess t (length pre + begin_len + m_len + length p + end_len)))
    unfolding find
    scan_loop-frame fuel =
        scan_loop_found fuel text (length pre) (omega (tests, length-text)) complete-text
        ∙ rw (all_sz-text, drop_rest)
