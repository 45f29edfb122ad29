-- ===== src/Tests/Scan.antt =====
-- The scanning loop at concrete bytes.
use svisual.Prelude.{◌≡◌, refl, ◌≢◌, ◌++◌, List, [], ◌∷◌, inl, some, none, arith}
use svisual.Prelude.Bytes.{Bytes, codes, encode32}
use svisual.Server.Scan.{begin_mess, scan, cut}
use svisual.Server.Scan.Frames.{frame}
use svisual.Server.Scan.Stream.{stream, Pending, partial, cut-stream}
use svisual.Server.Scan.Bounds.{scan-IsSome}

abbrev hello : Bytes
hello = codes "hello"

-- A payload may hold the marks themselves.
abbrev marks : Bytes
marks = codes "=end==begin="

-- A begin mark and half of a size.
abbrev pub started : Bytes
started = begin_mess ++ (5 ∷ 0 ∷ [])

pub started-Pending : Pending started
unfolding svisual.Prelude.Bytes.find_at svisual.Prelude.Bytes.starts_with
started-Pending = partial (5 ∷ 0 ∷ []) refl refl (inl (omega arith))

-- Two whole messages and the start of a third, behind bytes that are no message.
cut_behind_noise :
    cut (codes "noise" ++ (frame hello ++ (frame marks ++ started)))
    ≡ some (hello ∷ marks ∷ [], started)
unfolding cut scan svisual.Server.Scan.scan_loop svisual.Server.Scan.complete
    svisual.Server.Scan.all_sz svisual.Server.Scan.leftover frame encode32
    svisual.Prelude.Bytes.find svisual.Prelude.Bytes.find_at svisual.Prelude.Bytes.starts_with
    svisual.Prelude.Bytes.str_eq svisual.Prelude.Bytes.decode32
cut_behind_noise = refl

cut-stream_example :
    cut (stream (hello ∷ marks ∷ []) ++ started) ≡ some (hello ∷ marks ∷ [], started)
cut-stream_example = cut-stream (hello ∷ marks ∷ []) started (omega arith) started-Pending

scan-IsSome_example : scan started ≢ none
scan-IsSome_example = scan-IsSome started
