-- ===== src/Server/Update/Restart.antt =====
-- The update thread (src/SVServer/src/thread_update.cpp) after a restart of the server: its archive
-- is new, while the signals are still those of before.
use svisual.Prelude.{ℕ, ◌≡◌, refl, ◌++◌, Bool, true, none, inl, inr, arith, Option-cases}
use svisual.Prelude.Bytes.{Bytes}
use svisual.Prelude.Maps.{lookup, has}
use svisual.Base.{Doubles}
use svisual.Server.Config.{Config}
use svisual.Server.Buffer.{InputData}
use svisual.Server.Archive
use svisual.Server.Archive.{FileResult}
use svisual.Server.Archive.Failure.{add_value_unknown}
use svisual.Server.Update.{Thread, push_record, archived, update_record}

-- A new archive has no signals.
archived_new :
    {D : Type 0} (known : Bytes → Bool) (ok : FileResult) (bp : InputData) (c : Config)
    (t : Thread D)
    → t.archive ≡ Archive.init c
    → t.cng.out_archive_ena ≡ true
    → archived known ok (bp.name ++ bp.module_name) bp.rec t ≡ none
unfolding Archive.init lookup
archived_new known ok bp c t new on =
    ground
      (arith, add_value_unknown known ok (bp.name ++ bp.module_name) bp.rec (Archive.init c) refl)

-- With the archive on, the first record of a signal that the server still knows is written outside
-- of the arrays of the new archive: `addSignal` is not called for it.
pub update_record_restarted :
    {D : Type 0} (ops : Doubles D) (now : ℕ) (ok : FileResult) (bp : InputData) (c : Config)
    (t : Thread D)
    → t.archive ≡ Archive.init c
    → t.cng.out_archive_ena ≡ true
    → has (bp.name ++ bp.module_name) t.sref ≡ true
    → has (bp.name ++ bp.module_name) t.registry.signals ≡ true
    → update_record ops now ok bp t ≡ none
unfolding update_record has
update_record_restarted ops now ok bp c t new on known there =
    let lost = archived_new (λ k. has k t.registry.signals) ok bp c t new on in
    elim (Option-cases (lookup (bp.name ++ bp.module_name) t.registry.signals)) [
      | inl gone ↦ absurd (ground arith)
      | inr (sd, found) ↦ elim (Option-cases (push_record ops t.cng bp.rec sd)) [
        | inl n ↦ ground arith
        | inr (sd', pushed) ↦ ground (arith, lost)
      ]
    ]
