-- ===== src/Server/Archive/Failure.antt =====
-- What becomes of the archive when the file cannot be opened, or a signal was never added.
use svisual.Prelude.{
  ℕ, ◌<◌, ◌⊎◌, inl, inr, ltb, ◌≤◌, ◌≡◌, refl, [], ◌∷◌, Bool, true, none, some, length, arith,
}
use svisual.Prelude.Bytes.{Bytes}
use svisual.Prelude.Maps.{lookup}
use svisual.Base.{RecData}
use svisual.Server.Config.{Config}
use svisual.Server.Archive.{
  FileResult, no_file, broken, entries, Slot, Half, Archive, copy_to_disk_impl, join, copy_to_disk,
  add_value,
}

-- A signal that the archive does not have is written outside of an empty array. A new archive has
-- no signals: after a restart of the server, which keeps its signals, the first value of one of them
-- goes there.
pub add_value_unknown :
    (known : Bytes → Bool) (ok : FileResult) (sign : Bytes) (rd : RecData) (a : Archive)
    → lookup sign a.active ≡ none
    → add_value known ok sign rd a ≡ none
unfolding add_value
add_value_unknown known ok sign rd a e = rw (e, add_value)

-- The file is not written to its end: it cannot be opened, or a block cannot be compressed, behind
-- the blocks of fewer signals than there are to write.
abbrev pub Fails : (Bytes → Bool) → FileResult → Half → Type 0
Fails known ok h = (ok ≡ no_file) ⊎ ((n : ℕ) × (ok ≡ broken n) × (n < length (entries known h)))

impl_failed :
    (known : Bytes → Bool) (ok : FileResult) (c : Config) (h : Half)
    → c.out_archive_ena ≡ true
    → Fails known ok h
    → (copy_to_disk_impl known ok c h).1 ≡ h
unfolding copy_to_disk_impl
impl_failed known ok c [] e f = refl
impl_failed known ok c (x ∷ h) e (inl none_open) = rw (e, none_open) refl
impl_failed known ok c (x ∷ h) e (inr (n, stopped, early)) =
    let inside : ltb n (length (entries known (x ∷ h))) ≡ true = ground arith in
    rw (e, stopped, inside) refl

-- If the file cannot be opened, or a block cannot be compressed, the half that was to be saved keeps
-- its counts. When the halves change again, a signal whose places in it were full is written outside
-- of them.
pub add_value_after_failure :
    (known : Bytes → Bool) (failed ok : FileResult) (sign : Bytes) (rd : RecData) (a : Archive)
    (s : Slot)
    → a.cng.out_archive_ena ≡ true
    → Fails known failed a.other
    → lookup sign a.other ≡ some s
    → length s.recs ≤ s.pos
    → add_value known ok sign rd (copy_to_disk known failed a) ≡ none
unfolding add_value copy_to_disk join
add_value_after_failure known failed ok sign rd a s ena f found full =
    ground (arith, impl_failed known failed a.cng a.other ena f)
