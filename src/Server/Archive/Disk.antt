-- ===== src/Server/Archive/Disk.antt =====
-- What the log and the halves of the archive hold of a signal.
use svisual.Prelude.{
  ℕ, zero, suc, ◌≡◌, refl, sym, ap, ◌∙◌, inl, inr, List, [], ◌∷◌, ◌++◌, Bool, true, false, none,
  some, if◌then◌else◌, take, All, arith, append-nil, append_assoc, Bool-cases,
}
use svisual.Prelude.Bytes.{Bytes, str_eq, str_eq_iff}
use svisual.Prelude.Maps.{lookup, has, Distinct}
use svisual.Base.{RecData}
use svisual.Server.Archive.{Half, Archive, entries}

-- What a half holds of a signal, and what the log has of it.
abbrev pub collected : Bytes → Half → List RecData
collected k h = elim (lookup k h) [ none ↦ [] | some s ↦ take s.pos s.recs ]

unfoldable pub on_disk : Bytes → List (Bytes × List RecData) → List RecData
on_disk k [] = []
on_disk k ((j, rs) ∷ d) = if str_eq j k then rs ++ on_disk k d else on_disk k d

-- All values of a signal that were ever added.
abbrev pub history : Bytes → Archive → List RecData
history k a = on_disk k a.disk ++ (collected k a.other ++ collected k a.active)

pub on_disk-append :
    (k : Bytes) (d e : List (Bytes × List RecData))
    → on_disk k (d ++ e) ≡ on_disk k d ++ on_disk k e
unfolding on_disk
on_disk-append k [] e = refl
on_disk-append k ((j, rs) ∷ d) e =
    ground (arith, on_disk-append k d e, append_assoc rs (on_disk k d) (on_disk k e))

pub on_disk-none :
    (known : Bytes → Bool) (k : Bytes) (h : Half)
    → has k h ≡ false
    → on_disk k (entries known h) ≡ []
unfolding on_disk entries has lookup
on_disk-none known k [] e = refl
on_disk-none known k ((j, s) ∷ h) e = ground (arith, on_disk-none known k h)

pub take_none : (n : ℕ) (rs : List RecData) → n ≡ 0 → take n rs ≡ []
take_none zero rs e = refl
take_none (suc n) rs e = absurd (omega arith)

-- Writing a half puts on the disk just what it holds.
pub on_disk-entries :
    (known : Bytes → Bool) (k : Bytes) (h : Half)
    → Distinct h
    → All (λ e. known (e.0) ≡ true) h
    → on_disk k (entries known h) ≡ collected k h
unfolding on_disk entries lookup
on_disk-entries known k [] d all = refl
on_disk-entries known k ((j, s) ∷ h) d all = elim (Bool-cases (str_eq j k)) [
  | inl same ↦ ground (
    arith,
    all.0,
    on_disk-none known k h (ap (λ i. has i h) (sym ((str_eq_iff j k).0 same)) ∙ d.0),
    append-nil (take s.pos s.recs),
    take_none s.pos s.recs,
  )
  | inr differ ↦ ground (arith, all.0, on_disk-entries known k h d.1 all.1)
]
