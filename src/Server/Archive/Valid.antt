-- ===== src/Server/Archive/Valid.antt =====
-- The archive's invariant, and the change of the halves.
use svisual.Prelude.{
  ℕ, ◌≤◌, ◌<◌, ◌≡◌, refl, sym, ap, ap₂, subst, ◌∙◌, ◌⊎◌, inl, inr, [], ◌∷◌, ◌++◌, Bool, true, false,
  length, All, arith, append-nil, append_assoc, Bool-cases,
}
use svisual.Prelude.Bytes.{Bytes}
use svisual.Prelude.Maps.{
  lookup, has, map_values, Distinct, has-map_values, map_values-Distinct, All-map_values,
}
use svisual.Server.Config.{Config}
use svisual.Server.Archive.{
  FileResult, all_written, Slot, Half, Archive, entries, reset, copy_to_disk_impl, join,
  copy_to_disk,
}
use svisual.Server.Archive.Disk.{
  collected, on_disk, history, on_disk-append, take_none, on_disk-entries,
}

-- The places of the signals: a half has one for each signal, and does not take more than there are.
abbrev pub SlotFits : ℕ → Slot → Type 0
SlotFits n s = (s.pos ≤ n) × (length s.recs ≡ n)

abbrev pub HasRoom : ℕ → Slot → Type 0
HasRoom n s = (s.pos < n) × (length s.recs ≡ n)

pub record IsHalf (known : Bytes → Bool) (n : ℕ) (h : Half) : Type 0 where
  pub distinct : Distinct h
  pub registered : All (λ e. known (e.0) ≡ true) h
  pub fits : All (λ e. SlotFits n (e.1)) h

-- The active half has room for another value of each signal; the other one is empty, unless it is
-- being saved; both have the same signals, all of which the server knows.
pub record IsValid (known : Bytes → Bool) (a : Archive) : Type 0 where
  pub positive : 0 < a.copy_sz
  pub active_half : IsHalf known a.copy_sz a.active
  pub other_half : IsHalf known a.copy_sz a.other
  pub room : All (λ e. HasRoom a.copy_sz (e.1)) a.active
  pub same : (k : Bytes) → has k a.active ≡ has k a.other
  pub saved : (a.saving ≡ true) ⊎ All (λ e. e.1.pos ≡ 0) a.other

-- Writing is on, and the file is written to its end.
abbrev pub Writes : FileResult → Archive → Type 0
Writes ok a = (a.cng.out_archive_ena ≡ true) × (ok ≡ all_written)

pub impl_lem :
    (known : Bytes → Bool) (c : Config) (h : Half)
    → c.out_archive_ena ≡ true
    → copy_to_disk_impl known all_written c h ≡ (entries known h, reset h)
unfolding copy_to_disk_impl entries map_values
impl_lem known c [] e = refl
impl_lem known c (x ∷ h) e = ground arith

pub All-registered_reset :
    (known : Bytes → Bool) (h : Half)
    → All (λ e. known (e.0) ≡ true) h
    → All (λ e. known (e.0) ≡ true) (reset h)
unfolding map_values
All-registered_reset known [] a = tt
All-registered_reset known (e ∷ h) a = (a.0, All-registered_reset known h a.1)

pub reset-IsHalf :
    (known : Bytes → Bool) (n : ℕ) (h : Half) → IsHalf known n h → IsHalf known n (reset h)
reset-IsHalf known n h v = record {
  distinct = map_values-Distinct _ h v.distinct;
  registered = All-registered_reset known h v.registered;
  fits = All-map_values (SlotFits n) (SlotFits n) _ h (λ s f. (omega arith, f.1)) v.fits;
}

pub reset-zero :
    (n : ℕ) (h : Half) → All (λ e. SlotFits n (e.1)) h → All (λ e. e.1.pos ≡ 0) (reset h)
reset-zero n h a = All-map_values (SlotFits n) (λ s. s.pos ≡ 0) _ h (λ s f. refl) a

pub room_of_zero :
    (n : ℕ) (h : Half)
    → 0 < n
    → All (λ e. SlotFits n (e.1)) h
    → All (λ e. e.1.pos ≡ 0) h
    → All (λ e. HasRoom n (e.1)) h
room_of_zero n [] p a z = tt
room_of_zero n (e ∷ h) p a z = (omega arith, room_of_zero n h p a.1 z.1)

pub collected_of_zero : (k : Bytes) (h : Half) → All (λ e. e.1.pos ≡ 0) h → collected k h ≡ []
unfolding lookup
collected_of_zero k [] z = refl
collected_of_zero k ((j, s) ∷ h) z =
    ground (arith, z.0, take_none s.pos s.recs, collected_of_zero k h z.1)

-- `b` is `a` after the thread has been waited for: the other half is empty, and the history of
-- every signal is as it was.
pub record Joined (known : Bytes → Bool) (a b : Archive) : Type 0 where
  pub half : IsHalf known a.copy_sz b.other
  pub zero_pos : All (λ e. e.1.pos ≡ 0) b.other
  pub keys : (k : Bytes) → has k b.other ≡ has k a.other
  pub kept : (k : Bytes) → history k b ≡ history k a
  pub act : b.active ≡ a.active
  pub size : b.copy_sz ≡ a.copy_sz
  pub conf : b.cng ≡ a.cng

-- The archive once its thread has ended.
abbrev pub saved_state : (Bytes → Bool) → Archive → Archive
saved_state known a = record a {
  saving = false;
  other = reset a.other;
  disk = a.disk ++ entries known a.other;
}

pub join_saving :
    (known : Bytes → Bool) (ok : FileResult) (a : Archive)
    → Writes ok a
    → a.saving ≡ true
    → join known ok a ≡ saved_state known a
unfolding join
join_saving known ok a w s = rw (s, w.1, impl_lem known a.cng a.other w.0)

pub join_idle :
    (known : Bytes → Bool) (ok : FileResult) (a : Archive) → a.saving ≡ false → join known ok a ≡ a
unfolding join
join_idle known ok a s = rw s

pub history-saved_state :
    (known : Bytes → Bool) (a : Archive) (k : Bytes)
    → IsHalf known a.copy_sz a.other
    → history k (saved_state known a) ≡ history k a
history-saved_state known a k v =
    ap₂ (λ d o. d ++ (o ++ collected k a.active)) (on_disk-append k a.disk (entries known a.other))
      (collected_of_zero k (reset a.other) (reset-zero a.copy_sz a.other v.fits))
    ∙ append_assoc (on_disk k a.disk) (on_disk k (entries known a.other)) (collected k a.active)
    ∙ ap (λ o. on_disk k a.disk ++ (o ++ collected k a.active))
        (on_disk-entries known k a.other v.distinct v.registered)

-- What `copyToDisk(false)` asks of the archive; the active half may be full.
pub record CanSwap (known : Bytes → Bool) (a : Archive) : Type 0 where
  pub positive : 0 < a.copy_sz
  pub active_half : IsHalf known a.copy_sz a.active
  pub other_half : IsHalf known a.copy_sz a.other
  pub same : (k : Bytes) → has k a.active ≡ has k a.other
  pub saved : (a.saving ≡ true) ⊎ All (λ e. e.1.pos ≡ 0) a.other

pub join-Joined :
    (known : Bytes → Bool) (ok : FileResult) (a : Archive)
    → CanSwap known a
    → Writes ok a
    → Joined known a (join known ok a)
join-Joined known ok a v w = elim (Bool-cases a.saving) [
  | inl s ↦ subst (Joined known a) (sym (join_saving known ok a w s)) (record {
    half = reset-IsHalf known a.copy_sz a.other v.other_half;
    zero_pos = reset-zero a.copy_sz a.other v.other_half.fits;
    keys = λ k. has-map_values _ k a.other;
    kept = λ k. history-saved_state known a k v.other_half;
    act = refl;
    size = refl;
    conf = refl;
  })
  | inr n ↦ subst (Joined known a) (sym (join_idle known ok a n)) (record {
    half = v.other_half;
    zero_pos = not_saving v.saved n;
    keys = λ k. refl;
    kept = λ k. refl;
    act = refl;
    size = refl;
    conf = refl;
  })
]
  where
    not_saving :
        (a.saving ≡ true) ⊎ All (λ e. e.1.pos ≡ 0) a.other
        → a.saving ≡ false
        → All (λ e. e.1.pos ≡ 0) a.other
    not_saving (inl s) n = cc
    not_saving (inr z) n = z

-- `copyToDisk(false)` makes the archive valid, with every signal's history as it was.
pub copy_to_disk_lem :
    (known : Bytes → Bool) (ok : FileResult) (a : Archive)
    → CanSwap known a
    → Writes ok a
    → IsValid known (copy_to_disk known ok a)
      × ((k : Bytes) → history k (copy_to_disk known ok a) ≡ history k a)
unfolding copy_to_disk
copy_to_disk_lem known ok a v w = (
  record {
    positive = rw j.size v.positive;
    active_half = rw j.size j.half;
    other_half = rw (j.size, j.act) v.active_half;
    room =
        rw j.size
          (room_of_zero a.copy_sz (join known ok a).other v.positive j.half.fits j.zero_pos);
    same = λ k. j.keys k ∙ sym (v.same k) ∙ ap (has k) (sym j.act);
    saved = inl refl;
  },
  λ k. swapped k ∙ j.kept k,
)
  where
    j : Joined known a (join known ok a)
    j = join-Joined known ok a v w

    b : Archive
    b = join known ok a

    swapped :
        (k : Bytes)
        → on_disk k b.disk ++ (collected k b.active ++ collected k b.other) ≡ history k b
    swapped k =
        let z = collected_of_zero k b.other j.zero_pos in
        ap (λ o. on_disk k b.disk ++ (collected k b.active ++ o)) z
        ∙ ap (λ o. on_disk k b.disk ++ o) (append-nil (collected k b.active))
        ∙ ap (λ o. on_disk k b.disk ++ (o ++ collected k b.active)) (sym z)
