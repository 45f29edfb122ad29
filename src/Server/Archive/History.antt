-- ===== src/Server/Archive/History.antt =====
-- Where every file is written to its end, no value is lost or made up on the way to the disk.
use svisual.Prelude.{
  ℕ, zero, suc, ◌+◌, ◌<◌, ◌≡◌, refl, sym, ap, ◌∙◌, ◌≢◌, inl, inr, List, [], ◌∷◌, ◌++◌, Bool, true,
  false, none, some, if◌then◌else◌, ltb, ◌==◌, length, set, take, All, arith, append-nil,
  append_assoc, length-set, Bool-cases, Option-cases,
}
use svisual.Prelude.Bytes.{Bytes, str_eq, str_eq_iff}
use svisual.Prelude.Maps.{
  lookup, has, adjust, lookup-adjust, has-adjust, adjust-Distinct, lookup-All, All-adjust,
  All-adjust_keys,
}
use mathlib.Core.Option.{some-injective}
use svisual.Base.{RecData}
use svisual.Server.Archive.{FileResult, Slot, Half, Archive, copy_to_disk, put, add_value}
use svisual.Server.Archive.Disk.{collected, on_disk, history}
use svisual.Server.Archive.Valid.{
  SlotFits, HasRoom, Writes, copy_to_disk_lem, IsHalf, IsValid, CanSwap,
}

-- The archive with one more value, before any change of the halves.
abbrev stored : Bytes → RecData → Archive → Archive
stored sign rd a = record a { active = adjust sign (put rd) a.active }

take-put :
    (n : ℕ) (rs : List RecData) (rd : RecData)
    → n < length rs
    → take (n + 1) (set rs n rd) ≡ take n rs ++ (rd ∷ [])
take-put n [] rd h = absurd (omega arith)
take-put zero (r ∷ rs) rd h = refl
take-put (suc n) (r ∷ rs) rd h =
    ap (λ k. take k (r ∷ set rs n rd)) e ∙ ap (λ t. r ∷ t) (take-put n rs rd (omega arith))
  where
    e : suc n + 1 ≡ suc (n + 1)
    e = omega arith

-- A value goes behind those that the half holds of its signal, and of no other.
collected-put :
    (k sign : Bytes) (rd : RecData) (h : Half) (s : Slot)
    → lookup sign h ≡ some s
    → s.pos < length s.recs
    → collected k (adjust sign (put rd) h)
      ≡ (if str_eq sign k then collected k h ++ (rd ∷ []) else collected k h)
collected-put k sign rd h s e room = elim (Bool-cases (str_eq sign k)) [
  | inl same ↦ ground (
    arith,
    lookup-adjust sign k (put rd) h,
    ap (λ i. lookup i h) ((str_eq_iff sign k).0 same),
    take-put s.pos s.recs rd room,
  )
  | inr differ ↦ ground (arith, lookup-adjust sign k (put rd) h)
]

stored-fits :
    (known : Bytes → Bool) (sign : Bytes) (rd : RecData) (a : Archive)
    → IsValid known a
    → All (λ e. SlotFits a.copy_sz (e.1)) (adjust sign (put rd) a.active)
stored-fits known sign rd a v =
    All-adjust (SlotFits a.copy_sz) sign (put rd) a.active v.active_half.fits (λ s e. ground (
      arith,
      length-set s.recs s.pos rd,
      lookup-All (λ _ t. HasRoom a.copy_sz t) sign a.active v.room e,
    ))

stored-IsHalf :
    (known : Bytes → Bool) (sign : Bytes) (rd : RecData) (a : Archive)
    → IsValid known a
    → IsHalf known a.copy_sz (adjust sign (put rd) a.active)
stored-IsHalf known sign rd a v = record {
  distinct = adjust-Distinct sign (put rd) a.active v.active_half.distinct;
  registered =
      All-adjust_keys (λ k. known k ≡ true) sign (put rd) a.active v.active_half.registered;
  fits = stored-fits known sign rd a v;
}

stored-CanSwap :
    (known : Bytes → Bool) (sign : Bytes) (rd : RecData) (a : Archive)
    → IsValid known a
    → CanSwap known (stored sign rd a)
stored-CanSwap known sign rd a v = record {
  positive = v.positive;
  active_half = stored-IsHalf known sign rd a v;
  other_half = v.other_half;
  same = λ k. has-adjust sign k (put rd) a.active ∙ v.same k;
  saved = v.saved;
}

-- With a place left behind the value the halves stay as they are.
stored-IsValid :
    (known : Bytes → Bool) (sign : Bytes) (rd : RecData) (a : Archive) (s : Slot)
    → IsValid known a
    → lookup sign a.active ≡ some s
    → (s.pos + 1 == a.copy_sz) ≡ false
    → IsValid known (stored sign rd a)
stored-IsValid known sign rd a s v found more = record {
  positive = v.positive;
  active_half = stored-IsHalf known sign rd a v;
  other_half = v.other_half;
  room = All-adjust (HasRoom a.copy_sz) sign (put rd) a.active v.room (λ t e. ground (
    arith,
    length-set t.recs t.pos rd,
    lookup-All (λ _ u. HasRoom a.copy_sz u) sign a.active v.room e,
    some-injective (sym found ∙ e),
  ));
  same = λ k. has-adjust sign k (put rd) a.active ∙ v.same k;
  saved = v.saved;
}

history-stored :
    (k sign : Bytes) (rd : RecData) (a : Archive) (s : Slot)
    → lookup sign a.active ≡ some s
    → s.pos < length s.recs
    → history k (stored sign rd a) ≡ history k a ++ (if str_eq sign k then rd ∷ [] else [])
history-stored k sign rd a s found room =
    ap (λ c. on_disk k a.disk ++ (collected k a.other ++ c))
      (collected-put k sign rd a.active s found room)
    ∙ elim (Bool-cases (str_eq sign k)) [
      | inl same ↦ rw same (simp append_assoc)
      | inr differ ↦ rw (differ, append-nil)
    ]

has-ne-none : (k : Bytes) (h : Half) → has k h ≡ true → lookup k h ≢ none
unfolding has
has-ne-none k h e n = ground arith

-- Where writing is on and the file that is being saved is written to its end, a value that is added
-- for a signal of a valid archive is written inside the signal's places; the
-- archive stays valid; and the history of the signal, on the disk, in the half that is being saved
-- and in the active half, grows by just this value, and that of no other signal changes.
pub add_value_lem :
    (known : Bytes → Bool) (ok : FileResult) (sign : Bytes) (rd : RecData) (a : Archive)
    → IsValid known a
    → Writes ok a
    → has sign a.active ≡ true
    → (b : Archive) × (add_value known ok sign rd a ≡ some b)
      × IsValid known b
      × ((k : Bytes) → history k b ≡ history k a ++ (if str_eq sign k then rd ∷ [] else []))
unfolding add_value
add_value_lem known ok sign rd a v w there = elim (Option-cases (lookup sign a.active)) [
  | inl gone ↦ absurd (has-ne-none sign a.active there gone)
  | inr (s, found) ↦ elim (Bool-cases (s.pos + 1 == a.copy_sz)) [
    | inl full ↦
        let c = copy_to_disk_lem known ok (stored sign rd a) (stored-CanSwap known sign rd a v) w in
        (
          copy_to_disk known ok (stored sign rd a),
          rw (found, inside s found, full, add_value),
          c.0,
          λ k. c.1 k ∙ history-stored k sign rd a s found (room s found),
        )
    | inr more ↦ (
      stored sign rd a,
      rw (found, inside s found, more, add_value),
      stored-IsValid known sign rd a s v found more,
      λ k. history-stored k sign rd a s found (room s found),
    )
  ]
]
  where
    room : (s : Slot) → lookup sign a.active ≡ some s → s.pos < length s.recs
    room s found = omega (arith, lookup-All (λ _ t. HasRoom a.copy_sz t) sign a.active v.room found)

    inside : (s : Slot) → lookup sign a.active ≡ some s → ltb s.pos (length s.recs) ≡ true
    inside s found = ground (arith, room s found)
