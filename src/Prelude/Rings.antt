-- ===== src/Prelude/Rings.antt =====
-- A ring: a list used round and round over its first `sz` places. The elements that stand in it from
-- a place on, and what writes do to them.
use svisual.Prelude.Tests.{if◌then◌else◌, leb, ◌==◌}
use svisual.Prelude.Lists.{length, get_or, set, length-set, get_or-set_self, get_or-set_ne}
use Prim.Native.Nat.{ℕ, zero, suc, ◌+◌, ◌-◌, ◌≤◌, ◌<◌}
use mathlib.Core.Path.{◌≡◌, refl, sym, ap, ap₂, ◌∙◌}
use mathlib.Core.List.{List, [], ◌∷◌, ◌++◌, append_assoc, append-nil}
use native.Mathlib.Nat.{add-zero}
use native.Mathlib.Omega.{arith}

-- One place on, and any number of places less than two rounds.
abbrev pub next : ℕ → ℕ → ℕ
next sz i = if i + 1 == sz then 0 else i + 1

abbrev pub wrap : ℕ → ℕ → ℕ
wrap sz i = if leb sz i then i - sz else i

-- `n` writes from place `i` on.
abbrev pub write_all {ℓ} : {A : Type ℓ} → List A → ℕ → ℕ → List A → List A
write_all buffer sz i [] = buffer
write_all buffer sz i (d ∷ ds) = write_all (set buffer i d) sz (next sz i) ds

pub length-write_all {ℓ} :
    {A : Type ℓ} (ds buffer : List A) (sz i : ℕ) → length (write_all buffer sz i ds) ≡ length buffer
length-write_all [] buffer sz i = refl
length-write_all (d ∷ ds) buffer sz i =
    length-write_all ds (set buffer i d) sz (next sz i) ∙ length-set buffer i d

-- `o` stands for what is read outside of the list.
module _ {ℓ} {A : Type ℓ} (o : A) where
  -- The `n` elements from place `i` on, going round at `sz`.
  abbrev pub window : List A → ℕ → ℕ → ℕ → List A
  window buffer sz i zero = []
  window buffer sz i (suc n) = get_or buffer i o ∷ window buffer sz (next sz i) n

  -- A write just behind a window makes it longer by that element.
  pub window-set :
      (n : ℕ) (buffer : List A) (sz h i : ℕ) (d : A)
      → sz ≤ length buffer
      → h < sz
      → n < sz
      → i ≡ wrap sz (h + n)
      → window (set buffer i d) sz h (suc n) ≡ window buffer sz h n ++ (d ∷ [])
  window-set zero buffer sz h i d hb hh hn e = ground (arith, get_or-set_self buffer h d o)
  window-set (suc n) buffer sz h i d hb hh hn e =
      ap₂ ◌∷◌ (get_or-set_ne buffer i h d o (ground arith))
        (window-set n buffer sz (next sz h) i d hb (ground arith) (omega arith) (ground arith))

  -- Writing elements just behind a window makes it longer by them.
  pub window-write_all :
      (ds : List A) (n : ℕ) (buffer : List A) (sz h i : ℕ)
      → sz ≤ length buffer
      → h < sz
      → n + length ds < sz
      → i ≡ wrap sz (h + n)
      → window (write_all buffer sz i ds) sz h (n + length ds) ≡ window buffer sz h n ++ ds
  window-write_all [] n buffer sz h i hb hh hn e =
      ap (λ k. window buffer sz h k) (add-zero n) ∙ sym (append-nil (window buffer sz h n))
  window-write_all (d ∷ ds) n buffer sz h i hb hh hn e =
      ap (λ k. window (write_all (set buffer i d) sz (next sz i) ds) sz h k) moved
      ∙ window-write_all ds (suc n) (set buffer i d) sz h (next sz i)
          (omega (arith, length-set buffer i d)) hh (omega arith) (ground arith)
      ∙ ap (λ w. w ++ ds) (window-set n buffer sz h i d hb hh (omega arith) e)
      ∙ append_assoc (window buffer sz h n) (d ∷ []) ds
    where
      moved : n + suc (length ds) ≡ suc n + length ds
      moved = omega arith

  -- Writes behind a window and the room after it leave the window alone.
  pub window-set_outside :
      (n k : ℕ) (buffer : List A) (sz h i : ℕ) (d : A)
      → h < sz
      → n + k < sz
      → i ≡ wrap sz (h + (n + k))
      → window (set buffer i d) sz h n ≡ window buffer sz h n
  window-set_outside zero k buffer sz h i d hh hn e = refl
  window-set_outside (suc n) k buffer sz h i d hh hn e =
      ap₂ ◌∷◌ (get_or-set_ne buffer i h d o (ground arith)) (
        window-set_outside n k buffer sz (next sz h) i d (ground arith) (omega arith)
          (ground arith))
