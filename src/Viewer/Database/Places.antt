-- ===== src/Viewer/Database/Places.antt =====
-- The places of rows in the records that are read from the database
-- (src/SVViewer/src/db_loader/clickhouse_loader.cpp).
use svisual.Prelude.{
  ℕ, zero, suc, ◌+◌, ◌≡◌, refl, ap, ◌∙◌, List, [], ◌∷◌, ◌++◌, length, set, get_or, replicate, arith,
}
use svisual.Base.{RecData, Value}
use svisual.Graph.Window.{no_rec}
use svisual.Server.Database.{DataRow}
use svisual.Viewer.Database.{put_value}

-- The columns of a request: time and value.
abbrev pub columns : List DataRow → List (ℕ × ℕ)
columns [] = []
columns (r ∷ rs) = (r.ts, r.value) ∷ columns rs

pub columns-append : (rs ss : List DataRow) → columns (rs ++ ss) ≡ columns rs ++ columns ss
columns-append [] ss = refl
columns-append (r ∷ rs) ss = ap (λ cs. (r.ts, r.value) ∷ cs) (columns-append rs ss)

pub set-append {ℓ} :
    {A : Type ℓ} (xs ys : List A) (x y : A) → set (xs ++ x ∷ ys) (length xs) y ≡ xs ++ y ∷ ys
set-append [] ys x y = refl
set-append (z ∷ xs) ys x y = ap (λ zs. z ∷ zs) (set-append xs ys x y)

pub get_or-append {ℓ} :
    {A : Type ℓ} (xs ys : List A) (x o : A) → get_or (xs ++ x ∷ ys) (length xs) o ≡ x
get_or-append [] ys x o = refl
get_or-append (z ∷ xs) ys x o = get_or-append xs ys x o

-- A value goes to its place in the record that is being read.
pub put_value-append :
    (recs after : List RecData) (t0 t : ℕ) (vals tail : List Value) (v0 v : Value)
    → put_value
        (length recs)
        (length vals)
        t
        v
        (recs ++ record { begin_time = t0; vals = vals ++ v0 ∷ tail } ∷ after)
      ≡ recs ++ record { begin_time = t; vals = vals ++ v ∷ tail } ∷ after
put_value-append recs after t0 t vals tail v0 v =
    ap
      (λ r.
        set (recs ++ record { begin_time = t0; vals = vals ++ v0 ∷ tail } ∷ after) (length recs)
          (record { begin_time = t; vals = set r.vals (length vals) v }))
      (get_or-append recs after (record { begin_time = t0; vals = vals ++ v0 ∷ tail }) no_rec)
    ∙ ap
        (λ vs.
          set (recs ++ record { begin_time = t0; vals = vals ++ v0 ∷ tail } ∷ after) (length recs)
            (record { begin_time = t; vals = vs }))
        (set-append vals tail v0 v)
    ∙ set-append recs after (record { begin_time = t0; vals = vals ++ v0 ∷ tail })
        (record { begin_time = t; vals = vals ++ v ∷ tail })

pub replicate-append {ℓ} :
    {A : Type ℓ} (m n : ℕ) (a : A) → replicate (m + n) a ≡ replicate m a ++ replicate n a
replicate-append zero n a = ap (λ k. replicate k a) (omega arith)
replicate-append (suc m) n a = ap (λ k. replicate k a) e ∙ ap (λ l. a ∷ l) (replicate-append m n a)
  where
    e : suc m + n ≡ suc (m + n)
    e = omega arith

abbrev pub joined {ℓ} : {A : Type ℓ} → List (List A) → List A
joined [] = []
joined (xs ∷ xss) = xs ++ joined xss
