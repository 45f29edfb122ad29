-- ===== src/Arduino/Tree.antt =====
-- `Map` of the Arduino client (src/SVArduino/sv_binTree.h): a binary tree from names to pointers, and
-- the list of the pointers in the order of insertion. A pointer is its place in that list.
use svisual.Prelude.{
  ℕ, ◌≡◌, List, [], ◌∷◌, ◌++◌, Option, none, some, if◌then◌else◌, length, get_elem?, arith,
}
use svisual.Prelude.Bytes.{Bytes, str_eq, str_lt, str_eq_iff, str_eq_refl}
use svisual.Client.{ValueRec}

-- `node*`
pub data Tree : Type 0 where
  leaf : Tree
  node : Bytes → ℕ → Tree → Tree → Tree

pub record ValueMap : Type 0 where
  pub root : Tree
  pub nods : List ValueRec

-- The loop of `insert`.
unfoldable pub insert : Bytes → ℕ → Tree → Tree
insert k i leaf = node k i leaf leaf
insert k i (node j n l r) =
    let left = insert k i l in
    let right = insert k i r in if str_lt k j then node j n left r else node j n l right

unfoldable pub map_insert : Bytes → ValueRec → ValueMap → ValueMap
map_insert k v m = record { root = insert k (length m.nods) m.root; nods = m.nods ++ (v ∷ []) }

-- `find`
unfoldable pub find : Bytes → Tree → Option ℕ
find k leaf = none
find k (node j n l r) =
    let left = find k l in
    let right = find k r in if str_eq k j then some n else if str_lt k j then left else right

-- `at`, `size`
abbrev pub value_at : ℕ → ValueMap → Option ValueRec
value_at it m = get_elem? m.nods it

-- A name that is new is found after it is inserted, and every other name is found as before. The
-- order of the tree need not be known for it.
pub find-insert :
    (k j : Bytes) (i : ℕ) (t : Tree)
    → find k t ≡ none
    → find j (insert k i t) ≡ (if str_eq k j then some i else find j t)
unfolding find insert
find-insert k j i leaf new = ground (arith, str_eq_iff k j, str_eq_iff j k, str_eq_refl k)
find-insert k j i (node h n l r) new = ground (
  arith,
  str_eq_iff k j,
  str_eq_iff k h,
  str_eq_iff j h,
  str_eq_refl k,
  find-insert k j i l,
  find-insert k j i r,
)
