-- ===== src/Misc/Front.antt =====
-- `SV_Misc::Front` (src/SVMisc/front.h): for each id, whether a signal has just gone on or off.
use svisual.Prelude.{
  ℕ, zero, suc, ◌+◌, ◌-◌, ◌<◌, ◌≡◌, refl, ◌≢◌, List, [], ◌∷◌, ◌++◌, Bool, true, false, not, ◌&&◌,
  if◌then◌else◌, length, get_or, set, replicate, arith, length-append, length-replicate,
  get_or-set_self, get_or-set_ne,
}

-- `onc`; `oncCount` is its length.
abbrev pub Front : Type 0
Front = List Bool

-- The `resize` at the head of both calls: at least `id + 1` places.
abbrev pub grown : Bool → ℕ → Front → Front
grown fill id onc = onc ++ replicate (id + 1 - length onc) fill

-- `PosFront`
unfoldable pub pos_front : Bool → ℕ → Front → Bool × Front
pos_front en id onc =
    let onc' = grown false id onc in
    if not (get_or onc' id false) && en
    then (true, set onc' id true)
    else (false, if en then onc' else set onc' id false)

-- `NegFront`
unfoldable pub neg_front : Bool → ℕ → Front → Bool × Front
neg_front en id onc =
    let onc' = grown true id onc in
    if not (get_or onc' id true) && not en
    then (true, set onc' id true)
    else (false, if en then set onc' id false else onc')

-- The calls of `PosFront` with one id, in order: what each returns.
unfoldable pub pos_fronts : ℕ → List Bool → Front → List Bool
pos_fronts id [] onc = []
pos_fronts id (en ∷ ens) onc = let (r, onc') = pos_front en id onc in r ∷ pos_fronts id ens onc'

-- The signal goes on: it is on, and was off before.
unfoldable pub rises : Bool → List Bool → List Bool
rises old [] = []
rises old (en ∷ ens) = (not old && en) ∷ rises en ens

length-grown : (fill : Bool) (id : ℕ) (onc : Front) → id < length (grown fill id onc)
length-grown fill id onc = omega (
  arith,
  length-append onc (replicate (id + 1 - length onc) fill),
  length-replicate (id + 1 - length onc) fill,
)

get_or-replicate : (n i : ℕ) (b : Bool) → get_or (replicate n b) i b ≡ b
get_or-replicate zero i b = refl
get_or-replicate (suc n) zero b = refl
get_or-replicate (suc n) (suc i) b = get_or-replicate n i b

get_or-grown_by :
    (onc : Front) (k i : ℕ) (b : Bool) → get_or (onc ++ replicate k b) i b ≡ get_or onc i b
get_or-grown_by [] k i b = get_or-replicate k i b
get_or-grown_by (x ∷ onc) k zero b = refl
get_or-grown_by (x ∷ onc) k (suc i) b = get_or-grown_by onc k i b

pub get_or-grown :
    (onc : Front) (id i : ℕ) (b : Bool) → get_or (grown b id onc) i b ≡ get_or onc i b
get_or-grown onc id i b = get_or-grown_by onc (id + 1 - length onc) i b

-- `PosFront` tells a rise from the value before, keeps the value, and leaves other ids alone.
pub pos_front_lem :
    (en : Bool) (id : ℕ) (onc : Front)
    → ((pos_front en id onc).0 ≡ (not (get_or onc id false) && en))
      × (get_or (pos_front en id onc).1 id false ≡ en)
      × ((j : ℕ) → id ≢ j → get_or (pos_front en id onc).1 j false ≡ get_or onc j false)
unfolding pos_front
pos_front_lem en id onc = (
  ground (arith, get_or-grown onc id id false),
  ground (
    arith,
    get_or-grown onc id id false,
    length-grown false id onc,
    get_or-set_self (grown false id onc) id true false,
    get_or-set_self (grown false id onc) id false false,
  ),
  λ j ne. ground (
    arith,
    get_or-grown onc id j false,
    get_or-set_ne (grown false id onc) id j true false ne,
    get_or-set_ne (grown false id onc) id j false false ne,
  ),
)

-- The calls of `PosFront` with one id return true exactly where the signal goes on.
pub pos_fronts-eq-rises :
    (id : ℕ) (ens : List Bool) (onc : Front)
    → pos_fronts id ens onc ≡ rises (get_or onc id false) ens
unfolding pos_fronts rises
pos_fronts-eq-rises id [] onc = refl
pos_fronts-eq-rises id (en ∷ ens) onc =
    let (now, kept, _) = pos_front_lem en id onc in
    rw (now, pos_fronts-eq-rises id ens (pos_front en id onc).1, kept)
