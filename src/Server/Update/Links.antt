-- ===== src/Server/Update/Links.antt =====
-- The check of the connections in `updateCycle` (src/SVServer/src/thread_update.cpp): which signals
-- and modules are active, and what the callbacks are told of it.
use svisual.Prelude.{
  ℕ, Option-cases, subst, ◌≡◌, refl, ap, ap₂, ◌∙◌, ◌⊎◌, inl, inr, List, [], ◌∷◌, ◌++◌, Bool, true,
  false, not, ◌&&◌, Option, none, some, if◌then◌else◌, arith, Bool-cases, sym,
}
use svisual.Prelude.Bytes.{Bytes, codes, str_eq, str_eq_iff, str_eq_refl}
use svisual.Prelude.Maps.{
  Map, Distinct, lookup, lookup-insert_self, has, adjust, map_values, lookup-adjust, has-adjust,
  has_cons,
}
use svisual.Base.{ModuleData, SignalData, Doubles}
use svisual.Server.Buffer.{InputData}
use svisual.Server.Archive.{FileResult, Archive}
use svisual.Server.Update.{
  Event, Thread, module_connect, module_disconnect, push_record, archived, marked, update_record,
}

-- `"Virtual"`, the module that is never checked.
abbrev pub is_virtual : Bytes → Bool
is_virtual m = str_eq m (codes "Virtual")

-- What the callbacks are told of a module whose flag was `old` and is to be `new`.
abbrev pub changed : Bytes → Bool → Bool → List Event
changed m old new =
    if not old && new
    then module_connect m ∷ []
    else if old && not new
    then module_disconnect m ∷ []
    else []

abbrev pub with_active : Bool → ModuleData → ModuleData
with_active v md = record md { is_active = v }

module _ {D : Type 0} where
  -- The loop over `signActive`. `none` is a pointer that `sref` does not have.
  unfoldable pub check_signals :
      Map (Unit {0}) → Map Bool → Map (SignalData D) → Option (Map (SignalData D))
  check_signals sref [] ss = some ss
  check_signals sref ((k, v) ∷ act) ss = elim (has k sref && has k ss) [
    | false ↦ none
    | true ↦ check_signals sref act (adjust k (λ sd. record sd { is_active = v }) ss)
  ]

-- The body of the loop over `moduleActive`.
unfoldable pub check_module :
    Map (Unit {0}) → Bytes → Bool → Map ModuleData → Option (Map ModuleData × List Event)
check_module mref k v ms =
    if is_virtual k
    then some (ms, [])
    else if has k mref
    then elim (lookup k ms) [
      | none ↦ none
      | some md ↦ some (adjust k (with_active v) ms, changed k md.is_active v)
    ]
    else none

-- The loop.
unfoldable pub check_modules :
    Map (Unit {0}) → Map Bool → Map ModuleData → Option (Map ModuleData × List Event)
check_modules mref [] ms = some (ms, [])
check_modules mref ((k, v) ∷ act) ms = elim (check_module mref k v ms) [
  | none ↦ none
  | some (ms1, es1) ↦ elim (check_modules mref act ms1) [
    | none ↦ none
    | some (ms2, es2) ↦ some (ms2, es1 ++ es2)
  ]
]

-- `moduleActive` after the loop.
unfoldable pub clear_modules : Map Bool → Map Bool
clear_modules [] = []
clear_modules ((k, v) ∷ act) = (k, if is_virtual k then v else false) ∷ clear_modules act

-- What the code relies on: the modules that are checked have a pointer to a module.
abbrev pub Known : Map (Unit {0}) → Map Bool → Map ModuleData → Type 0
Known mref [] ms = Unit {0}
Known mref ((k, v) ∷ act) ms =
    ((is_virtual k ≡ true) ⊎ ((has k mref ≡ true) × (has k ms ≡ true))) × Known mref act ms

-- What is to be told of a module whose flag was `old` and is `new` then: nothing if it is as it was.
abbrev pub flip : Bytes → Bool → Bool → List Event
flip m false true = module_connect m ∷ []
flip m true false = module_disconnect m ∷ []
flip m true true = []
flip m false false = []

changed-eq-flip : (m : Bytes) (old new : Bool) → changed m old new ≡ flip m old new
changed-eq-flip m false true = refl
changed-eq-flip m true false = refl
changed-eq-flip m true true = refl
changed-eq-flip m false false = refl

-- What is told of a module, from what the modules were before the check.
abbrev pub told : Map ModuleData → Bytes → Bool → List Event
told ms k v =
    if is_virtual k then [] else elim (lookup k ms) [ none ↦ [] | some md ↦ flip k md.is_active v ]

unfoldable pub all_told : Map ModuleData → Map Bool → List Event
all_told ms [] = []
all_told ms ((k, v) ∷ act) = told ms k v ++ all_told ms act

-- The modules after the check of one.
abbrev linked : Bytes → Bool → Map ModuleData → Map ModuleData
linked k v ms = if is_virtual k then ms else adjust k (with_active v) ms

check_module_lem :
    (mref : Map (Unit {0})) (k : Bytes) (v : Bool) (ms : Map ModuleData)
    → (is_virtual k ≡ true) ⊎ ((has k mref ≡ true) × (has k ms ≡ true))
    → check_module mref k v ms ≡ some (linked k v ms, told ms k v)
unfolding check_module has
check_module_lem mref k v ms known = elim (Bool-cases (is_virtual k)) [
  | inl own ↦ rw own refl
  | inr other ↦ elim (Option-cases (lookup k ms)) [
    | inl gone ↦ absurd (ground arith)
    | inr (md, there) ↦ ground (arith, there, changed-eq-flip k md.is_active v)
  ]
]

has-linked : (k j : Bytes) (v : Bool) (ms : Map ModuleData) → has j (linked k v ms) ≡ has j ms
has-linked k j v ms = ground (arith, has-adjust k j (with_active v) ms)

lookup-linked_ne :
    (k j : Bytes) (v : Bool) (ms : Map ModuleData)
    → str_eq k j ≡ false
    → lookup j (linked k v ms) ≡ lookup j ms
lookup-linked_ne k j v ms ne = ground (arith, lookup-adjust k j (with_active v) ms)

Known-linked :
    (mref : Map (Unit {0})) (act : Map Bool) (k : Bytes) (v : Bool) (ms : Map ModuleData)
    → Known mref act ms
    → Known mref act (linked k v ms)
Known-linked mref [] k v ms h = tt
Known-linked mref ((j, w) ∷ act) k v ms h =
    (ground (arith, has-linked k j v ms), Known-linked mref act k v ms h.1)

str_ne_sym : (k j : Bytes) → str_eq k j ≡ false → str_eq j k ≡ false
str_ne_sym k j h = ground (arith, str_eq_iff k j, str_eq_iff j k, str_eq_refl k)

-- A module that is not checked again is told of as before.
all_told-linked :
    (act : Map Bool) (k : Bytes) (v : Bool) (ms : Map ModuleData)
    → has k act ≡ false
    → all_told (linked k v ms) act ≡ all_told ms act
unfolding all_told
all_told-linked [] k v ms h = refl
all_told-linked ((j, w) ∷ act) k v ms h =
    let (ne, rest) = has_cons k j w act h in
    ap₂ ◌++◌
      (ap (λ o. if is_virtual j then [] else elim o [ none ↦ [] | some md ↦ flip j md.is_active w ])
        (lookup-linked_ne k j v ms (str_ne_sym j k ne)))
      (all_told-linked act k v ms rest)

-- What stands for a module after the check, from what stood for it before.
abbrev pub settled : Option Bool → Bytes → Option ModuleData → Option ModuleData
settled none k o = o
settled (some v) k o =
    if is_virtual k then o else elim o [ none ↦ none | some md ↦ some (with_active v md) ]

settled_step :
    (act : Map Bool) (j k : Bytes) (v : Bool) (ms : Map ModuleData)
    → has j act ≡ false
    → settled (lookup k act) k (lookup k (linked j v ms))
      ≡ settled (lookup k ((j, v) ∷ act)) k (lookup k ms)
unfolding lookup has
settled_step act j k v ms h = elim (Bool-cases (str_eq j k)) [
  | inl hit ↦ ground (arith, lookup-adjust j k (with_active v) ms, str_eq_iff j k)
  | inr miss ↦ rw (miss, lookup-linked_ne j k v ms miss) refl
]

-- The check of the modules, where each has its pointer: a module is told of exactly where its flag
-- changes, in the order of the names, and then has the new flag; no other module changes, and
-- `Virtual` never does.
pub check_modules_lem :
    (mref : Map (Unit {0})) (act : Map Bool) (ms : Map ModuleData)
    → Distinct act
    → Known mref act ms
    → (ms' : Map ModuleData) × (check_modules mref act ms ≡ some (ms', all_told ms act))
      × ((k : Bytes) → lookup k ms' ≡ settled (lookup k act) k (lookup k ms))
unfolding check_modules all_told lookup
check_modules_lem mref [] ms d known = (ms, refl, λ k. refl)
check_modules_lem mref ((j, v) ∷ act) ms d known =
    let (ms', e, all) =
      check_modules_lem mref act (linked j v ms) d.1 (Known-linked mref act j v ms known.1) in
    (
      ms',
      rw (check_modules, check_module_lem mref j v ms known.0, e)
          (ap (λ es. some (ms', told ms j v ++ es)) (all_told-linked act j v ms d.0)),
      λ k. all k ∙ settled_step act j k v ms d.0,
    )

check_module_dangling :
    (mref : Map (Unit {0})) (k : Bytes) (v : Bool) (ms : Map ModuleData)
    → is_virtual k ≡ false
    → has k mref ≡ false
    → check_module mref k v ms ≡ none
unfolding check_module
check_module_dangling mref k v ms nv miss = rw (nv, miss) refl

-- A module without a pointer stops the check: the code takes the null pointer for a module.
check_modules_dangling :
    (mref : Map (Unit {0})) (act : Map Bool) (ms : Map ModuleData) (k : Bytes) (v : Bool)
    → lookup k act ≡ some v
    → is_virtual k ≡ false
    → has k mref ≡ false
    → check_modules mref act ms ≡ none
unfolding check_modules lookup
check_modules_dangling mref [] ms k v e nv miss = cc
check_modules_dangling mref ((j, w) ∷ act) ms k v e nv miss = elim (Bool-cases (str_eq j k)) [
  | inl hit ↦
      subst (λ i. check_modules mref ((i, w) ∷ act) ms ≡ none) (sym ((str_eq_iff j k).0 hit))
        (rw (check_modules, check_module_dangling mref k w ms nv miss) refl)
  | inr other ↦ elim (Option-cases (check_module mref j w ms)) [
    | inl n ↦ rw (check_modules, n) refl
    | inr (r, e1) ↦
        rw (check_modules, e1, check_modules_dangling mref act r.0 k v (found other) nv miss) refl
  ]
]
  where
    found : str_eq j k ≡ false → lookup k act ≡ some v
    found other = ground arith

module _ {D : Type 0} where
  -- The check, on the state of the thread. The flags start again, but for that of `Virtual`.
  unfoldable pub check_links : Thread D → Option (Thread D × List Event)
  check_links t = elim (check_signals t.sref t.sign_active t.registry.signals) [
    | none ↦ none
    | some ss ↦ elim (check_modules t.mref t.module_active t.registry.modules) [
      | none ↦ none
      | some (ms, es) ↦ some (
        record t {
          registry = record { signals = ss; modules = ms };
          sign_active = map_values (λ _. false) t.sign_active;
          module_active = clear_modules t.module_active;
        },
        es,
      )
    ]
  ]

  -- A record of a signal that is known takes no new pointer, and marks its module.
  update_record-marks :
      (ops : Doubles D) (now : ℕ) (ok : FileResult) (new : Bool) (bp : InputData) (t t' : Thread D)
      → has (bp.name ++ bp.module_name) t.sref ≡ true
      → has (bp.name ++ bp.module_name) t.registry.signals ≡ true
      → update_record ops now ok bp t ≡ some (t', new)
      → (t'.mref ≡ t.mref) × (lookup bp.module_name t'.module_active ≡ some true)
  unfolding update_record has
  update_record-marks ops now ok new bp t t' known there e =
      elim (Option-cases (lookup (bp.name ++ bp.module_name) t.registry.signals)) [
        | inl gone ↦ absurd (ground arith)
        | inr (sd, found) ↦ elim (Option-cases (push_record ops t.cng bp.rec sd)) [
          | inl n ↦ absurd (ground arith)
          | inr (sd', pushed) ↦
              elim (Option-cases (
                archived (λ k. has k t.registry.signals) ok (bp.name ++ bp.module_name) bp.rec t)) [
                  | inl n ↦ absurd (ground arith)
                  | inr (a, kept) ↦
                      subst
                        (λ u.
                          (u.mref ≡ t.mref) × (lookup bp.module_name u.module_active ≡ some true))
                        (the_state sd sd' a found pushed kept)
                        (refl, lookup-insert_self bp.module_name true t.module_active)
                ]
        ]
      ]
    where
      the_state :
          (sd sd' : SignalData D) (a : Archive)
          → lookup (bp.name ++ bp.module_name) t.registry.signals ≡ some sd
          → push_record ops t.cng bp.rec sd ≡ some sd'
          → archived (λ k. has k t.registry.signals) ok (bp.name ++ bp.module_name) bp.rec t
            ≡ some a
          → marked (bp.name ++ bp.module_name) bp.module_name sd' a t ≡ t'
      the_state sd sd' a found pushed kept = ground arith

  -- A record whose key `name + module` is that of another module's signal, known before, brings a
  -- module without a pointer among those to check: the next check uses a null pointer.
  pub check_links-update_record :
      (ops : Doubles D) (now : ℕ) (ok : FileResult) (new : Bool) (bp : InputData) (t t' : Thread D)
      → has (bp.name ++ bp.module_name) t.sref ≡ true
      → has bp.module_name t.mref ≡ false
      → is_virtual bp.module_name ≡ false
      → has (bp.name ++ bp.module_name) t.registry.signals ≡ true
      → update_record ops now ok bp t ≡ some (t', new)
      → check_links t' ≡ none
  unfolding check_links
  check_links-update_record ops now ok new bp t t' known miss nv there e =
      let (same, marks) = update_record-marks ops now ok new bp t t' known there e in
      elim (Option-cases (check_signals t'.sref t'.sign_active t'.registry.signals)) [
        | inl n ↦ rw (check_links, n) refl
        | inr (ss, some_ss) ↦
            rw
              (
                check_links,
                some_ss,
                check_modules_dangling t'.mref t'.module_active t'.registry.modules bp.module_name
                    true marks nv (ap (has bp.module_name) same ∙ miss),
              )
              refl
      ]
