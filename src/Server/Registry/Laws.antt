-- ===== src/Server/Registry/Laws.antt =====
-- The registry stays consistent, and what its keys do not tell apart.
use svisual.Prelude.{
  ◌≡◌, refl, sym, ap, subst, ◌∙◌, ◌⊎◌, inl, inr, List, [], ◌∷◌, ◌++◌, Bool, true, false, not, ◌||◌,
  some, if◌then◌else◌, arith, Bool-cases,
}
use svisual.Prelude.Bytes.{Bytes, str_eq, str_eq_iff, str_eq_refl}
use svisual.Prelude.Maps.{lookup, has, lookup-insert, lookup-insert_self}
use svisual.Base.{SignalData, sign_of}
use svisual.Server.Registry.{
  Registry, empty_registry, get_module_signals, listing, with_signal, add_signal,
}

-- A key stands in a list of keys.
unfoldable pub listed : Bytes → List Bytes → Bool
listed k [] = false
listed k (j ∷ js) = str_eq j k || listed k js

listed-append :
    (k : Bytes) (js is : List Bytes) → listed k (js ++ is) ≡ (listed k js || listed k is)
unfolding listed
listed-append k [] is = refl
listed-append k (j ∷ js) is = ground (arith, listed-append k js is)

listed_last : (k : Bytes) (js : List Bytes) → listed k (js ++ (k ∷ [])) ≡ true
unfolding listed
listed_last k js = ground (arith, listed-append k js (k ∷ []), str_eq_refl k)

listed_more :
    (k j : Bytes) (js : List Bytes) → listed k js ≡ true → listed k (js ++ (j ∷ [])) ≡ true
listed_more k j js h = ground (arith, listed-append k js (j ∷ []))

module _ {D : Type 0} where
  -- Every signal stands under its own key, and is listed by its module.
  pub record IsConsistent (r : Registry D) : Type 0 where
    pub keyed : (k : Bytes) (sd : SignalData D) → lookup k r.signals ≡ some sd → k ≡ sign_of sd
    pub by_module :
        (k : Bytes) (sd : SignalData D)
        → lookup k r.signals ≡ some sd
        → listed k (get_module_signals sd.module_name r) ≡ true

  pub empty-IsConsistent : IsConsistent (empty_registry {D = D})
  unfolding lookup
  empty-IsConsistent = record { keyed = λ k sd e. cc; by_module = λ k sd e. cc }

  -- The lists after an insertion.
  signals-with_signal :
      (sd : SignalData D) (r : Registry D) (m : Bytes)
      → get_module_signals m (with_signal sd r) ≡ (
          if str_eq sd.module_name m
          then get_module_signals sd.module_name r ++ (sign_of sd ∷ [])
          else get_module_signals m r)
  signals-with_signal sd r m =
      ground (arith, lookup-insert sd.module_name m (listing sd r) r.modules)

  -- What is found after an insertion is the new signal, or was there before.
  lookup-with_signal :
      (sd s : SignalData D) (r : Registry D) (k : Bytes)
      → lookup k (with_signal sd r).signals ≡ some s
      → ((k ≡ sign_of sd) × (s ≡ sd)) ⊎ (lookup k r.signals ≡ some s)
  lookup-with_signal sd s r k e =
      ground (arith, lookup-insert (sign_of sd) k sd r.signals, str_eq_iff (sign_of sd) k)

  listed_new :
      (sd : SignalData D) (r : Registry D)
      → listed (sign_of sd) (get_module_signals sd.module_name (with_signal sd r)) ≡ true
  listed_new sd r =
      ap (listed (sign_of sd)) (signals-with_signal sd r sd.module_name)
      ∙ rw (str_eq_refl sd.module_name)
          (listed_last (sign_of sd) (get_module_signals sd.module_name r))

  listed_old :
      (sd : SignalData D) (r : Registry D) (k m : Bytes)
      → listed k (get_module_signals m r) ≡ true
      → listed k (get_module_signals m (with_signal sd r)) ≡ true
  listed_old sd r k m h =
      ap (listed k) (signals-with_signal sd r m) ∙ elim (Bool-cases (str_eq sd.module_name m)) [
        | inl same ↦ rw same (
            listed_more k (sign_of sd) (get_module_signals sd.module_name r) (
              subst (λ j. listed k (get_module_signals j r) ≡ true)
                (sym ((str_eq_iff sd.module_name m).0 same)) h))
        | inr other ↦ rw other h
      ]

  with_signal-IsConsistent :
      (sd : SignalData D) (r : Registry D) → IsConsistent r → IsConsistent (with_signal sd r)
  with_signal-IsConsistent sd r c = record {
    keyed = λ k s e. elim (lookup-with_signal sd s r k e) [
      | inl (ek, es) ↦ ek ∙ ap sign_of (sym es)
      | inr old ↦ c.keyed k s old
    ];
    by_module = λ k s e. elim (lookup-with_signal sd s r k e) [
      | inl (ek, es) ↦
          subst (λ j. listed j (get_module_signals s.module_name (with_signal sd r)) ≡ true)
            (sym ek)
            (subst
              (λ z.
                listed (sign_of sd) (get_module_signals z.module_name (with_signal sd r)) ≡ true)
              (sym es) (listed_new sd r))
      | inr old ↦ listed_old sd r k s.module_name (c.by_module k s old)
    ];
  }

  -- `addSignal` keeps the registry consistent: every signal stands under `name + module`, and its
  -- module lists it.
  pub add_signal-IsConsistent :
      (sd : SignalData D) (r : Registry D) → IsConsistent r → IsConsistent (add_signal sd r).0
  unfolding add_signal
  add_signal-IsConsistent sd r c = elim (Bool-cases (has (sign_of sd) r.signals)) [
    | inl old ↦ rw old c
    | inr new ↦ rw new (with_signal-IsConsistent sd r c)
  ]

  -- `addSignal` succeeds exactly when its key is new. Then the key stands for the signal; and in
  -- either case no other key is touched.
  pub add_signal_lem :
      (sd : SignalData D) (r : Registry D)
      → ((add_signal sd r).1 ≡ not (has (sign_of sd) r.signals))
        × (((add_signal sd r).1 ≡ true) → lookup (sign_of sd) (add_signal sd r).0.signals ≡ some sd)
        × ((k : Bytes)
            → str_eq (sign_of sd) k ≡ false
            → lookup k (add_signal sd r).0.signals ≡ lookup k r.signals)
  unfolding add_signal
  add_signal_lem sd r = (
    ground arith,
    λ e. ground (arith, lookup-insert_self (sign_of sd) sd r.signals),
    λ k ne. ground (arith, lookup-insert (sign_of sd) k sd r.signals),
  )

  -- Two signals whose names and modules only together read the same are one to the server: after
  -- the first, the second is refused, and its key stands for the first.
  pub add_signal_collision :
      (s t : SignalData D) (r : Registry D)
      → sign_of s ≡ sign_of t
      → has (sign_of s) r.signals ≡ false
      → ((add_signal t (add_signal s r).0).1 ≡ false)
        × (lookup (sign_of t) (add_signal t (add_signal s r).0).0.signals ≡ some s)
  unfolding add_signal has
  add_signal_collision s t r e new = ground (arith, lookup-insert_self (sign_of s) s r.signals)
