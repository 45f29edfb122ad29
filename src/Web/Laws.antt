-- ===== src/Web/Laws.antt =====
-- The answer to `/api/lastSignalData` (src/SVWebServer/src/web_server_impl.cpp).
use svisual.Prelude.{
  ℕ, ◌≡◌, refl, sym, ap, subst, ◌∙◌, inl, inr, List, [], ◌∷◌, Bool, true, false, ◌&&◌, ◌||◌, Option,
  none, some, if◌then◌else◌, ◌==◌, get_elem?, arith, Bool-cases, Option-cases,
}
use svisual.Prelude.Bytes.{Bytes, str_eq, str_eq_iff}
use svisual.Prelude.Maps.{Map, lookup, lookup-insert, lookup-insert_self}
use svisual.Base.{SignalData}
use svisual.Web.{split, cons_first, LastData, last_of, with_last, last_signal_data}

abbrev pub has_byte : ℕ → Bytes → Bool
has_byte c [] = false
has_byte c (b ∷ s) = b == c || has_byte c s

abbrev pub all_have : ℕ → List Bytes → Bool
all_have c [] = true
all_have c (s ∷ ss) = has_byte c s && all_have c ss

abbrev pub is_some {ℓ} : {A : Type ℓ} → Option A → Bool
is_some none = false
is_some (some a) = true

cons_first_parts :
    (b : ℕ) (ss : List Bytes)
    → (is_some (get_elem? (cons_first b ss) 0) ≡ true)
      × (is_some (get_elem? (cons_first b ss) 1) ≡ is_some (get_elem? ss 1))
cons_first_parts b [] = (refl, refl)
cons_first_parts b (s ∷ ss) = (refl, refl)

split_first : (c : ℕ) (s : Bytes) → is_some (get_elem? (split c s) 0) ≡ true
unfolding split
split_first c [] = refl
split_first c (b ∷ s) = elim (Bool-cases (b == c)) [
  | inl hit ↦ rw hit refl
  | inr miss ↦ rw miss (cons_first_parts b (split c s)).0
]

-- A text has a second part exactly if the separator stands in it.
split_second : (c : ℕ) (s : Bytes) → is_some (get_elem? (split c s) 1) ≡ has_byte c s
unfolding split
split_second c [] = refl
split_second c (b ∷ s) = elim (Bool-cases (b == c)) [
  | inl hit ↦ rw hit (split_first c s)
  | inr miss ↦ rw miss ((cons_first_parts b (split c s)).1 ∙ split_second c s)
]

module _ {D : Type 0} (get_signal_data : Bytes → Option (SignalData D)) (from_url : Bytes → Bytes)
    (packet_sz : ℕ) where
  -- The request for the last data of signals is answered exactly if every part of its query has an
  -- `=`; otherwise an element that is not there is used.
  pub last_signal_data-eq-all_have :
      (ss : List Bytes) (m : Map LastData)
      → is_some (last_signal_data get_signal_data from_url packet_sz ss m) ≡ all_have 61 ss
  unfolding last_signal_data
  last_signal_data-eq-all_have [] m = refl
  last_signal_data-eq-all_have (s ∷ ss) m = elim (Option-cases (get_elem? (split 61 s) 1)) [
    | inl missing ↦
        let no_eq : has_byte 61 s ≡ false = sym (split_second 61 s) ∙ ap is_some missing in
        rw (last_signal_data, missing, no_eq) refl
    | inr (sname, there) ↦
        let eq : has_byte 61 s ≡ true = sym (split_second 61 s) ∙ ap is_some there in
        rw (last_signal_data, there, eq)
          (last_signal_data-eq-all_have ss
            (with_last get_signal_data from_url packet_sz (from_url sname) m))
  ]

  -- A part of the query names a signal.
  abbrev pub names : Bytes → Bytes → Bool
  names n s = elim (get_elem? (split 61 s) 1) [
    | none ↦ false
    | some sname ↦ str_eq (from_url sname) n
  ]

  abbrev pub named : Bytes → List Bytes → Bool
  named n [] = false
  named n (s ∷ ss) = names n s || named n ss

  abbrev pub told : Bytes → Bool → Option LastData → Option LastData
  told n asked old =
      if asked
      then elim (get_signal_data n) [ none ↦ old | some sd ↦ some (last_of packet_sz sd) ]
      else old

  with_last_self :
      (sname : Bytes) (m : Map LastData)
      → lookup sname (with_last get_signal_data from_url packet_sz sname m)
        ≡ told sname true (lookup sname m)
  with_last_self sname m = elim (Option-cases (get_signal_data sname)) [
    | inl unknown ↦ rw (with_last, unknown) refl
    | inr (sd, known) ↦ rw (with_last, known) (lookup-insert_self sname (last_of packet_sz sd) m)
  ]

  with_last_other :
      (n sname : Bytes) (m : Map LastData)
      → str_eq sname n ≡ false
      → lookup n (with_last get_signal_data from_url packet_sz sname m) ≡ lookup n m
  with_last_other n sname m other = elim (Option-cases (get_signal_data sname)) [
    | inl unknown ↦ rw (with_last, unknown) refl
    | inr (sd, known) ↦
        rw (with_last, known) (lookup-insert sname n (last_of packet_sz sd) m ∙ rw other refl)
  ]

  lookup-with_last :
      (n sname : Bytes) (m : Map LastData)
      → lookup n (with_last get_signal_data from_url packet_sz sname m)
        ≡ told n (str_eq sname n) (lookup n m)
  lookup-with_last n sname m = elim (Bool-cases (str_eq sname n)) [
    | inl same ↦
        let e : sname ≡ n = (str_eq_iff sname n).0 same in
        subst
          (λ k.
            lookup k (with_last get_signal_data from_url packet_sz sname m)
            ≡ told k true (lookup k m))
          e (with_last_self sname m)
        ∙ ap (λ b. told n b (lookup n m)) (sym same)
    | inr other ↦ with_last_other n sname m other ∙ ap (λ b. told n b (lookup n m)) (sym other)
  ]

  told_twice :
      (n : Bytes) (a b : Bool) (old : Option LastData)
      → told n a (told n b old) ≡ told n (b || a) old
  told_twice n false false old = refl
  told_twice n false true old = refl
  told_twice n true false old = refl
  told_twice n true true old = elim (Option-cases (get_signal_data n)) [
    | inl unknown ↦ rw (unknown, unknown) refl
    | inr (sd, known) ↦ rw known refl
  ]

  -- Of a signal that the query names and the server knows, the answer has the last data; of any other
  -- it has what was there before.
  pub lookup-last_signal_data :
      (ss : List Bytes) (n : Bytes) (m m' : Map LastData)
      → last_signal_data get_signal_data from_url packet_sz ss m ≡ some m'
      → lookup n m' ≡ told n (named n ss) (lookup n m)
  unfolding last_signal_data
  lookup-last_signal_data [] n m m' e = ap (lookup n) (ground arith)
  lookup-last_signal_data (s ∷ ss) n m m' e = elim (Option-cases (get_elem? (split 61 s) 1)) [
    | inl missing ↦ absurd (ground arith)
    | inr (sname, there) ↦
        let m1 = with_last get_signal_data from_url packet_sz (from_url sname) m in
        let here : names n s ≡ str_eq (from_url sname) n = rw (names, there) refl in
        lookup-last_signal_data ss n m1 m' (ground arith)
        ∙ ap (told n (named n ss)) (lookup-with_last n (from_url sname) m)
        ∙ told_twice n (named n ss) (str_eq (from_url sname) n) (lookup n m)
        ∙ ap (λ b. told n (b || named n ss) (lookup n m)) (sym here)
  ]
