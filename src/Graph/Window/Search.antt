-- ===== src/Graph/Window/Search.antt =====
-- The search for the first record to show (src/SVGraphPanel/src/graph_widget.cpp): it stays inside of
-- the ring and passes over no record that can be seen.
use svisual.Prelude.{
  ℕ, zero, suc, ◌+◌, ◌-◌, ◌^◌, ◌≤◌, ◌<◌, ◌≡◌, ◌≢◌, ◌⊎◌, refl, sym, ap, ap₂, subst, ◌∙◌, inl, inr,
  List, [], ◌∷◌, true, false, ◌&&◌, ◌||◌, some, ltb, leb, ◌==◌, ltb→lt, length, drop, get_or, arith,
  Bool-cases,
}
use svisual.Prelude.Rings.{next, wrap, window}
use svisual.Base.{RecData}
use svisual.Graph.Window.{
  no_rec, time_at, lower_bound, one_before, search, ring_index_before_time, zn_end,
}
use svisual.Graph.Window.Laws.{visible, ahead}

-- What the search needs to find: the left end, or a record before the time.
abbrev Before : List RecData → ℕ → ℕ → ℕ → Type 0
Before buf t lo i = (i ≡ lo) ⊎ (time_at buf i < t)

lower_bound_lem :
    (buf : List RecData) (t n lo : ℕ)
    → (lo ≤ lower_bound buf t n lo)
      × (lower_bound buf t n lo ≤ lo + n)
      × ((lower_bound buf t n lo ≡ lo) ⊎ (time_at buf (lower_bound buf t n lo - 1) < t))
unfolding lower_bound
lower_bound_lem buf t zero lo = (omega arith, omega arith, inl refl)
lower_bound_lem buf t (suc n) lo = elim (Bool-cases (ltb (time_at buf lo) t)) [
  | inl less ↦
      let (a, b, c) = lower_bound_lem buf t n (lo + 1) in
      rw less (
        omega arith,
        omega arith,
        inr (elim c [
          | inl same ↦ subst (λ r. time_at buf r < t) (back same) (ltb→lt (time_at buf lo) t less)
          | inr found ↦ found
        ]),
      )
  | inr more ↦ rw more (omega arith, omega arith, inl refl)
]
  where
    back : lower_bound buf t n (lo + 1) ≡ lo + 1 → lo ≡ lower_bound buf t n (lo + 1) - 1
    back e = omega arith

one_before_lem :
    (buf : List RecData) (t lo hi it : ℕ)
    → lo ≤ it
    → it ≤ hi
    → lo < hi
    → (it ≡ lo) ⊎ (time_at buf (it - 1) < t)
    → (lo ≤ one_before lo it) × (one_before lo it < hi) × Before buf t lo (one_before lo it)
one_before_lem buf t lo hi it a b h c = elim (Bool-cases (it == lo)) [
  | inl left ↦ rw left (a, ground arith, inl (ground arith))
  | inr past ↦ rw past (
    ground arith,
    ground arith,
    elim c [ inl same ↦ absurd (ground arith) | inr found ↦ inr found ],
  )
]

search_lem :
    (buf : List RecData) (t lo hi : ℕ)
    → lo < hi
    → hi ≤ length buf
    → (i : ℕ) × (search buf t lo hi ≡ some i) × ((lo ≤ i) × (i < hi) × Before buf t lo i)
search_lem buf t lo hi h k =
    let it = lower_bound buf t (hi - lo) lo in
    let (a, b, c) = lower_bound_lem buf t (hi - lo) lo in
    let inside : (leb lo hi && leb hi (length buf)) ≡ true = ground arith in
    (one_before lo it, rw inside refl, one_before_lem buf t lo hi it a (omega arith) h c)

-- How far the record that is found lies from the start, and that there is none to see before it.
abbrev Found : List RecData → ℕ → ℕ → ℕ → ℕ → ℕ → Type 0
Found buf sz start end_pos t j =
    (j < ahead sz start end_pos) × ((j ≡ 0) ⊎ (time_at buf (wrap sz (start + j)) < t))

module _ (buf : List RecData) (start end_pos sz t : ℕ) (whole : sz ≡ length buf) (hs : start < sz)
    (he : end_pos < sz) where
  straight :
      (hi i : ℕ)
      → hi ≤ sz
      → hi - start ≤ ahead sz start end_pos
      → (start ≤ i) × (i < hi) × Before buf t start i
      → (wrap sz (start + (i - start)) ≡ i) × Found buf sz start end_pos t (i - start)
  straight hi i h k (a, b, c) = (
    same,
    (
      omega arith,
      elim c [
        | inl left ↦ inl (omega arith)
        | inr found ↦ inr (subst (λ m. time_at buf m < t) (sym same) found)
      ],
    ),
  )
    where
      same : wrap sz (start + (i - start)) ≡ i
      same = ground arith

  ring_index_lem :
      start ≢ end_pos
      → (j : ℕ) × (ring_index_before_time buf start end_pos sz t ≡ some (wrap sz (start + j)))
        × Found buf sz start end_pos t j
  unfolding ring_index_before_time
  ring_index_lem ne = elim (Bool-cases (ltb start end_pos)) [
    | inl ahead_of ↦
        let (i, e, found) =
          search_lem buf t start end_pos (ltb→lt start end_pos ahead_of) (omega arith) in
        let (same, f) = straight end_pos i (omega arith) (ground arith) found in
        (i - start, rw (no_stop, ahead_of, e) (ap some (sym same)), f)
    | inr round ↦ elim (Bool-cases ((end_pos == 0) || leb t (time_at buf (sz - 1)))) [
      | inl first ↦
          let (i, e, found) = search_lem buf t start sz hs (omega arith) in
          let (same, f) = straight sz i (omega arith) (ground arith) found in
          (i - start, rw (no_stop, round, first, e) (ap some (sym same)), f)
      | inr second ↦
          let it = lower_bound buf t end_pos 0 in
          let (_, b, c) = lower_bound_lem buf t end_pos 0 in
          elim (Bool-cases (it == 0)) [
            | inl none_before ↦ (
              sz - 1 - start,
              rw (no_stop, round, second, inside, none_before) (ap some last),
              (ground arith, inr (subst (λ m. time_at buf m < t) last (ground arith))),
            )
            | inr some_before ↦
                let there : it - 1 ≡ wrap sz (start + (sz - start + it - 1)) = ground arith in
                let less : time_at buf (it - 1) < t = elim c [
                  | inl same ↦ absurd (ground arith)
                  | inr found ↦ found
                ] in
                (
                  sz - start + it - 1,
                  rw (no_stop, round, second, inside, some_before) (ap some there),
                  (ground arith, inr (subst (λ m. time_at buf m < t) there less)),
                )
          ]
    ]
  ]
    where
      no_stop : ((sz == 0) || (start == end_pos)) ≡ false
      no_stop = ground arith

      inside : leb end_pos (length buf) ≡ true
      inside = ground arith

      last : sz - 1 ≡ wrap sz (start + (sz - 1 - start))
      last = ground arith

-- The records of a signal follow one another, each after the end of the one before.
abbrev pub Spaced : ℕ → List RecData → Type 0
Spaced cycle_save_ms [] = Unit {0}
Spaced cycle_save_ms (rd ∷ []) = rd.begin_time + cycle_save_ms < 2 ^ 64
Spaced cycle_save_ms (rd ∷ rd' ∷ rds) =
    (rd.begin_time + cycle_save_ms < 2 ^ 64)
    × (rd.begin_time + cycle_save_ms ≤ rd'.begin_time)
    × Spaced cycle_save_ms (rd' ∷ rds)

module _ (cycle_save_ms tm_min tm_max : ℕ) where
  Spaced-le :
      (j : ℕ) (rd : RecData) (rds : List RecData)
      → Spaced cycle_save_ms (rd ∷ rds)
      → j < length rds
      → (rd.begin_time + cycle_save_ms ≤ (get_or rds j no_rec).begin_time)
        × (rd.begin_time + cycle_save_ms < 2 ^ 64)
  Spaced-le j rd [] h k = absurd (omega arith)
  Spaced-le zero rd (rd' ∷ rds) h k = (h.1, h.0)
  Spaced-le (suc j) rd (rd' ∷ rds) h k =
      (omega (arith, (Spaced-le j rd' rds h.2 (omega arith)).0, h.1), h.0)

  Spaced-tail :
      (rd : RecData) (rds : List RecData)
      → Spaced cycle_save_ms (rd ∷ rds)
      → Spaced cycle_save_ms rds
  Spaced-tail rd [] h = tt
  Spaced-tail rd (rd' ∷ rds) h = h.2

  -- Records before one that begins before the window cannot be seen.
  visible-drop :
      (j : ℕ) (rds : List RecData)
      → Spaced cycle_save_ms rds
      → j < length rds
      → (j ≡ 0) ⊎ ((get_or rds j no_rec).begin_time < tm_min)
      → tm_min ≤ tm_max
      → visible cycle_save_ms tm_min tm_max rds ≡ visible cycle_save_ms tm_min tm_max (drop j rds)
  visible-drop zero rds h k c le = refl
  visible-drop (suc j) [] h k c le = absurd (omega arith)
  visible-drop (suc j) (rd ∷ rds) h k (inl c) le = absurd (omega arith)
  visible-drop (suc j) (rd ∷ rds) h k (inr c) le =
      let (close, word) = Spaced-le j rd rds h (omega arith) in
      let begins : ltb rd.begin_time tm_max ≡ true = ground arith in
      let over : ltb tm_min (zn_end cycle_save_ms rd) ≡ false = ground arith in
      rw (begins, over) (visible-drop j rds (Spaced-tail rd rds h) (omega arith) (inr c) le)

length-window : (n : ℕ) (buf : List RecData) (sz i : ℕ) → length (window no_rec buf sz i n) ≡ n
length-window zero buf sz i = refl
length-window (suc n) buf sz i = ap suc (length-window n buf sz (next sz i))

drop-window :
    (j n : ℕ) (buf : List RecData) (sz i : ℕ)
    → i < sz
    → j < n
    → n ≤ sz
    → (drop j (window no_rec buf sz i n) ≡ window no_rec buf sz (wrap sz (i + j)) (n - j))
      × (get_or (window no_rec buf sz i n) j no_rec ≡ get_or buf (wrap sz (i + j)) no_rec)
drop-window j zero buf sz i hi h le = absurd (omega arith)
drop-window zero (suc n) buf sz i hi h le =
    (ap₂ (window no_rec buf sz) here whole_left, ap (λ k. get_or buf k no_rec) here)
  where
    here : i ≡ wrap sz (i + 0)
    here = ground arith

    whole_left : suc n ≡ suc n - 0
    whole_left = omega arith
drop-window (suc j) (suc n) buf sz i hi h le =
    let (a, b) = drop-window j n buf sz (next sz i) (ground arith) (omega arith) (omega arith) in
    (a ∙ ap₂ (window no_rec buf sz) there (omega arith), b ∙ ap (λ k. get_or buf k no_rec) there)
  where
    there : wrap sz (next sz i + j) ≡ wrap sz (i + suc j)
    there = ground arith

-- The search of `ringIndexBeforeTime` passes over no record of the ring that overlaps the window.
pub ring_index-visible :
    (buf : List RecData) (start end_pos sz cycle_save_ms tm_min tm_max : ℕ)
    → sz ≡ length buf
    → start < sz
    → end_pos < sz
    → start ≢ end_pos
    → Spaced cycle_save_ms (window no_rec buf sz start (ahead sz start end_pos))
    → tm_min ≤ tm_max
    → (i : ℕ) × (ring_index_before_time buf start end_pos sz tm_min ≡ some i)
      × ((i < sz) × (i ≢ end_pos))
      × (visible cycle_save_ms tm_min tm_max (window no_rec buf sz i (ahead sz i end_pos))
          ≡ visible cycle_save_ms tm_min tm_max
              (window no_rec buf sz start (ahead sz start end_pos)))
ring_index-visible buf start end_pos sz cycle_save_ms tm_min tm_max whole hs he ne spaced le =
    let n = ahead sz start end_pos in
    let n_le : n ≤ sz = ground arith in
    let (j, e, (j_lt, c)) = ring_index_lem buf start end_pos sz tm_min whole hs he ne in
    let (dropped, there) = drop-window j n buf sz start hs j_lt n_le in
    let i = wrap sz (start + j) in
    let left : ahead sz i end_pos ≡ n - j = ground arith in
    (
      i,
      e,
      (ground arith, ground arith),
      ap (λ m. visible cycle_save_ms tm_min tm_max (window no_rec buf sz i m)) left
          ∙ ap (visible cycle_save_ms tm_min tm_max) (sym dropped)
          ∙ sym (
              visible-drop cycle_save_ms tm_min tm_max j (window no_rec buf sz start n) spaced
                (omega (arith, length-window n buf sz start))
                (elim c [
                  | inl first ↦ inl first
                  | inr less ↦ inr (subst (λ rd. rd.begin_time < tm_min) (sym there) less)
                ])
                le),
    )
