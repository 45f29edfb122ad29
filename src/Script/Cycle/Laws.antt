-- ===== src/Script/Cycle/Laws.antt =====
-- The turns of the scripts that a cycle in the viewer makes (`workCycle` of
-- src/SVScriptDialog/src/script_dialog_impl.cpp).
use svisual.Prelude.{
  ℕ, zero, suc, ◌+◌, ◌-◌, ◌*◌, ◌/◌, ◌%◌, ◌<◌, ◌≡◌, refl, sym, ap, ap₂, ◌∙◌, List, [], ◌∷◌, ◌++◌,
  Bool, true, false, ltb, ◌==◌, arith,
}
use native.Mathlib.Nat.{div-eq_of_lt, mod-eq_of_lt, add-div_right, add-mod_right}
use svisual.Prelude.Maps.{Map, map_values}
use svisual.Base.{SignalData, Value}
use svisual.Script.Cycle.{
  longest, refilled, Scripts, fill_buffer, run_packet, run_places, run_all, viewer_cycle,
}

-- The turns of the values from `iter` on in the place `c_pos`.
unfoldable row : ℕ → ℕ → ℕ → List (ℕ × ℕ)
row c_pos zero iter = []
row c_pos (suc left) iter = (c_pos, iter) ∷ row c_pos left (iter + 1)

unfoldable rows : ℕ → ℕ → ℕ → List (ℕ × ℕ)
rows packet_sz zero c_pos = []
rows packet_sz (suc n) c_pos = row c_pos packet_sz 0 ++ rows packet_sz n (c_pos + 1)

-- The place and the value of each of the turns from number `k` on, where a place has `packet_sz`.
unfoldable pub numbered : ℕ → ℕ → ℕ → List (ℕ × ℕ)
numbered packet_sz zero k = []
numbered packet_sz (suc n) k = (k / packet_sz, k % packet_sz) ∷ numbered packet_sz n (k + 1)

module _ {S : Type 0} (run : ℕ → ℕ → S → Bool × S) where
  run_all-append :
      (ts us : List (ℕ × ℕ)) (s : S) → run_all run (ts ++ us) s ≡ run_all run us (run_all run ts s)
  unfolding run_all
  run_all-append [] us s = refl
  run_all-append (t ∷ ts) us s = run_all-append ts us (run t.0 t.1 s).1

  run_packet_rest :
      (left c_pos iter : ℕ) (s : S)
      → run_packet run left c_pos iter true s ≡ (true, run_all run (row c_pos left iter) s)
  unfolding run_packet run_all row
  run_packet_rest zero c_pos iter s = refl
  run_packet_rest (suc left) c_pos iter s =
      run_packet_rest left c_pos (iter + 1) (run c_pos iter s).1

  run_packet_first :
      (left c_pos iter : ℕ) (s : S)
      → (run c_pos iter s).0 ≡ false
      → run_packet run (suc left) c_pos iter false s
        ≡ (true, run_all run (row c_pos (suc left) iter) s)
  unfolding run_packet run_all row
  run_packet_first left c_pos iter s e =
      rw (run_packet, e) (run_packet_rest left c_pos (iter + 1) (run c_pos iter s).1)

div_at : (c p i : ℕ) → i < p → (c * p + i) / p ≡ c
div_at zero p i lt = ap (λ n. n / p) (omega arith) ∙ div-eq_of_lt lt
div_at (suc c) p i lt =
    ap (λ n. n / p) {x = suc c * p + i} {y = c * p + i + p} (grind arith)
    ∙ add-div_right (c * p + i) (omega (arith, lt))
    ∙ ap (λ n. n + 1) (div_at c p i lt)
    ∙ omega arith

mod_at : (c p i : ℕ) → i < p → (c * p + i) % p ≡ i
mod_at zero p i lt = ap (λ n. n % p) (omega arith) ∙ mod-eq_of_lt lt
mod_at (suc c) p i lt =
    ap (λ n. n % p) {x = suc c * p + i} {y = c * p + i + p} (grind arith)
    ∙ add-mod_right (c * p + i) p
    ∙ mod_at c p i lt

zero_plus : (n : ℕ) → n ≡ 0 + n
zero_plus n = omega arith

row-numbered :
    (packet_sz c_pos left iter n : ℕ)
    → iter + left ≡ packet_sz
    → row c_pos left iter ++ numbered packet_sz n (c_pos * packet_sz + packet_sz)
      ≡ numbered packet_sz (left + n) (c_pos * packet_sz + iter)
unfolding row numbered
row-numbered packet_sz c_pos zero iter n e =
    ap₂ (λ m k. numbered packet_sz m k) (zero_plus n)
      (ap (λ j. c_pos * packet_sz + j) {x = packet_sz} {y = iter} (omega arith))
row-numbered packet_sz c_pos (suc left) iter n e =
    ap₂ (λ t ts. t ∷ ts)
      (ap₂ (λ a b. (a, b)) (sym (div_at c_pos packet_sz iter (omega arith)))
        (sym (mod_at c_pos packet_sz iter (omega arith))))
      (row-numbered packet_sz c_pos left (iter + 1) n (omega arith)
        ∙ ap (λ k. numbered packet_sz (left + n) k) (omega arith))
    ∙ ap (λ m. numbered packet_sz m (c_pos * packet_sz + iter)) {x = suc (left + n)}
        {y = suc left + n} (omega arith)

rows-numbered :
    (packet_sz n c_pos : ℕ)
    → rows packet_sz n c_pos ≡ numbered packet_sz (n * packet_sz) (c_pos * packet_sz)
unfolding rows numbered
rows-numbered packet_sz zero c_pos =
    ap (λ m. numbered packet_sz m (c_pos * packet_sz)) {x = 0} {y = 0 * packet_sz} (omega arith)
rows-numbered packet_sz (suc n) c_pos =
    ap (λ ts. row c_pos packet_sz 0 ++ ts)
      (rows-numbered packet_sz n (c_pos + 1)
        ∙ ap (λ k. numbered packet_sz (n * packet_sz) k) (grind arith))
    ∙ row-numbered packet_sz c_pos packet_sz 0 (n * packet_sz) (omega arith)
    ∙ ap₂ (λ a b. numbered packet_sz a b) (grind arith) (omega arith)

module _ {S : Type 0} (run : ℕ → ℕ → S → Bool × S) where
  run_places_rest :
      (n packet_sz buff_sz c_pos : ℕ) (s : S)
      → n + c_pos ≡ buff_sz
      → run_places run n packet_sz buff_sz c_pos true s
        ≡ (buff_sz, (true, run_all run (rows packet_sz n c_pos) s))
  unfolding run_places run_all rows
  run_places_rest zero packet_sz buff_sz c_pos s e = ap (λ k. (k, (true, s))) (omega arith)
  run_places_rest (suc n) packet_sz buff_sz c_pos s e =
      let more : ltb c_pos buff_sz ≡ true = ground arith in
      rw (run_places, more, run_packet_rest run packet_sz c_pos 0 s, run_all-append)
        (ap (λ r. run_places run n packet_sz buff_sz (c_pos + 1) true r.1)
            (run_packet_rest run packet_sz c_pos 0 s)
          ∙ run_places_rest n packet_sz buff_sz (c_pos + 1) (run_all run (row c_pos packet_sz 0) s)
              (omega arith))

  -- All the turns, from the first place on.
  run_places_all :
      (n packet_sz : ℕ) (s : S)
      → 0 < n
      → 0 < packet_sz
      → (run 0 0 s).0 ≡ false
      → run_places run (n - 0) packet_sz n 0 false s
        ≡ (n, (true, run_all run (numbered packet_sz (n * packet_sz) 0) s))
  unfolding run_places rows
  run_places_all (suc n) (suc p) s hn hp e =
      let more : ltb 0 (suc n) ≡ true = ground arith in
      let fuel : suc n - 0 ≡ suc n = omega arith in
      rw fuel (
        rw (run_places, more, run_packet_first run p 0 0 s e)
          (ap (λ r. run_places run n (suc p) (suc n) 1 true r.1) (run_packet_first run p 0 0 s e)
            ∙ run_places_rest n (suc p) (suc n) 1 (run_all run (row 0 (suc p) 0) s) (omega arith)
            ∙ ap (λ x. (suc n, (true, x)))
                (sym (run_all-append run (row 0 (suc p) 0) (rows (suc p) n 1) s)
                  ∙ ap (λ ts. run_all run ts s)
                      (rows-numbered (suc p) (suc n) 0
                        ∙ ap (λ k. numbered (suc p) (suc n * suc p) k) {x = 0 * suc p} {y = 0}
                            (omega arith)))))
  run_places_all zero packet_sz s hn hp e = absurd (omega arith)
  run_places_all (suc n) zero s hn hp e = absurd (omega arith)

module _ {D L : Type 0} (run : ℕ → ℕ → Map (SignalData D) × L → Bool × (Map (SignalData D) × L))
    (load : L → L) where
  -- What the dialog is after turns of all scripts for each of the `buff_sz` places.
  abbrev pub all_run : List Value → ℕ → ℕ → Scripts D L → Scripts D L
  all_run junk packet_sz buff_sz st =
      let (signals, lua) =
        run_all run (numbered packet_sz (buff_sz * packet_sz) 0)
          (map_values (refilled junk buff_sz) st.signals, load st.lua) in
      record {
        buff_c_pos = buff_sz;
        buff_sz = buff_sz;
        buff_sz_mem = buff_sz;
        signals = signals;
        lua = lua;
      }

  -- A cycle behind the last place, with no longer buffer.
  idle :
      (junk : List Value) (packet_sz : ℕ) (sources : List (SignalData D)) (st : Scripts D L)
      → longest st.buff_sz sources ≡ st.buff_sz
      → st.buff_c_pos ≡ st.buff_sz
      → st.buff_sz_mem ≡ st.buff_sz
      → (st.buff_sz == 0) ≡ false
      → viewer_cycle run load junk packet_sz sources st ≡ (false, st)
  unfolding viewer_cycle fill_buffer run_places
  idle junk packet_sz sources st kept behind memory some_places =
      let same : (st.buff_sz == st.buff_sz) ≡ true = ground arith in
      let none_left : st.buff_sz - st.buff_sz ≡ 0 = omega arith in
      rw (viewer_cycle, fill_buffer, kept, memory, same, behind, none_left, some_places) refl

  -- When the longest buffer of the viewer has become longer, a cycle makes room in the signals of the
  -- scripts, loads the scripts, runs them once for each value of each place of that buffer, turn
  -- number `k` for the value `k % packet_sz` of the place `k / packet_sz`, in order, and tells the
  -- viewer. The next cycle, with no longer buffer, runs nothing, changes nothing and tells nothing.
  -- The buffer and a packet are not empty, and the first turn ends without a message.
  pub viewer_cycle_lem :
      (junk : List Value) (packet_sz : ℕ) (sources sources' : List (SignalData D))
      (st : Scripts D L)
      → 0 < packet_sz
      → 0 < longest st.buff_sz sources
      → (st.buff_sz_mem == longest st.buff_sz sources) ≡ false
      → longest (longest st.buff_sz sources) sources' ≡ longest st.buff_sz sources
      → (run 0 0
          (map_values (refilled junk (longest st.buff_sz sources)) st.signals, load st.lua)).0
        ≡ false
      → (viewer_cycle run load junk packet_sz sources st
          ≡ (true, all_run junk packet_sz (longest st.buff_sz sources) st))
        × (viewer_cycle run load junk packet_sz sources'
              (all_run junk packet_sz (longest st.buff_sz sources) st)
            ≡ (false, all_run junk packet_sz (longest st.buff_sz sources) st))
  unfolding viewer_cycle fill_buffer
  viewer_cycle_lem junk packet_sz sources sources' st hp hb grown kept quiet = (
    rw (viewer_cycle, fill_buffer, grown)
        (rw (run_places_all run (longest st.buff_sz sources) packet_sz _ hb hp quiet) refl),
    idle junk packet_sz sources' (all_run junk packet_sz (longest st.buff_sz sources) st) kept refl
        refl (ground arith),
  )
