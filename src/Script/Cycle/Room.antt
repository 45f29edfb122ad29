-- ===== src/Script/Cycle/Room.antt =====
-- The room for the values that scripts set in the viewer (`fillBuffer` and `setValue` of
-- src/SVScriptDialog/src/script_dialog_impl.cpp).
use svisual.Prelude.{
  ℕ, zero, suc, ◌+◌, ◌-◌, ◌≤◌, ◌<◌, ◌≡◌, ◌⊎◌, refl, sym, ap, ◌∙◌, List, [], ◌∷◌, ◌++◌, ◌&&◌, true,
  false, some, inl, inr, if◌then◌else◌, ltb, ◌==◌, length, set, get_elem?, arith, subst, All,
  All-append, All-set, replicate, length-append, length-set, length-replicate, get_elem?_lt,
  get_elem?-set_self, Bool-cases,
}
use svisual.Prelude.Bytes.{Bytes, codes, str_eq}
use svisual.Prelude.Maps.{lookup, lookup-All, All-map_values}
use svisual.Base.{RecData, SignalData, Value, Doubles}
use svisual.Server.Config.{Config}
use svisual.Script.{replay, moved_replay, update_sign, end_packet, set_value}
use svisual.Script.Cycle.{Scripts, longest, refilled, fill_buffer}

-- A signal of scripts begins at the first place, has at least `n`, and each has a packet.
pub record IsReady {D : Type 0} (packet_sz n : ℕ) (sd : SignalData D) : Type 0 where
  pub at_first : sd.buff_begin_pos ≡ 0
  pub places : n ≤ length sd.buff_data
  pub last_packet : length sd.last_data.vals ≡ packet_sz
  pub packets : All (λ rd. length rd.vals ≡ packet_sz) sd.buff_data

-- The signals of scripts are ready.
abbrev pub HasRoom : {D : Type 0} → ℕ → ℕ → SignalData D → Type 0
HasRoom packet_sz n sd = (str_eq sd.module_name (codes "Virtual") ≡ false) ⊎ IsReady packet_sz n sd

All-replicate :
    (p n : ℕ) (rd : RecData) → length rd.vals ≡ p → All (λ r. length r.vals ≡ p) (replicate n rd)
All-replicate p zero rd e = tt
All-replicate p (suc n) rd e = (e, All-replicate p n rd e)

packet_at :
    (p : ℕ) (rds : List RecData) (i : ℕ) {rd : RecData}
    → All (λ r. length r.vals ≡ p) rds
    → get_elem? rds i ≡ some rd
    → length rd.vals ≡ p
packet_at p [] i a e = cc
packet_at p (r ∷ rds) zero a e = ground (arith, a.0)
packet_at p (r ∷ rds) (suc i) a e = packet_at p rds i a.1 e

-- A buffer that has grown to `n` places.
abbrev grown : ℕ → RecData → List RecData → List RecData
grown n r rs = if ltb (length rs) n then rs ++ replicate (n - length rs) r else rs

grown-long : (rs : List RecData) (n : ℕ) (r : RecData) → n ≤ length (grown n r rs)
grown-long rs n r =
    let enough : length (rs ++ replicate (n - length rs) r) ≡ length rs + (n - length rs) =
      length-append rs (replicate (n - length rs) r)
      ∙ ap (λ k. length rs + k) (length-replicate (n - length rs) r) in
    ground (arith, enough)

grown-All :
    (p n : ℕ) (r : RecData) (rs : List RecData)
    → length r.vals ≡ p
    → All (λ rd. length rd.vals ≡ p) rs
    → All (λ rd. length rd.vals ≡ p) (grown n r rs)
grown-All p n r rs e a = elim (Bool-cases (ltb (length rs) n)) [
  | inl short ↦ rw short (
      All-append (λ rd. length rd.vals ≡ p) rs (replicate (n - length rs) r) a
        (All-replicate p (n - length rs) r e))
  | inr enough ↦ rw enough a
]

grown_enough : (rs : List RecData) (n : ℕ) (r : RecData) → n ≤ length rs → grown n r rs ≡ rs
grown_enough rs n r h = ground arith

module _ {D : Type 0} where
  refilled-HasRoom :
      (p m n : ℕ) (junk : List Value) (sd : SignalData D)
      → length junk ≡ p
      → HasRoom p m sd
      → HasRoom p n (refilled junk n sd)
  unfolding refilled
  refilled-HasRoom p m n junk sd size room =
      elim (Bool-cases (str_eq sd.module_name (codes "Virtual"))) [
        | inr other ↦ rw other (inl other)
        | inl own ↦ elim room [
          | inl other ↦ absurd (ground (arith, own, other))
          | inr r ↦ rw own (
              inr (record {
                at_first = refl;
                places = grown-long sd.buff_data n (record { begin_time = 0; vals = junk });
                last_packet = r.last_packet;
                packets =
                    grown-All p n (record { begin_time = 0; vals = junk }) sd.buff_data size
                      r.packets;
              }))
        ]
      ]

module _ {D L : Type 0} where
  fill_buffer-HasRoom :
      (p : ℕ) (junk : List Value) (sources : List (SignalData D)) (st : Scripts D L)
      → length junk ≡ p
      → All (λ e. HasRoom p st.buff_sz_mem (e.1)) st.signals
      → All
          (λ e. HasRoom p (fill_buffer junk sources st).1.buff_sz (e.1))
          (fill_buffer junk sources st).1.signals
  unfolding fill_buffer
  fill_buffer-HasRoom p junk sources st size room =
      elim (Bool-cases (st.buff_sz_mem == longest st.buff_sz sources)) [
        | inl same ↦
            let e : st.buff_sz_mem ≡ longest st.buff_sz sources = ground arith in
            rw (fill_buffer, same) (subst (λ n. All (λ e. HasRoom p n (e.1)) st.signals) e room)
        | inr longer ↦
            rw (fill_buffer, longer)
              (All-map_values (λ sd. HasRoom p st.buff_sz_mem sd)
                (λ sd. HasRoom p (longest st.buff_sz sources) sd)
                (refilled junk (longest st.buff_sz sources)) st.signals
                (λ sd h. refilled-HasRoom p st.buff_sz_mem _ junk sd size h) room)
      ]

-- `sd'` has `v` as value `iter` of its last packet and of the record at `c_pos`.
pub record Stores {D : Type 0} (c_pos iter : ℕ) (v : Value) (sd' : SignalData D) : Type 0 where
  pub in_last : get_elem? sd'.last_data.vals iter ≡ some v
  pub in_place :
      (rd : RecData) × (get_elem? sd'.buff_data c_pos ≡ some rd) × (get_elem? rd.vals iter ≡ some v)

module _ {D : Type 0} (ops : Doubles D) (c : Config) where
  update_sign_lem :
      (begin_pos value_pos : ℕ) (sd : SignalData D)
      → begin_pos < length sd.buff_data
      → value_pos < length sd.buff_data
      → (sd' : SignalData D) × (update_sign ops c begin_pos value_pos sd ≡ some sd')
        × (sd'.buff_data ≡ sd.buff_data)
        × (sd'.last_data ≡ sd.last_data)
        × (sd'.buff_begin_pos ≡ sd.buff_begin_pos)
  unfolding update_sign
  update_sign_lem begin_pos value_pos sd begin_in value_in =
      let (first, at_begin) = get_elem?_lt sd.buff_data begin_pos begin_in in
      let (last, at_end) = get_elem?_lt sd.buff_data value_pos value_in in
      rw (update_sign, at_end, at_begin) (_, refl, refl, refl, refl)

  -- The end of a packet behind a value that is stored.
  end_packet-Stores :
      (junk : List Value) (c_pos buff_sz iter : ℕ) (v : Value) (now : RecData) (time : ℕ)
      (sd : SignalData D)
      → IsReady c.packet_sz buff_sz sd
      → c_pos < buff_sz
      → length now.vals ≡ c.packet_sz
      → get_elem? sd.last_data.vals iter ≡ some v
      → get_elem? now.vals iter ≡ some v
      → (sd' : SignalData D) × (end_packet ops c replay junk buff_sz c_pos now time sd ≡ some sd')
        × IsReady c.packet_sz buff_sz sd'
        × Stores c_pos iter v sd'
  unfolding end_packet
  end_packet-Stores junk c_pos buff_sz iter v now time sd r lt size in_last in_now =
      let ended : RecData = record now { begin_time = time } in
      let put_in : List RecData = set sd.buff_data c_pos ended in
      let same : length put_in ≡ length sd.buff_data = length-set sd.buff_data c_pos ended in
      let sd1 : SignalData D = record sd {
        last_data = record (sd.last_data) { begin_time = time };
        buff_data = put_in;
      } in
      let (sd2, got, buff, last, first) =
        update_sign_lem sd.buff_begin_pos c_pos sd1 (omega (arith, same, r.at_first, r.places))
          (omega (arith, same, r.places)) in
      let long : buff_sz ≤ length sd2.buff_data = omega (arith, ap length buff, same, r.places) in
      let kept : grown buff_sz (record { begin_time = 0; vals = junk }) sd2.buff_data ≡ put_in =
        grown_enough sd2.buff_data buff_sz (record { begin_time = 0; vals = junk }) long ∙ buff in
      rw (end_packet, got)
        (
          moved_replay ops c junk buff_sz c_pos sd2,
          refl,
          record {
            at_first = first ∙ r.at_first;
            places = omega (arith, ap length kept, same, r.places);
            last_packet = ap (λ l. length l.vals) last ∙ r.last_packet;
            packets = subst (All (λ rd. length rd.vals ≡ c.packet_sz)) (sym kept) (
                All-set (λ rd. length rd.vals ≡ c.packet_sz) sd.buff_data c_pos ended r.packets
                  size);
          },
          record {
            in_last = ap (λ l. get_elem? l.vals iter) last ∙ in_last;
            in_place = (
              ended,
              ap (λ b. get_elem? b c_pos) kept
                  ∙ get_elem?-set_self sd.buff_data c_pos ended (omega (arith, r.places)),
              in_now,
            );
          },
        )

  set_value-Stores :
      (junk : List Value) (c_pos buff_sz iter : ℕ) (v : Value) (time : ℕ) (sd : SignalData D)
      → IsReady c.packet_sz buff_sz sd
      → c_pos < buff_sz
      → iter < c.packet_sz
      → (sd' : SignalData D) × (set_value ops c replay junk c_pos buff_sz iter v time sd ≡ some sd')
        × IsReady c.packet_sz buff_sz sd'
        × Stores c_pos iter v sd'
  unfolding set_value
  set_value-Stores junk c_pos buff_sz iter v time sd r lt it =
      let (rd, got) = get_elem?_lt sd.buff_data c_pos (omega (arith, r.places)) in
      let size : length rd.vals ≡ c.packet_sz =
        packet_at c.packet_sz sd.buff_data c_pos r.packets got in
      let now : RecData = record rd { vals = set rd.vals iter v } in
      let now_size : length now.vals ≡ c.packet_sz = length-set rd.vals iter v ∙ size in
      let same = length-set sd.buff_data c_pos now in
      let sd1 : SignalData D = record sd {
        last_data = record (sd.last_data) { vals = set sd.last_data.vals iter v };
        buff_data = set sd.buff_data c_pos now;
      } in
      let ready : IsReady c.packet_sz buff_sz sd1 = record {
        at_first = r.at_first;
        places = omega (arith, same, r.places);
        last_packet = length-set sd.last_data.vals iter v ∙ r.last_packet;
        packets =
            All-set (λ q. length q.vals ≡ c.packet_sz) sd.buff_data c_pos now r.packets now_size;
      } in
      let in_last = get_elem?-set_self sd.last_data.vals iter v (omega (arith, r.last_packet)) in
      let in_now = get_elem?-set_self rd.vals iter v (omega (arith, size)) in
      let fits : (ltb iter (length sd.last_data.vals) && ltb iter (length rd.vals)) ≡ true =
        ground (arith, r.last_packet, size) in
      elim (Bool-cases (iter == c.packet_sz - 1)) [
        | inl last ↦
            rw (set_value, got, fits, last)
              (end_packet-Stores junk c_pos buff_sz iter v now time sd1 ready lt now_size in_last
                in_now)
        | inr more ↦
            rw (set_value, got, fits, more)
              (
                sd1,
                refl,
                ready,
                record {
                  in_last = in_last;
                  in_place = (
                    now,
                    get_elem?-set_self sd.buff_data c_pos now (omega (arith, r.places)),
                    in_now,
                  );
                },
              )
      ]

  -- After `fillBuffer` every value of a packet that a script sets in a signal of scripts, at any
  -- place of a cycle, goes into that value of the record at the place and of the last packet; no
  -- access is outside of an array, and the signal still has a packet for each place of the cycle.
  -- Before, each signal of scripts had one for each place of the last buffer, `buff_sz_mem`.
  pub set_value-fill_buffer :
      {L : Type 0} (junk : List Value) (sources : List (SignalData D)) (st : Scripts D L)
      (k : Bytes) (sd : SignalData D) (c_pos iter : ℕ) (v : Value) (time : ℕ)
      → length junk ≡ c.packet_sz
      → All (λ e. HasRoom c.packet_sz st.buff_sz_mem (e.1)) st.signals
      → lookup k (fill_buffer junk sources st).1.signals ≡ some sd
      → str_eq sd.module_name (codes "Virtual") ≡ true
      → c_pos < (fill_buffer junk sources st).1.buff_sz
      → iter < c.packet_sz
      → (sd' : SignalData D) × (set_value ops c replay junk c_pos
            (fill_buffer junk sources st).1.buff_sz
            iter
            v
            time
            sd
          ≡ some sd')
        × IsReady c.packet_sz (fill_buffer junk sources st).1.buff_sz sd'
        × Stores c_pos iter v sd'
  set_value-fill_buffer junk sources st k sd c_pos iter v time size room here own lt it =
      let n = (fill_buffer junk sources st).1.buff_sz in
      elim (lookup-All (λ k' sd'. HasRoom c.packet_sz n sd') k
        (fill_buffer junk sources st).1.signals
        (fill_buffer-HasRoom c.packet_sz junk sources st size room) here) [
          | inl other ↦ absurd (ground (arith, own, other))
          | inr r ↦ set_value-Stores junk c_pos n iter v time sd r lt it
        ]
