-- ===== src/Client/Param.antt =====
-- `svSetParam`: when it keeps the client valid, and when it does not.
use svisual.Prelude.{
  ℕ, zero, ◌≤◌, ◌<◌, ◌≡◌, ◌⊎◌, inl, inr, [], ◌∷◌, Bool, true, none, some, length, length-replicate,
  All, arith,
}
use svisual.Prelude.Bytes.{Bytes}
use svisual.Prelude.Maps.{Map, lookup}
use svisual.Base.{ValueType, Value}
use svisual.Client.{Client, ValueRec, packet_after, is_name, sv_set_param, add_value}
use svisual.Client.Valid.{IsValid, IsRec}

recs-packet_after :
    (sz n : ℕ) (m : Map ValueRec)
    → All (λ e. IsRec n (e.0) (e.1)) m
    → All (λ e. IsRec (packet_after sz n m) (e.0) (e.1)) m
recs-packet_after sz n [] h = tt
recs-packet_after sz n (e ∷ m) h = h

cycle-packet_after :
    (sz n cur : ℕ) (m : Map ValueRec)
    → cur < n
    → (cur < sz) ⊎ (0 < length m)
    → cur < packet_after sz n m
cycle-packet_after sz n cur [] h (inl k) = k
cycle-packet_after sz n cur [] h (inr k) = absurd (omega arith)
cycle-packet_after sz n cur (e ∷ m) h k = h

-- Parameters keep the client valid as long as the new packet does not end before the current
-- cycle, or once there are values, whose packet stays as it is.
pub sv_set_param-IsValid :
    (rec_ms sz : ℕ) (c : Client)
    → IsValid c
    → (c.cur_cycle < sz) ⊎ (0 < length c.values)
    → IsValid (sv_set_param rec_ms sz c)
unfolding sv_set_param
sv_set_param-IsValid rec_ms sz c v h = record {
  cycle_in = cycle-packet_after sz c.packet_sz c.cur_cycle c.values v.cycle_in h;
  recs = recs-packet_after sz c.packet_sz c.values v.recs;
}

-- `svSetParam` leaves the current cycle alone. If there are no values yet and the sending loop has
-- gone to the end of the new, smaller packet or past it, the next new value is written outside of its
-- array.
pub add_value-sv_set_param :
    (rec_ms sz : ℕ) (junk nm : Bytes) (t : ValueType) (v : Value) (f : Bool) (c : Client)
    → c.values ≡ []
    → sz ≤ c.cur_cycle
    → is_name nm ≡ true
    → add_value junk (some nm) t v f (sv_set_param rec_ms sz c) ≡ none
unfolding add_value sv_set_param lookup
add_value-sv_set_param rec_ms sz junk nm t v f c empty past ok =
    ground (arith, length-replicate sz (zero))
