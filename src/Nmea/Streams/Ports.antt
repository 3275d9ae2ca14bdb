-- ===== src/Nmea/Streams/Ports.antt =====
-- protocol_nmea.cpp: the ports that a message of the streams changes.
use rover_workspace.Prelude.{
  ℕ, zero, ◌<◌, ◌≡◌, refl, sym, ◌∙◌, suc, bit_and, Bool, true, false, not, ◌&&◌, Option, none, some,
  List, [], ◌∷◌, get_elem?, modify, Bool-cases, inl, inr, arith, ◌==◌, if◌then◌else◌,
}
use rover_workspace.Nmea.Streams.{RmcNmea, on_ports, when}

-- The ports that an option selects: the current one, all of them, or each by a bit.
unfoldable pub selects : (ports p_handle port : ℕ) → Bool
selects ports p_handle port =
    if ports == 0
    then port == p_handle
    else if ports == 0xFF
    then true
    else if port == 0
    then not (bit_and ports 0x01 == 0)
    else if port == 1
    then not (bit_and ports 0x02 == 0)
    else if port == 2
    then not (bit_and ports 0x04 == 0)
    else not (bit_and ports 0x08 == 0)

-- A change of what is there
abbrev pub changed : Bool → (RmcNmea → RmcNmea) → Option RmcNmea → Option RmcNmea
changed test change none = none
changed test change (some r) = some (if test then change r else r)

changed-none : (change : RmcNmea → RmcNmea) (o : Option RmcNmea) → changed false change o ≡ o
changed-none change none = refl
changed-none change (some r) = refl

get-modify :
    (xs : List RmcNmea) (i j : ℕ) (change : RmcNmea → RmcNmea)
    → get_elem? (modify xs i change) j ≡ changed (j == i) change (get_elem? xs j)
get-modify [] i j change = refl
get-modify (x ∷ xs) zero zero change = refl
get-modify (x ∷ xs) zero (suc j) change =
    let e : (suc j == 0) ≡ false = ground arith in rw e (sym (changed-none change (get_elem? xs j)))
get-modify (x ∷ xs) (suc i) zero change = let e : (0 == suc i) ≡ false = ground arith in rw e refl
get-modify (x ∷ xs) (suc i) (suc j) change =
    let e : (suc j == suc i) ≡ (j == i) = ground arith in rw e (get-modify xs i j change)

get-when :
    (test : Bool) (xs : List RmcNmea) (i j : ℕ) (change : RmcNmea → RmcNmea)
    → get_elem? (when test change i xs) j ≡ changed ((j == i) && test) change (get_elem? xs j)
get-when true xs i j change =
    let e : ((j == i) && true) ≡ (j == i) = ground arith in rw e (get-modify xs i j change)
get-when false xs i j change =
    let e : ((j == i) && false) ≡ false = ground arith in
    rw e (sym (changed-none change (get_elem? xs j)))

-- The ports one after the other, by the bits of the option
by_bits :
    (t0 t1 t2 t3 : Bool) (port : ℕ) (change : RmcNmea → RmcNmea) (rmci : List RmcNmea)
    → port < 4
    → get_elem?
        (when t3 change 3 (when t2 change 2 (when t1 change 1 (when t0 change 0 rmci))))
        port
      ≡ changed
          (if port == 0 then t0 else if port == 1 then t1 else if port == 2 then t2 else t3)
          change
          (get_elem? rmci port)
by_bits t0 t1 t2 t3 zero change rmci below = simp (get-when, changed-none)
by_bits t0 t1 t2 t3 (suc zero) change rmci below = simp (get-when, changed-none)
by_bits t0 t1 t2 t3 (suc (suc zero)) change rmci below = simp (get-when, changed-none)
by_bits t0 t1 t2 t3 (suc (suc (suc zero))) change rmci below = simp (get-when, changed-none)
by_bits t0 t1 t2 t3 (suc (suc (suc (suc n)))) change rmci below = absurd (omega arith)

-- Of four ports, a change for an option is applied to those that the option selects, and to no other.
pub on_ports-selects :
    (ports p_handle port : ℕ) (change : RmcNmea → RmcNmea) (rmci : List RmcNmea)
    → port < 4
    → get_elem? (on_ports ports p_handle change rmci) port
      ≡ changed (selects ports p_handle port) change (get_elem? rmci port)
unfolding on_ports selects
on_ports-selects ports h port change rmci below = elim (Bool-cases (ports == 0)) [
  | inl e ↦ rw e (get-modify rmci h port change)
  | inr e ↦ elim (Bool-cases (ports == 0xFF)) [
    | inl all ↦
        let each : (if port == 0
              then true
              else if port == 1
              then true
              else if port == 2
              then true
              else true)
            ≡ true =
          ground arith in
        rw (e, all) (by_bits true true true true port change rmci below ∙ rw each refl)
    | inr few ↦ rw (e, few) (by_bits _ _ _ _ port change rmci below)
  ]
]
