-- ===== src/Manager/Retries/Ending.antt =====
-- The end of the list of ensured packets: behind a slot with -2, all slots are -2.
use rover_workspace.Prelude.{
  ℕ, zero, suc, ◌≡◌, refl, sym, ◌∙◌, inl, inr, Bool, true, false, Option, none, some, List, [], ◌∷◌,
  arith, length, modify, ltb, ◌==◌, Bool-cases,
}
use rover_workspace.Prelude.Int.{pos, ◌≤ℤ◌}
use rover_workspace.Manager.{Manager, EnsuredPkt, max_p_data_body_size}
use rover_workspace.Manager.Transmit.{encode_binary_packet, send_packet}
use rover_workspace.Manager.Retries.{
  is_last, is_enabled, step_slot, step_slots, find_match, find_empty, take_slot, slot_of,
  register_packet_retry, update_slots, mark_end, updated,
}

abbrev pub AllLast : List EnsuredPkt → Type 0
AllLast [] = Unit {0}
AllLast (e ∷ es) = (is_last e ≡ true) × AllLast es

abbrev pub IsEnded : List EnsuredPkt → Type 0
IsEnded [] = Unit {0}
IsEnded (e ∷ es) = (is_last e ≡ true → AllLast es) × IsEnded es

pub AllLast-IsEnded : (es : List EnsuredPkt) → AllLast es → IsEnded es
AllLast-IsEnded [] h = tt
AllLast-IsEnded (e ∷ es) h = (λ _. h.1, AllLast-IsEnded es h.1)

-- Behind a slot that is not the end, there is nothing to show of the rest.
pub IsEnded-cons :
    (e : EnsuredPkt) (es : List EnsuredPkt) → is_last e ≡ false → IsEnded es → IsEnded (e ∷ es)
IsEnded-cons e es h k = (λ l. absurd (ground arith), k)

-- A slot that is not the end stays so.
step_slot-is_last :
    (cm : Manager) (e : EnsuredPkt)
    → pos 0 ≤ℤ cm.ensure_retry_count
    → is_last e ≡ false
    → is_last (step_slot cm e).1 ≡ false
unfolding step_slot
step_slot-is_last cm e count h = ground arith

pub step_slot-ensure_retry_count :
    (cm : Manager) (e : EnsuredPkt) → (step_slot cm e).0.ensure_retry_count ≡ cm.ensure_retry_count
unfolding step_slot send_packet encode_binary_packet
step_slot-ensure_retry_count cm e = ground arith

pub step_slots-IsEnded :
    (cm : Manager) (es : List EnsuredPkt)
    → pos 0 ≤ℤ cm.ensure_retry_count
    → IsEnded es
    → IsEnded (step_slots cm es).1
unfolding step_slots
step_slots-IsEnded cm [] count v = tt
step_slots-IsEnded cm (e ∷ es) count v = elim (Bool-cases (is_last e)) [
  | inl last ↦ rw last v
  | inr more ↦ rw more (
      IsEnded-cons (step_slot cm e).1 _ (step_slot-is_last cm e count more) (
        step_slots-IsEnded (step_slot cm e).0 es (rw (step_slot-ensure_retry_count cm e) count)
          v.1))
]

-- No slot before `i` is the end.
abbrev Reachable : List EnsuredPkt → ℕ → Type 0
Reachable [] i = Unit {0}
Reachable (e ∷ es) zero = Unit {0}
Reachable (e ∷ es) (suc i) = (is_last e ≡ false) × Reachable es i

-- The first slot that is not enabled can be filled, and an enabled one filled again.
modify-IsEnded :
    (f : EnsuredPkt → EnsuredPkt) (es : List EnsuredPkt) (i : ℕ)
    → ((e : EnsuredPkt) → is_last (f e) ≡ false)
    → Reachable es i
    → IsEnded es
    → IsEnded (modify es i f)
modify-IsEnded f [] i h r v = tt
modify-IsEnded f (e ∷ es) zero h r v = IsEnded-cons (f e) es (h e) v.1
modify-IsEnded f (e ∷ es) (suc i) h r v = IsEnded-cons e _ r.0 (modify-IsEnded f es i h r.1 v.1)

find_match-Reachable :
    (p_handle pid : ℕ) (new : List ℕ) (es : List EnsuredPkt) (i : ℕ)
    → find_match p_handle pid new es ≡ some i
    → Reachable es i
unfolding find_match
find_match-Reachable p_handle pid new [] i h = tt
find_match-Reachable p_handle pid new (e ∷ es) zero h = tt
find_match-Reachable p_handle pid new (e ∷ es) (suc i) h =
    let there : find_match p_handle pid new es ≡ some i = ground arith in
    (ground arith, find_match-Reachable p_handle pid new es i there)

find_empty-Reachable : (es : List EnsuredPkt) (i : ℕ) → find_empty es ≡ some i → Reachable es i
unfolding find_empty
find_empty-Reachable [] i h = tt
find_empty-Reachable (e ∷ es) zero h = tt
find_empty-Reachable (e ∷ es) (suc i) h =
    let there : find_empty es ≡ some i = ground arith in
    (ground arith, find_empty-Reachable es i there)

-- When no slot is free, none is the end.
find_empty-none : (es : List EnsuredPkt) (i : ℕ) → find_empty es ≡ none → Reachable es i
unfolding find_empty
find_empty-none [] i h = tt
find_empty-none (e ∷ es) zero h = tt
find_empty-none (e ∷ es) (suc i) h =
    let there : find_empty es ≡ none = ground arith in (ground arith, find_empty-none es i there)

slot_of-Reachable :
    (last : ℕ) (es : List EnsuredPkt) (match empty : Option ℕ)
    → ((i : ℕ) → match ≡ some i → Reachable es i)
    → ((i : ℕ) → empty ≡ some i → Reachable es i)
    → ((i : ℕ) → empty ≡ none → Reachable es i)
    → Reachable es (slot_of (length es) last match empty).index
slot_of-Reachable last es (some i) empty p q r = p i refl
slot_of-Reachable last es none (some i) p q r = q i refl
slot_of-Reachable last es none none p q r = r _ refl

take_slot-Reachable :
    (p_handle pid : ℕ) (new : List ℕ) (last : ℕ) (es : List EnsuredPkt)
    → Reachable es (take_slot p_handle pid new last es).index
unfolding take_slot
take_slot-Reachable p_handle pid new last es =
    slot_of-Reachable last es (find_match p_handle pid new es) (find_empty es)
      (find_match-Reachable p_handle pid new es) (find_empty-Reachable es) (find_empty-none es)

pub register-IsEnded :
    (cm : Manager) (p_handle pid : ℕ) (new : List ℕ)
    → pos 0 ≤ℤ cm.ensure_retry_count
    → IsEnded cm.ensured_packets
    → IsEnded (register_packet_retry cm p_handle pid new).manager.ensured_packets
unfolding register_packet_retry
register-IsEnded cm p_handle pid new count v =
    elim (Bool-cases (ltb max_p_data_body_size (length new))) [
      | inl large ↦ rw large v
      | inr small ↦ elim (Bool-cases (length cm.ensured_packets == 0)) [
        | inl empty ↦ rw (small, empty) v
        | inr some_slots ↦
            rw (small, some_slots)
              (modify-IsEnded _ cm.ensured_packets _ (λ e. ground arith)
                (take_slot-Reachable p_handle pid new cm.last_ensured_packet_index
                  cm.ensured_packets)
                v)
      ]
    ]

-- The slots after a round of answers.
pub update_slots-IsEnded :
    (f : EnsuredPkt → EnsuredPkt) (es : List EnsuredPkt)
    → ((e : EnsuredPkt) → is_last e ≡ false → is_last (f e) ≡ false)
    → IsEnded es
    → IsEnded (update_slots f es).1
unfolding update_slots
update_slots-IsEnded f [] h v = tt
update_slots-IsEnded f (e ∷ es) h v = elim (Bool-cases (is_last e)) [
  | inl last ↦ rw last v
  | inr more ↦ rw more (IsEnded-cons (f e) _ (h e more) (update_slots-IsEnded f es h v.1))
]

AllLast-mark_end : (es : List EnsuredPkt) → AllLast es → (mark_end es).0 ≡ true
unfolding mark_end
AllLast-mark_end [] h = refl
AllLast-mark_end (e ∷ es) h =
    let go = AllLast-mark_end es h.1 in
    let off : is_enabled e ≡ false = let last = h.0 in ground arith in rw (go, off)

-- As long as the marking goes on, all slots behind are the end; where it has stopped, the rest is kept.
mark_end-IsEnded :
    (es : List EnsuredPkt)
    → IsEnded es
    → IsEnded (mark_end es).1 × ((mark_end es).0 ≡ true → AllLast (mark_end es).1)
unfolding mark_end
mark_end-IsEnded [] v = (tt, λ _. tt)
mark_end-IsEnded (e ∷ es) v =
    let (ended, all) = mark_end-IsEnded es v.1 in
    elim (Bool-cases (mark_end es).0) [
      | inl go ↦ elim (Bool-cases (is_enabled e)) [
        | inl on ↦ rw (go, on) (IsEnded-cons e _ (ground arith) ended, λ h. absurd (cc h))
        | inr off ↦ rw (go, off) ((λ _. all go, ended), λ _. (refl, all go))
      ]
      | inr stopped ↦ rw stopped (
        (λ last. let go = AllLast-mark_end es (v.0 last) in absurd (cc (sym stopped ∙ go)), ended),
        λ h. absurd (cc h),
      )
    ]

pub updated-IsEnded : (r : Bool × List EnsuredPkt) → IsEnded r.1 → IsEnded (updated r)
updated-IsEnded (true, es) v = v
updated-IsEnded (false, es) v = (mark_end-IsEnded es v).0
