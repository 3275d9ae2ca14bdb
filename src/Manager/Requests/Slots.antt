-- ===== src/Manager/Requests/Slots.antt =====
-- The message of the table that a request takes, and those that it leaves alone.
use rover_workspace.Prelude.{
  ℕ, zero, suc, ◌≡◌, ◌≢◌, refl, sym, subst, ap, ◌∙◌, ◌⊎◌, inl, inr, Bool, true, false, Option, none,
  some, List, [], ◌∷◌, arith, length, modify, get_elem?, leb, Bool-cases, Option-cases, ◌==◌,
}
use rover_workspace.Prelude.Memory.{Memory}
use rover_workspace.Manager.{
  Manager, BroadcastMsg, DataGet, Prepared, did_count_uins, did_reference_imu,
}
use rover_workspace.Manager.Broadcasts.{
  find_index, choice, choose_slot, same_request, available, ask_rmc,
}
use rover_workspace.Manager.Requests.{
  constrain_range, take_msg, answer_request, request_broadcast, unless_handled,
  com_manager_get_data_request,
}

find_index-some :
    (p : BroadcastMsg → Bool) (msgs : List BroadcastMsg) (i : ℕ)
    → find_index p msgs ≡ some i
    → (msg : BroadcastMsg) × (get_elem? msgs i ≡ some msg) × (p msg ≡ true)
unfolding find_index
find_index-some p [] i h = absurd (cc h)
find_index-some p (x ∷ msgs) i h = elim (Bool-cases (p x)) [
  | inl good ↦ let first : i ≡ 0 = ground arith in rw first (x, refl, good)
  | inr bad ↦ elim (Option-cases (find_index p msgs)) [
    | inl lost ↦ absurd (ground arith)
    | inr (j, found) ↦
        let next : i ≡ suc j = ground arith in rw next (find_index-some p msgs j found)
  ]
]

find_index-none :
    (p : BroadcastMsg → Bool) (msgs : List BroadcastMsg) (j : ℕ) (msg : BroadcastMsg)
    → find_index p msgs ≡ none
    → get_elem? msgs j ≡ some msg
    → p msg ≡ false
unfolding find_index
find_index-none p [] j msg h k = absurd (cc k)
find_index-none p (x ∷ msgs) zero msg h k =
    let same : x ≡ msg = cc k in
    let off : p x ≡ false = ground arith in subst (λ (y : BroadcastMsg). p y ≡ false) same off
find_index-none p (x ∷ msgs) (suc j) msg h k =
    let rest : find_index p msgs ≡ none = ground arith in find_index-none p msgs j msg rest k

modify-other :
    (msgs : List BroadcastMsg) (i j : ℕ) (new : BroadcastMsg)
    → i ≢ j
    → get_elem? (modify msgs i (λ _. new)) j ≡ get_elem? msgs j
modify-other [] i j new h = refl
modify-other (x ∷ msgs) zero zero new h = absurd (h refl)
modify-other (x ∷ msgs) zero (suc j) new h = refl
modify-other (x ∷ msgs) (suc i) zero new h = refl
modify-other (x ∷ msgs) (suc i) (suc j) new h = modify-other msgs i j new (λ e. h (ap suc e))

-- A place that is neither the matching message, nor an available one while there is no match.
abbrev pub IsKept : (p_handle : ℕ) → DataGet → List BroadcastMsg → ℕ → Type 0
IsKept p_handle req msgs j =
    (msg : BroadcastMsg) × (get_elem? msgs j ≡ some msg)
    × (same_request p_handle req msg ≡ false)
    × (available msg ≡ false)

-- The table has a matching or an available message.
abbrev pub HasRoom : (p_handle : ℕ) → DataGet → List BroadcastMsg → Type 0
HasRoom p_handle req msgs =
    (i : ℕ) × (msg : BroadcastMsg) × (get_elem? msgs i ≡ some msg)
    × ((same_request p_handle req msg ≡ true) ⊎ (available msg ≡ true))

taken_fails :
    (p : BroadcastMsg → Bool) (msgs : List BroadcastMsg) (j : ℕ) (msg : BroadcastMsg)
    → get_elem? msgs j ≡ some msg
    → p msg ≡ false
    → find_index p msgs ≢ some j
taken_fails p msgs j msg at bad found =
    let (m, here, good) = find_index-some p msgs j found in
    let same : m ≡ msg = let e = sym here ∙ at in cc e in
    let good' : p msg ≡ true = subst (λ (y : BroadcastMsg). p y ≡ true) same good in
    absurd (ground arith)

choice-other :
    (count : ℕ) (match free : Option ℕ) (j : ℕ)
    → match ≢ some j
    → (match ≡ none → free ≢ some j)
    → (match ≡ none → free ≢ none)
    → choice count match free ≢ j
choice-other count (some i) free j m f n = λ e. m (ap some e)
choice-other count none (some i) j m f n = λ e. f refl (ap some e)
choice-other count none none j m f n = λ e. n refl refl

choose_slot-other :
    (p_handle : ℕ) (req : DataGet) (msgs : List BroadcastMsg) (j : ℕ)
    → IsKept p_handle req msgs j
    → HasRoom p_handle req msgs
    → choose_slot p_handle req msgs ≢ j
unfolding choose_slot
choose_slot-other p_handle req msgs j (msg, at, other, active) (k, m, there, good) =
    choice-other (length msgs) (find_index (same_request p_handle req) msgs)
      (find_index available msgs) j (taken_fails (same_request p_handle req) msgs j msg at other)
      (λ none_same. taken_fails available msgs j msg at active)
      (λ none_same none_free.
        let no_match = find_index-none (same_request p_handle req) msgs k m none_same there in
        let no_free = find_index-none available msgs k m none_free there in
        absurd (elim good [ inl e ↦ ground arith | inr e ↦ ground arith ]))

answer_request-other :
    (cm : Manager) (p_handle slot period : ℕ) (prepared : Prepared) (msg : BroadcastMsg) (j : ℕ)
    → slot ≢ j
    → get_elem? (answer_request cm p_handle slot period prepared msg).manager.broadcast_messages j
      ≡ get_elem? cm.broadcast_messages j
unfolding answer_request
answer_request-other cm p_handle slot period prepared msg j h =
    modify-other cm.broadcast_messages slot j _ h

take_msg-other :
    (cm : Manager) (p_handle slot : ℕ) (req : DataGet) (o : Option BroadcastMsg) (j : ℕ)
    → slot ≢ j
    → get_elem? (take_msg cm p_handle slot req o).manager.broadcast_messages j
      ≡ get_elem? cm.broadcast_messages j
unfolding take_msg
take_msg-other cm p_handle slot req none j h = refl
take_msg-other cm p_handle slot req (some taken) j h =
    elim (Bool-cases (req.id == did_reference_imu)) [
      | inl ref ↦ rw ref (modify-other cm.broadcast_messages slot j _ h)
      | inr other ↦ rw other (answer_request-other cm p_handle slot _ _ _ j h)
    ]

request_broadcast-other :
    (cm : Manager) (p_handle : ℕ) (req : DataGet) (j : ℕ)
    → let req' = constrain_range (cm.reg_data req.id).size req in
      IsKept p_handle req' cm.broadcast_messages j
      → HasRoom p_handle req' cm.broadcast_messages
      → get_elem? (request_broadcast cm p_handle req).manager.broadcast_messages j
        ≡ get_elem? cm.broadcast_messages j
unfolding request_broadcast
request_broadcast-other cm p_handle req j kept room = take_msg-other cm p_handle _ _ _ j (
    choose_slot-other p_handle (constrain_range (cm.reg_data req.id).size req) cm.broadcast_messages
      j kept room)

-- The message control changes the memory only.
unless_handled-other :
    (cm : Manager) (p_handle : ℕ) (req : DataGet) (j : ℕ) (handled : Bool) (m : Memory)
    → let req' = constrain_range (cm.reg_data req.id).size req in
      IsKept p_handle req' cm.broadcast_messages j
      → HasRoom p_handle req' cm.broadcast_messages
      → get_elem?
          (unless_handled p_handle req
            (handled, record cm { memory = m })).manager.broadcast_messages
          j
        ≡ get_elem? cm.broadcast_messages j
unless_handled-other cm p_handle req j true m kept room = refl
unless_handled-other cm p_handle req j false m kept room =
    request_broadcast-other (record cm { memory = m }) p_handle req j kept room

ask_rmc-other :
    (cm : Manager) (p_handle : ℕ) (req : DataGet) (j : ℕ)
    (o : Option (Memory → ℕ → DataGet → Bool × Memory))
    → let req' = constrain_range (cm.reg_data req.id).size req in
      IsKept p_handle req' cm.broadcast_messages j
      → HasRoom p_handle req' cm.broadcast_messages
      → get_elem?
          (unless_handled p_handle req (ask_rmc o cm p_handle req)).manager.broadcast_messages
          j
        ≡ get_elem? cm.broadcast_messages j
ask_rmc-other cm p_handle req j none kept room =
    unless_handled-other cm p_handle req j false cm.memory kept room
ask_rmc-other cm p_handle req j (some f) kept room =
    let r = f cm.memory p_handle req in unless_handled-other cm p_handle req j r.0 r.1 kept room

-- A request for data leaves a message of the table as it is when the message is active, is not one of
-- the same port, data and constrained range, and some message of the table is such a one or is off:
-- only a table full of other broadcasts loses one to a request.
pub get_data_request-other :
    (cm : Manager) (p_handle : ℕ) (req : DataGet) (j : ℕ)
    → let req' = constrain_range (cm.reg_data req.id).size req in
      IsKept p_handle req' cm.broadcast_messages j
      → HasRoom p_handle req' cm.broadcast_messages
      → get_elem? (com_manager_get_data_request cm p_handle req).manager.broadcast_messages j
        ≡ get_elem? cm.broadcast_messages j
unfolding com_manager_get_data_request
get_data_request-other cm p_handle req j kept room = elim (Bool-cases (leb did_count_uins req.id)) [
  | inl unknown ↦ rw unknown
  | inr known ↦ rw known (ask_rmc-other cm p_handle req j cm.msg_handler_rmc kept room)
]
