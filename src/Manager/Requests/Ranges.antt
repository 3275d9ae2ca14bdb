-- ===== src/Manager/Requests/Ranges.antt =====
-- The ranges of the messages of the table within the registered data sets.
use rover_workspace.Prelude.{
  ℕ, zero, suc, ◌+◌, ◌^◌, ◌≤◌, ◌<◌, ◌≡◌, refl, sym, subst, inl, inr, Bool, true, false, ◌&&◌, ◌||◌,
  not, Option, none, some, List, [], ◌∷◌, arith, modify, ltb, leb, ◌==◌, Bool-cases, if◌then◌else◌,
}
use rover_workspace.Prelude.Memory.{Memory}
use rover_workspace.Comm.{DataHdr}
use rover_workspace.Manager.{
  Manager, BroadcastMsg, RegisteredData, DataGet, Reply, Prepared, did_count_uins,
  did_reference_imu,
}
use rover_workspace.Manager.Transmit.Frames.{Extends-same, if-Extends, Extends-trans}
use rover_workspace.Manager.Broadcasts.{ask_rmc, enable_broadcast_msg, disable_broadcast_msg}
use rover_workspace.Manager.Requests.{
  constrain_range, fill_msg, prepare, has_room, send_msg, take_msg, answer_request,
  request_broadcast, unless_handled, com_manager_get_data_request,
}
use rover_workspace.Manager.Step.Stopped.{send_msg-Extends}

-- A range that does not wrap around is brought into the data set; the id and the period stay.
pub constrain_range-fits :
    (data_size : ℕ) (req : DataGet)
    → req.offset + req.size < 2 ^ 32
    → let r = constrain_range data_size req in (r.id ≡ req.id) × (r.offset + r.size ≤ data_size)
unfolding constrain_range
constrain_range-fits data_size req small = ground arith

-- A request whose offset and size sum up to 2 ^ 32 or more, for a size that is not 0, is taken as it is when the
-- sum less 2 ^ 32 is within the data set: a range that ends behind the data set, where
-- both numbers are 32-bit numbers and the data set is smaller than 2 ^ 32.
pub constrain_range_wraps :
    (data_size : ℕ) (req : DataGet)
    → 0 < req.size
    → req.size < 2 ^ 32
    → req.offset < 2 ^ 32
    → data_size < 2 ^ 32
    → 2 ^ 32 ≤ req.offset + req.size
    → req.offset + req.size ≤ data_size + 2 ^ 32
    → (constrain_range data_size req ≡ req) × (data_size < req.offset + req.size)
unfolding constrain_range
constrain_range_wraps data_size req some_size s1 s2 s3 over wraps = ground arith

-- The range of a message lies in the data set registered for its id.
abbrev pub InRange : (ℕ → RegisteredData) → BroadcastMsg → Type 0
InRange reg msg = msg.data_hdr.offset + msg.data_hdr.size ≤ (reg msg.data_hdr.id).size

abbrev pub AllInRange : (ℕ → RegisteredData) → List BroadcastMsg → Type 0
AllInRange reg [] = Unit {0}
AllInRange reg (msg ∷ msgs) = InRange reg msg × AllInRange reg msgs

-- The callbacks that prepare data leave the data header alone.
abbrev pub KeepsHeaders : Manager → Type 0
KeepsHeaders cm =
    (cm' : Manager) (id p_handle : ℕ) (msg : BroadcastMsg)
    → (prepare cm' (cm.reg_data id) p_handle msg).data_hdr ≡ msg.data_hdr

modify-AllInRange :
    (reg : ℕ → RegisteredData) (msgs : List BroadcastMsg) (i : ℕ) (new : BroadcastMsg)
    → InRange reg new
    → AllInRange reg msgs
    → AllInRange reg (modify msgs i (λ _. new))
modify-AllInRange reg [] i new h all = tt
modify-AllInRange reg (x ∷ msgs) zero new h all = (h, all.1)
modify-AllInRange reg (x ∷ msgs) (suc i) new h all =
    (all.0, modify-AllInRange reg msgs i new h all.1)

if-InRange :
    (reg : ℕ → RegisteredData) (a b : BroadcastMsg) (t : Bool)
    → InRange reg a
    → InRange reg b
    → InRange reg (if t then a else b)
if-InRange reg a b true h k = h
if-InRange reg a b false h k = k

-- The data are still registered, and the table is in range.
abbrev Keeps : Manager → Reply → Type 0
Keeps cm r =
    (r.manager.reg_data ≡ cm.reg_data) × AllInRange cm.reg_data r.manager.broadcast_messages

abbrev Any : ℕ → Type 0
Any p = Unit {0}

answer_request-Keeps :
    (cm : Manager) (p_handle slot period : ℕ) (prepared : Prepared) (msg : BroadcastMsg)
    → prepared.data_hdr ≡ msg.data_hdr
    → InRange cm.reg_data msg
    → AllInRange cm.reg_data cm.broadcast_messages
    → Keeps cm (answer_request cm p_handle slot period prepared msg)
unfolding answer_request enable_broadcast_msg disable_broadcast_msg
answer_request-Keeps cm p_handle slot period prepared msg0 kept fits all =
    let msg : BroadcastMsg = record msg0 { data_hdr = prepared.data_hdr } in
    let cm1 : Manager = record cm { memory = prepared.memory } in
    let room = has_room cm1 p_handle msg.tx_size in
    let same = Extends-same Any cm cm1 refl refl refl refl refl refl refl in
    let x =
      if-Extends Any cm (send_msg cm1 p_handle msg) cm1 (room && prepared.send_data)
        (Extends-trans same (send_msg-Extends Any cm1 p_handle msg tt)) same in
    let fits' : InRange cm.reg_data msg =
      subst (λ (d : DataHdr). d.offset + d.size ≤ (cm.reg_data d.id).size) (sym kept) fits in
    let fine =
      if-InRange cm.reg_data (enable_broadcast_msg cm.step_period_milliseconds msg period)
        (disable_broadcast_msg msg) (ltb 0 period || not room) fits' fits' in
    (x.reg, modify-AllInRange cm.reg_data cm.broadcast_messages slot _ fine all)

take_msg-Keeps :
    (cm : Manager) (p_handle slot : ℕ) (req : DataGet) (o : Option BroadcastMsg)
    → KeepsHeaders cm
    → req.offset + req.size ≤ (cm.reg_data req.id).size
    → AllInRange cm.reg_data cm.broadcast_messages
    → Keeps cm (take_msg cm p_handle slot req o)
unfolding take_msg fill_msg
take_msg-Keeps cm p_handle slot req none keeps fits all = (refl, all)
take_msg-Keeps cm p_handle slot req (some taken) keeps fits all =
    let msg = fill_msg (cm.reg_data req.id) p_handle req taken in
    let prepared = prepare cm (cm.reg_data req.id) p_handle msg in
    let kept = keeps cm req.id p_handle msg in
    let fits' : InRange cm.reg_data (record msg { data_hdr = prepared.data_hdr }) =
      subst (λ (d : DataHdr). d.offset + d.size ≤ (cm.reg_data d.id).size) (sym kept) fits in
    elim (Bool-cases (req.id == did_reference_imu)) [
      | inl ref ↦
          rw ref (refl, modify-AllInRange cm.reg_data cm.broadcast_messages slot _ fits' all)
      | inr other ↦ rw other (answer_request-Keeps cm p_handle slot _ prepared msg kept fits all)
    ]

request_broadcast-Keeps :
    (cm : Manager) (p_handle : ℕ) (req : DataGet)
    → KeepsHeaders cm
    → req.offset + req.size < 2 ^ 32
    → AllInRange cm.reg_data cm.broadcast_messages
    → Keeps cm (request_broadcast cm p_handle req)
unfolding request_broadcast
request_broadcast-Keeps cm p_handle req keeps small all =
    let (same, fits) = constrain_range-fits (cm.reg_data req.id).size req small in
    let req' = constrain_range (cm.reg_data req.id).size req in
    let fits' : req'.offset + req'.size ≤ (cm.reg_data req'.id).size =
      subst (λ id. req'.offset + req'.size ≤ (cm.reg_data id).size) (sym same) fits in
    take_msg-Keeps cm p_handle _ req' _ keeps fits' all

ask_rmc-Keeps :
    (cm : Manager) (p_handle : ℕ) (req : DataGet)
    (o : Option (Memory → ℕ → DataGet → Bool × Memory))
    → KeepsHeaders cm
    → req.offset + req.size < 2 ^ 32
    → AllInRange cm.reg_data cm.broadcast_messages
    → Keeps cm (unless_handled p_handle req (ask_rmc o cm p_handle req))
ask_rmc-Keeps cm p_handle req none keeps small all =
    request_broadcast-Keeps cm p_handle req keeps small all
ask_rmc-Keeps cm p_handle req (some f) keeps small all =
    let r = f cm.memory p_handle req in after_rmc r.0 r.1
  where
    after_rmc :
        (handled : Bool) (m : Memory)
        → Keeps cm (unless_handled p_handle req (handled, record cm { memory = m }))
    after_rmc true m = (refl, all)
    after_rmc false m =
        request_broadcast-Keeps (record cm { memory = m }) p_handle req keeps small all

-- Where the callbacks that prepare data leave the data header alone, a request whose offset
-- and size sum up to less than 2 ^ 32 keeps every message of the table within the data set
-- that is registered for its id, and the registration as it is, whatever it returns.
pub get_data_request-AllInRange :
    (cm : Manager) (p_handle : ℕ) (req : DataGet)
    → KeepsHeaders cm
    → req.offset + req.size < 2 ^ 32
    → AllInRange cm.reg_data cm.broadcast_messages
    → let r = (com_manager_get_data_request cm p_handle req).manager in
      (r.reg_data ≡ cm.reg_data) × AllInRange cm.reg_data r.broadcast_messages
unfolding com_manager_get_data_request
get_data_request-AllInRange cm p_handle req keeps small all =
    elim (Bool-cases (leb did_count_uins req.id)) [
      | inl unknown ↦ rw unknown (refl, all)
      | inr known ↦ rw known (ask_rmc-Keeps cm p_handle req cm.msg_handler_rmc keeps small all)
    ]
