-- ===== src/Manager/Retries.antt =====
-- com_manager.c: the list of the packets that are sent again until they are answered.
pub mod Ending
pub mod Run
pub mod Resend
pub mod Answered
use rover_workspace.Prelude.{
  ℕ, zero, suc, ◌+◌, ◌*◌, ◌%◌, ◌^◌, Bool, true, false, not, ◌&&◌, ◌||◌, Option, none, some, List,
  [], ◌∷◌, ◌++◌, length, take, drop, get_elem?, get_or, modify, ltb, leb, ◌==◌, if◌then◌else◌,
}
use rover_workspace.Prelude.Int.{ℤ, pos, negsuc, ltb_ℤ, leb_ℤ, eqb_ℤ, dec_ℤ}
use rover_workspace.Prelude.Memory.{load32}
use rover_workspace.Packet.{
  PacketHdr, psc_start_byte, pid_get_data, pid_set_data, pid_stop_broadcasts_all_ports,
}
use rover_workspace.Comm.{DataHdr}
use rover_workspace.Manager.{
  Manager, EnsuredPkt, Reply, load_data_hdr, max_p_data_body_size, retry_disabled, no_more_retries,
}
use rover_workspace.Manager.Transmit.{send_packet}

-- `ePkt->counter == -2`, and `ePkt->counter >= 0`
abbrev pub is_last : EnsuredPkt → Bool
is_last e = eqb_ℤ e.counter no_more_retries

abbrev pub is_enabled : EnsuredPkt → Bool
is_enabled e = leb_ℤ (pos 0) e.counter

abbrev pub body_of : EnsuredPkt → List ℕ
body_of e = take e.body_size e.pkt_body

-- One slot of `stepPacketRetry`.
unfoldable pub step_slot : Manager → EnsuredPkt → Manager × EnsuredPkt
step_slot cm e =
    let s = send_packet cm e.p_handle e.hdr (body_of e) 0 in
    if is_enabled e
    then (if eqb_ℤ (dec_ℤ e.counter) (pos 0)
        then (s.manager, record e { counter = cm.ensure_retry_count; hdr = s.hdr })
        else (cm, record e { counter = dec_ℤ e.counter }))
    else (cm, e)

unfoldable pub step_slots : Manager → List EnsuredPkt → Manager × List EnsuredPkt
step_slots cm [] = (cm, [])
step_slots cm (e ∷ es) =
    let (cm1, e1) = step_slot cm e in
    let (cm2, es2) = step_slots cm1 es in if is_last e then (cm, e ∷ es) else (cm2, e1 ∷ es2)

unfoldable pub step_packet_retry : Manager → Manager
step_packet_retry cm =
    let (cm', es) = step_slots cm cm.ensured_packets in record cm' { ensured_packets = es }

-- A `uint32_t` of a structure that lies in these bytes.
abbrev pub word_at : List ℕ → ℕ → ℕ
word_at b i =
    get_or b i 0
    + 2 ^ 8 * get_or b (i + 1) 0
    + 2 ^ 16 * get_or b (i + 2) 0
    + 2 ^ 24 * get_or b (i + 3) 0

-- The first three words of two bodies agree: `id`, `size` and `offset`.
abbrev pub same_words : List ℕ → List ℕ → Bool
same_words a b =
    word_at a 0 == word_at b 0 && word_at a 4 == word_at b 4 && word_at a 8 == word_at b 8

-- An enabled retry of the same kind; of no bytes, the first is 0 here.
unfoldable pub matches : (p_handle pid : ℕ) → (new : List ℕ) → EnsuredPkt → Bool
matches p_handle pid new e =
    is_enabled e
    && e.hdr.pid == pid
    && e.body_size == length new
    && e.p_handle == p_handle
    && (if pid == pid_get_data
        then same_words new e.pkt_body
        else if pid == pid_stop_broadcasts_all_ports
        then true
        else get_or e.pkt_body 0 0 == get_or new 0 0)

-- The first loop of `registerPacketRetry`: the index of the match.
unfoldable pub find_match : (p_handle pid : ℕ) → (new : List ℕ) → List EnsuredPkt → Option ℕ
find_match p_handle pid new [] = none
find_match p_handle pid new (e ∷ es) =
    let rest = find_match p_handle pid new es in
    if is_last e
    then none
    else if matches p_handle pid new e
    then some 0
    else elim rest [ none ↦ none | some i ↦ some (suc i) ]

-- The second: the index of the first slot that is not enabled.
unfoldable pub find_empty : List EnsuredPkt → Option ℕ
find_empty [] = none
find_empty (e ∷ es) =
    let rest = find_empty es in
    if ltb_ℤ e.counter (pos 0) then some 0 else elim rest [ none ↦ none | some i ↦ some (suc i) ]

-- The slot taken and the new `lastEnsuredPacketIndex`, which is 0 after a match.
pub record Slot : Type 0 where
  pub index : ℕ
  pub last : ℕ

unfoldable pub oldest : (count last : ℕ) → Slot
oldest count last =
    let next = if leb count (last + 1) then 0 else last + 1 in record { index = next; last = next }

-- The match, else the empty slot, else the oldest.
abbrev pub slot_of : (count last : ℕ) → (match empty : Option ℕ) → Slot
slot_of count last (some i) empty = record { index = i; last = 0 }
slot_of count last none (some i) = record { index = i; last = i }
slot_of count last none none = oldest count last

unfoldable pub take_slot : (p_handle pid : ℕ) → (new : List ℕ) → (last : ℕ) → List EnsuredPkt → Slot
take_slot p_handle pid new last es =
    slot_of (length es) last (find_match p_handle pid new es) (find_empty es)

-- What the slot is filled with.
abbrev pub fill_slot : (retry_count : ℤ) → (p_handle pid : ℕ) → List ℕ → EnsuredPkt → EnsuredPkt
fill_slot retry_count p_handle pid new e = record {
  counter = retry_count;
  pkt_body = new ++ drop (length new) e.pkt_body;
  hdr = record (e.hdr) { start_byte = psc_start_byte; pid = pid };
  body_size = length new;
  p_handle = p_handle;
}

-- The slot that has been filled, unless there are too many bytes or no slots.
pub record Registered : Type 0 where
  pub slot : Option ℕ
  pub manager : Manager

unfoldable pub register_packet_retry : Manager → (p_handle pid : ℕ) → (new : List ℕ) → Registered
register_packet_retry cm p_handle pid new =
    let es = cm.ensured_packets in
    let s = take_slot p_handle pid new cm.last_ensured_packet_index es in
    if ltb max_p_data_body_size (length new)
    then record { slot = none; manager = cm }
    else if length es == 0
    then record { slot = none; manager = record cm { last_ensured_packet_index = 0 } }
    else record {
      slot = some (s.index);
      manager = record cm {
        last_ensured_packet_index = s.last;
        ensured_packets = modify es s.index (fill_slot cm.ensure_retry_count p_handle pid new);
      };
    }

-- The header and the body of a slot, which `sendPacket` reads.
unfoldable pub send_slot : Manager → (p_handle i : ℕ) → Option EnsuredPkt → Reply
send_slot cm p_handle i none = record { ok = false; manager = cm }
send_slot cm p_handle i (some e) =
    let s = send_packet cm p_handle e.hdr (body_of e) 0 in
    record {
      ok = s.ok;
      manager = record (s.manager) {
        ensured_packets = modify cm.ensured_packets i (λ e. record e { hdr = s.hdr });
      };
    }

abbrev pub send_registered : Manager → (p_handle : ℕ) → (slot : Option ℕ) → Reply
send_registered cm p_handle none = record { ok = false; manager = cm }
send_registered cm p_handle (some i) = send_slot cm p_handle i (get_elem? cm.ensured_packets i)

unfoldable pub com_manager_send_ensured : Manager → (p_handle pkt_info : ℕ) → (new : List ℕ) → Reply
com_manager_send_ensured cm p_handle pkt_info new =
    let r = register_packet_retry cm p_handle pkt_info new in
    send_registered r.manager p_handle r.slot

abbrev pub disable_retry : EnsuredPkt → EnsuredPkt
disable_retry e = record e { counter = retry_disabled }

-- The loop over the slots with its early `return`, which `true` stands for.
unfoldable pub update_slots : (EnsuredPkt → EnsuredPkt) → List EnsuredPkt → Bool × List EnsuredPkt
update_slots f [] = (false, [])
update_slots f (e ∷ es) =
    let (stopped, es') = update_slots f es in
    if is_last e then (true, e ∷ es) else (stopped, f e ∷ es')

-- The loop from the last slot down that marks the end of the list; `true` as long as it goes on.
unfoldable pub mark_end : List EnsuredPkt → Bool × List EnsuredPkt
mark_end [] = (true, [])
mark_end (e ∷ es) =
    let (go, es') = mark_end es in
    if go && not (is_enabled e)
    then (true, record e { counter = no_more_retries } ∷ es')
    else (false, e ∷ es')

abbrev pub updated : Bool × List EnsuredPkt → List EnsuredPkt
updated (true, es) = es
updated (false, es) = (mark_end es).1

-- What a data packet does to a slot: the first bytes of the bodies are compared.
abbrev pub answer_data : (first : ℕ) → EnsuredPkt → EnsuredPkt
answer_data first e = if is_enabled e && get_or e.pkt_body 0 0 == first then disable_retry e else e

-- What an acknowledgement does to a slot.
abbrev pub answer_ack : (pkt_info : ℕ) → DataHdr → EnsuredPkt → EnsuredPkt
answer_ack pkt_info d e =
    let same =
      word_at e.pkt_body 0 == d.id
      && word_at e.pkt_body 4 == d.size
      && word_at e.pkt_body 8 == d.offset in
    if eqb_ℤ e.counter retry_disabled
    then e
    else if pkt_info == e.hdr.pid && (not (pkt_info % 2 ^ 8 == pid_set_data) || same)
    then disable_retry e
    else e

unfoldable pub update_packet_retry_data : Manager → (body_ptr : ℕ) → Manager
update_packet_retry_data cm body_ptr = record cm {
  ensured_packets = updated (update_slots (answer_data (cm.memory body_ptr)) cm.ensured_packets);
}

-- The body of the packet is a `p_ack_t`.
unfoldable pub update_packet_retry_ack : Manager → (body_ptr : ℕ) → Manager
update_packet_retry_ack cm body_ptr =
    let pkt_info = load32 cm.memory body_ptr in
    let d = load_data_hdr cm.memory (body_ptr + 8) in
    record cm {
      ensured_packets = updated (update_slots (answer_ack pkt_info d) cm.ensured_packets);
    }
