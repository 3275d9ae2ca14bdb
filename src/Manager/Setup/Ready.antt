-- ===== src/Manager/Setup/Ready.antt =====
-- What `initComManagerInstanceInternal` leaves behind when it succeeds.
use rover_workspace.Prelude.{
  ℕ, zero, suc, ◌+◌, ◌≡◌, refl, inl, inr, true, false, List, [], ◌∷◌, arith, length, replicate,
  Bool-cases, length-replicate, sym, ap, ◌∙◌, take,
}
use rover_workspace.Prelude.Int.{ℤ, pos, negsuc, leb_ℤ, pos_part}
use rover_workspace.Prelude.Memory.{Memory}
use rover_workspace.Comm.Parse.{is_comm_init}
use rover_workspace.Comm.Pointers.{InOrder}
use rover_workspace.Manager.{Manager, Port, RegisteredData, max_num_bcast_msgs}
use rover_workspace.Manager.Retries.Ending.{AllLast, IsEnded, AllLast-IsEnded}
use rover_workspace.Manager.Requests.Ranges.{AllInRange}
use rover_workspace.Manager.Setup.{
  InitArgs, blank_msg, blank_ensured, init_ports, has_room_for, assign, init_buffers,
  init_com_manager,
}

-- The pointers of each port's receive buffer are in order.
abbrev pub AllInOrder : List Port → Type 0
AllInOrder [] = Unit {0}
AllInOrder (port ∷ ports) = InOrder port.comm × AllInOrder ports

init_ports-AllInOrder :
    (comm_buffers : ℕ → ℕ) (i : ℕ) (m : Memory) (ports : List Port)
    → AllInOrder (init_ports comm_buffers i m ports).1
unfolding init_ports is_comm_init
init_ports-AllInOrder comm_buffers i m [] = tt
init_ports-AllInOrder comm_buffers i m (port ∷ ports) = (
  record {
    ends = refl;
    head_low = omega arith;
    head_scan = omega arith;
    scan_tail = omega arith;
    tail_end = omega arith;
    begun = inl refl;
  },
  init_ports-AllInOrder comm_buffers (i + 1) _ ports,
)

blank-AllInRange : (reg : ℕ → RegisteredData) (n : ℕ) → AllInRange reg (replicate n blank_msg)
blank-AllInRange reg zero = tt
blank-AllInRange reg (suc n) = (omega arith, blank-AllInRange reg n)

blank-AllLast : (n : ℕ) → AllLast (replicate n blank_ensured)
blank-AllLast zero = tt
blank-AllLast (suc n) = (refl, blank-AllLast n)

-- What the operations of the manager rely on.
pub record IsReady (a : InitArgs) (cm : Manager) : Type 0 where
  pub in_order : AllInOrder cm.ports
  pub in_range : AllInRange cm.reg_data cm.broadcast_messages
  pub slots : length cm.broadcast_messages ≡ max_num_bcast_msgs
  pub ended : IsEnded cm.ensured_packets
  pub retries : length cm.ensured_packets ≡ pos_part a.max_ensured_packets
  pub retry_count : cm.ensure_retry_count ≡ a.retry_count

-- No slots for a count of 0 or less
no_slots : (n : ℤ) → leb_ℤ n (pos 0) ≡ true → pos_part n ≡ 0
no_slots (pos n) h = ground arith
no_slots (negsuc n) h = refl

init_buffers-IsReady :
    (cm : Manager) (a : InitArgs)
    → (pos_part a.max_ensured_packets ≡ 0 → cm.ensured_packets ≡ [])
    → cm.ensure_retry_count ≡ a.retry_count
    → (init_buffers cm a).ok ≡ true
    → IsReady a (init_buffers cm a).manager
unfolding init_buffers
init_buffers-IsReady cm a unused count ok =
    let slots = pos_part a.max_ensured_packets in
    elim (Bool-cases (leb_ℤ a.max_ensured_packets (pos 0))) [
      | inl without ↦
          let nothing : slots ≡ 0 = no_slots a.max_ensured_packets without in
          let empty = unused nothing in
          rw without (record {
            in_order = init_ports-AllInOrder a.comm_buffers 0 cm.memory _;
            in_range = blank-AllInRange cm.reg_data max_num_bcast_msgs;
            slots = refl;
            ended = rw empty (AllLast-IsEnded [] tt);
            retries = ap length empty ∙ sym nothing;
            retry_count = count;
          })
      | inr with_retries ↦ elim (Bool-cases (has_room_for slots a.ensured_room)) [
        | inl room ↦
            rw (with_retries, room)
              (record {
                in_order = init_ports-AllInOrder a.comm_buffers 0 cm.memory _;
                in_range = blank-AllInRange cm.reg_data max_num_bcast_msgs;
                slots = refl;
                ended = AllLast-IsEnded _ (blank-AllLast slots);
                retries = length-replicate slots blank_ensured;
                retry_count = count;
              })
        | inr small ↦ let lost : false ≡ true = rw (with_retries, small) at ok in absurd (cc lost)
      ]
    ]

-- When the initialization returns 0, the state is what the other operations rely on: the pointers of
-- the receive buffer of every port are in order, the table of broadcasts has its 12 messages, all
-- within their data sets, and there are as many slots for ensured packets as asked for, none for a count
-- of 0 or less, and none after the end of the list; the retry count is the one given.
pub init_com_manager-IsReady :
    (cm : Manager) (a : InitArgs)
    → (init_com_manager cm a).ok ≡ true
    → IsReady a (init_com_manager cm a).manager
unfolding init_com_manager assign
init_com_manager-IsReady cm a ok = elim (Bool-cases (leb_ℤ a.num_handles (pos 0))) [
  | inl bad ↦ let lost : false ≡ true = rw bad at ok in absurd (cc lost)
  | inr good ↦ elim (Bool-cases (has_room_for max_num_bcast_msgs a.broadcast_room)) [
    | inl room ↦
        rw (good, room)
          (init_buffers-IsReady (assign cm a) a
            (λ nothing. ap (λ n. take n cm.ensured_packets) nothing) refl (rw (good, room) at ok))
    | inr small ↦ let lost : false ≡ true = rw (good, small) at ok in absurd (cc lost)
  ]
]
