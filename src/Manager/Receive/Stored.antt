-- ===== src/Manager/Receive/Stored.antt =====
-- Data that fit into the registered data set are written there whole.
use rover_workspace.Prelude.{
  ℕ, ◌+◌, ◌%◌, ◌^◌, ◌≤◌, ◌<◌, ◌≡◌, ap, ◌∙◌, Option, none, some, arith, le→leb, not-zero, lt→ltb,
}
use rover_workspace.Prelude.Memory.{Memory, bytes, write_bytes}
use rover_workspace.Comm.{DataHdr}
use rover_workspace.Comm.Send.{copy_data_p_to_struct_p2}
use rover_workspace.Manager.{Manager, RegisteredData, load_data_hdr, did_count_uins}
use rover_workspace.Manager.Receive.{
  trim_size, copy_data_p_to_struct_p, call_post, store_data, store_size, store_trimmed, report,
  deliver_data,
}

trim_size-whole :
    (data_size : ℕ) (d : DataHdr)
    → data_size < 2 ^ 32
    → d.offset + d.size ≤ data_size
    → trim_size data_size d ≡ some (d.size)
unfolding trim_size
trim_size-whole data_size d s fits = ground arith

store_size-same : (data_ptr : ℕ) (d : DataHdr) (m : Memory) → store_size data_ptr d.size d m ≡ m
store_size-same data_ptr d m = ground arith

-- The memory with the data in the data set.
abbrev pub stored : Manager → (data_ptr : ℕ) → Memory
stored cm data_ptr =
    let d = load_data_hdr cm.memory data_ptr in
    write_bytes cm.memory ((cm.reg_data d.id).rx_ptr + d.offset)
      (bytes cm.memory (data_ptr + 12) d.size)

store_data-whole :
    (reg : RegisteredData) (p_handle data_ptr : ℕ) (m : Memory)
    → reg.pst_rx_fnc ≡ none
    → 0 < reg.rx_ptr
    → reg.size < 2 ^ 32
    → let d = load_data_hdr m data_ptr in
      d.offset + d.size ≤ reg.size
      → store_data reg p_handle data_ptr m
        ≡ write_bytes m (reg.rx_ptr + d.offset) (bytes m (data_ptr + 12) d.size)
unfolding store_data copy_data_p_to_struct_p copy_data_p_to_struct_p2
store_data-whole reg p_handle data_ptr m quiet there s fits =
    let d = load_data_hdr m data_ptr in
    rw (
      quiet,
      not-zero reg.rx_ptr there,
      le→leb ((d.size + d.offset) % 2 ^ 32) reg.size (omega arith),
    )

-- What a packet with data that fit looks like to the manager.
pub record Fits (cm : Manager) (data_ptr : ℕ) : Type 0 where
  pub known : (load_data_hdr cm.memory data_ptr).id < did_count_uins
  pub there : 0 < (cm.reg_data (load_data_hdr cm.memory data_ptr).id).rx_ptr
  pub small : (cm.reg_data (load_data_hdr cm.memory data_ptr).id).size < 2 ^ 32
  pub fits :
      (load_data_hdr cm.memory data_ptr).offset + (load_data_hdr cm.memory data_ptr).size
      ≤ (cm.reg_data (load_data_hdr cm.memory data_ptr).id).size
  pub quiet : cm.pst_rx_fnc ≡ none
  pub reg_quiet : (cm.reg_data (load_data_hdr cm.memory data_ptr).id).pst_rx_fnc ≡ none

pub deliver_data-stored :
    (cm : Manager) (p_handle data_ptr : ℕ)
    → Fits cm data_ptr
    → deliver_data cm p_handle data_ptr ≡ some (stored cm data_ptr)
unfolding deliver_data
deliver_data-stored cm p_handle data_ptr v =
    let d = load_data_hdr cm.memory data_ptr in
    let reg = cm.reg_data d.id in
    let whole = trim_size-whole reg.size d v.small v.fits in
    let store =
      store_data-whole reg p_handle data_ptr cm.memory v.reg_quiet v.there v.small v.fits in
    rw (lt→ltb d.id did_count_uins v.known) (
      ap
        (λ (o : Option ℕ).
          report cm p_handle data_ptr (store_trimmed reg p_handle data_ptr o d cm.memory))
        whole
      ∙ ap
          (λ (m : Memory).
            some (call_post cm.pst_rx_fnc p_handle data_ptr (store_data reg p_handle data_ptr m)))
          (store_size-same data_ptr d cm.memory)
      ∙ ap
          (λ (f : Option (Memory → ℕ → ℕ → Memory)).
            some (call_post f p_handle data_ptr (store_data reg p_handle data_ptr cm.memory)))
          v.quiet
      ∙ ap some store)
