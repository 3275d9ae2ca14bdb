-- ===== src/Manager/Receive/Store.antt =====
-- The data of a packet that has come in: what is written of them, and where.
use rover_workspace.Prelude.{
  ℕ, ◌+◌, ◌%◌, ◌^◌, ◌≤◌, ◌<◌, ◌≡◌, refl, sym, ap, ◌∙◌, ◌⊎◌, inl, inr, Option, none, some, arith,
  ltb, leb, ◌==◌, ==_iff, Bool-cases, leb→le,
}
use rover_workspace.Prelude.Memory.{
  Memory, bytes, write_bytes, write_bytes-Holds, write_bytes-outside, length-bytes,
}
use rover_workspace.Comm.{DataHdr}
use rover_workspace.Comm.Send.{word_bytes, copy_data_p_to_struct_p2}
use rover_workspace.Comm.Receive.{load_word}
use rover_workspace.Manager.{Manager, RegisteredData, load_data_hdr, did_count_uins}
use rover_workspace.Manager.Receive.{
  trim_size, copy_data_p_to_struct_p, or_same, store_data, store_size, store_trimmed, report,
  deliver_data,
}

-- Of data that end behind a registered data set, the size that is kept is less than 256, and what is kept
-- ends within the data set; data that end within it, or that there is no data set for, are kept whole.
-- The offset must be less than 2 ^ 31, and the sizes less than that of an `int`.
pub trim_size-fits :
    (data_size : ℕ) (d : DataHdr) (n : ℕ)
    → data_size < 2 ^ 31
    → d.offset < 2 ^ 31
    → d.size < 2 ^ 31
    → trim_size data_size d ≡ some n
    → (n ≤ d.size)
      × ((0 < data_size → d.offset + n ≤ data_size)
          × ((0 < data_size → data_size < d.offset + d.size → n < 256)
              × (d.offset + d.size ≤ data_size → n ≡ d.size)))
unfolding trim_size
trim_size-fits data_size d n s1 s2 s3 h = ground arith

-- What the copy leaves alone.
copy-outside :
    (m : Memory) (sptr data_ptr maxsize q : ℕ)
    → let h = load_data_hdr m data_ptr in
      h.offset + h.size < 2 ^ 32
      → (q < sptr) ⊎ (sptr + maxsize ≤ q)
      → or_same m (copy_data_p_to_struct_p m sptr data_ptr maxsize) q ≡ m q
unfolding copy_data_p_to_struct_p copy_data_p_to_struct_p2
copy-outside m sptr data_ptr maxsize q small out =
    let h = load_data_hdr m data_ptr in
    elim (Bool-cases (leb ((h.size + h.offset) % 2 ^ 32) maxsize)) [
      | inl fits ↦
          let le = leb→le _ _ fits in
          rw fits (
            write_bytes-outside m (sptr + h.offset) (bytes m (data_ptr + 12) h.size) q (elim out [
              | inl low ↦ inl (omega arith)
              | inr high ↦ inr (omega (arith, length-bytes m (data_ptr + 12) h.size))
            ]))
      | inr over ↦ rw over
    ]

-- The header after its size has been set.
store_size-hdr :
    (m : Memory) (data_ptr n : ℕ)
    → n < 2 ^ 32
    → let d = load_data_hdr m data_ptr in
      let h = load_data_hdr (store_size data_ptr n d m) data_ptr in
      (h.size ≡ n) × (h.offset ≡ d.offset)
store_size-hdr m data_ptr n small = elim (Bool-cases (n == (load_data_hdr m data_ptr).size)) [
  | inl same ↦ rw same (sym ((==_iff n _).0 same), refl)
  | inr new ↦
      let m1 = write_bytes m (data_ptr + 4) (word_bytes n) in
      let same : (i : ℕ) → data_ptr + 8 ≤ i → m1 i ≡ m i =
        λ i h. write_bytes-outside m (data_ptr + 4) (word_bytes n) i (inr (omega arith)) in
      rw new (
        load_word m1 (data_ptr + 4) n small (write_bytes-Holds m (data_ptr + 4) (word_bytes n)),
        omega (
          arith,
          same (data_ptr + 8) (omega arith),
          same (data_ptr + 8 + 1) (omega arith),
          same (data_ptr + 8 + 2) (omega arith),
          same (data_ptr + 8 + 3) (omega arith),
        ),
      )
]

store_size-outside :
    (m : Memory) (data_ptr n q : ℕ) (d : DataHdr)
    → (q < data_ptr + 4) ⊎ (data_ptr + 8 ≤ q)
    → store_size data_ptr n d m q ≡ m q
store_size-outside m data_ptr n q d out = elim (Bool-cases (n == d.size)) [
  | inl same ↦ rw same
  | inr new ↦ rw new (
      write_bytes-outside m (data_ptr + 4) (word_bytes n) q
        (elim out [ inl low ↦ inl low | inr high ↦ inr (omega arith) ]))
]

trim_size-le : (data_size : ℕ) (d : DataHdr) (n : ℕ) → trim_size data_size d ≡ some n → n ≤ d.size
unfolding trim_size
trim_size-le data_size d n h = ground arith

-- Without callbacks, a data set is written at most.
store_data-outside :
    (reg : RegisteredData) (p_handle data_ptr q : ℕ) (m : Memory)
    → reg.pst_rx_fnc ≡ none
    → let h = load_data_hdr m data_ptr in
      h.offset + h.size < 2 ^ 32
      → (q < reg.rx_ptr) ⊎ (reg.rx_ptr + reg.size ≤ q)
      → store_data reg p_handle data_ptr m q ≡ m q
unfolding store_data
store_data-outside reg p_handle data_ptr q m quiet small out = elim (Bool-cases (reg.rx_ptr == 0)) [
  | inl nowhere ↦ rw (quiet, nowhere)
  | inr there ↦ rw (quiet, there) (copy-outside m reg.rx_ptr data_ptr reg.size q small out)
]

store_trimmed-outside :
    (reg : RegisteredData) (p_handle data_ptr q : ℕ) (m m' : Memory) (kept : Option ℕ)
    → let d = load_data_hdr m data_ptr in
      ((n : ℕ) → kept ≡ some n → n ≤ d.size)
      → reg.pst_rx_fnc ≡ none
      → d.offset + d.size < 2 ^ 32
      → store_trimmed reg p_handle data_ptr kept d m ≡ some m'
      → (q < reg.rx_ptr) ⊎ (reg.rx_ptr + reg.size ≤ q)
      → (q < data_ptr + 4) ⊎ (data_ptr + 8 ≤ q)
      → m' q ≡ m q
store_trimmed-outside reg p_handle data_ptr q m m' none le quiet small got out out' =
    absurd (cc got)
store_trimmed-outside reg p_handle data_ptr q m m' (some n) le quiet small got out out' =
    let d = load_data_hdr m data_ptr in
    let m1 = store_size data_ptr n d m in
    let less = le n refl in
    let (size, offset) = store_size-hdr m data_ptr n (omega arith) in
    let is : store_data reg p_handle data_ptr m1 ≡ m' = cc got in
    ap (λ (m : Memory). m q) (sym is)
    ∙ store_data-outside reg p_handle data_ptr q m1 quiet (omega arith) out
    ∙ store_size-outside m data_ptr n q d out'

pub quiet_report :
    (cm : Manager) (p_handle data_ptr : ℕ) (o : Option Memory) (m' : Memory)
    → cm.pst_rx_fnc ≡ none
    → report cm p_handle data_ptr o ≡ some m'
    → o ≡ some m'
quiet_report cm p_handle data_ptr none m' quiet got = absurd (cc got)
quiet_report cm p_handle data_ptr (some m) m' quiet got = rw quiet at got

-- After a packet with data whose offset and size sum up to less than 2 ^ 32, and with no callbacks for the
-- data, the memory has changed nowhere but inside the data set that is registered for the data's id
-- and in the size field of the packet itself.
pub deliver_data-outside :
    (cm : Manager) (p_handle data_ptr q : ℕ) (m' : Memory)
    → let d = load_data_hdr cm.memory data_ptr in
      let reg = cm.reg_data d.id in
      cm.pst_rx_fnc ≡ none
      → reg.pst_rx_fnc ≡ none
      → d.offset + d.size < 2 ^ 32
      → deliver_data cm p_handle data_ptr ≡ some m'
      → (q < reg.rx_ptr) ⊎ (reg.rx_ptr + reg.size ≤ q)
      → (q < data_ptr + 4) ⊎ (data_ptr + 8 ≤ q)
      → m' q ≡ cm.memory q
unfolding deliver_data
deliver_data-outside cm p_handle data_ptr q m' quiet reg_quiet small got out out' =
    let d = load_data_hdr cm.memory data_ptr in
    let reg = cm.reg_data d.id in
    elim (Bool-cases (ltb d.id did_count_uins)) [
      | inl known ↦
          store_trimmed-outside reg p_handle data_ptr q cm.memory m' (trim_size reg.size d)
            (trim_size-le reg.size d) reg_quiet small
            (quiet_report cm p_handle data_ptr _ m' quiet (rw known at got)) out out'
      | inr unknown ↦
          let same =
            quiet_report cm p_handle data_ptr (some (cm.memory)) m' quiet (rw unknown at got) in
          let is : cm.memory ≡ m' = cc same in ap (λ (m : Memory). m q) (sym is)
    ]
