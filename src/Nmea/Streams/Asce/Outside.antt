-- ===== src/Nmea/Streams/Asce/Outside.antt =====
-- protocol_nmea.cpp: the agreement of bits and periods, and the messages without a place among these.
use rover_workspace.Prelude.{
  ℕ, zero, suc, ◌%◌, ◌^◌, ◌<◌, ◌≤◌, ◌≡◌, bit_and, Bool, true, false, not, ◌||◌, Option, none, some,
  List, [], ◌∷◌, ◌∙◌, sym, ◌⊎◌, modify, Bool-cases, leb→le, not-leb→lt, inl, inr, arith, leb, ◌==◌,
  if◌then◌else◌,
}
use rover_workspace.Nmea.Streams.{
  nmea_msg_id_count, RmcNmea, nmea_enable_stream, current, ascii_find_next_field, when, on_ports,
}
use rover_workspace.Nmea.Streams.Bits.{Agrees, enable-Agrees}
use rover_workspace.Nmea.Streams.Asce.{
  changes_some, enable_on_ports, and_then, asce_id, asce_loop, nmea_parse_asce,
}

-- The bits and the periods of every port agree.
abbrev pub AllAgree : List RmcNmea → Type 0
AllAgree [] = Unit {0}
AllAgree (r ∷ rs) = Agrees 0 nmea_msg_id_count r × AllAgree rs

Agrees-enable :
    (r : RmcNmea) (id period : ℕ)
    → id < nmea_msg_id_count
    → Agrees 0 nmea_msg_id_count r
    → Agrees 0 nmea_msg_id_count (nmea_enable_stream r id period)
Agrees-enable r id period small agrees =
    enable-Agrees r id period 0 nmea_msg_id_count (omega arith) (omega arith)
      (λ i low high ne. agrees i low high)

module _ (change : RmcNmea → RmcNmea)
    (keeps : (r : RmcNmea)
      → Agrees 0 nmea_msg_id_count r
      → Agrees 0 nmea_msg_id_count (change r)) where
  AllAgree-modify : (rs : List RmcNmea) (i : ℕ) → AllAgree rs → AllAgree (modify rs i change)
  AllAgree-modify [] i all = tt
  AllAgree-modify (r ∷ rs) zero all = (keeps r all.0, all.1)
  AllAgree-modify (r ∷ rs) (suc i) all = (all.0, AllAgree-modify rs i all.1)

  AllAgree-when :
      (test : Bool) (i : ℕ) (rs : List RmcNmea) → AllAgree rs → AllAgree (when test change i rs)
  AllAgree-when true i rs all = AllAgree-modify rs i all
  AllAgree-when false i rs all = all

  AllAgree-bits :
      (t0 t1 t2 t3 : Bool) (rs : List RmcNmea)
      → AllAgree rs
      → AllAgree (when t3 change 3 (when t2 change 2 (when t1 change 1 (when t0 change 0 rs))))
  AllAgree-bits t0 t1 t2 t3 rs all =
      let a = AllAgree-when t0 0 rs all in
      let b = AllAgree-when t1 1 (when t0 change 0 rs) a in
      let c = AllAgree-when t2 2 (when t1 change 1 (when t0 change 0 rs)) b in
      AllAgree-when t3 3 (when t2 change 2 (when t1 change 1 (when t0 change 0 rs))) c

  AllAgree-on_ports :
      (ports p_handle : ℕ) (rs : List RmcNmea)
      → AllAgree rs
      → AllAgree (on_ports ports p_handle change rs)
  unfolding on_ports
  AllAgree-on_ports ports h rs all = elim (Bool-cases (ports == 0)) [
    | inl e ↦ rw e (AllAgree-modify rs h all)
    | inr e ↦ elim (Bool-cases (ports == 0xFF)) [
      | inl f ↦ rw (e, f) (AllAgree-bits true true true true rs all)
      | inr f ↦
          rw (e, f)
            (AllAgree-bits (not (bit_and ports 0x01 == 0)) (not (bit_and ports 0x02 == 0))
              (not (bit_and ports 0x04 == 0)) (not (bit_and ports 0x08 == 0)) rs all)
    ]
  ]

-- The text of the field with the message of round `k`, from that of the first round on
abbrev pub message_field : (k : ℕ) (ptr : List ℕ) → List ℕ
message_field zero ptr = ptr
message_field (suc k) ptr = message_field k (ascii_find_next_field (ascii_find_next_field ptr))

-- The message ends before this field or before the period behind it.
abbrev pub ends_at : (ptr : List ℕ) → Bool
ends_at ptr = (current ptr == b'*') || (current (ascii_find_next_field ptr) == b'*')

-- Within `n` rounds from a field on, for a port that there is and with a port selected, there is a message
-- without a place among the periods before the end of the text.
pub record NamesOutside (atoi : List ℕ → ℕ) (n ports p_handle : ℕ) (ptr : List ℕ) : Type 0 where
  pub round : ℕ
  pub within : round < n
  pub port : p_handle < 4
  pub selected : changes_some ports ≡ true
  pub reached : (j : ℕ) → j ≤ round → ends_at (message_field j ptr) ≡ false
  pub beyond : nmea_msg_id_count ≤ asce_id atoi (message_field round ptr)

module _ (atoi : List ℕ → ℕ) (ports p_handle : ℕ) where
  -- The rounds fail exactly for such a message, and else every port agrees.
  abbrev Then : (n : ℕ) (ptr : List ℕ) → Option (List RmcNmea) → Type 0
  Then n ptr none = NamesOutside atoi n ports p_handle ptr
  Then n ptr (some rs) = AllAgree rs × (¬ NamesOutside atoi n ports p_handle ptr)

  -- The first round meets such a message.
  outside-first :
      (n : ℕ) (ptr : List ℕ)
      → p_handle < 4
      → changes_some ports ≡ true
      → ends_at ptr ≡ false
      → nmea_msg_id_count ≤ asce_id atoi ptr
      → NamesOutside atoi (suc n) ports p_handle ptr
  outside-first n ptr port selected more beyond = record {
    round = 0;
    within = omega arith;
    port = port;
    selected = selected;
    reached = at_first;
    beyond = beyond;
  }
    where
      at_first : (j : ℕ) → j ≤ 0 → ends_at (message_field j ptr) ≡ false
      at_first zero low = more
      at_first (suc j) low = absurd (omega arith)

  outside-later :
      (n : ℕ) (ptr : List ℕ)
      → ends_at ptr ≡ false
      → NamesOutside atoi n ports p_handle (ascii_find_next_field (ascii_find_next_field ptr))
      → NamesOutside atoi (suc n) ports p_handle ptr
  outside-later n ptr more o = record {
    round = suc (o.round);
    within = omega (arith, o.within);
    port = o.port;
    selected = o.selected;
    reached = at;
    beyond = o.beyond;
  }
    where
      at : (j : ℕ) → j ≤ suc (o.round) → ends_at (message_field j ptr) ≡ false
      at zero low = more
      at (suc j) low = o.reached j (omega arith)

  -- Where the first round meets none, a later one does.
  outside-rest :
      (n : ℕ) (ptr : List ℕ) (round : ℕ)
      → (asce_id atoi ptr < nmea_msg_id_count) ⊎ (changes_some ports ≡ false)
      → round < suc n
      → p_handle < 4
      → changes_some ports ≡ true
      → ((j : ℕ) → j ≤ round → ends_at (message_field j ptr) ≡ false)
      → nmea_msg_id_count ≤ asce_id atoi (message_field round ptr)
      → NamesOutside atoi n ports p_handle (ascii_find_next_field (ascii_find_next_field ptr))
  outside-rest n ptr zero (inl low) within port selected reached beyond = absurd (omega arith)
  outside-rest n ptr zero (inr off) within port selected reached beyond =
      let both : true ≡ false = sym selected ∙ off in absurd (cc both)
  outside-rest n ptr (suc k) fine within port selected reached beyond = record {
    round = k;
    within = omega arith;
    port = port;
    selected = selected;
    reached = λ j low. reached (suc j) (omega arith);
    beyond = beyond;
  }

  -- A round without such a message
  next-Then :
      (n : ℕ) (ptr : List ℕ) (o : Option (List RmcNmea))
      → ends_at ptr ≡ false
      → (asce_id atoi ptr < nmea_msg_id_count) ⊎ (changes_some ports ≡ false)
      → Then n (ascii_find_next_field (ascii_find_next_field ptr)) o
      → Then (suc n) ptr o
  next-Then n ptr none more fine o = outside-later n ptr more o
  next-Then n ptr (some rs) more fine (all, none_named) = (
    all,
    λ o. none_named (outside-rest n ptr o.round fine o.within o.port o.selected o.reached o.beyond),
  )

  loop-Then :
      (n : ℕ) (ptr : List ℕ) (rs : List RmcNmea)
      → p_handle < 4
      → AllAgree rs
      → Then n ptr (asce_loop atoi n ports p_handle ptr rs)
  unfolding asce_loop enable_on_ports and_then
  loop-Then zero ptr rs port all = (all, λ o. absurd (omega (arith, o.within)))
  loop-Then (suc n) ptr rs port all =
      let id = asce_id atoi ptr in
      let period_ptr = ascii_find_next_field ptr in
      let period = if current period_ptr == b',' then 0 else atoi period_ptr % 2 ^ 8 in
      let next = ascii_find_next_field period_ptr in
      elim (Bool-cases (ends_at ptr)) [
        | inl e ↦ rw e (
          all,
          λ o. let both : true ≡ false = sym e ∙ o.reached 0 (omega arith) in absurd (cc both),
        )
        | inr e ↦ elim (Bool-cases (leb nmea_msg_id_count id)) [
          | inl f ↦ elim (Bool-cases (changes_some ports)) [
            | inl g ↦ rw (e, f, g) (outside-first n ptr port g e (leb→le nmea_msg_id_count id f))
            | inr g ↦ rw (e, f, g) (next-Then n ptr _ e (inr g) (loop-Then n next rs port all))
          ]
          | inr f ↦
              let low = not-leb→lt nmea_msg_id_count id f in
              let set = on_ports ports p_handle (λ r. nmea_enable_stream r id period) rs in
              let all' : AllAgree set =
                AllAgree-on_ports (λ r. nmea_enable_stream r id period)
                  (λ r. Agrees-enable r id period low) ports p_handle rs all in
              rw (e, f) (next-Then n ptr _ e (inl low) (loop-Then n next set port all'))
        ]
      ]

-- What holds of the result for a message: NamesOutside is about its first 20 messages, for the ports that
-- its options select.
abbrev pub AgreesOrOutside :
    (atoi : List ℕ → ℕ) (p_handle : ℕ) (text : List ℕ) → Option (ℕ × List RmcNmea) → Type 0
AgreesOrOutside atoi h text none =
    NamesOutside atoi 20 (bit_and (atoi text % 2 ^ 32) 0xFF) h (ascii_find_next_field text)
AgreesOrOutside atoi h text (some (options, rs)) =
    AllAgree rs
    × (¬ NamesOutside atoi 20 (bit_and (atoi text % 2 ^ 32) 0xFF) h (ascii_find_next_field text))

answer :
    (atoi : List ℕ → ℕ) (p_handle : ℕ) (text : List ℕ) (options : ℕ) (o : Option (List RmcNmea))
    → Then atoi (bit_and (atoi text % 2 ^ 32) 0xFF) p_handle 20 (ascii_find_next_field text) o
    → AgreesOrOutside atoi p_handle text (and_then o (λ rs. some (options, rs)))
unfolding and_then
answer atoi h text options none o = o
answer atoi h text options (some rs) o = o

-- Where the bits of every port say which messages have a period that is not 0, an ASCE message
-- fails exactly when, for a port below 4 and with a port selected by its options, one of its first
-- 20 messages, at its place in the text and before the end of the text, is one whose id is
-- NMEA_MSG_ID_COUNT or more, for which the code writes outside the array of periods; and when it
-- does not fail, the bits of every port still say so.
pub asce-AgreesOrOutside :
    (atoi : List ℕ → ℕ) (text : List ℕ) (p_handle : ℕ) (rmci : List RmcNmea)
    → AllAgree rmci
    → AgreesOrOutside atoi p_handle text (nmea_parse_asce atoi p_handle text rmci)
unfolding nmea_parse_asce
asce-AgreesOrOutside atoi text h rmci all = elim (Bool-cases (leb 4 h)) [
  | inl e ↦ let far = leb→le 4 h e in rw e (all, λ o. absurd (omega (arith, o.port, far)))
  | inr e ↦
      let near = not-leb→lt 4 h e in
      rw e (
        answer atoi h text _ _ (
          loop-Then atoi (bit_and (atoi text % 2 ^ 32) 0xFF) h 20 (ascii_find_next_field text) rmci
            near all))
]
