-- ===== src/Nmea/Messages.antt =====
-- protocol_nmea.cpp: `getNmeaMsgId` and `nmeaMsgIdToTalker`. The message ids are those of
-- `eNmeaAsciiMsgId` in data_sets.h. What is behind the end of a text is a NUL.
pub mod RoundTrip
use Prim.Native.Char.{code}
use Prim.Native.String.{String}
use rover_workspace.Prelude.{
  ℕ, Bool, true, ◌&&◌, Option, none, some, List, [], ◌∷◌, map, get_or, drop, ltb, ◌==◌,
  if◌then◌else◌,
}
use rover_workspace.Prelude.Int.{ℤ, pos, negsuc}
use rover_workspace.Nmea.Signals.{switch}

-- The characters of a literal
abbrev pub chars : String → List ℕ
chars String.[] = []
chars (String.◌∷◌ c s) = code c ∷ chars s

abbrev pub msg_pimu : ℕ
msg_pimu = 1

abbrev pub msg_ppimu : ℕ
msg_ppimu = 2

abbrev pub msg_primu : ℕ
msg_primu = 3

abbrev pub msg_pins1 : ℕ
msg_pins1 = 4

abbrev pub msg_pins2 : ℕ
msg_pins2 = 5

abbrev pub msg_pgpsp : ℕ
msg_pgpsp = 6

abbrev pub msg_gxgga : ℕ
msg_gxgga = 7

abbrev pub msg_gxgll : ℕ
msg_gxgll = 8

abbrev pub msg_gxgsa : ℕ
msg_gxgsa = 9

abbrev pub msg_gxrmc : ℕ
msg_gxrmc = 10

abbrev pub msg_gxzda : ℕ
msg_gxzda = 11

abbrev pub msg_pashr : ℕ
msg_pashr = 12

abbrev pub msg_pstrb : ℕ
msg_pstrb = 13

abbrev pub msg_info : ℕ
msg_info = 14

abbrev pub msg_gxgsv : ℕ
msg_gxgsv = 15

abbrev pub msg_gxvtg : ℕ
msg_gxvtg = 16

abbrev pub msg_intel : ℕ
msg_intel = 17

abbrev pub msg_ascb : ℕ
msg_ascb = 19

abbrev pub msg_asce : ℕ
msg_asce = 20

abbrev pub msg_blen : ℕ
msg_blen = 21

abbrev pub msg_eble : ℕ
msg_eble = 22

abbrev pub msg_nelb : ℕ
msg_nelb = 23

abbrev pub msg_pers : ℕ
msg_pers = 24

abbrev pub msg_srst : ℕ
msg_srst = 25

abbrev pub msg_stpb : ℕ
msg_stpb = 26

abbrev pub msg_stpc : ℕ
msg_stpc = 27

-- UINT32_MATCH: the next four characters are the same.
unfoldable pub uint32_match : (u1 u2 : List ℕ) → Bool
uint32_match u1 u2 =
    (get_or u1 0 0 == get_or u2 0 0)
    && (get_or u1 1 0 == get_or u2 1 0)
    && (get_or u1 2 0 == get_or u2 2 0)
    && (get_or u1 3 0 == get_or u2 3 0)

-- `if (UINT32_MATCH(text, ...)) { return ...; } else if ...`, and -1 behind the last one
unfoldable pub first_match : List (String × ℕ) → (text : List ℕ) → ℤ
first_match [] text = negsuc 0
first_match ((name, id) ∷ rows) text =
    let later = first_match rows text in if uint32_match text (chars name) then pos id else later

abbrev gx_names : List (String × ℕ)
gx_names =
    ("GGA,", msg_gxgga)
    ∷ ("GLL,", msg_gxgll)
    ∷ ("GSA,", msg_gxgsa)
    ∷ ("GSV,", msg_gxgsv)
    ∷ ("RMC,", msg_gxrmc)
    ∷ ("VTG,", msg_gxvtg)
    ∷ ("ZDA,", msg_gxzda)
    ∷ []

-- `pins` is the id for PINS, which the character behind it decides.
abbrev p_names : (pins : ℕ) → List (String × ℕ)
p_names pins =
    ("PIMU", msg_pimu)
    ∷ ("PINS", pins)
    ∷ ("PERS", msg_pers)
    ∷ ("PGPS", msg_pgpsp)
    ∷ ("PPIM", msg_ppimu)
    ∷ ("PRIM", msg_primu)
    ∷ ("PASH", msg_pashr)
    ∷ []

-- -2 for a message that is too short, -1 for one that is not known
unfoldable pub get_nmea_msg_id : (msg : List ℕ) (msg_size : ℕ) → ℤ
get_nmea_msg_id msg msg_size =
    let talker = drop 1 msg in
    let first = get_or talker 0 0 in
    if ltb msg_size 5
    then negsuc 1
    else if first == b'A'
    then first_match (("ASCB", msg_ascb) ∷ ("ASCE", msg_asce) ∷ []) talker
    else if first == b'B'
    then first_match (("BLEN", msg_blen) ∷ []) talker
    else if first == b'E'
    then first_match (("EBLE", msg_eble) ∷ []) talker
    else if first == b'G'
    then first_match gx_names (drop 2 talker)
    else if first == b'I'
    then first_match (("INFO", msg_info) ∷ ("INTE", msg_intel) ∷ []) talker
    else if first == b'P'
    then first_match (p_names (if get_or msg 5 0 == b'1' then msg_pins1 else msg_pins2)) talker
    else if first == b'S'
    then first_match (("STPB", msg_stpb) ∷ ("STPC", msg_stpc) ∷ ("SRST", msg_srst) ∷ []) talker
    else negsuc 0

abbrev pub talkers : List (ℕ × Option (List ℕ))
talkers =
    (msg_pimu, some (chars "PIMU"))
    ∷ (msg_ppimu, some (chars "PPIMU"))
    ∷ (msg_primu, some (chars "PRIMU"))
    ∷ (msg_pins1, some (chars "PINS1"))
    ∷ (msg_pins2, some (chars "PINS2"))
    ∷ (msg_pgpsp, some (chars "PGPSP"))
    ∷ (msg_gxgga, some (chars "GxGGA"))
    ∷ (msg_gxgll, some (chars "GxGLL"))
    ∷ (msg_gxgsa, some (chars "GxGSA"))
    ∷ (msg_gxrmc, some (chars "GxRMC"))
    ∷ (msg_gxzda, some (chars "GxZDA"))
    ∷ (msg_pashr, some (chars "PASHR"))
    ∷ (msg_pstrb, some (chars "PSTRB"))
    ∷ (msg_info, some (chars "INFO"))
    ∷ (msg_gxgsv, some (chars "GxGSV"))
    ∷ (msg_gxvtg, some (chars "GxVTG"))
    ∷ (msg_intel, some (chars "INTEL"))
    ∷ (msg_ascb, some (chars "ASCB"))
    ∷ (msg_asce, some (chars "ASCE"))
    ∷ (msg_blen, some (chars "BLEN"))
    ∷ (msg_eble, some (chars "EBLE"))
    ∷ (msg_nelb, some (chars "NELB"))
    ∷ (msg_pers, some (chars "PERS"))
    ∷ (msg_srst, some (chars "SRST"))
    ∷ (msg_stpb, some (chars "STPB"))
    ∷ (msg_stpc, some (chars "STPC"))
    ∷ []

-- The characters that are copied to `str`, or none for the error -1
unfoldable pub nmea_msg_id_to_talker : (msg_id str_size : ℕ) → Option (List ℕ)
nmea_msg_id_to_talker msg_id str_size = if ltb str_size 5 then none else switch talkers none msg_id
