-- ===== src/PacketParser/Facts.antt =====
-- About the bits of the header bytes that Firmware/main/PacketBuilder.h builds and PacketParser.cpp
-- reads.
use zmachine.Base.{
  ℕ, zero, suc, ◌+◌, ◌/◌, ◌%◌, ◌<◌, ◌≡◌, refl, arith, Bool, true, false, ◌&&◌, ◌==◌, if◌then◌else◌,
  bit_and, bit_or,
}
use zmachine.Base.Bits.{grid, grid-at, bit_val}
use zmachine.SnaStream.{category_byte}
use zmachine.SnaStream.Bytes.{control_byte}
use zmachine.PacketParser.{has, header_type_of}
use zmachine.ParsedPacket.{
  TransmissionHeaderType, fm_data, network_header, data_flow_control, session_control,
}

abbrev pub category_type : ℕ → TransmissionHeaderType
category_type zero = fm_data
category_type (suc zero) = network_header
category_type (suc (suc zero)) = data_flow_control
category_type (suc (suc (suc _))) = session_control

-- What the parser reads of the three header bytes.
abbrev pub header_facts : ℕ → Bool × TransmissionHeaderType × Bool × Bool × Bool × Bool
header_facts byte =
    (has byte 0x80, header_type_of byte, has byte 0x08, has byte 0x04, has byte 0x02, has byte 0x01)

pub category_facts :
    (category : ℕ) (start_of_chain end_of_chain : Bool)
    → category < 4
    → header_facts (category_byte category start_of_chain end_of_chain % 256)
      ≡ (false, category_type category, false, false, start_of_chain, end_of_chain)
unfolding header_type_of
category_facts zero true true h = refl
category_facts zero true false h = refl
category_facts zero false true h = refl
category_facts zero false false h = refl
category_facts (suc zero) true true h = refl
category_facts (suc zero) true false h = refl
category_facts (suc zero) false true h = refl
category_facts (suc zero) false false h = refl
category_facts (suc (suc zero)) true true h = refl
category_facts (suc (suc zero)) true false h = refl
category_facts (suc (suc zero)) false true h = refl
category_facts (suc (suc zero)) false false h = refl
category_facts (suc (suc (suc zero))) true true h = refl
category_facts (suc (suc (suc zero))) true false h = refl
category_facts (suc (suc (suc zero))) false true h = refl
category_facts (suc (suc (suc zero))) false false h = refl
category_facts (suc (suc (suc (suc category)))) a b h = absurd (omega arith)

abbrev pub response_bits : Bool → Bool → ℕ
response_bits end_of_chain change_direction =
    (if end_of_chain then 0x80 else 0) + (if change_direction then 0x20 else 0)

abbrev pub byte_facts : ℕ → ℕ × Bool × Bool
byte_facts byte = (bit_or (bit_and byte 0xA0) (bit_and byte 0x10), has byte 0x02, has byte 0x01)

pub response_facts :
    (e c : Bool) → byte_facts (response_bits e c % 256) ≡ (response_bits e c, false, false)
response_facts true true = refl
response_facts true false = refl
response_facts false true = refl
response_facts false false = refl

abbrev pub bracket_facts : ℕ → Bool × Bool × Bool × Bool × Bool × Bool × Bool
bracket_facts byte = (
  has byte 0x80,
  has byte 0x40,
  has byte 0x20,
  has byte 0x08,
  has byte 0x04,
  has byte 0x02,
  has byte 0x01,
)

pub brackets :
    (b : Bool)
    → bracket_facts ((if b then 0xC0 else 0x40) % 256)
      ≡ (b, true, false, false, false, false, false)
brackets true = refl
brackets false = refl

abbrev pub biu_facts : ℕ → Bool × Bool × Bool × Bool
biu_facts byte = (has byte 0x08, has byte 0x04, has byte 0x02, has byte 0x01)

pub is_fid2 : (e : Bool) → (bit_and (0x2C + bit_val e) 0xF0 == 0x20) ≡ true
is_fid2 true = refl
is_fid2 false = refl

pub fid2_facts : (e : Bool) → biu_facts (0x2C + bit_val e) ≡ (true, true, false, e)
fid2_facts true = refl
fid2_facts false = refl

low_holds : ℕ → ℕ → Bool
low_holds _ v = (bit_and v 1 == v % 2) && (bit_and v 7 == v % 8)

low_table : grid low_holds 1 256 ≡ true
unfolding grid low_holds
low_table = refl

low_bits : (v : ℕ) → v < 256 → (bit_and v 1 ≡ v % 2) × (bit_and v 7 ≡ v % 8)
unfolding low_holds
low_bits v h = ground (arith, grid-at low_holds 256 0 v 1 low_table (omega arith) h)

-- The control byte of an information packet.
pub control_facts :
    (is_final : Bool) (recieve send : ℕ)
    → let control = control_byte is_final recieve send in
      ((bit_and control 1 == 0) ≡ true)
      × (bit_and (control / 32) 7 ≡ recieve % 8)
      × (bit_and (control / 2) 7 ≡ send % 8)
      × (has (control / 16) 1 ≡ is_final)
control_facts true recieve send =
    let c = control_byte true recieve send in
    ground (
      arith,
      (low_bits c (omega arith)).0,
      (low_bits (c / 32) (omega arith)).1,
      (low_bits (c / 2) (omega arith)).1,
      (low_bits (c / 16) (omega arith)).0,
    )
control_facts false recieve send =
    let c = control_byte false recieve send in
    ground (
      arith,
      (low_bits c (omega arith)).0,
      (low_bits (c / 32) (omega arith)).1,
      (low_bits (c / 2) (omega arith)).1,
      (low_bits (c / 16) (omega arith)).0,
    )
