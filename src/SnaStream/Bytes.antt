-- ===== src/SnaStream/Bytes.antt =====
-- About the bytes of the packets of Firmware/main/PacketBuilder.h.
use zmachine.Base.{
  ℕ, suc, ◌+◌, ◌*◌, ◌/◌, ◌%◌, ◌<◌, ◌≤◌, ◌≡◌, refl, sym, ap, ◌∙◌, arith, Bool, true, some, List, [],
  ◌∷◌, ◌++◌, leb, ◌==◌, ==_iff, if◌then◌else◌, bit_or, set, take, length, length-set, length-append,
  take-set_next, subst,
}
use mathlib.Core.List.{append_assoc, append-nil}
use zmachine.Base.Bits.{grid, grid-at, bit_val}
use zmachine.SnaStream.{SnaStream, send_byte, send_data, get_data, reset, recieve_bits, send_bits}

-- The stream has sent these bytes since it was reset.
pub record Sent (s : SnaStream) (bytes : List ℕ) : Type 0 where
  pub size : length s.history ≡ 4096
  pub count : s.head ≡ length bytes
  pub sent : take s.head s.history ≡ bytes

abbrev pub low_bytes : List ℕ → List ℕ
low_bytes [] = []
low_bytes (byte ∷ bytes) = byte % 256 ∷ low_bytes bytes

pub length-low_bytes : (bytes : List ℕ) → length (low_bytes bytes) ≡ length bytes
length-low_bytes [] = refl
length-low_bytes (byte ∷ bytes) = ap suc (length-low_bytes bytes)

pub send_byte-Sent :
    (byte : ℕ) (s : SnaStream) (bytes : List ℕ)
    → Sent s bytes
    → length bytes < 4096
    → Sent (send_byte byte s) (bytes ++ byte % 256 ∷ [])
unfolding send_byte
send_byte-Sent byte s bytes h room =
    let inside : s.head % 4096 ≡ s.head = omega (arith, h.count) in
    record {
      size = length-set s.history (s.head % 4096) (byte % 256) ∙ h.size;
      count = omega (arith, h.count, length-append bytes (byte % 256 ∷ []));
      sent =
          ap (λ i. take (s.head + 1) (set s.history i (byte % 256))) inside
          ∙ take-set_next s.history s.head (byte % 256) (omega (arith, h.count, h.size))
          ∙ ap (λ zs. zs ++ byte % 256 ∷ []) h.sent;
    }

pub send_data-Sent :
    (more : List ℕ) (s : SnaStream) (bytes : List ℕ)
    → Sent s bytes
    → length bytes + length more ≤ 4096
    → Sent (send_data more s) (bytes ++ low_bytes more)
unfolding send_data
send_data-Sent [] s bytes h room = subst (Sent s) (sym (append-nil bytes)) h
send_data-Sent (byte ∷ more) s bytes h room =
    let longer = length-append bytes (byte % 256 ∷ []) in
    subst (Sent (send_data more (send_byte byte s)))
      (append_assoc bytes (byte % 256 ∷ []) (low_bytes more))
      (send_data-Sent more (send_byte byte s) (bytes ++ byte % 256 ∷ [])
        (send_byte-Sent byte s bytes h (omega arith)) (omega (arith, longer)))

-- What is sent beside the history stays as it is.
pub record SameCounts (s t : SnaStream) : Type 0 where
  pub recieve_count : t.recieve_count ≡ s.recieve_count
  pub send_count : t.send_count ≡ s.send_count
  pub sequence : t.sequence ≡ s.sequence

pub send_data-SameCounts : (more : List ℕ) (s : SnaStream) → SameCounts s (send_data more s)
unfolding send_data send_byte
send_data-SameCounts [] s = record { recieve_count = refl; send_count = refl; sequence = refl }
send_data-SameCounts (byte ∷ more) s =
    let h = send_data-SameCounts more (send_byte byte s) in
    record { recieve_count = h.recieve_count; send_count = h.send_count; sequence = h.sequence }

recieve_holds : ℕ → ℕ → Bool
recieve_holds _ count = recieve_bits count == count % 8 * 32

recieve_table : grid recieve_holds 1 256 ≡ true
unfolding grid recieve_holds
recieve_table = refl

send_holds : ℕ → ℕ → Bool
send_holds _ count = send_bits count == count % 8 * 2

send_table : grid send_holds 1 256 ≡ true
unfolding grid send_holds
send_table = refl

joined_holds : ℕ → ℕ → Bool
joined_holds k sent =
    bit_or (bit_or (k / 8 * 0x10) (k % 8 * 32)) (sent * 2) == k % 8 * 32 + k / 8 * 0x10 + sent * 2

joined_table : grid joined_holds 16 8 ≡ true
unfolding grid joined_holds
joined_table = refl

-- The control byte of an information packet.
abbrev pub control_byte : Bool → ℕ → ℕ → ℕ
control_byte is_final recieve send = recieve % 8 * 32 + bit_val is_final * 0x10 + send % 8 * 2

pub info_control :
    (is_final : Bool) (recieve send : ℕ)
    → recieve < 256
    → send < 256
    → bit_or (bit_or (if is_final then 0x10 else 0) (recieve_bits recieve)) (send_bits send)
      ≡ control_byte is_final recieve send
unfolding recieve_holds send_holds joined_holds
info_control is_final recieve send hr hs =
    let k = bit_val is_final * 8 + recieve % 8 in
    let flag : k / 8 * 0x10 ≡ (if is_final then 0x10 else 0) = ground arith in
    let count : k % 8 * 32 ≡ recieve_bits recieve =
      ground (arith, grid-at recieve_holds 256 0 recieve 1 recieve_table (omega arith) hr) in
    let sent : send % 8 * 2 ≡ send_bits send =
      ground (arith, grid-at send_holds 256 0 send 1 send_table (omega arith) hs) in
    let joined =
      (==_iff _ _).0
        (grid-at joined_holds 8 k (send % 8) 16 joined_table (ground arith) (omega arith)) in
    let flagged = if is_final then 0x10 else 0 in
    sym (
      ap (λ n. bit_or (bit_or n (k % 8 * 32)) (send % 8 * 2)) flag
      ∙ ap (λ n. bit_or (bit_or flagged n) (send % 8 * 2)) count
      ∙ ap (λ n. bit_or (bit_or flagged (recieve_bits recieve)) n) sent)
    ∙ joined
    ∙ ground arith

pub reset-Sent : (s : SnaStream) → length s.history ≡ 4096 → Sent (reset s) []
unfolding reset
reset-Sent s size = record { size = size; count = refl; sent = refl }

pub get_data-Sent :
    (s : SnaStream) (bytes : List ℕ) → Sent s bytes → length bytes ≤ 4096 → get_data s ≡ some bytes
unfolding get_data
get_data-Sent s bytes h room =
    let small : leb s.head 4096 ≡ true = ground (arith, h.count) in rw small (ap some h.sent)
