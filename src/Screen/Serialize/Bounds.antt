-- ===== src/Screen/Serialize/Bounds.antt =====
-- About SerializeScreen3270 of Firmware/main/Screen.cpp: the packets are in bounds, and together they
-- are the bytes of the lines, or of the raw stream.
use mathlib.Core.List.{flatten, append_assoc}
use zmachine.Base.{
  ℕ, zero, suc, ◌+◌, ◌-◌, ◌*◌, ◌<◌, ◌≤◌, ◌≡◌, refl, sym, ap, ◌∙◌, arith, true, false, ◌||◌,
  Bool-cases, inl, inr, Option, none, some, List, [], ◌∷◌, ◌++◌, ltb, leb, ◌==◌, if◌then◌else◌,
  get_elem?, get_elem?-some, take, drop, length, length-append,
}
use zmachine.Base.Maybe.{◌>>=◌}
use zmachine.SaveStream.Read.{length-drop, length-take-le, take-append-drop}
use zmachine.ScreenData.{add_screen_address, write_screen_data}
use zmachine.ScreenData.Length.{length-write_screen_data}
use zmachine.Screen.{Screen}
use zmachine.Screen.Grid.{IsGrid}
use zmachine.Screen.Valid.{IsValid}
use zmachine.Screen.Serialize.{
  raw_packets, cursor_field, line_bytes, serialize_lines, header, serialize, serialize_screen_3270,
}

-- No packet is longer than `n`.
abbrev pub AtMost : ℕ → List (List ℕ) → Type 0
AtMost n [] = Unit {0}
AtMost n (packet ∷ packets) = (length packet ≤ n) × AtMost n packets

length-cursor_field : (line : ℕ) (s : Screen) → length (cursor_field line s) ≡ 12
unfolding cursor_field add_screen_address
length-cursor_field line s = refl

length-line_bytes :
    (line current : ℕ) (row : List ℕ) (s : Screen)
    → length row ≡ 80
    → length (line_bytes line current row s) ≤ 92
unfolding line_bytes
length-line_bytes line current row s size = elim (Bool-cases (line == 0)) [
  | inl top ↦
      let shorter = length-take-le 78 (drop 1 row) in
      let written = length-write_screen_data 1 line (take 78 (drop 1 row)) in
      rw top (
        omega (
          arith,
          shorter,
          written,
          length-append (write_screen_data 1 line (take 78 (drop 1 row))) (0x1D ∷ 0xF0 ∷ []),
        ))
  | inr below ↦
      let written = length-write_screen_data 0 line row in
      let field : length (if current == s.cursor_row then cursor_field line s else []) ≤ 12 =
        ground (arith, length-cursor_field line s) in
      rw below (
        omega (
          arith,
          size,
          written,
          field,
          length-append (write_screen_data 0 line row)
              (if current == s.cursor_row then cursor_field line s else []),
        ))
]

-- The characters of a row
unfoldable pub row_at : ℕ → Screen → List ℕ
row_at current s = elim (get_elem? s.rows current) [ none ↦ [] | some row ↦ row ]

-- The bytes of the lines that are left, in the order of the screen.
unfoldable pub lines_bytes : ℕ → ℕ → ℕ → Screen → List ℕ
lines_bytes zero line current s = []
lines_bytes (suc n) line current s =
    line_bytes line current (row_at current s) s
    ++ lines_bytes n (line + 1) (if leb 24 (current + 1) then 0 else current + 1) s

-- The packets of some bytes: there are not too many, and none is too long.
pub record IsSplit (result : Option (List (List ℕ))) (bytes : List ℕ) (count : ℕ) : Type 0 where
  pub packets : List (List ℕ)
  pub reached : result ≡ some packets
  pub same : flatten packets ≡ bytes
  pub sizes : AtMost 240 packets
  pub few : length packets ≤ count

raw_packets-IsSplit :
    (n num count : ℕ) (raw : List ℕ)
    → length raw ≤ n
    → length raw ≤ 240 * count
    → num + count < 24
    → IsSplit (raw_packets n num raw) raw count
unfolding raw_packets flatten
raw_packets-IsSplit zero num count [] fuel fits room = record {
  packets = [];
  reached = refl;
  same = refl;
  sizes = tt;
  few = omega arith;
}
raw_packets-IsSplit zero num count (byte ∷ raw) fuel fits room = absurd (omega arith)
raw_packets-IsSplit (suc n) num count [] fuel fits room = record {
  packets = [];
  reached = refl;
  same = refl;
  sizes = tt;
  few = omega arith;
}
raw_packets-IsSplit (suc n) num zero (byte ∷ raw) fuel fits room = absurd (omega arith)
raw_packets-IsSplit (suc n) num (suc count) (byte ∷ raw) fuel fits room =
    let left = length-drop 239 raw in
    let split =
      raw_packets-IsSplit n (num + 1) count (drop 239 raw) (omega (arith, left))
        (omega (arith, left)) (omega arith) in
    record {
      packets = take 240 (byte ∷ raw) ∷ split.packets;
      reached = ground (arith, split.reached);
      same =
          ap (λ rest. take 240 (byte ∷ raw) ++ rest) split.same ∙ take-append-drop 240 (byte ∷ raw);
      sizes = ((length-take-le 240 (byte ∷ raw)).0, split.sizes);
      few = omega (arith, split.few);
    }

-- A line that closes the packet, and one that does not.
module _ (n line current written num : ℕ) (packet row : List ℕ) (packets : List (List ℕ))
    (s : Screen) (found : get_elem? s.rows current ≡ some row) where
  abbrev line_data : List ℕ
  line_data = line_bytes line current row s

  abbrev next_line : ℕ
  next_line = if leb 24 (current + 1) then 0 else current + 1

  line_closes :
      written + length line_data ≤ 2304
      → num + 1 < 24
      → 240 < length packet + length line_data
      → serialize_lines n (line + 1) next_line (written + length line_data) (num + 1) line_data s
        ≡ some packets
      → serialize_lines (suc n) line current written num packet s ≡ some (packet ∷ packets)
  unfolding serialize_lines
  line_closes room few closes e =
      let test : ltb 240 (length packet + length line_data) ≡ true = ground arith in
      let fine : (ltb 2304 (written + length line_data) || leb 24 (num + 1)) ≡ false =
        ground arith in
      rw (found, test, e, fine) refl

  line_fits :
      written + length line_data ≤ 2304
      → num < 24
      → length packet + length line_data ≤ 240
      → serialize_lines n
          (line + 1)
          next_line
          (written + length line_data)
          num
          (packet ++ line_data)
          s
        ≡ some packets
      → serialize_lines (suc n) line current written num packet s ≡ some packets
  unfolding serialize_lines
  line_fits room few fits e =
      let test : ltb 240 (length packet + length line_data) ≡ false = ground arith in
      let fine : (ltb 2304 (written + length line_data) || leb 24 num) ≡ false = ground arith in
      rw (found, test, e, fine) refl

  lines_bytes_step :
      lines_bytes (suc n) line current s ≡ line_data ++ lines_bytes n (line + 1) next_line s
  unfolding lines_bytes row_at
  lines_bytes_step =
      ap
        (λ (r : Option (List ℕ)).
          line_bytes line current (elim r [ none ↦ [] | some row ↦ row ]) s
          ++ lines_bytes n (line + 1) next_line s)
        found

-- The lines, from an open packet: a packet is closed when it has 149 bytes at least.
serialize_lines-IsSplit :
    (n line current written num : ℕ) (packet : List ℕ) (s : Screen)
    → IsGrid s.rows
    → current < 24
    → 149 * num + length packet ≤ written
    → written + 92 * n ≤ 2304
    → length packet ≤ 240
    → IsSplit
        (serialize_lines n line current written num packet s)
        (packet ++ lines_bytes n line current s)
        (16 - num)
unfolding serialize_lines flatten lines_bytes
serialize_lines-IsSplit zero line current written num packet s g inside count room small = record {
  packets = packet ∷ [];
  reached = refl;
  same = refl;
  sizes = (small, tt);
  few = omega arith;
}
serialize_lines-IsSplit (suc n) line current written num packet s g inside count room small =
    let (row, e) = get_elem?-some s.rows current (omega (arith, g.size)) in
    let l = g.lines current row e in
    let bytes = line_bytes line current row s in
    let short : length bytes ≤ 92 = length-line_bytes line current row s l.size in
    let next = if leb 24 (current + 1) then 0 else current + 1 in
    let next_inside : next < 24 = ground (arith, inside) in
    let joined = length-append packet bytes in
    elim (Bool-cases (ltb 240 (length packet + length bytes))) [
      | inl closes ↦
          let split =
            serialize_lines-IsSplit n (line + 1) next (written + length bytes) (num + 1) bytes s g
              next_inside (ground (arith, closes, short)) (omega arith) (omega arith) in
          record {
            packets = packet ∷ split.packets;
            reached =
                line_closes n line current written num packet row split.packets s e (omega arith)
                  (ground (arith, closes)) (ground (arith, closes)) split.reached;
            same =
                ap (λ rest. packet ++ rest)
                  (split.same
                    ∙ sym (lines_bytes_step n line current written num packet row [] s e));
            sizes = (small, split.sizes);
            few = ground (arith, closes, split.few);
          }
      | inr fits ↦
          let split =
            serialize_lines-IsSplit n (line + 1) next (written + length bytes) num (packet ++ bytes)
              s g next_inside (omega (arith, joined)) (omega arith)
              (ground (arith, fits, joined)) in
          record {
            packets = split.packets;
            reached =
                line_fits n line current written num packet row split.packets s e (omega arith)
                  (omega arith) (ground (arith, fits)) split.reached;
            same =
                split.same
                ∙ append_assoc packet bytes _
                ∙ ap (λ rest. packet ++ rest)
                    (sym (lines_bytes_step n line current written num packet row [] s e));
            sizes = split.sizes;
            few = split.few;
          }
    ]

-- The bytes of the whole screen
unfoldable pub screen_bytes : Screen → List ℕ
screen_bytes s = header ++ lines_bytes 24 0 s.top_line s

-- The same for both kinds of bytes
serialize_screen_3270-serialize :
    (raw : Option (List ℕ)) (s : Screen) (packets : List (List ℕ))
    → s.raw_stream ≡ raw
    → serialize raw s ≡ some packets
    → serialize_screen_3270 s
      ≡ some (record s { packets = packets; raw_stream = none }, length packets)
unfolding serialize_screen_3270
serialize_screen_3270-serialize raw s packets streams e =
    let stored = λ (result : Option (List (List ℕ))). (do
      packets ← result
      some (record s { packets = packets; raw_stream = none }, length packets)) in
    ap stored (ap (λ r. serialize r s) streams ∙ e)

-- On a valid screen without a raw stream, `SerializeScreen3270` succeeds, so it stays inside of
-- `Serialized3270Data` and `Packets`. It gives 16 packets at most, none longer than 240 bytes, and
-- one behind the other they are the header and the bytes of the 24 lines from the top line on.
pub serialize_screen_3270_lem :
    (s : Screen)
    → IsValid s
    → s.raw_stream ≡ none
    → (packets : List (List ℕ)) × (serialize_screen_3270 s
        ≡ some (record s { packets = packets; raw_stream = none }, length packets))
      × (flatten packets ≡ screen_bytes s)
      × AtMost 240 packets
      × (length packets ≤ 16)
unfolding serialize screen_bytes header add_screen_address
serialize_screen_3270_lem s v plain =
    let split =
      serialize_lines-IsSplit 24 0 s.top_line 5 0 header s v.shown.grid v.shown.top (omega arith)
        (omega arith) (omega arith) in
    (
      split.packets,
      serialize_screen_3270-serialize none s split.packets plain split.reached,
      split.same,
      split.sizes,
      split.few,
    )

-- With a raw stream of 5520 bytes at most, `SerializeScreen3270` succeeds with 23 packets at most,
-- none longer than 240 bytes, which one behind the other are the stream, and no raw stream is
-- left.
pub serialize_screen_3270-raw :
    (s : Screen) (raw : List ℕ)
    → s.raw_stream ≡ some raw
    → length raw ≤ 5520
    → (packets : List (List ℕ)) × (serialize_screen_3270 s
        ≡ some (record s { packets = packets; raw_stream = none }, length packets))
      × (flatten packets ≡ raw)
      × AtMost 240 packets
      × (length packets ≤ 23)
unfolding serialize
serialize_screen_3270-raw s raw streams fits =
    let split =
      raw_packets-IsSplit (length raw) 0 23 raw (omega arith) (omega arith) (omega arith) in
    (
      split.packets,
      serialize_screen_3270-serialize (some raw) s split.packets streams split.reached,
      split.same,
      split.sizes,
      split.few,
    )
