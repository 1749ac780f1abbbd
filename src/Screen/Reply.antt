-- ===== src/Screen/Reply.antt =====
-- Process3270Reply and the cancelling of an input, from Firmware/main/Screen.cpp.
use zmachine.Base.{
  ℕ, ◌-◌, Bool, true, false, ◌&&◌, Option, none, some, List, [], ◌∷◌, map, ltb, leb, ◌==◌,
  if◌then◌else◌, get_elem?, drop, length,
}
use zmachine.Base.Int.{pos, negsuc}
use zmachine.CharTables.{to_ascii}
use zmachine.Screen.{Screen}

unfoldable pub request_cancel : Screen → Screen
request_cancel s = record s { cancel_input = true }

unfoldable pub should_cancel_input : Screen → Screen × Bool
should_cancel_input s =
    if s.cancel_input
    then (record s { last_input_length = negsuc 0; suspended = false }, true)
    else (s, false)

unfoldable pub set_raw_stream : Option (List ℕ) → Screen → Screen
set_raw_stream raw_stream s = record s { raw_stream = raw_stream }

unfoldable pub set_non_scrolling_rows : ℕ → Screen → Screen
set_non_scrolling_rows num_rows s = record s { non_scrolling_rows = num_rows }

-- Up to the first byte that is zero.
unfoldable pub c_string : List ℕ → List ℕ
c_string [] = []
c_string (c ∷ text) = if c == 0 then [] else c ∷ c_string text

-- The place in a reply at which its text starts: behind the key, the cursor, and an address.
unfoldable pub reply_offset : List ℕ → ℕ
reply_offset value = elim (get_elem? value 3) [
  | none ↦ 3
  | some order ↦ if order == 0x11 then 6 else 3
]

-- InputString; the size of `value` is that of the reply.
unfoldable pub reply_text : List ℕ → List ℕ
reply_text value = elim (get_elem? value 0) [
  | none ↦ []
  | some key ↦
      let offset = reply_offset value in
      if (key == 0x7D) && (leb offset (length value) && ltb (length value - offset) 127)
      then map to_ascii (drop offset value)
      else []
]

unfoldable pub process_3270_reply : List ℕ → Screen → Screen
process_3270_reply value s =
    let input = if s.raw_input_wanted then value else c_string (reply_text value) in
    record s { waiting_input = input; last_input_length = pos (length input); suspended = false }
