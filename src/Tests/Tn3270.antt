-- ===== src/Tests/Tn3270.antt =====
-- The theorem about the code of TN3270.cpp at a concrete input.
use mathlib.Core.List.{flatten}
use zmachine.Base.{ℕ, ◌≡◌, refl, arith, Bool, false, some, List, [], ◌∷◌, replicate}
use zmachine.Base.Int.{pos}
use zmachine.Base.Maybe.{◌>>=◌}
use zmachine.Screen.Reply.{set_raw_stream}
use zmachine.Tn3270.{Tn3270, Session, iac, eor, read_screen, process_round, process, answer_record}
use zmachine.Tn3270.Receiving.{IsReceiver}
use zmachine.Tn3270.Records.{process-answer_record}
use zmachine.Tests.Screen.{full_screen, enter}

abbrev never_fails : List (List ℕ) → Bool
never_fails _ = false

-- A reply with a byte 255, which comes in two buffers with the start of another record.
abbrev reply : List ℕ
reply = 0x7D ∷ 0x40 ∷ 0xFF ∷ 0xC1 ∷ []

abbrev host_client : Tn3270
host_client = record {
  data_stream = [];
  rx = replicate 256 0;
  tx = [];
  recv_ptr = 0;
  recv_end = pos 0;
  has_error = false;
  received = some (0x7D ∷ 0x40 ∷ 0xFF ∷ []) ∷ some (0xFF ∷ 0xC1 ∷ iac ∷ eor ∷ 0xF1 ∷ []) ∷ [];
  selected = [];
  sent = [];
}

abbrev host_session : Session
host_session = record { client = host_client; screen = full_screen; waits = enter ∷ [] }

process-answer_record_example :
    (final client : Tn3270) × (answer_record never_fails reply host_client ≡ some final)
    × (flatten final.sent ≡ 0x7D ∷ 0x40 ∷ 0xFF ∷ 0xFF ∷ 0xC1 ∷ iac ∷ eor ∷ [])
    × ((do read ← process never_fails 4 host_session; process_round never_fails read)
        ≡ read_screen never_fails
            (enter ∷ [])
            false
            client
            (set_raw_stream (some reply) full_screen))
    × IsReceiver client (0xF1 ∷ [])
    × (client.data_stream ≡ [])
unfolding flatten
process-answer_record_example =
    process-answer_record never_fails reply (0xF1 ∷ []) host_client host_session (omega arith)
      (omega arith) refl (omega arith) refl refl
      (record {
        size = refl;
        last = 0;
        end = refl;
        inside = omega arith;
        buffers = (0x7D ∷ 0x40 ∷ 0xFF ∷ []) ∷ (0xFF ∷ 0xC1 ∷ iac ∷ eor ∷ 0xF1 ∷ []) ∷ [];
        feed = refl;
        good = (omega arith, omega arith, (omega arith, omega arith, tt));
        left = refl;
      })
