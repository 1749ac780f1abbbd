-- ===== src/Tn3270/Records.antt =====
-- About Process of Firmware/main/TN3270.cpp: a record that comes with its bytes 255 doubled is put
-- together and shown.
use mathlib.Core.List.{flatten, append_assoc, append-nil}
use zmachine.Base.{
  ℕ, suc, ◌+◌, ◌<◌, ◌≤◌, ◌≡◌, refl, sym, ap, ◌∙◌, arith, Bool, true, false, ◌&&◌, Bool-cases, inl,
  inr, some, List, [], ◌∷◌, ◌++◌, ltb, ◌==◌, subst, if◌then◌else◌, length, length-append,
}
use zmachine.Base.Maybe.{◌>>=◌}
use zmachine.Screen.Reply.{set_raw_stream}
use zmachine.Tn3270.{
  Tn3270, Session, iac, eor, recv_byte, store_byte, read_screen, end_record, process_verb,
  process_round, process, answer_record,
}
use zmachine.Tn3270.Receiving.{IsReceiver, with_buffer, recv_byte-Receives}
use zmachine.Tn3270.Sending.{escape, wire, if_holds, answer_record-wire}

-- The client has read some bytes into its record.
pub record Reads (t : Tn3270) (stored rest : List ℕ) (client : Tn3270) : Type 0 where
  pub ready : IsReceiver client rest
  pub same : client.data_stream ≡ t.data_stream ++ stored
  pub no_error : client.has_error ≡ false

stored-Reads :
    (t u : Tn3270) (byte : ℕ) (rest : List ℕ)
    → IsReceiver u rest
    → u.data_stream ≡ t.data_stream
    → u.has_error ≡ false
    → length t.data_stream < 4096
    → Reads t (byte ∷ []) rest (store_byte byte u)
unfolding store_byte
stored-Reads t u byte rest r same fine room =
    if_holds (Reads t (byte ∷ []) rest) (ltb (length u.data_stream) 4096) _ _
      (λ fits. record {
        ready = record {
          size = r.size;
          last = r.last;
          end = r.end;
          inside = r.inside;
          buffers = r.buffers;
          feed = r.feed;
          good = r.good;
          left = r.left;
        };
        same = ap (λ ds. ds ++ byte ∷ []) same;
        no_error = fine;
      })
      (λ full. absurd (ground (arith, room, full, ap length same)))

module _ (send : List (List ℕ) → Bool) where
  plain_round :
      (session : Session) (byte : ℕ) (client : Tn3270)
      → recv_byte session.client ≡ some (byte, client)
      → (byte == iac) ≡ false
      → process_round send session ≡ some (record session { client = store_byte byte client })
  unfolding process_round
  plain_round session byte client e plain = rw (e, plain) refl

  verb_round :
      (session : Session) (verb : ℕ) (middle client : Tn3270)
      → recv_byte session.client ≡ some (iac, middle)
      → recv_byte middle ≡ some (verb, client)
      → process_round send session ≡ (
          if verb == iac
          then some (record session { client = store_byte iac client })
          else process_verb send verb (record session { client = client }))
  unfolding process_round
  verb_round session verb middle client e e' = rw (e, e') refl

  doubled_round :
      (session : Session) (byte : ℕ) (middle client : Tn3270)
      → (byte == iac) ≡ true
      → recv_byte session.client ≡ some (iac, middle)
      → recv_byte middle ≡ some (byte, client)
      → process_round send session ≡ some (record session { client = store_byte byte client })
  doubled_round session byte middle client doubled e e' =
      let same : iac ≡ byte = ground (arith, doubled) in
      verb_round session byte middle client e e'
      ∙ rw doubled (ap (λ b. some (record session { client = store_byte b client })) same)

  process_step :
      (session next last : Session) (n : ℕ)
      → session.client.has_error ≡ false
      → process_round send session ≡ some next
      → process send n next ≡ some last
      → process send (suc n) session ≡ some last
  unfolding process
  process_step session next last n fine e e' =
      if_holds (λ r. r ≡ some last) session.client.has_error _ _
        (λ bad. absurd (ground (arith, bad, fine)))
        (λ good. ap (λ r. do next ← r; process send n next) e ∙ e')

  -- A byte of a record, which is doubled when it is 255
  byte_round :
      (session : Session) (byte : ℕ) (rest : List ℕ)
      → IsReceiver session.client ((if byte == iac then iac ∷ [] else []) ++ byte ∷ rest)
      → session.client.has_error ≡ false
      → length session.client.data_stream < 4096
      → (client : Tn3270) × (process_round send session ≡ some (record session { client = client }))
        × Reads session.client (byte ∷ []) rest client
  byte_round session byte rest r fine room = elim (Bool-cases (byte == iac)) [
    | inl doubled ↦
        let first = recv_byte-Receives session.client iac (byte ∷ rest) (
          subst (λ b. IsReceiver session.client ((if b then iac ∷ [] else []) ++ byte ∷ rest))
            doubled r) in
        let middle =
          with_buffer session.client first.rx first.recv_ptr first.recv_end first.received in
        let second = recv_byte-Receives middle byte rest first.ready in
        let client = with_buffer middle second.rx second.recv_ptr second.recv_end second.received in
        let stored = stored-Reads session.client client byte rest second.ready refl fine room in
        (
          store_byte byte client,
          doubled_round session byte middle client doubled first.reached second.reached,
          stored,
        )
    | inr plain ↦
        let first = recv_byte-Receives session.client byte rest (
          subst (λ b. IsReceiver session.client ((if b then iac ∷ [] else []) ++ byte ∷ rest)) plain
            r) in
        let client =
          with_buffer session.client first.rx first.recv_ptr first.recv_end first.received in
        (
          store_byte byte client,
          plain_round session byte client first.reached plain,
          stored-Reads session.client client byte rest first.ready refl fine room,
        )
  ]

  process-escape :
      (stream : List ℕ) (session : Session) (rest : List ℕ)
      → IsReceiver session.client (escape stream ++ rest)
      → session.client.has_error ≡ false
      → length session.client.data_stream + length stream ≤ 4096
      → (client : Tn3270) × (process send (length stream) session
          ≡ some (record session { client = client }))
        × Reads session.client stream rest client
  unfolding process
  process-escape [] session rest r fine room = (
    session.client,
    refl,
    record { ready = r; same = sym (append-nil session.client.data_stream); no_error = fine },
  )
  process-escape (byte ∷ stream) session rest r fine room =
      let split = append_assoc (if byte == iac then iac ∷ [] else []) (byte ∷ escape stream) rest in
      let (client, e, read) =
        byte_round session byte (escape stream ++ rest) (subst (IsReceiver session.client) split r)
          fine (omega arith) in
      let longer : length client.data_stream ≡ length session.client.data_stream + 1 =
        omega (arith, ap length read.same, length-append session.client.data_stream (byte ∷ [])) in
      let (last, e', others) =
        process-escape stream (record session { client = client }) rest read.ready read.no_error
          (omega (arith, longer)) in
      (
        last,
        process_step session (record session { client = client }) (record session { client = last })
            (length stream) fine e e',
        record {
          ready = others.ready;
          same =
              others.same
              ∙ ap (λ ds. ds ++ stream) read.same
              ∙ append_assoc session.client.data_stream (byte ∷ []) stream;
          no_error = others.no_error;
        },
      )

  -- The end of a record
  end_round :
      (session : Session) (rest : List ℕ)
      → IsReceiver session.client (iac ∷ eor ∷ rest)
      → (client : Tn3270) × (process_round send session
          ≡ end_record send (record session { client = client }))
        × IsReceiver client rest
        × (client.data_stream ≡ session.client.data_stream)
  unfolding process_verb
  end_round session rest r =
      let first = recv_byte-Receives session.client iac (eor ∷ rest) r in
      let middle =
        with_buffer session.client first.rx first.recv_ptr first.recv_end first.received in
      let second = recv_byte-Receives middle eor rest first.ready in
      let client = with_buffer middle second.rx second.recv_ptr second.recv_end second.received in
      (
        client,
        verb_round session eor middle client first.reached second.reached,
        second.ready,
        refl,
      )

  -- The record is shown, and the next one starts with nothing.
  end_record-shows :
      (session : Session)
      → 0 < length session.client.data_stream
      → length session.client.data_stream < 4096
      → end_record send session
        ≡ read_screen send session.waits false
            (record session.client { data_stream = [] })
            (set_raw_stream (some session.client.data_stream) session.screen)
  unfolding end_record
  end_record-shows session some_bytes fits =
      let t = session.client in
      let test : (ltb 0 (length t.data_stream) && ltb (length t.data_stream) 4096) ≡ true =
        ground arith in
      ap
        (λ b.
          read_screen send session.waits false (record t { data_stream = [] })
            (if b then set_raw_stream (some t.data_stream) session.screen else session.screen))
        test

  -- For an input of 1 to 4095 bytes, a client that has sent nothing yet, and a session without an
  -- error and with an empty record, to which recv will give, in buffers of 1 to 256 bytes, the
  -- input with every byte 255 doubled, IAC and EOR, and then `rest`: the loop that answers with
  -- the input sends just these bytes, without `rest`; and after a round of `Process` for each byte
  -- of the input and one more, the session reads from a screen whose raw stream is the input, with
  -- an empty record and `rest` still to come.
  pub process-answer_record :
      (input rest : List ℕ) (sender : Tn3270) (session : Session)
      → 0 < length input
      → length input < 4096
      → wire sender ≡ []
      → length sender.tx < 256
      → session.client.data_stream ≡ []
      → session.client.has_error ≡ false
      → IsReceiver session.client (escape input ++ iac ∷ eor ∷ rest)
      → (final client : Tn3270) × (answer_record send input sender ≡ some final)
        × (flatten final.sent ≡ escape input ++ iac ∷ eor ∷ [])
        × ((do read ← process send (length input) session; process_round send read)
            ≡ read_screen send session.waits false client
                (set_raw_stream (some input) session.screen))
        × IsReceiver client rest
        × (client.data_stream ≡ [])
  process-answer_record input rest sender session some_bytes fits clean room fresh fine r =
      let (final, e, sent) = answer_record-wire send input sender room in
      let (read, e', reads) =
        process-escape input session (iac ∷ eor ∷ rest) r fine
          (omega (arith, fits, ap length fresh)) in
      let is_input : read.data_stream ≡ input = reads.same ∙ ap (λ ds. ds ++ input) fresh in
      let (client, e'', ready, same) =
        end_round (record session { client = read }) rest reads.ready in
      let shown = same ∙ is_input in
      (
        final,
        record client { data_stream = [] },
        e,
        sent ∙ ap (λ w. w ++ (escape input ++ iac ∷ eor ∷ [])) clean,
        ap (λ r. do read ← r; process_round send read) e'
            ∙ e''
            ∙ end_record-shows (record session { client = client })
                (omega (arith, some_bytes, ap length shown)) (omega (arith, fits, ap length shown))
            ∙ ap
                (λ ds.
                  read_screen send session.waits false (record client { data_stream = [] })
                    (set_raw_stream (some ds) session.screen))
                shown,
        record {
          size = ready.size;
          last = ready.last;
          end = ready.end;
          inside = ready.inside;
          buffers = ready.buffers;
          feed = ready.feed;
          good = ready.good;
          left = ready.left;
        },
        refl,
      )
