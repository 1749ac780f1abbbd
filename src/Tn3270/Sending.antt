-- ===== src/Tn3270/Sending.antt =====
-- About the sending side of Firmware/main/TN3270.cpp: SendByte, SendFlush and the loop over an input.
use mathlib.Core.List.{flatten, append_assoc, append-nil}
use zmachine.Base.{
  ℕ, ◌<◌, ◌≡◌, refl, sym, ap, ◌∙◌, arith, Bool, true, false, Option, none, some, List, [], ◌∷◌,
  ◌++◌, ltb, leb, ◌==◌, subst, if◌then◌else◌, length,
}
use zmachine.Base.Maybe.{◌>>=◌}
use zmachine.Tn3270.{Tn3270, iac, eor, send_flush, send_byte, send_bytes, send_input, answer_record}

-- A record on the line: a byte 255 is doubled.
abbrev pub escape : List ℕ → List ℕ
escape [] = []
escape (byte ∷ bytes) = (if byte == iac then iac ∷ [] else []) ++ byte ∷ escape bytes

-- All that is sent, with what waits
abbrev pub wire : Tn3270 → List ℕ
wire t = flatten t.sent ++ t.tx

-- A result that has sent some bytes
pub record Sends (t : Tn3270) (bytes : List ℕ) (result : Option Tn3270) : Type 0 where
  pub final : Tn3270
  pub reached : result ≡ some final
  pub ready : length final.tx < 256
  pub wired : wire final ≡ wire t ++ bytes

flatten-append_one : (xs : List (List ℕ)) (x : List ℕ) → flatten (xs ++ x ∷ []) ≡ flatten xs ++ x
unfolding flatten
flatten-append_one [] x = append-nil x
flatten-append_one (y ∷ xs) x =
    ap (λ rest. y ++ rest) (flatten-append_one xs x) ∙ sym (append_assoc y (flatten xs) x)

pub if_holds :
    {A : Type 0} (P : A → Type 0) (test : Bool) (x y : A)
    → (test ≡ true → P x)
    → (test ≡ false → P y)
    → P (if test then x else y)
if_holds P true x y p q = p refl
if_holds P false x y p q = q refl

nothing : (bytes : List ℕ) → ltb 0 (length bytes) ≡ false → bytes ≡ []
nothing [] e = refl
nothing (byte ∷ bytes) e = absurd (ground (arith, e))

bind_map :
    (first : Option Tn3270) (next : Tn3270 → Option Tn3270) (last : Tn3270 → Tn3270) (t : Tn3270)
    → (do u ← first; next u) ≡ some t
    → (do u ← first; v ← next u; some (last v)) ≡ some (last t)
bind_map none next last t e = absurd (ground arith)
bind_map (some u) next last t e = ap (λ (r : Option Tn3270). do v ← r; some (last v)) e

module _ (send : List (List ℕ) → Bool) where
  wire-send_flush :
      (t : Tn3270) → (wire (send_flush send t) ≡ wire t) × ((send_flush send t).tx ≡ [])
  unfolding send_flush
  wire-send_flush t =
      if_holds (λ (u : Tn3270). (wire u ≡ wire t) × (u.tx ≡ [])) (ltb 0 (length t.tx)) _ _
        (λ full.
          (append-nil (flatten (t.sent ++ t.tx ∷ [])) ∙ flatten-append_one t.sent t.tx, refl))
        (λ empty. (refl, nothing t.tx empty))

  send_byte-Sends :
      (byte : ℕ) (t : Tn3270) → length t.tx < 256 → Sends t (byte ∷ []) (send_byte send byte t)
  unfolding send_byte
  send_byte-Sends byte t room =
      let stored : Tn3270 = record t { tx = t.tx ++ byte ∷ [] } in
      let flushed = wire-send_flush stored in
      let same : wire stored ≡ wire t ++ byte ∷ [] =
        sym (append_assoc (flatten t.sent) t.tx (byte ∷ [])) in
      if_holds (Sends t (byte ∷ [])) (ltb (length t.tx) 256) _ _
        (λ fits.
          if_holds (λ u. Sends t (byte ∷ []) (some u)) (leb 256 (length stored.tx)) _ _
            (λ full. record {
              final = send_flush send stored;
              reached = refl;
              ready = omega (arith, ap length flushed.1);
              wired = flushed.0 ∙ same;
            })
            (λ open_. record {
              final = stored;
              reached = refl;
              ready = ground (arith, open_);
              wired = same;
            }))
        (λ over. absurd (ground (arith, room, over)))

  Sends-bind :
      (t : Tn3270) (first second : List ℕ) (result : Option Tn3270) (next : Tn3270 → Option Tn3270)
      → Sends t first result
      → ((u : Tn3270) → length u.tx < 256 → Sends u second (next u))
      → Sends t (first ++ second) (do u ← result; next u)
  Sends-bind t first second result next s step =
      let s' = step s.final s.ready in
      record {
        final = s'.final;
        reached = subst (λ r. (do u ← r; next u) ≡ some s'.final) (sym s.reached) s'.reached;
        ready = s'.ready;
        wired = s'.wired ∙ ap (λ w. w ++ second) s.wired ∙ append_assoc (wire t) first second;
      }

  done-Sends : (t : Tn3270) → length t.tx < 256 → Sends t [] (some t)
  done-Sends t room = record {
    final = t;
    reached = refl;
    ready = room;
    wired = sym (append-nil (wire t));
  }

  send_bytes-Sends :
      (bytes : List ℕ) (t : Tn3270) → length t.tx < 256 → Sends t bytes (send_bytes send bytes t)
  unfolding send_bytes
  send_bytes-Sends [] t room = done-Sends t room
  send_bytes-Sends (byte ∷ bytes) t room =
      Sends-bind t (byte ∷ []) bytes (send_byte send byte t) _ (send_byte-Sends byte t room)
        (send_bytes-Sends bytes)

  escape_byte :
      (test : Bool) (t : Tn3270)
      → length t.tx < 256
      → Sends t (if test then iac ∷ [] else []) (if test then send_byte send iac t else some t)
  escape_byte true t room = send_byte-Sends iac t room
  escape_byte false t room = done-Sends t room

  send_input-Sends :
      (input : List ℕ) (t : Tn3270)
      → length t.tx < 256
      → Sends t (escape input) (send_input send input t)
  unfolding send_input
  send_input-Sends [] t room = done-Sends t room
  send_input-Sends (byte ∷ input) t room =
      Sends-bind t (if byte == iac then iac ∷ [] else []) (byte ∷ escape input) _ _
        (escape_byte (byte == iac) t room)
        (λ u room'.
          Sends-bind u (byte ∷ []) (escape input) (send_byte send byte u) _
            (send_byte-Sends byte u room') (send_input-Sends input))

  -- The input and the end of the record leave nothing behind.
  pub answer_record-wire :
      (input : List ℕ) (t : Tn3270)
      → length t.tx < 256
      → (final : Tn3270) × (answer_record send input t ≡ some final)
        × (flatten final.sent ≡ wire t ++ (escape input ++ iac ∷ eor ∷ []))
  unfolding answer_record
  answer_record-wire input t room =
      let s =
        Sends-bind t (escape input) (iac ∷ eor ∷ []) (send_input send input t)
          (send_bytes send (iac ∷ eor ∷ [])) (send_input-Sends input t room)
          (send_bytes-Sends (iac ∷ eor ∷ [])) in
      let flushed = wire-send_flush s.final in
      (
        send_flush send s.final,
        bind_map (send_input send input t) (send_bytes send (iac ∷ eor ∷ [])) (send_flush send)
            s.final s.reached,
        sym (append-nil (flatten (send_flush send s.final).sent))
            ∙ ap (λ tx. flatten (send_flush send s.final).sent ++ tx) (sym flushed.1)
            ∙ flushed.0
            ∙ s.wired,
      )
