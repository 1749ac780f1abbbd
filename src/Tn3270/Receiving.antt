-- ===== src/Tn3270/Receiving.antt =====
-- About the receiving side of Firmware/main/TN3270.cpp: RecvByte gives the bytes of the buffers in
-- order.
use mathlib.Core.List.{flatten}
use zmachine.Base.{
  ℕ, zero, suc, ◌+◌, ◌-◌, ◌<◌, ◌≤◌, ◌≡◌, refl, sym, ap, ◌∙◌, arith, true, false, Bool-cases, inl,
  inr, Option, some, List, [], ◌∷◌, ◌++◌, map, ltb, lt→ltb, leb, subst, get_elem?, take, drop,
  length, length-append,
}
use zmachine.Base.Int.{ℤ, pos, ltb_ℤ}
use zmachine.SaveStream.Read.{length-drop, take-append_self}
use zmachine.Tn3270.{Tn3270, recv, recv_byte}

-- Buffers of 1 to 256 bytes
abbrev pub IsBuffers : List (List ℕ) → Type 0
IsBuffers [] = Unit {0}
IsBuffers (buffer ∷ buffers) = (0 < length buffer) × (length buffer ≤ 256) × IsBuffers buffers

-- What recv will give are buffers, no error, and with what is left in RX they are these bytes.
pub record IsReceiver (t : Tn3270) (bytes : List ℕ) : Type 0 where
  pub size : length t.rx ≡ 256
  pub last : ℕ
  pub end : t.recv_end ≡ pos last
  pub inside : last ≤ 256
  pub buffers : List (List ℕ)
  pub feed : t.received ≡ map some buffers
  pub good : IsBuffers buffers
  pub left : take (last - t.recv_ptr) (drop t.recv_ptr t.rx) ++ flatten buffers ≡ bytes

-- The first of the elements that are left, and the others
window :
    (xs : List ℕ) (p n : ℕ)
    → p < length xs
    → (x : ℕ) × (get_elem? xs p ≡ some x)
      × (take (suc n) (drop p xs) ≡ x ∷ take n (drop (p + 1) xs))
window [] p n h = absurd (omega arith)
window (x ∷ xs) zero n h = (x, refl, refl)
window (x ∷ xs) (suc p) n h =
    let next : suc (p + 1) ≡ suc p + 1 = omega arith in
    subst
      (λ k.
        (y : ℕ) × (get_elem? xs p ≡ some y)
        × (take (suc n) (drop p xs) ≡ y ∷ take n (drop k (x ∷ xs))))
      next (window xs p n (omega arith))

-- The client with another state of its buffer
abbrev pub with_buffer : Tn3270 → List ℕ → ℕ → ℤ → List (Option (List ℕ)) → Tn3270
with_buffer t rx recv_ptr recv_end received = record t {
  rx = rx;
  recv_ptr = recv_ptr;
  recv_end = recv_end;
  received = received;
}

-- A byte comes, and only the state of the buffer changes.
pub record Receives (t : Tn3270) (byte : ℕ) (bytes : List ℕ) : Type 0 where
  pub rx : List ℕ
  pub recv_ptr : ℕ
  pub recv_end : ℤ
  pub received : List (Option (List ℕ))
  pub reached : recv_byte t ≡ some (byte, with_buffer t rx recv_ptr recv_end received)
  pub ready : IsReceiver (with_buffer t rx recv_ptr recv_end received) bytes

module _ (t : Tn3270) (last : ℕ) (end_is : t.recv_end ≡ pos last) where
  buffered :
      (byte : ℕ)
      → t.recv_ptr < last
      → get_elem? t.rx t.recv_ptr ≡ some byte
      → recv_byte t ≡ some (byte, with_buffer t t.rx (t.recv_ptr + 1) t.recv_end t.received)
  unfolding recv_byte
  buffered byte more found =
      let test : ltb_ℤ (pos t.recv_ptr) t.recv_end ≡ true =
        ap (λ e. ltb_ℤ (pos t.recv_ptr) e) end_is ∙ lt→ltb t.recv_ptr last more in
      rw (test, found) refl

  refilled :
      (byte : ℕ) (buffer : List ℕ) (results : List (Option (List ℕ)))
      → last ≤ t.recv_ptr
      → t.received ≡ some (byte ∷ buffer) ∷ results
      → length (byte ∷ buffer) ≤ length t.rx
      → recv_byte t
        ≡ some (
          byte,
          with_buffer t
              ((byte ∷ buffer) ++ drop (length (byte ∷ buffer)) t.rx)
              1
              (pos (length (byte ∷ buffer)))
              results,
        )
  unfolding recv_byte recv
  refilled byte buffer results over feed fits =
      let test : ltb_ℤ (pos t.recv_ptr) t.recv_end ≡ false =
        ap (λ e. ltb_ℤ (pos t.recv_ptr) e) end_is ∙ ground arith in
      let room : leb (length (byte ∷ buffer)) (length t.rx) ≡ true = ground arith in
      rw (test, feed, room) refl

-- The two cases of RecvByte
from_buffer :
    (t : Tn3270) (byte : ℕ) (bytes : List ℕ) (r : IsReceiver t (byte ∷ bytes))
    → t.recv_ptr < r.last
    → Receives t byte bytes
from_buffer t byte bytes r more =
    let (x, found, others) =
      window t.rx t.recv_ptr (r.last - (t.recv_ptr + 1)) (omega (arith, r.size, r.inside)) in
    let e : suc (r.last - (t.recv_ptr + 1)) ≡ r.last - t.recv_ptr = omega arith in
    let left : x
          ∷ (take (r.last - (t.recv_ptr + 1)) (drop (t.recv_ptr + 1) t.rx) ++ flatten r.buffers)
        ≡ byte ∷ bytes =
      ap (λ w. w ++ flatten r.buffers) (sym others ∙ ap (λ n. take n (drop t.recv_ptr t.rx)) e)
      ∙ r.left in
    record {
      rx = t.rx;
      recv_ptr = t.recv_ptr + 1;
      recv_end = t.recv_end;
      received = t.received;
      reached = buffered t r.last r.end byte more (found ∙ ap (λ xs. get_elem? xs 0) left);
      ready = record {
        size = r.size;
        last = r.last;
        end = r.end;
        inside = r.inside;
        buffers = r.buffers;
        feed = r.feed;
        good = r.good;
        left = ap (drop 1) left;
      };
    }

from_recv :
    (t : Tn3270) (byte : ℕ) (bytes : List ℕ) (r : IsReceiver t (byte ∷ bytes))
    → r.last ≤ t.recv_ptr
    → Receives t byte bytes
unfolding flatten
from_recv t byte bytes r over = go r.buffers r.feed r.good left
  where
    left : flatten r.buffers ≡ byte ∷ bytes
    left =
        let none_left : r.last - t.recv_ptr ≡ 0 = omega arith in
        sym (ap (λ n. take n (drop t.recv_ptr t.rx) ++ flatten r.buffers) none_left) ∙ r.left

    go :
        (buffers : List (List ℕ))
        → t.received ≡ map some buffers
        → IsBuffers buffers
        → flatten buffers ≡ byte ∷ bytes
        → Receives t byte bytes
    go [] feed good e = absurd (omega (arith, ap length e))
    go ([] ∷ buffers) feed good e = absurd (omega (arith, good.0))
    go ((x ∷ buffer) ∷ buffers) feed good e =
        let x_is : x ≡ byte = ground (arith, ap (λ xs. get_elem? xs 0) e) in
        let one_less : suc (length buffer) - 1 ≡ length buffer = omega arith in
        let rest = drop (length (x ∷ buffer)) t.rx in
        record {
          rx = (x ∷ buffer) ++ rest;
          recv_ptr = 1;
          recv_end = pos (length (x ∷ buffer));
          received = map some buffers;
          reached =
              refilled t r.last r.end x buffer (map some buffers) over feed
                (omega (arith, r.size, good.1))
              ∙ ap
                  (λ b. some (
                    b,
                    with_buffer t ((x ∷ buffer) ++ rest) 1 (pos (length (x ∷ buffer)))
                        (map some buffers),
                  ))
                  x_is;
          ready = record {
            size = omega (
              arith,
              length-append (x ∷ buffer) rest,
              length-drop (length (x ∷ buffer)) t.rx,
              r.size,
              good.1,
            );
            last = length (x ∷ buffer);
            end = refl;
            inside = good.1;
            buffers = buffers;
            feed = refl;
            good = good.2;
            left =
                ap (λ n. take n (buffer ++ rest) ++ flatten buffers) one_less
                ∙ ap (λ xs. xs ++ flatten buffers) (take-append_self buffer rest)
                ∙ ap (drop 1) e;
          };
        }

-- The first of the bytes to come is what `RecvByte` gives, and the others are left.
pub recv_byte-Receives :
    (t : Tn3270) (byte : ℕ) (bytes : List ℕ) → IsReceiver t (byte ∷ bytes) → Receives t byte bytes
recv_byte-Receives t byte bytes r = elim (Bool-cases (ltb t.recv_ptr r.last)) [
  | inl more ↦ from_buffer t byte bytes r (ground (arith, more))
  | inr over ↦ from_recv t byte bytes r (ground (arith, over))
]
