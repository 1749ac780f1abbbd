-- ===== src/Variables/Laws.antt =====
-- About `setVariable` and `readVariable` of Firmware/main/zops.c: a write, then a read.
use zmachine.Base.{
  ℕ, suc, ◌+◌, ◌-◌, ◌*◌, ◌/◌, ◌%◌, ◌<◌, ◌≤◌, ◌≡◌, ap, ◌∙◌, le→ltb, lt→ltb, get_elem?-some,
  get_elem?-lt, arith, some, get_elem?, set, length, get_elem?-set_self,
}
use zmachine.Base.Int.{ℤ, pos, negsuc, low_bits}
use zmachine.Machine.{Machine, CallStack}
use zmachine.Effects.{ok}
use zmachine.Stack.Refine.{
  IsValid, pop_value-push_value, push_value-some, peek_value-at, set_top-at,
}
use zmachine.Memory.{make_s16}
use zmachine.Memory.Flat.{byte_at, with_chunks, IsMapped}
use zmachine.Memory.Words.{read_s16_lem, set_two_lem}
use zmachine.Variables.{
  read_variable, set_variable, wrap_s16, push_number, pop_number, peek_call, read_local, set_local,
}

-- The address of the global variable `var`.
abbrev pub global_addr : Machine → ℕ → ℕ
global_addr s var = 2 * (var - 16) + s.global_variables

-- A variable that the machine has.
pub data HasVariable (s : Machine) : ℤ → Type 0 where
  on_stack :
      IsValid s.number_stack → s.number_stack.current < s.number_stack.depth → HasVariable s (pos 0)
  local :
      (k n : ℕ) (frame : CallStack)
      → suc k < 16
      → s.call_stack.current ≡ suc n
      → get_elem? s.call_stack.base n ≡ some frame
      → k < length frame.locals
      → HasVariable s (pos (suc k))
  global :
      (k : ℕ)
      → 16 ≤ suc k
      → IsMapped s
      → global_addr s (suc k) + 1 < s.end_of_dynamic
      → HasVariable s (pos (suc k))

-- After `v` was written to a variable, reading it gives `v` wrapped to sixteen bits.
abbrev pub ReadsBack : Machine → ℤ → ℤ → Type 0
ReadsBack s var v =
    (t u : Machine) × (set_variable var v s ≡ ok tt t) × (read_variable var t ≡ ok (wrap_s16 v) u)

-- The two bytes of a word, read as a signed number.
s16-bytes :
    (v : ℤ)
    → make_s16
        (low_bits (wrap_s16 v) 0x10000 / 256 % 256 % 256)
        (low_bits (wrap_s16 v) 256 % 256 % 256)
      ≡ wrap_s16 v
unfolding wrap_s16 make_s16
s16-bytes (pos n) = ground arith
s16-bytes (negsuc n) = ground arith

module _ (s : Machine) (v : ℤ) where
  global-ReadsBack :
      (k : ℕ)
      → 16 ≤ suc k
      → IsMapped s
      → global_addr s (suc k) + 1 < s.end_of_dynamic
      → ReadsBack s (pos (suc k)) v
  unfolding set_variable read_variable
  global-ReadsBack k big m h =
      let a = global_addr s (suc k) in
      let hi = low_bits (wrap_s16 v) 0x10000 / 256 in
      let lo = low_bits (wrap_s16 v) 256 in
      let (chunks, done, bytes, m') = set_two_lem s m a hi lo h in
      let t = with_chunks s chunks in
      let first : byte_at t a ≡ some (hi % 256) = ground (arith, bytes a) in
      let second : byte_at t (a + 1) ≡ some (lo % 256) = ground (arith, bytes (a + 1)) in
      (
        t,
        t,
        rw (le→ltb (suc k) 16 big) done,
        rw (le→ltb (suc k) 16 big) (read_s16_lem t a first second ∙ ap (λ w. ok w t) (s16-bytes v)),
      )

  local-ReadsBack :
      (k n : ℕ) (frame : CallStack)
      → suc k < 16
      → s.call_stack.current ≡ suc n
      → get_elem? s.call_stack.base n ≡ some frame
      → k < length frame.locals
      → ReadsBack s (pos (suc k)) v
  unfolding set_variable read_variable set_local read_local peek_call
  local-ReadsBack k n frame small here there inside =
      let w = wrap_s16 v in
      let frame' = record frame { locals = set frame.locals k (some w) } in
      let calls = record s.call_stack { base = set s.call_stack.base n frame' } in
      let t = record s { call_stack = calls } in
      let (old, slot) = get_elem?-some frame.locals k inside in
      let peeked = peek_value-at s.call_stack n frame here there in
      let inside' = get_elem?-lt s.call_stack.base n there in
      let put = set_top-at s.call_stack n frame' here in
      let again =
        peek_value-at calls n frame' here (get_elem?-set_self s.call_stack.base n frame' inside') in
      (
        t,
        t,
        ground (arith, peeked, slot, put),
        rw (lt→ltb (suc k) 16 small, again, get_elem?-set_self frame.locals k (some w) inside),
      )

  stack-ReadsBack :
      IsValid s.number_stack → s.number_stack.current < s.number_stack.depth → ReadsBack s (pos 0) v
  unfolding set_variable read_variable push_number pop_number
  stack-ReadsBack valid room =
      let (t, pushed) = push_value-some s.number_stack (wrap_s16 v) valid room in
      let (u, popped, _) = pop_value-push_value s.number_stack (wrap_s16 v) valid pushed in
      (
        record s { number_stack = t },
        record s { number_stack = u },
        rw (pushed, set_variable, push_number),
        rw (popped, read_variable, pop_number),
      )

-- For a variable that the machine has (the number stack with room, a local of the frame on top, or
-- a global in dynamic memory): `setVariable` succeeds, and `readVariable` after it gives the value
-- wrapped to sixteen bits.
pub read_variable-set_variable :
    {s : Machine} {var : ℤ} (v : ℤ) → HasVariable s var → ReadsBack s var v
read_variable-set_variable v (on_stack valid room) = stack-ReadsBack _ v valid room
read_variable-set_variable v (local k n frame small here there inside) =
    local-ReadsBack _ v k n frame small here there inside
read_variable-set_variable v (global k big m h) = global-ReadsBack _ v k big m h
