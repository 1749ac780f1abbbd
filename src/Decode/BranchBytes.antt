-- ===== src/Decode/BranchBytes.antt =====
-- About `readBranchInstruction` of Firmware/main/zops.c on the two encodings of a branch.
use zmachine.Base.{ℕ, ◌+◌, ◌/◌, ◌%◌, ◌<◌, ◌≡◌, refl, Bool, true, arith, some, List, if◌then◌else◌}
use zmachine.Base.Int.{ℤ, pos, signed}
use zmachine.Machine.{Machine, Branch}
use zmachine.Effects.{ok}
use zmachine.Memory.Flat.{byte_at, with_pc, read_byte_pc_lem}
use zmachine.Decode.{read_branch_instruction, contains}

-- Bit 7 is set for a branch on true.
abbrev pub sense_bit : Bool → ℕ
sense_bit negate = if negate then 0 else 128

abbrev pub branch_of : ℤ → Bool → Branch
branch_of offset negate = record { offset = offset; negate = negate }

module _ (s : Machine) (a : ℕ) (table : List ℕ) (op : ℕ) (negate : Bool) where
  -- For an opcode that branches, with the PC at two bytes that encode a sense and a 14-bit pattern
  -- `w`: `readBranchInstruction` gives that sense and the signed value of `w`, and the PC moves by
  -- two.
  pub read_branch-long :
      (w : ℕ)
      → w < 0x4000
      → contains table op ≡ true
      → s.pc ≡ pos a
      → byte_at s a ≡ some (sense_bit negate + w / 256)
      → byte_at s (a + 1) ≡ some (w % 256)
      → read_branch_instruction table op s
        ≡ ok (branch_of (signed 0x2000 0x4000 w) negate) (with_pc s (pos (a + 1 + 1)))
  unfolding read_branch_instruction
  read_branch-long w h t e b1 b2 =
      let first = read_byte_pc_lem s a e b1 in
      let second = read_byte_pc_lem (with_pc s (pos (a + 1))) (a + 1) refl b2 in
      ground (arith, first, second)

  -- For an opcode that branches, with the PC at a byte that encodes a sense and a 6-bit number:
  -- `readBranchInstruction` gives that sense and the number, and the PC moves by one.
  pub read_branch-short :
      (w : ℕ)
      → w < 64
      → contains table op ≡ true
      → s.pc ≡ pos a
      → byte_at s a ≡ some (sense_bit negate + 64 + w)
      → read_branch_instruction table op s ≡ ok (branch_of (pos w) negate) (with_pc s (pos (a + 1)))
  unfolding read_branch_instruction
  read_branch-short w h t e b1 =
      let first = read_byte_pc_lem s a e b1 in rw (t, first) (ground arith)
