-- ===== src/SaveStream/Emits.antt =====
-- Commands that do nothing but write bytes into the stream, one after the other.
use zmachine.Base.{
  ℕ, ◌+◌, ◌%◌, ◌<◌, ◌≡◌, subst, refl, sym, ap, ◌∙◌, List, [], ◌∷◌, ◌++◌, arith, length,
  length-append,
}
use zmachine.Machine.{Machine, SaveStream}
use zmachine.Effects.{Done, skip, ok, and_then, ◌>>◌}
use zmachine.SaveStream.{emit, fwrite}
use zmachine.SaveStream.Write.{IsWriter, written, save_byte-written, fwrite-fwrite, fwrite-nil}

-- `m` adds the bytes `es` to what is written, moves the position by their number, and leaves the
-- rest of the machine alone.
abbrev pub Emits : Done → Machine → List ℕ → Type 0
Emits m s es =
    (t : SaveStream) × (m s ≡ ok tt (record s { save_stream = t }))
    × IsWriter t
    × (written t ≡ fwrite (written s.save_stream) es)
    × (t.position ≡ s.save_stream.position + length es)

pub skip-Emits : (s : Machine) → IsWriter s.save_stream → Emits skip s []
skip-Emits s w = (s.save_stream, refl, w, sym (fwrite-nil (written s.save_stream)), omega arith)

pub emit-Emits : (v : ℕ) (s : Machine) → IsWriter s.save_stream → Emits (emit v) s (v % 256 ∷ [])
unfolding emit
emit-Emits v s w =
    let (t, saved, w', more, moved) = save_byte-written v w in
    (t, rw (saved, emit), w', more, moved)

-- A value of one byte is written as it is.
pub emit_byte-Emits :
    (v : ℕ) (s : Machine) → IsWriter s.save_stream → v < 256 → Emits (emit v) s (v ∷ [])
emit_byte-Emits v s w h =
    let e : v % 256 ≡ v = omega arith in subst (λ b. Emits (emit v) s (b ∷ [])) e (emit-Emits v s w)

pub then-Emits :
    (m n : Done) (s : Machine) (es fs : List ℕ)
    → Emits m s es
    → ((t : SaveStream) → IsWriter t → Emits n (record s { save_stream = t }) fs)
    → Emits (m >> n) s (es ++ fs)
then-Emits m n s es fs (t, first, w, e, p) next =
    let (u, second, w', e', p') = next t w in
    (
      u,
      ap (λ r. and_then r (λ _. n)) first ∙ second,
      w',
      e' ∙ ap (λ f. fwrite f fs) e ∙ fwrite-fwrite (written s.save_stream) es fs,
      omega (arith, length-append es fs),
    )
