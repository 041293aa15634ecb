-- ===== src/Compile/Enums/Unread.antt =====
-- Constants of compile/Enums.go whose texts have small letters.
use ppb.Prelude.{
  ◌≡◌, ◌≢◌, refl, sym, ap, ◌∙◌, Bool, true, false, some, [], ◌∷◌, ◌&&◌, ltb, not, Bytes, is_ascii,
  arith, true≢false,
}
use ppb.Switch.{codes, to_upper}
use ppb.Compile.Enums.ArchType
use ppb.Compile.Enums.ArchType.{arch_x86, arch_x64}
use ppb.Compile.Enums.InstructionSet
use ppb.Compile.Enums.InstructionSet.{instructionset_sse4_a}

-- No byte is a small letter.
abbrev no_lower : Bytes → Bool
no_lower [] = true
no_lower (c ∷ s) = not (ltb 96 c && ltb c 123) && no_lower s

no_lower-to_upper : (s : Bytes) → no_lower (to_upper s) ≡ true
unfolding to_upper
no_lower-to_upper [] = refl
no_lower-to_upper (c ∷ s) = ground (arith, no_lower-to_upper s)

to_upper_ne : (in_ text : Bytes) → no_lower text ≡ false → to_upper in_ ≢ text
to_upper_ne in_ text h e = true≢false (sym (ap no_lower (sym e) ∙ no_lower-to_upper in_) ∙ h)

-- `Set` gives neither `ARCH_X86` nor `ARCH_X64` nor `INSTRUCTIONSET_SSE4_a`, for any ASCII
-- input.
pub set_never :
    (in_ : Bytes)
    → is_ascii in_ ≡ true
    → (ArchType.set in_ ≢ some arch_x86)
      × (ArchType.set in_ ≢ some arch_x64)
      × (InstructionSet.set in_ ≢ some instructionset_sse4_a)
unfolding ArchType.string InstructionSet.string
set_never in_ ascii = (
  λ e. to_upper_ne in_ (codes "x86") refl ((ArchType.set_iff in_ arch_x86 ascii).0 e),
  λ e. to_upper_ne in_ (codes "x64") refl ((ArchType.set_iff in_ arch_x64 ascii).0 e),
  λ e.
      to_upper_ne in_ (codes "SSE4_a") refl
        ((InstructionSet.set_iff in_ instructionset_sse4_a ascii).0 e),
)
