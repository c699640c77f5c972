-- ===== src/Asm/Compile/Image.antt =====
-- The image of a section (src/compile.c), its size and its bytes.
use amalgam_asm.Base.{
  ℕ, ◌^◌, ◌<◌, ◌≡◌, refl, ltb, false, List, [], ◌∷◌, length, length-append, arith,
}
use amalgam_asm.Asm.State.{ok, Section}
use amalgam_asm.Asm.Layout.{SectionLaidOut, total}
use amalgam_asm.Asm.Compile.{SectionImage, join, image_of}

length-join : (parts : List (List ℕ)) → length (join parts) ≡ total parts
unfolding join total
length-join [] = refl
length-join (part ∷ parts) = omega (arith, length-append part (join parts), length-join parts)

-- A section whose address is the number of its bytes, fewer than 2 ^ 64, becomes an image of that
-- size that its bytes fill: the copy neither writes past the end nor leaves memory unwritten.
pub image_of-SectionLaidOut :
    (s : Section)
    → SectionLaidOut s
    → total s.parts < 2 ^ 64
    → (i : SectionImage) × (image_of s ≡ ok i)
      × (length i.image ≡ i.size)
      × (i.size ≡ s.address)
      × (i.image ≡ join s.parts)
unfolding image_of
image_of-SectionLaidOut s laid small =
    let exact : length (join s.parts) ≡ s.address = omega (arith, laid, length-join s.parts) in
    let fits : ltb s.address (length (join s.parts)) ≡ false = rw exact (ground arith) in
    (
      record { size = s.address; expr = s.expr; image = join s.parts },
      rw fits refl,
      exact,
      refl,
      refl,
    )
