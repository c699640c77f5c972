-- ===== src/Examples/Links.antt =====
-- A linker script that links one section and reserves a byte behind it.
use amalgam_asm.Base.{◌≡◌, refl, some, [], ◌∷◌}
use amalgam_asm.Base.Text.{codes}
use amalgam_asm.Util.Map
use amalgam_asm.Util.Map.{HashMap, make}
use amalgam_asm.Asm.Ensures.{Ensures}
use amalgam_asm.Asm.World.{World}
use amalgam_asm.Asm.Statement.Layout.{IsSized}
use amalgam_asm.Asm.Link.{Image, File, link}
use amalgam_asm.Asm.Link.Layout.{IsFull}
use amalgam_asm.Asm.Link.Script.{EndingLinkable, link-IsLinkable}

abbrev world : World
world = record {
  get_file = λ _. codes "file a.s .text\n.byte 7\n";
  opcode = λ _. 7;
  float_bytes = λ _. 0 ∷ 0 ∷ 0 ∷ 0 ∷ [];
  double_bytes = λ _. 0 ∷ 0 ∷ 0 ∷ 0 ∷ 0 ∷ 0 ∷ 0 ∷ 0 ∷ [];
  address_of = λ n. n;
}

abbrev sized : IsSized world
sized = record { float = λ t. refl; double = λ t. refl }

abbrev text_image : Image
text_image = record { size = 3; bytes = some (1 ∷ 2 ∷ 3 ∷ []) }

-- The file a.s with its section .text.
abbrev file : File
file = record {
  symbols = make;
  sections = (Map.put make (record { address = 1; text = codes ".text" }) 0).0;
}

abbrev files : HashMap File
files = (Map.put make (record { address = 2; text = codes "a.s" }) file).0

text_image-IsFull : IsFull text_image
text_image-IsFull bytes e = let same : 1 ∷ 2 ∷ 3 ∷ [] ≡ bytes = cc in rw (← same) refl

link-IsLinkable_example :
    Ensures EndingLinkable (link world (codes "a.ld") files [] (text_image ∷ []))
link-IsLinkable_example =
    link-IsLinkable world sized files (codes "a.ld") [] (text_image ∷ []) (text_image-IsFull, tt)
