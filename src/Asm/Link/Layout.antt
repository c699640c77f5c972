-- ===== src/Asm/Link/Layout.antt =====
-- The layout of the output section behind a linker script (src/compile.c).
use amalgam_asm.Base.{
  ℕ, zero, suc, ◌≡◌, none, some, List, [], ◌∷◌, length, get_elem?, set, Option-cases, inl, inr, ap,
}
use mathlib.Core.Path.{subst}
use mathlib.Core.Option
use amalgam_asm.Base.Text.{Text}
use amalgam_asm.Util.Map
use amalgam_asm.Util.Map.{HashMap, Entry, Str}
use amalgam_asm.Asm.State.{current}
use amalgam_asm.Asm.Ensures.{Ensures, done, fails, bind, mono}
use amalgam_asm.Asm.Data.{Args}
use amalgam_asm.Asm.Layout.{IsLaidOut, err-IsLaidOut, place_counted}
use amalgam_asm.Asm.Link.Walk.{Respects, parse_linker-R}
use amalgam_asm.Asm.Link.{
  Image, File, Linker, helper_section_link, with_file, note_address, link_image, complain,
  parse_linker,
}

-- A section that is not linked yet has as many bytes as its size says.
abbrev pub IsFull : Image → Type 0
IsFull image = (bytes : List ℕ) → image.bytes ≡ some bytes → length bytes ≡ image.size

abbrev pub AllFull : List Image → Type 0
AllFull [] = Unit
AllFull (image ∷ images) = IsFull image × AllFull images

pub AllFull-get_elem? :
    (images : List Image) (i : ℕ) (image : Image)
    → AllFull images
    → get_elem? images i ≡ some image
    → IsFull image
AllFull-get_elem? [] i image all e = cc
AllFull-get_elem? (x ∷ images) zero image all e = subst IsFull (ap (λ o. Option.get_or o x) e) all.0
AllFull-get_elem? (x ∷ images) (suc i) image all e = AllFull-get_elem? images i image all.1 e

pub AllFull-set :
    (images : List Image) (i : ℕ) (image : Image)
    → AllFull images
    → IsFull image
    → AllFull (set images i image)
AllFull-set [] i image all full = tt
AllFull-set (x ∷ images) zero image all full = (full, all.1)
AllFull-set (x ∷ images) (suc i) image all full = (all.0, AllFull-set images i image all.1 full)

-- The output and every other section is laid out, and what is still to be linked is whole.
pub record IsLinkable (l : Linker) : Type 0 where
  pub laid : IsLaidOut l.env
  pub full : AllFull l.images

note_address-ends :
    (file section : Str) (address : ℕ) (linked : HashMap (HashMap ℕ))
    → Ensures (λ _. Unit {0}) (note_address file section address linked)
unfolding note_address
note_address-ends file section address linked =
    elim (Option-cases (Map.get (with_file file linked) file.text)) [
      | inl absent ↦ rw (absent, note_address) fails
      | inr (e, found) ↦ rw (found, note_address) (done tt)
    ]

link_image-IsLinkable :
    (file section : Str) (i : ℕ) (image : Image) (bytes : List ℕ) (l : Linker)
    → get_elem? l.images i ≡ some image
    → image.bytes ≡ some bytes
    → Ensures (λ next. IsLinkable l → IsLinkable next) (link_image file section i image bytes l)
unfolding link_image helper_section_link
link_image-IsLinkable file section i image bytes l there some_bytes =
    bind (note_address-ends file section (current l.env).address l.linked) λ linked _. done λ h.
      (record {
        laid =
            place_counted l.env l.env.section bytes image.size
              (AllFull-get_elem? l.images i image h.full there bytes some_bytes) h.laid;
        full = AllFull-set l.images i (record image { bytes = none }) h.full (λ bs e. cc);
      })

pub complain-IsLinkable :
    (message : Text) (l : Linker) → IsLinkable l → IsLinkable (complain message l)
complain-IsLinkable message l h = record {
  laid = err-IsLaidOut message l.env h.laid;
  full = h.full;
}

keeps : Respects (λ before after. IsLinkable before → IsLinkable after)
keeps = record {
  stay = λ l h. h;
  follow = λ first second h. second (first h);
  complains = λ message l h. complain-IsLinkable message l h;
  links = link_image-IsLinkable;
}

-- A `file` statement keeps the output laid out, and what is still to be linked whole, with every
-- form of its operands, and ends, if not in a fault.
pub parse_linker-IsLinkable :
    (args : Args) (files : HashMap File) (l : Linker)
    → IsLinkable l
    → Ensures IsLinkable (parse_linker args files l)
parse_linker-IsLinkable args files l h =
    mono (parse_linker-R keeps args files l) λ next after. after h
