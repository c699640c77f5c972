-- ===== src/Asm/Link/Walk.antt =====
-- The walk of _parse_linker over files and sections (src/compile.c), for any relation between the
-- states before and after that holds of its steps.
use amalgam_asm.Base.{
  ℕ, ◌==◌, ltb, ◌≡◌, refl, ◌||◌, Option, none, some, List, [], ◌∷◌, length, get_elem?, Option-cases,
  inl, inr,
}
use amalgam_asm.Base.Text.{Text, codes, str_eq}
use amalgam_asm.Util.Map
use amalgam_asm.Util.Map.{HashMap, Entry, Str}
use amalgam_asm.Asm.State.{Run, ok, fault, ◌>>=◌}
use amalgam_asm.Asm.Ensures.{Ensures, done, fails, bind, mono, branch}
use amalgam_asm.Asm.Data.{Args, arg}
use amalgam_asm.Asm.Link.{
  Image, File, Linker, link_image, link_unless_linked, link_chain, link_buckets, link_any,
  any_chain, any_buckets, operand, complain, link_once, link_named, parse_linker,
}

-- A relation that every step of the walk respects.
pub record Respects {ℓ} (R : Linker → Linker → Type ℓ) : Type ℓ where
  pub stay : (l : Linker) → R l l
  pub follow : {a b c : Linker} → R a b → R b c → R a c
  pub complains : (message : Text) (l : Linker) → R l (complain message l)
  pub links :
      (file section : Str) (i : ℕ) (image : Image) (bytes : List ℕ) (l : Linker)
      → get_elem? l.images i ≡ some image
      → image.bytes ≡ some bytes
      → Ensures (R l) (link_image file section i image bytes l)

module _ {ℓ} {R : Linker → Linker → Type ℓ} (r : Respects R) where
  continue_with :
      {l : Linker} {run : Run Linker} {next : Linker → Run Linker}
      → Ensures (R l) run
      → ((m : Linker) → Ensures (R m) (next m))
      → Ensures (R l) (run >>= next)
  continue_with first next = bind first λ m before. mono (next m) λ n after. r.follow before after

  -- The image behind a pointer, linked or not.
  at_image :
      (l : Linker) (i : ℕ) (skipped : Run Linker) (linked : Image → List ℕ → Run Linker)
      → Ensures (R l) skipped
      → ((image : Image) (bytes : List ℕ)
          → get_elem? l.images i ≡ some image
          → image.bytes ≡ some bytes
          → Ensures (R l) (linked image bytes))
      → (found : Option Image) → get_elem? l.images i ≡ found
      → Ensures (R l) (elim found as (λ _. Run Linker) [
        | none ↦ fault
        | some image ↦ elim image.bytes as (λ _. Run Linker) [
          | none ↦ skipped
          | some bytes ↦ linked image bytes
        ]
      ])
  at_image l i skipped linked s k none e = fails
  at_image l i skipped linked s k (some image) e = elim (Option-cases image.bytes) [
    | inl gone ↦ rw gone s
    | inr (bytes, there) ↦ rw there (k image bytes e there)
  ]

  link_unless_linked-R :
      (file section : Str) (i : ℕ) (l : Linker)
      → Ensures (R l) (link_unless_linked file section i l)
  unfolding link_unless_linked
  link_unless_linked-R file section i l =
      at_image l i (ok l) (λ image bytes. link_image file section i image bytes l) (done (r.stay l))
        (λ image bytes. r.links file section i image bytes l) (get_elem? l.images i) refl

  link_chain-R :
      (file : Str) (chain : List (Entry ℕ)) (l : Linker) → Ensures (R l) (link_chain file chain l)
  unfolding link_chain
  link_chain-R file [] l = done (r.stay l)
  link_chain-R file (e ∷ chain) l =
      continue_with (link_unless_linked-R file e.str e.value l) (link_chain-R file chain)

  link_buckets-R :
      (file : Str) (chains : List (List (Entry ℕ))) (l : Linker)
      → Ensures (R l) (link_buckets file chains l)
  unfolding link_buckets
  link_buckets-R file [] l = done (r.stay l)
  link_buckets-R file (chain ∷ chains) l =
      continue_with (link_chain-R file chain l) (link_buckets-R file chains)

  -- What is found under a name, if anything is.
  found_or_not {κ} :
      {V : Type κ} (l : Linker) (missing : Run Linker) (present : V → Run Linker)
      → Ensures (R l) missing
      → ((v : V) → Ensures (R l) (present v))
      → (found : Option (Entry V))
      → Ensures
          (R l)
          (elim found as (λ _. Run Linker) [ none ↦ missing | some e ↦ present e.value ])
  found_or_not l missing present m p none = m
  found_or_not l missing present m p (some e) = p e.value

  complained : (message : Text) (l : Linker) → Ensures (R l) (ok (complain message l))
  complained message l = done (r.complains message l)

  module _ (args : Args) where
    link_any-R : (name : Str) (file : File) (l : Linker) → Ensures (R l) (link_any args name file l)
    unfolding link_any
    link_any-R name file l =
        branch (length args == 1) (link_buckets-R name file.sections.buckets l) (
          found_or_not l (ok l) (λ i. link_unless_linked name (operand args 1 l) i l)
            (done (r.stay l)) (λ i. link_unless_linked-R name (operand args 1 l) i l)
            (Map.get file.sections (arg args 1)))

    any_chain-R : (chain : List (Entry File)) (l : Linker) → Ensures (R l) (any_chain args chain l)
    unfolding any_chain
    any_chain-R [] l = done (r.stay l)
    any_chain-R (e ∷ chain) l = continue_with (link_any-R e.str e.value l) (any_chain-R chain)

    any_buckets-R :
        (chains : List (List (Entry File))) (l : Linker) → Ensures (R l) (any_buckets args chains l)
    unfolding any_buckets
    any_buckets-R [] l = done (r.stay l)
    any_buckets-R (chain ∷ chains) l = continue_with (any_chain-R chain l) (any_buckets-R chains)

    link_once-R : (i : ℕ) (l : Linker) → Ensures (R l) (link_once args i l)
    unfolding link_once
    link_once-R i l =
        at_image l i (ok (complain (codes "Linker error: section already linked") l))
          (λ image bytes. link_image (operand args 0 l) (operand args 1 l) i image bytes l)
          (complained _ l) (λ image bytes. r.links _ _ i image bytes l) (get_elem? l.images i) refl

    link_named-R : (file : File) (l : Linker) → Ensures (R l) (link_named args file l)
    unfolding link_named
    link_named-R file l =
        branch (length args == 1) (link_buckets-R (operand args 0 l) file.sections.buckets l) (
          found_or_not l (ok (complain (codes "Linker error: section not found") l))
            (λ i. link_once args i l) (complained _ l) (λ i. link_once-R i l)
            (Map.get file.sections (arg args 1)))

    -- Every form of a `file` statement ends, if not in a fault, in a state that the relation allows.
    pub parse_linker-R :
        (files : HashMap File) (l : Linker) → Ensures (R l) (parse_linker args files l)
    unfolding parse_linker
    parse_linker-R files l = branch (ltb (length args) 1 || ltb 2 (length args)) (complained _ l) (
        branch (str_eq (arg args 0) (codes "*")) (any_buckets-R files.buckets l) (
          found_or_not l (ok (complain (codes "Linker error: file not found") l))
            (λ file. link_named args file l) (complained _ l) (λ file. link_named-R file l)
            (Map.get files (arg args 0))))
