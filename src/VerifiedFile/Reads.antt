-- ===== src/VerifiedFile/Reads.antt =====
-- What a verified read returns, and when.
use Prim.Native.String.{String}
use text.Mathlib.Text.{◌==◌ as str_eq}
use mathlib.Core.List.{append-nil, append_assoc}
use agentis.Prelude.{
  ℕ, zero, suc, ◌-◌, ◌≤◌, ◌<◌, ◌≡◌, refl, inl, inr, true, ◌||◌, List, [], ◌∷◌, ◌++◌, some, length,
  length-append, ap, ◌∙◌, arith, Option-cases,
}
use agentis.VerifiedFile.{
  OpenFile, FileSystem, VerifiedFile, within, read_all, read_opened, read_placed,
  read_verified_file,
}

read_opened_sound :
    (fs : FileSystem) (input : VerifiedFile) (file : OpenFile) (bytes : List ℕ)
    → read_opened fs input file ≡ some bytes
    → (length bytes ≡ input.byte_size) × (fs.sha256 bytes ≡ input.sha256)
unfolding read_opened
read_opened_sound fs input file bytes h = ground arith

read_placed_sound :
    (fs : FileSystem) (input : VerifiedFile) (bytes : List ℕ)
    → read_placed fs input ≡ some bytes
    → (length bytes ≡ input.byte_size) × (fs.sha256 bytes ≡ input.sha256)
unfolding read_placed
read_placed_sound fs input bytes h = elim (Option-cases (fs.open_file input.path)) [
  | inl e ↦ ground arith
  | inr (file, e) ↦ ground (arith, read_opened_sound fs input file bytes)
]

-- A verified read returns bytes only of the recorded size and digest, of a path whose directory is the
-- root or lies within it.
pub read_verified_file_sound :
    (fs : FileSystem) (input : VerifiedFile) (bytes : List ℕ)
    → read_verified_file fs input ≡ some bytes
    → (length bytes ≡ input.byte_size)
      × (fs.sha256 bytes ≡ input.sha256)
      × ((root : String) × (parent : String) × (fs.realpath input.root ≡ some root)
          × (fs.realpath (fs.dirname input.path) ≡ some parent)
          × ((within fs root parent || str_eq parent root) ≡ true))
unfolding read_verified_file
read_verified_file_sound fs input bytes h = ground (arith, read_placed_sound fs input bytes)

-- What POSIX says of reads: where bytes are left and some are asked for, a read gives at least one of
-- them, in order, and no more than are left.
abbrev pub Serves : OpenFile → List ℕ → Type 0
Serves file content =
    (before after : List ℕ) (requested : ℕ)
    → content ≡ before ++ after
    → 0 < length after
    → requested ≡ length after
    → (b : ℕ) × (bs : List ℕ) × (rest : List ℕ) × (file.read (length before) requested
        ≡ some (b ∷ bs))
      × (after ≡ (b ∷ bs) ++ rest)

-- However the reads are cut, the loop collects the whole content.
read_all_complete :
    (file : OpenFile) (content : List ℕ) (served : Serves file content) (fuel : ℕ)
    (got left : List ℕ)
    → content ≡ got ++ left
    → length left ≤ fuel
    → read_all file fuel (length content) got ≡ some content
unfolding read_all
read_all_complete file content served zero got [] e h = rw (e, append-nil)
read_all_complete file content served zero got (x ∷ left) e h = absurd (omega arith)
read_all_complete file content served (suc fuel) got [] e h = rw (e ∙ append-nil got) (ground arith)
read_all_complete file content served (suc fuel) got (x ∷ left) e h =
    let (b, bs, rest, r, split) =
      served got (x ∷ left) (length content - length got) e (omega arith)
        (omega (arith, ap length e, length-append got (x ∷ left))) in
    ground (
      arith,
      ap length e,
      length-append got (x ∷ left),
      read_all_complete file content served fuel (got ++ (b ∷ bs)) rest
          (rw (append_assoc got (b ∷ bs) rest) (e ∙ ap (λ t. got ++ t) split))
          (omega (arith, ap length split, length-append bs rest)),
    )

-- A regular file of the recorded size and digest, under its root, is read whole.
pub read_verified_file_complete :
    (fs : FileSystem) (input : VerifiedFile) (file : OpenFile) (content : List ℕ)
    (root parent : String)
    → fs.realpath input.root ≡ some root
    → fs.realpath (fs.dirname input.path) ≡ some parent
    → (within fs root parent || str_eq parent root) ≡ true
    → input.byte_size ≤ 9007199254740991
    → fs.open_file input.path ≡ some file
    → file.is_file ≡ true
    → file.size ≡ input.byte_size
    → length content ≡ input.byte_size
    → fs.sha256 content ≡ input.sha256
    → Serves file content
    → read_verified_file fs input ≡ some content
unfolding read_verified_file read_placed read_opened
read_verified_file_complete fs input file content root parent r p inside small opened regular size
      len sha served =
    ground
      (arith, read_all_complete file content served (length content) [] content refl (omega arith))
