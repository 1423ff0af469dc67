-- ===== src/VerifiedFile.antt =====
-- packages/cli/src/verified-file.ts: a file is read only if it lies under its root, is a regular file
-- of the recorded size and has the recorded digest.
pub mod Reads
use Prim.Native.String.{String}
use text.Mathlib.Text.{◌==◌ as str_eq, starts_with}
use agentis.Prelude.{
  ℕ, zero, suc, ◌+◌, ◌-◌, Bool, true, false, not, ◌&&◌, ◌||◌, List, [], ◌∷◌, ◌++◌, Option, some,
  none, ltb, leb, ◌==◌, if◌then◌else◌, length,
}

-- An open descriptor: what `fstatSync` says of it, and the bytes that `readSync` gives at an offset
-- when so many are asked for; `none` is an exception.
pub record OpenFile : Type 0 where
  pub is_file : Bool
  pub size : ℕ
  pub read : (offset requested : ℕ) → Option (List ℕ)

-- The file system and the path functions of the platform. `open_file` opens with O_NOFOLLOW.
pub record FileSystem : Type 0 where
  pub realpath : String → Option String
  pub dirname : String → String
  pub relative : String → String → String
  pub is_absolute : String → Bool
  pub open_file : String → Option OpenFile
  pub sha256 : List ℕ → ℕ
  pub utf8 : List ℕ → String

pub record VerifiedFile : Type 0 where
  pub path : String
  pub root : String
  pub byte_size : ℕ
  pub sha256 : ℕ

unfoldable pub within : FileSystem → String → String → Bool
within fs root path =
    let relation = fs.relative root path in
    not (str_eq relation "")
    && not (str_eq relation "..")
    && not (starts_with relation "../")
    && not (fs.is_absolute relation)

-- Number.MAX_SAFE_INTEGER; a recorded size is never negative here.
abbrev pub max_safe_integer : ℕ
max_safe_integer = 9007199254740991

-- The `while` loop: read until the buffer is full or a read gives nothing. `none` is an exception, and
-- the fuel is the size of the buffer, since each round but the last adds a byte.
unfoldable pub read_all : OpenFile → (fuel size : ℕ) → List ℕ → Option (List ℕ)
read_all file zero size got = some got
read_all file (suc fuel) size got = elim (ltb (length got) size) [
  | false ↦ some got
  | true ↦ elim (file.read (length got) (size - length got)) [
    | none ↦ none
    | some [] ↦ some got
    | some (b ∷ bs) ↦ read_all file fuel size (got ++ (b ∷ bs))
  ]
]

-- The part of `readVerifiedFile` behind `openSync`.
unfoldable pub read_opened : FileSystem → VerifiedFile → OpenFile → Option (List ℕ)
read_opened fs input file =
    if not file.is_file || not (file.size == input.byte_size)
    then none
    else elim (read_all file input.byte_size input.byte_size []) [
      | none ↦ none
      | some bytes ↦
          if not (length bytes == input.byte_size)
          then none
          else if fs.sha256 bytes == input.sha256
          then some bytes
          else none
    ]

-- The part of `readVerifiedFile` behind the test of the directory.
unfoldable pub read_placed : FileSystem → VerifiedFile → Option (List ℕ)
read_placed fs input =
    if not (leb input.byte_size max_safe_integer)
    then none
    else elim (fs.open_file input.path) [ none ↦ none | some file ↦ read_opened fs input file ]

unfoldable pub read_verified_file : FileSystem → VerifiedFile → Option (List ℕ)
read_verified_file fs input = elim (fs.realpath input.root) [
  | none ↦ none
  | some root ↦ elim (fs.realpath (fs.dirname input.path)) [
    | none ↦ none
    | some parent ↦
        if not (within fs root parent) && not (str_eq parent root)
        then none
        else read_placed fs input
  ]
]
