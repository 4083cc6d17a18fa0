-- ===== src/Examples/Disks.antt =====
-- A disk in memory that satisfies what is asked of directories.
use dkeyczar.Prelude.{
  ◌≡◌, ◌≢◌, refl, Bytes, false, Result, ok, err, foreign, ◌+◌, none, List, [], ◌∷◌, ℤ, pos, codes,
  bytes_eq, bytes_eq_refl, bytes_eq→eq, if◌then◌else◌, Bool-cases, inl, inr, arith,
}
use dkeyczar.Readers.Files.{Files}
use dkeyczar.Command.{Disk}
use dkeyczar.Command.Directory.{ItoaLaws, IsDirectory, file_name, path_of}

abbrev pub Memory : Type 0
Memory = List (Bytes × Bytes)

unfoldable pub read_memory : Memory → Bytes → Result Bytes
unfolding bytes_eq
read_memory [] path = err (foreign 2)
read_memory ((p, s) ∷ memory) path = if bytes_eq p path then ok s else read_memory memory path

abbrev pub memory_disk : Disk Memory
memory_disk = record {
  read_file = read_memory;
  write_file = λ path s memory. (path, s) ∷ memory;
  mkdir_all = λ path memory. (memory, none);
}

-- Version 48 is "0", 49 is "1", and so on: the code of a digit, for the few versions used.
abbrev pub digits : ℤ → Bytes
digits (pos n) = (48 + n) ∷ []
digits (ℤ.negsuc n) = codes "-"

abbrev pub base_files : Files
base_files = record {
  read_file = λ path. err (foreign 2);
  pem_decode = λ text. none;
  parse_pkcs1_private_key = λ block. err (foreign 3);
  parse_pkix_public_key = λ block. err (foreign 3);
  parse_certificate = λ block. err (foreign 3);
  itoa = digits;
}

pub base_files-ItoaLaws : ItoaLaws base_files
base_files-ItoaLaws = record { itoa_injective = λ a b e. ground arith; itoa_not_meta = λ a e. cc }

abbrev pub keys_directory : Bytes
keys_directory = codes "keys"

bytes_eq_ne : (a b : Bytes) → a ≢ b → bytes_eq a b ≡ false
bytes_eq_ne a b ne = elim (Bool-cases (bytes_eq a b)) [
  | inl e ↦ absurd (ne (bytes_eq→eq a b e))
  | inr e ↦ e
]

read_own : (p s : Bytes) (d : Memory) → read_memory ((p, s) ∷ d) p ≡ ok s
unfolding read_memory
read_own p s d = rw (read_memory, bytes_eq_refl p) refl

read_else :
    (a b s : Bytes) (d : Memory)
    → a ≢ b
    → read_memory ((path_of keys_directory a, s) ∷ d) (path_of keys_directory b)
      ≡ read_memory d (path_of keys_directory b)
unfolding read_memory
read_else a b s d ne = rw (bytes_eq_ne a b ne) refl

pub keys_directory-IsDirectory : IsDirectory base_files memory_disk keys_directory
keys_directory-IsDirectory = record {
  ending = 115;
  ends = refl;
  no_separator = refl;
  read_written = λ a s d. read_own (path_of keys_directory (file_name base_files a)) s d;
  read_other = λ a b s d ne. read_else (file_name base_files a) (file_name base_files b) s d ne;
}
