-- ===== src/FileTransfer/Names.antt =====
-- The names that src/file/transfer.cpp lets through.
use aegis.Prelude.{ℕ, true, false, some, List, [], ◌∷◌, ◌≡◌, refl, arith, contains, length, ◌≤◌}
use aegis.FileTransfer.{
  is_safe_file_name, none_forbidden, is_forbidden, last_part, sanitize_file_name,
}

none_forbidden-contains :
    (c : ℕ) (name : List ℕ)
    → is_forbidden c ≡ true
    → none_forbidden name ≡ true
    → contains c name ≡ false
unfolding none_forbidden
none_forbidden-contains c [] h k = refl
none_forbidden-contains c (d ∷ name) h k = ground (arith, none_forbidden-contains c name)

-- A forbidden byte does not occur in a safe name.
is_safe_file_name-contains :
    (c : ℕ) (name : List ℕ)
    → is_forbidden c ≡ true
    → is_safe_file_name name ≡ true
    → contains c name ≡ false
unfolding is_safe_file_name
is_safe_file_name-contains c name h k = ground (arith, none_forbidden-contains c name h)

last_part_lem :
    (suffix name : List ℕ)
    → contains 47 name ≡ false
    → contains 92 name ≡ false
    → last_part suffix name ≡ suffix
unfolding last_part
last_part_lem suffix [] h k = refl
last_part_lem suffix (c ∷ name) h k = ground (arith, last_part_lem suffix name)

-- What the two tests on a name say of its size and of five of its bytes.
pub record IsPlain (name : List ℕ) : Type 0 where
  pub not_empty : 1 ≤ length name
  pub short : length name ≤ 255
  pub no_slash : contains 47 name ≡ false
  pub no_backslash : contains 92 name ≡ false
  pub no_colon : contains 58 name ≡ false
  pub no_zero : contains 0 name ≡ false

length-is_safe :
    (name : List ℕ) → is_safe_file_name name ≡ true → (1 ≤ length name) × (length name ≤ 255)
unfolding is_safe_file_name
length-is_safe name h = ground arith

-- A safe name has from 1 to 255 bytes and none of them is a slash, a backslash, a colon or zero.
pub is_safe_file_name-IsPlain : (name : List ℕ) → is_safe_file_name name ≡ true → IsPlain name
unfolding is_forbidden
is_safe_file_name-IsPlain name h = record {
  not_empty = (length-is_safe name h).0;
  short = (length-is_safe name h).1;
  no_slash = is_safe_file_name-contains 47 name refl h;
  no_backslash = is_safe_file_name-contains 92 name refl h;
  no_colon = is_safe_file_name-contains 58 name refl h;
  no_zero = is_safe_file_name-contains 0 name refl h;
}

sanitize_file_name-is_safe :
    (path name : List ℕ) → sanitize_file_name path ≡ some name → is_safe_file_name name ≡ true
unfolding sanitize_file_name
sanitize_file_name-is_safe path name h = ground arith

-- A safe name is reduced to itself.
sanitize_file_name_safe :
    (name : List ℕ) → is_safe_file_name name ≡ true → sanitize_file_name name ≡ some name
unfolding sanitize_file_name
sanitize_file_name_safe name h =
    let plain = is_safe_file_name-IsPlain name h in
    ground (arith, last_part_lem name name plain.no_slash plain.no_backslash)

-- A name that a path is reduced to is safe; it has from 1 to 255 bytes and no slash, backslash,
-- colon or zero byte; and reducing it again leaves it as it is.
pub sanitize_file_name_lem :
    (path name : List ℕ)
    → sanitize_file_name path ≡ some name
    → (is_safe_file_name name ≡ true) × IsPlain name × (sanitize_file_name name ≡ some name)
sanitize_file_name_lem path name h =
    let safe = sanitize_file_name-is_safe path name h in
    (safe, is_safe_file_name-IsPlain name safe, sanitize_file_name_safe name safe)
