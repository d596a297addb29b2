-- ===== src/Redirector/Names.antt =====
-- dos/src/serdfs.c: the resident helpers on names, attributes and error codes.
-- A far pointer to a string is the list of the bytes from it on; the end of the list reads as NUL.
pub mod Fcb
pub mod Fits
pub mod Layout
pub mod Status
use serial_dfs.Base.{
  ℕ, zero, suc, ◌+◌, ◌-◌, ◌*◌, ◌^◌, ◌==◌, ltb, not, ◌&&◌, ◌||◌, if◌then◌else◌, Bool, true, false,
  Option, none, some, List, [], ◌∷◌, byte_at, take, drop, set, replicate, bit_and,
}

pub mystrlen : List ℕ → ℕ
mystrlen [] = 0
mystrlen (c ∷ s) = if c == 0 then 0 else suc (mystrlen s)

-- `none` is the return of -1.
pub len_if_no_wildcards : List ℕ → Option ℕ
len_if_no_wildcards [] = some 0
len_if_no_wildcards (c ∷ s) =
    let rest = len_if_no_wildcards s in
    if c == 0
    then some 0
    else if c == b'?' || c == b'*'
    then none
    else elim rest [ none ↦ none | some r ↦ some (suc r) ]

-- `len_if_no_wildcards(s) < 2`.
abbrev pub bad_name : List ℕ → Bool
bad_name s = elim (len_if_no_wildcards s) [ none ↦ true | some r ↦ ltb r 2 ]

-- The first loop of `name83_to_fcb`: the name goes to `fcb11[j..8)`; what is left of `name12`.
pub name_part : List ℕ → ℕ → List ℕ → List ℕ × List ℕ
name_part [] j fcb = (fcb, [])
name_part (c ∷ name) j fcb =
    let rest =
      name_part name (if ltb j 8 then j + 1 else j) (if ltb j 8 then set fcb j c else fcb) in
    if c == 0 || c == b'.' then (fcb, c ∷ name) else rest

-- The second loop: the extension goes to `fcb11[j..11)`.
pub ext_part : List ℕ → ℕ → List ℕ → List ℕ
ext_part [] j fcb = fcb
ext_part (c ∷ name) j fcb =
    let rest =
      ext_part name (if ltb j 11 then j + 1 else j) (if ltb j 11 then set fcb j c else fcb) in
    if c == 0 then fcb else rest

after_name : List ℕ → List ℕ → List ℕ
after_name [] fcb = fcb
after_name (c ∷ name) fcb = if c == b'.' then ext_part name 8 fcb else fcb

pub name83_to_fcb : List ℕ → List ℕ
unfolding after_name
name83_to_fcb name12 =
    let (fcb, rest) = name_part (take 12 name12) 0 (replicate 11 b' ') in after_name rest fcb

-- `fcb_match` on the `n` bytes from each pointer on.
pub match_bytes : ℕ → List ℕ → List ℕ → Bool
match_bytes zero tmpl name = true
match_bytes (suc n) tmpl name =
    let rest = match_bytes n (drop 1 tmpl) (drop 1 name) in
    if not (byte_at tmpl 0 == b'?') && not (byte_at tmpl 0 == byte_at name 0) then false else rest

pub fcb_match : List ℕ → List ℕ → Bool
fcb_match tmpl name11 = match_bytes 11 tmpl name11

pub attr_match : ℕ → ℕ → Bool
attr_match entry_attr srch_attr = bit_and (bit_and entry_attr (2 ^ 16 - 1 - srch_attr)) 0x1E == 0

pub dos_err_from_status : ℕ → ℕ
dos_err_from_status st =
    if st == 0x00
    then 0
    else if st == 0x01
    then 2
    else if st == 0x02
    then 5
    else if st == 0x03
    then 6
    else if st == 0x04
    then 80
    else if st == 0x05
    then 29
    else if st == 0x06
    then 23
    else if st == 0x07
    then 21
    else if st == 0x08
    then 1
    else if st == 0x09
    then 3
    else 2

-- The loop of `get_dir_path` at index `i`, over the bytes from `fn1[i]` on.
pub find_slash : List ℕ → ℕ → ℕ → ℕ
find_slash [] i last_slash = last_slash
find_slash (c ∷ fn) i last_slash =
    let rest = find_slash fn (i + 1) (if c == b'\\' then i else last_slash) in
    if c == 0 then last_slash else rest

-- `dir_path` without its NUL: fn1[2..last_slash]. The 65 bytes of the caller's buffer hold it if
-- `last_slash` is at most 65.
pub get_dir_path : List ℕ → List ℕ
get_dir_path fn1 = take (find_slash (drop 2 fn1) 2 2 - 1) (drop 2 fn1)

-- The loop of `copy_fn1_path` at `buf[at]`, over the bytes from `fn1[i + 2]` on.
pub copy_path : List ℕ → ℕ → List ℕ
copy_path [] at = 0 ∷ []
copy_path (c ∷ fn) at =
    let rest = copy_path fn (at + 1) in if not (c == 0) && ltb at 509 then c ∷ rest else 0 ∷ []

-- The bytes that go to `buf[off..]`; their number is what is returned.
pub copy_fn1_path : ℕ → List ℕ → List ℕ
copy_fn1_path off fn1 = copy_path (drop 2 fn1) off
