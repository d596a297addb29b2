-- ===== src/Tests/Search.antt =====
-- A server that lists a directory of two files "A" and "B" in two batches, and calls of one answer.
use serial_dfs.Base.{
  ℕ, ◌<◌, ◌≢◌, ◌==◌, if◌then◌else◌, some, List, [], ◌∷◌, ◌++◌, replicate, ◌≡◌, ◌↔◌, refl, ap, arith,
  true, false,
}
use serial_dfs.Command.{cmd_list_dir, cmd_rmdir}
use serial_dfs.Rpc.{ok, err_timeout}
use serial_dfs.Redirector.Names.{name83_to_fcb, fcb_match}
use serial_dfs.Redirector.Names.Layout.{Plain, dotted, name_field}
use serial_dfs.Redirector.Dispatch.{normalise_fcb}
use serial_dfs.Redirector.Dispatch.Template.{normalise-name83}
use serial_dfs.Redirector.State.{Call, Tsr, success}
use serial_dfs.Redirector.Names.{dos_err_from_status}
use serial_dfs.Redirector.Names.Status.{dos_err-table}
use serial_dfs.Redirector.Paths.{simple_call}
use serial_dfs.Redirector.Paths.Errors.{simple_call-ok, simple_call-timeout}
use serial_dfs.Redirector.Dispatch.{chained, inthandler}
use serial_dfs.Redirector.Dispatch.Chain.{Untouched, inthandler-chained}
use serial_dfs.Redirector.Find.{al_findfirst, al_findnext, scan_batch}
use serial_dfs.Redirector.Find.Scan.{Scanned, matching, unread, scan_batch-Scanned}
use serial_dfs.Redirector.Find.Listing.{
  ServesListing, IsBatch, IsListing, last, next, Cached, listed, coming,
}
use serial_dfs.Redirector.Find.Search.{Searching, Answer, al_findfirst-Answer, al_findnext-Answer}
use serial_dfs.Tests.State.{state}

-- An entry of the name `c` with the flag `more` that a batch follows.
abbrev entry : ℕ → ℕ → List ℕ
entry c more = c ∷ replicate 20 0 ++ more ∷ 0 ∷ []

abbrev Left : List (List ℕ) → List (List ℕ) → Type 0
Left bs s = s ≡ bs

abbrev tail : List (List ℕ) → List (List ℕ)
tail [] = []
tail (b ∷ bs) = bs

abbrev head : List (List ℕ) → List ℕ
head [] = []
head (b ∷ bs) = b

abbrev lister : Call (List (List ℕ))
lister port cmd payload s =
    if cmd == cmd_list_dir then (ok 0 (3 ∷ head s), tail s) else (ok 0 (head s), tail s)

lists : ServesListing lister 1 3 Left
lists = record { serves = λ b bs s now. (ap (λ x. ok 0 (head x)) now, ap tail now) }

only-IsBatch : (c : ℕ) → IsBatch (entry c 0) []
only-IsBatch c = record {
  entry_count = 1;
  not_none = omega arith;
  fits = omega arith;
  whole = refl;
  more_flag = refl;
}

first-IsBatch : (c d : ℕ) → IsBatch (entry c 1) (entry d 0 ∷ [])
first-IsBatch c d = record {
  entry_count = 1;
  not_none = omega arith;
  fits = omega arith;
  whole = refl;
  more_flag = refl;
}

-- The batch of "B" is still to be sent.
one_left : IsListing (entry 66 0 ∷ [])
one_left = next (entry 66 0) [] (only-IsBatch 66) last

abbrev closed : Tsr (List (List ℕ))
closed = state 0 (replicate 506 0) (entry 65 1 ∷ entry 66 0 ∷ [])

al_findfirst-Answer_example :
    (t' : Tsr (List (List ℕ))) × (al_findfirst lister 2 0 closed ≡ some t')
    × Answer lister 1 3 Left lists closed.sda.fcb_fn1 0 2 64 2
        (matching closed.sda.fcb_fn1 0 (listed (entry 65 1 ∷ entry 66 0 ∷ [])))
        closed
        t'
al_findfirst-Answer_example =
    al_findfirst-Answer lister 1 3 Left lists (entry 65 1) (entry 66 0 ∷ []) (first-IsBatch 65 66)
      one_left closed refl (omega arith) (omega arith) 2 0 refl refl (omega arith)

-- "A" is in the cache and "B" is still to be sent.
abbrev searching : Tsr (List (List ℕ))
searching = record (state 0 (entry 65 1 ++ replicate 483 0) (entry 66 0 ∷ [])) {
  batch = record { entries = entry 65 1 ++ replicate 483 0; count = 1; idx = 0; more = 1; hid = 3 };
}

cached : Cached lister 1 3 Left (entry 66 0 ∷ []) searching
cached = record {
  on_port = refl;
  of_handle = refl;
  in_batch = omega arith;
  small_count = omega arith;
  more_flag = refl;
  roomy = omega arith;
  rep_room = omega arith;
  is_ready = refl;
  is_listing = one_left;
}

under_way :
    Searching lister 1 3 Left lists searching.sda.fcb_fn1 0 2 64
      (matching searching.sda.fcb_fn1 0 (coming lister 1 3 Left (entry 66 0 ∷ []) searching))
      searching
under_way = record {
  bs = entry 66 0 ∷ [];
  bounded = omega arith;
  cached = cached;
  to_come = refl;
  template = refl;
  attributes = refl;
  position = refl;
}

al_findnext-Answer_example :
    (t' : Tsr (List (List ℕ))) × (al_findnext lister 2 0 searching ≡ some t')
    × Answer lister 1 3 Left lists searching.sda.fcb_fn1 0 2 64 18
        (matching searching.sda.fcb_fn1 0 (coming lister 1 3 Left (entry 66 0 ∷ []) searching))
        searching
        t'
al_findnext-Answer_example =
    al_findnext-Answer lister 1 3 Left lists searching.sda.fcb_fn1 0 2 64 0
      (matching searching.sda.fcb_fn1 0 (coming lister 1 3 Left (entry 66 0 ∷ []) searching))
      searching refl under_way

scan_batch-Scanned_example :
    Scanned
      (65 ∷ replicate 10 32)
      0
      (unread searching.batch)
      (scan_batch (65 ∷ replicate 10 32) 0 searching.batch).0
      (unread (scan_batch (65 ∷ replicate 10 32) 0 searching.batch).1)
scan_batch-Scanned_example =
    scan_batch-Scanned (65 ∷ replicate 10 32) 0 searching.batch (omega arith)

-- A server that answers every call with the status `st`, and a line that answers none.
abbrev always : ℕ → Call ℕ
always st port cmd payload s = (ok st [], s)

abbrev never : Call ℕ
never port cmd payload s = (err_timeout, s)

abbrev denied : ℕ
denied = 2

abbrev undef : ℕ
undef = 0

simple_call-ok_example :
    let t' = simple_call (always 2) 77 cmd_rmdir (0 ∷ 0 ∷ []) (success (state 0 [] 0)) in
    (t'.regs.ax ≡ 5)
    × ((t'.regs.carry ≡ false) ↔ (denied ≡ 0))
    × ((t'.regs.ax ≡ 0) ↔ (t'.regs.carry ≡ false))
simple_call-ok_example =
    simple_call-ok (always 2) 77 cmd_rmdir (0 ∷ 0 ∷ []) (state 0 [] 0) 2 [] refl

simple_call-timeout_example :
    let t' = simple_call never 0 cmd_rmdir (0 ∷ 0 ∷ []) (success (state 0 [] 0)) in
    (t'.regs.carry ≡ true) × (t'.regs.ax ≡ 0) × ((t'.regs.ax ≡ 0) ↔ (undef ≡ 0))
simple_call-timeout_example = simple_call-timeout never 0 cmd_rmdir (0 ∷ 0 ∷ []) (state 0 [] 0) refl

dos_err-table_example : dos_err_from_status 4 ≡ 80
dos_err-table_example = dos_err-table 4

-- A call of another program's function on INT 2Fh.
abbrev other : Tsr ℕ
other = record (state 0 [] 0) {
  regs = record { ax = 0x1600; bx = 0; cx = 4; dx = 0; es = 0; di = 64; carry = false };
}

passed_on : inthandler never 1 0 67 0 0 9 other ≡ chained (record other { reqstkword = 9 })
unfolding inthandler
passed_on = refl

inthandler-chained_example : Untouched other (record other { reqstkword = 9 })
inthandler-chained_example =
    inthandler-chained never 1 0 67 0 0 9 other (record other { reqstkword = 9 }) passed_on

is_plain : (c : ℕ) → 64 < c → c < 91 → (c ≢ 0) × (c ≢ 46) × (c ≢ 92)
is_plain c lo hi = (λ e. omega (arith, e, lo), λ e. omega (arith, e, lo), λ e. omega (arith, e, hi))

a_plain : Plain (65 ∷ [])
a_plain = let p = is_plain 65 (omega arith) (omega arith) in (p.0, p.1, p.2, tt)

tx_plain : Plain (84 ∷ 88 ∷ [])
tx_plain =
    let p = is_plain 84 (omega arith) (omega arith) in
    let q = is_plain 88 (omega arith) (omega arith) in (p.0, p.1, p.2, (q.0, q.1, q.2, tt))

-- The file A.TX in a directory D: its path as a template, and its entry.
normalise-name83_example :
    let template =
      normalise_fcb ((68 ∷ 58 ∷ 92 ∷ 68 ∷ []) ++ 92 ∷ ((65 ∷ []) ++ dotted (84 ∷ 88 ∷ []))) in
    let entry = name83_to_fcb (
      name_field (65 ∷ []) (84 ∷ 88 ∷ []) (0x20 ∷ []) a_plain tx_plain (omega arith) (omega arith)
      ++ 0x20 ∷ []) in
    (template ≡ entry) × (fcb_match template entry ≡ true)
normalise-name83_example =
    normalise-name83 (68 ∷ 58 ∷ 92 ∷ 68 ∷ []) (65 ∷ []) (84 ∷ 88 ∷ []) (0x20 ∷ []) a_plain tx_plain
      (omega arith) (omega arith)
      (
        λ e. absurd (omega (arith, e)),
        (
          λ e. absurd (omega (arith, e)),
          (λ e. absurd (omega (arith, e)), (λ e. absurd (omega (arith, e)), tt)),
        ),
      )
