-- ===== src/Redirector/Find/Scan.antt =====
-- `scan_batch` against the list of the entries that the cache still holds.
use serial_dfs.Base.{
  ℕ, zero, suc, ◌+◌, ◌-◌, ◌*◌, ◌<◌, ◌≤◌, ◌&&◌, if◌then◌else◌, Bool, true, false, Option, none, some,
  List, [], ◌∷◌, ◌++◌, byte_at, take, drop, ◌≡◌, refl, ap, ap₂, sym, ◌∙◌, arith, drop-drop,
  get_or-take, Bool-cases, inl, inr,
}
use mathlib.Core.Path.{subst}
use serial_dfs.Redirector.Names.{fcb_match, attr_match}
use serial_dfs.Redirector.Names.Fcb.{name83_to_fcb-take}
use serial_dfs.Redirector.State.{DirBatch}
use serial_dfs.Redirector.Find.{
  dir_entry_size, entry_at, entry_matches, scan_from, scan_batch, fill_found_file,
}

-- The first `n` entries of a run of them.
unfoldable pub rows : ℕ → List ℕ → List (List ℕ)
rows zero bytes = []
rows (suc n) bytes = take dir_entry_size bytes ∷ rows n (drop dir_entry_size bytes)

-- The entries that a search template lets through, in their order.
pub matching : List ℕ → ℕ → List (List ℕ) → List (List ℕ)
matching tmpl srch_attr [] = []
matching tmpl srch_attr (e ∷ es) =
    let rest = matching tmpl srch_attr es in
    if entry_matches tmpl srch_attr e then e ∷ rest else rest

-- The entries of the cache that no scan has passed.
unfoldable pub unread : DirBatch → List (List ℕ)
unread b = rows (b.count - b.idx) (entry_at b.entries b.idx)

-- An entry is judged by its own 23 bytes.
entry_matches-take :
    (tmpl : List ℕ) (srch_attr : ℕ) (e : List ℕ)
    → entry_matches tmpl srch_attr (take dir_entry_size e) ≡ entry_matches tmpl srch_attr e
unfolding entry_matches
entry_matches-take tmpl srch_attr e =
    ap₂ (λ c name. attr_match c srch_attr && fcb_match tmpl name)
      (get_or-take e 23 12 0 (omega arith)) (name83_to_fcb-take 23 e (omega arith))

-- And so is what a search result takes from it.
pub fill_found_file-take :
    (e : List ℕ) → fill_found_file (take dir_entry_size e) ≡ fill_found_file e
unfolding fill_found_file
fill_found_file-take e = rw (
  name83_to_fcb-take 23 e (omega arith),
  read 12 (omega arith),
  read 13 (omega arith),
  read 14 (omega arith),
  read 15 (omega arith),
  read 16 (omega arith),
  read 17 (omega arith),
  read 18 (omega arith),
  read 19 (omega arith),
  read 20 (omega arith),
)
  where
    read : (i : ℕ) → i < 23 → byte_at (take 23 e) i ≡ byte_at e i
    read i h = get_or-take e 23 i 0 h

-- What a scan answers about the entries it went through, `left` of them before.
unfoldable pub Scanned : List ℕ → ℕ → List (List ℕ) → Option (List ℕ) → List (List ℕ) → Type 0
Scanned tmpl srch_attr before none after = (matching tmpl srch_attr before ≡ []) × (after ≡ [])
Scanned tmpl srch_attr before (some e) after =
    matching tmpl srch_attr before ≡ take dir_entry_size e ∷ matching tmpl srch_attr after

-- An entry that the template lets through, and one that it does not.
matching_hit :
    (tmpl : List ℕ) (srch_attr : ℕ) (e : List ℕ) (es : List (List ℕ))
    → entry_matches tmpl srch_attr e ≡ true
    → matching tmpl srch_attr (take dir_entry_size e ∷ es)
      ≡ take dir_entry_size e ∷ matching tmpl srch_attr es
unfolding matching
matching_hit tmpl srch_attr e es h = rw (entry_matches-take tmpl srch_attr e, h)

matching_miss :
    (tmpl : List ℕ) (srch_attr : ℕ) (e : List ℕ) (es : List (List ℕ))
    → entry_matches tmpl srch_attr e ≡ false
    → matching tmpl srch_attr (take dir_entry_size e ∷ es) ≡ matching tmpl srch_attr es
unfolding matching
matching_miss tmpl srch_attr e es h = rw (entry_matches-take tmpl srch_attr e, h)

-- Entries in front that do not match change nothing.
Scanned_skip :
    (tmpl : List ℕ) (srch_attr : ℕ) (b b' : List (List ℕ)) (o : Option (List ℕ)) (a : List (List ℕ))
    → matching tmpl srch_attr b ≡ matching tmpl srch_attr b'
    → Scanned tmpl srch_attr b' o a
    → Scanned tmpl srch_attr b o a
unfolding Scanned
Scanned_skip tmpl srch_attr b b' none a e h = (e ∙ h.0, h.1)
Scanned_skip tmpl srch_attr b b' (some x) a e h = e ∙ h

module _ (tmpl : List ℕ) (srch_attr : ℕ) (entries : List ℕ) where
  next_entry : (idx : ℕ) → drop dir_entry_size (entry_at entries idx) ≡ entry_at entries (idx + 1)
  next_entry idx =
      drop-drop (idx * dir_entry_size) dir_entry_size entries
      ∙ ap (λ n. drop n entries) (omega arith)

  -- `Scanned` for the answer `x` of the loop, `end` being the number of the entries.
  abbrev ScanTo : List (List ℕ) → ℕ → Option (List ℕ) × ℕ → Type 0
  ScanTo before end x = Scanned tmpl srch_attr before x.0 (rows (end - x.1) (entry_at entries x.1))

  scan_from-Scanned :
      (left idx end : ℕ)
      → left + idx ≡ end
      → ScanTo (rows left (entry_at entries idx)) end (scan_from tmpl srch_attr entries left idx)
  unfolding Scanned scan_from rows matching
  scan_from-Scanned zero idx end h = (refl, ap (λ n. rows n (entry_at entries idx)) none_left)
    where
      none_left : end - idx ≡ 0
      none_left = omega arith
  scan_from-Scanned (suc left) idx end h = elim (Bool-cases (entry_matches tmpl srch_attr e)) [
    | inl hit ↦
        subst (λ b. ScanTo before end (answer b)) (sym hit)
          (matching_hit tmpl srch_attr e (rows left (drop dir_entry_size e)) hit
            ∙ ap₂ (λ n es. take dir_entry_size e ∷ matching tmpl srch_attr (rows n es)) one_less
                (next_entry idx))
    | inr miss ↦
        subst (λ b. ScanTo before end (answer b)) (sym miss)
          (Scanned_skip tmpl srch_attr before (rows left (entry_at entries (idx + 1)))
            (scan_from tmpl srch_attr entries left (idx + 1)).0
            (rows (end - (scan_from tmpl srch_attr entries left (idx + 1)).1)
              (entry_at entries (scan_from tmpl srch_attr entries left (idx + 1)).1))
            (matching_miss tmpl srch_attr e (rows left (drop dir_entry_size e)) miss
              ∙ ap (λ es. matching tmpl srch_attr (rows left es)) (next_entry idx))
            (scan_from-Scanned left (idx + 1) end (omega arith)))
  ]
    where
      e : List ℕ
      e = entry_at entries idx

      before : List (List ℕ)
      before = rows (suc left) e

      answer : Bool → Option (List ℕ) × ℕ
      answer b = if b then (some e, idx + 1) else scan_from tmpl srch_attr entries left (idx + 1)

      one_less : left ≡ end - (idx + 1)
      one_less = omega arith

-- A scan finds the first entry left in the cache that the template lets through and leaves the ones
-- behind it; it finds none, and leaves none, if there is no such entry.
pub scan_batch-Scanned :
    (tmpl : List ℕ) (srch_attr : ℕ) (b : DirBatch)
    → b.idx ≤ b.count
    → Scanned tmpl srch_attr
        (unread b)
        (scan_batch tmpl srch_attr b).0
        (unread (scan_batch tmpl srch_attr b).1)
unfolding scan_batch unread
scan_batch-Scanned tmpl srch_attr b h =
    scan_from-Scanned tmpl srch_attr b.entries (b.count - b.idx) b.idx b.count (omega arith)

scan_from_bound :
    (tmpl : List ℕ) (srch_attr : ℕ) (entries : List ℕ) (left idx : ℕ)
    → (scan_from tmpl srch_attr entries left idx).1 ≤ left + idx
unfolding scan_from
scan_from_bound tmpl srch_attr entries zero idx = omega arith
scan_from_bound tmpl srch_attr entries (suc left) idx =
    subst (λ n. (answer (entry_matches tmpl srch_attr (entry_at entries idx))).1 ≤ n) swap
      (either (entry_matches tmpl srch_attr (entry_at entries idx))
        (scan_from_bound tmpl srch_attr entries left (idx + 1)))
  where
    answer : Bool → Option (List ℕ) × ℕ
    answer b =
        if b
        then (some (entry_at entries idx), idx + 1)
        else scan_from tmpl srch_attr entries left (idx + 1)

    swap : left + (idx + 1) ≡ suc left + idx
    swap = omega arith

    either :
        (b : Bool)
        → (scan_from tmpl srch_attr entries left (idx + 1)).1 ≤ left + (idx + 1)
        → (answer b).1 ≤ left + (idx + 1)
    either true h = omega arith
    either false h = h

pub scan_batch_bound :
    (tmpl : List ℕ) (srch_attr : ℕ) (b : DirBatch)
    → b.idx ≤ b.count
    → (scan_batch tmpl srch_attr b).1.idx ≤ b.count
unfolding scan_batch
scan_batch_bound tmpl srch_attr b h =
    omega (arith, scan_from_bound tmpl srch_attr b.entries (b.count - b.idx) b.idx)

-- The scan moves the index of the cache and nothing else.
pub scan_batch_only_idx :
    (tmpl : List ℕ) (srch_attr : ℕ) (b : DirBatch)
    → (scan_batch tmpl srch_attr b).1 ≡ record b { idx = (scan_batch tmpl srch_attr b).1.idx }
unfolding scan_batch
scan_batch_only_idx tmpl srch_attr b = refl

pub matching-append :
    (tmpl : List ℕ) (srch_attr : ℕ) (es es' : List (List ℕ))
    → matching tmpl srch_attr (es ++ es')
      ≡ matching tmpl srch_attr es ++ matching tmpl srch_attr es'
unfolding matching
matching-append tmpl srch_attr [] es' = refl
matching-append tmpl srch_attr (e ∷ es) es' =
    ap (with_rest (entry_matches tmpl srch_attr e)) (matching-append tmpl srch_attr es es')
    ∙ split (entry_matches tmpl srch_attr e)
  where
    with_rest : Bool → List (List ℕ) → List (List ℕ)
    with_rest b rest = if b then e ∷ rest else rest

    split :
        (b : Bool)
        → with_rest b (matching tmpl srch_attr es ++ matching tmpl srch_attr es')
          ≡ with_rest b (matching tmpl srch_attr es) ++ matching tmpl srch_attr es'
    split true = refl
    split false = refl

-- More entries behind, which a scan that found one leaves alone.
pub Scanned-append :
    (tmpl : List ℕ) (srch_attr : ℕ) (b a es : List (List ℕ)) (e : List ℕ)
    → Scanned tmpl srch_attr b (some e) a
    → Scanned tmpl srch_attr (b ++ es) (some e) (a ++ es)
unfolding Scanned
Scanned-append tmpl srch_attr b a es e h =
    matching-append tmpl srch_attr b es
    ∙ ap (λ m. m ++ matching tmpl srch_attr es) h
    ∙ ap (λ m. take dir_entry_size e ∷ m) (sym (matching-append tmpl srch_attr a es))

-- A scan that found nothing does not matter for a search behind it.
pub Scanned-next :
    (tmpl : List ℕ) (srch_attr : ℕ) (b a es : List (List ℕ)) (o : Option (List ℕ))
    (after : List (List ℕ))
    → Scanned tmpl srch_attr b none a
    → Scanned tmpl srch_attr es o after
    → Scanned tmpl srch_attr (b ++ es) o after
unfolding Scanned
Scanned-next tmpl srch_attr b a es o after h found =
    Scanned_skip tmpl srch_attr (b ++ es) es o after
      (matching-append tmpl srch_attr b es ∙ ap (λ m. m ++ matching tmpl srch_attr es) h.0) found
