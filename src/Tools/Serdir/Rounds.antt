-- ===== src/Tools/Serdir/Rounds.antt =====
-- What SERDIR prints of one batch, and the rounds of its loop.
use serial_dfs.Base.{
  ℕ, zero, suc, ◌+◌, ◌-◌, ◌*◌, ◌/◌, ◌<◌, ◌≤◌, ◌==◌, leb, Bool, if◌then◌else◌, true, false, Option,
  some, List, [], ◌∷◌, ◌++◌, map, byte_at, length, take, drop, overlay, overlay_fits,
  get_or-append_lt, get_or-take, length-drop, take-append_le, drop-append_le, drop-drop, take-take,
  ◌≡◌, refl, sym, ap, ap₂, ◌∙◌, arith,
}
use serial_dfs.Command.{cmd_list_dir_next}
use serial_dfs.Rpc.{ok}
use serial_dfs.Tools.{Driver, Answer, failed, replied}
use serial_dfs.Tools.Answers.{rpc-ok}
use serial_dfs.Tools.Serdir.{
  Entry, Said, entry, print_entry, print_batch, last_more, count_entries, more_loop,
}

-- The entries of `n` records of 23 bytes, one behind the other.
pub entries : ℕ → List ℕ → List Entry
entries zero b = []
entries (suc n) b = print_entry (take 23 b) ∷ entries n (drop 23 b)

print_entry-append :
    (b tail : List ℕ) → 23 ≤ length b → print_entry (b ++ tail) ≡ print_entry (take 23 b)
unfolding print_entry
print_entry-append b tail h = rw (
  name_is,
  at 12 (omega arith),
  at 13 (omega arith),
  at 14 (omega arith),
  at 15 (omega arith),
  at 16 (omega arith),
  at 17 (omega arith),
  at 18 (omega arith),
  at 19 (omega arith),
  at 20 (omega arith),
)
  where
    at : (i : ℕ) → i < 23 → byte_at (b ++ tail) i ≡ byte_at (take 23 b) i
    at i lt = get_or-append_lt b tail i 0 (omega arith) ∙ sym (get_or-take b 23 i 0 lt)

    name_is : take 12 (b ++ tail) ≡ take 12 (take 23 b)
    name_is = take-append_le 12 b tail (omega arith) ∙ sym (take-take 12 23 b (omega arith))

pub print_batch-entries :
    (n k off : ℕ) (buf b tail : List ℕ)
    → k ≤ n
    → length b ≡ k * 23
    → drop off buf ≡ b ++ tail
    → print_batch n off (off + k * 23) buf ≡ map entry (entries k b)
unfolding print_batch entries
print_batch-entries zero zero off buf b tail h whole there = refl
print_batch-entries zero (suc k) off buf b tail h whole there = absurd (omega arith)
print_batch-entries (suc n) zero off buf b tail h whole there =
    let over : leb (off + 23) (off + 0 * 23) ≡ false = ground arith in rw over
print_batch-entries (suc n) (suc k) off buf b tail h whole there =
    ap
      (λ c.
        if c
        then entry (print_entry (drop off buf)) ∷ print_batch n (off + 23) (off + suc k * 23) buf
        else [])
      inside
    ∙ ap₂ (λ e es. entry e ∷ es) (ap print_entry there ∙ print_entry-append b tail (omega arith))
        (ap (λ m. print_batch n (off + 23) m buf) (omega arith)
          ∙ print_batch-entries n k (off + 23) buf (drop 23 b) tail (omega arith)
              (omega (arith, length-drop 23 b))
              (sym (drop-drop off 23 buf)
                ∙ ap (drop 23) there
                ∙ drop-append_le 23 b tail (omega arith)))
  where
    inside : leb (off + 23) (off + suc k * 23) ≡ true
    inside = ground arith

pub count-entries : (es : List Entry) → count_entries (map entry es) ≡ length es
unfolding count_entries
count-entries [] = refl
count-entries (e ∷ es) = omega (arith, count-entries es)

pub map-append_entries : (xs ys : List Entry) → map entry xs ++ map entry ys ≡ map entry (xs ++ ys)
map-append_entries [] ys = refl
map-append_entries (x ∷ xs) ys = ap (λ t. entry x ∷ t) (map-append_entries xs ys)

pub length-entries : (n : ℕ) (b : List ℕ) → length (entries n b) ≡ n
unfolding entries
length-entries zero b = refl
length-entries (suc n) b = ap suc (length-entries n (drop 23 b))

-- The flag after a later batch of two entries or more: a byte of the last but one.
later_flag :
    (n : ℕ) (b buf : List ℕ)
    → 2 ≤ n
    → length b ≡ n * 23
    → length b ≤ length buf
    → last_more (length b) (overlay 0 b buf) ≡ byte_at b ((n - 2) * 23 + 22)
unfolding last_more
later_flag n b buf two whole room =
    ap (byte_at (overlay 0 b buf)) (omega (arith, whole))
    ∙ ap (λ x. byte_at x ((n - 2) * 23 + 22)) (overlay_fits b buf room)
    ∙ get_or-append_lt b (drop (length b) buf) ((n - 2) * 23 + 22) 0 (omega arith)

pub first_flag :
    (hid n : ℕ) (b buf : List ℕ)
    → 1 ≤ n
    → length b ≡ n * 23
    → length b < length buf
    → last_more (suc (length b)) (overlay 0 (hid ∷ b) buf) ≡ byte_at b ((n - 1) * 23 + 21)
unfolding last_more
first_flag hid n b buf one whole room =
    ap (byte_at (overlay 0 (hid ∷ b) buf)) index
    ∙ ap (λ x. byte_at x (suc ((n - 1) * 23 + 21))) (overlay_fits (hid ∷ b) buf (omega arith))
    ∙ get_or-append_lt b (drop (length (hid ∷ b)) buf) ((n - 1) * 23 + 21) 0 (omega arith)
  where
    index : 1 + ((suc (length b) - 1) / 23 - 1) * 23 + 21 ≡ suc ((n - 1) * 23 + 21)
    index = omega (arith, whole)

module _ {S : Type 0} (d : Driver S) (port : ℕ) where
  loop_short :
      (fuel hid len : ℕ) (buf : List ℕ) (said : List Said) (s : S)
      → leb 24 len ≡ false
      → more_loop d port (suc fuel) hid len buf said s ≡ some (said, s)
  unfolding more_loop
  loop_short fuel hid len buf said s e = rw e

  loop_flagged :
      (fuel hid len : ℕ) (buf : List ℕ) (said : List Said) (s : S)
      → leb 24 len ≡ true
      → last_more len buf ≡ 0
      → more_loop d port (suc fuel) hid len buf said s ≡ some (said, s)
  unfolding more_loop
  loop_flagged fuel hid len buf said s long e = rw (long, e)

  pub loop_more :
      (fuel hid len : ℕ) (buf : List ℕ) (said : List Said) (s : S) {b : List ℕ} {s' : S}
      → leb 24 len ≡ true
      → (last_more len buf == 0) ≡ false
      → d.call port cmd_list_dir_next (hid ∷ []) s ≡ (ok 0 b, s')
      → (length b == 0) ≡ false
      → more_loop d port (suc fuel) hid len buf said s
        ≡ more_loop d port fuel hid
            (length b)
            (overlay 0 b buf)
            (said ++ print_batch 22 0 (length b) (overlay 0 b buf))
            s'
  unfolding more_loop
  loop_more fuel hid len buf said s {b} {s'} long flag e some_bytes =
      rw (long, flag)
        (ap asked (rpc-ok d port cmd_list_dir_next (hid ∷ []) buf s e) ∙ ap with_more some_bytes)
    where
      asked : Answer × S → Option (List Said × S)
      asked r = elim (r.0) [
        | failed ↦ some (said, r.1)
        | replied st len' buf' ↦ elim (st == 0) [
          | false ↦ some (said, r.1)
          | true ↦ elim (len' == 0) [
            | true ↦ some (said ++ print_batch 22 0 len' buf', r.1)
            | false ↦ more_loop d port fuel hid len' buf' (said ++ print_batch 22 0 len' buf') (r.1)
          ]
        ]
      ]

      with_more : Bool → Option (List Said × S)
      with_more c =
          let said' = said ++ print_batch 22 0 (length b) (overlay 0 b buf) in
          elim c [
            | true ↦ some (said', s')
            | false ↦ more_loop d port fuel hid (length b) (overlay 0 b buf) said' s'
          ]

  -- The loop at the second reply, whichever test ends it.
  pub loop_ends :
      (fuel hid n : ℕ) (b buf : List ℕ) (said : List Said) (s : S)
      → 1 ≤ n
      → length b ≡ n * 23
      → length b ≤ length buf
      → ((i : ℕ) → i < n → byte_at b (i * 23 + 22) ≡ 0)
      → more_loop d port (suc fuel) hid (length b) (overlay 0 b buf) said s ≡ some (said, s)
  loop_ends fuel hid zero b buf said s lo whole room clear = absurd (omega arith)
  loop_ends fuel hid (suc zero) b buf said s lo whole room clear =
      loop_short fuel hid (length b) (overlay 0 b buf) said s (ground (arith, whole))
  loop_ends fuel hid (suc (suc n)) b buf said s lo whole room clear =
      loop_flagged fuel hid (length b) (overlay 0 b buf) said s (ground (arith, whole)) (
        later_flag (suc (suc n)) b buf (omega arith) whole room
        ∙ ap (λ k. byte_at b (k * 23 + 22)) (omega arith)
        ∙ clear n (omega arith))
