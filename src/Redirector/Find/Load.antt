-- ===== src/Redirector/Find/Load.antt =====
-- A reply of directory entries, put into the cache.
use serial_dfs.Base.{
  ℕ, zero, suc, ◌+◌, ◌-◌, ◌*◌, ◌/◌, ◌<◌, ◌≤◌, ltb, if◌then◌else◌, true, List, ◌∷◌, ◌++◌, byte_at,
  u8, length, take, drop, take-append_le, drop-append_le, get_or-append_lt, length-drop,
  length-append, ◌≡◌, refl, ap, ap₂, ◌∙◌, arith,
}
use serial_dfs.Redirector.State.{DirBatch, copybytes}
use serial_dfs.Redirector.Find.{dir_entry_size, dir_batch_max, load_batch}
use serial_dfs.Redirector.Find.Scan.{rows, unread}

rows-append : (n : ℕ) (b junk : List ℕ) → n * 23 ≤ length b → rows n (b ++ junk) ≡ rows n b
unfolding rows
rows-append zero b junk h = refl
rows-append (suc n) b junk h =
    ap₂ (λ x xs. x ∷ xs) (take-append_le 23 b junk (omega arith))
      (ap (rows n) (drop-append_le 23 b junk (omega arith))
        ∙ rows-append n (drop 23 b) junk (omega (arith, length-drop 23 b)))

module _ (n len : ℕ) (b reply : List ℕ) (b0 : DirBatch) (whole : length b ≡ n * 23)
    (few : n ≤ dir_batch_max) (some_rows : 0 < n) (count_is : len / dir_entry_size ≡ n)
    (bytes_are : take (n * 23) reply ≡ b) (roomy : 506 ≤ length b0.entries) where
  -- The cache that holds exactly `b` at its start.
  abbrev pub loaded : DirBatch
  loaded = record b0 {
    entries = b ++ drop (length b) b0.entries;
    count = n;
    idx = 0;
    more = byte_at b ((n - 1) * 23 + 21);
  }

  pub load_batch_lem : load_batch len reply b0 ≡ loaded
  unfolding load_batch
  load_batch_lem =
      ap with_count capped
      ∙ ap with_entries (ap (copybytes b0.entries) bytes_are)
      ∙ ap₂ with_fields (omega arith) more_is
    where
      capped :
          (if ltb dir_batch_max (len / dir_entry_size) then dir_batch_max else len / dir_entry_size)
          ≡ n
      capped = ground (arith, count_is)

      with_fields : ℕ → ℕ → DirBatch
      with_fields c m = record b0 {
        entries = b ++ drop (length b) b0.entries;
        count = c;
        idx = 0;
        more = m;
      }

      with_entries : List ℕ → DirBatch
      with_entries es = record b0 {
        entries = es;
        count = u8 n;
        idx = 0;
        more = if ltb 0 n then byte_at es ((n - 1) * dir_entry_size + 21) else 0;
      }

      with_count : ℕ → DirBatch
      with_count m =
          let entries = copybytes b0.entries (take (m * dir_entry_size) reply) in
          record b0 {
            entries = entries;
            count = u8 m;
            idx = 0;
            more = if ltb 0 m then byte_at entries ((m - 1) * dir_entry_size + 21) else 0;
          }

      not_empty : ltb 0 n ≡ true
      not_empty = ground arith

      more_is :
          (if ltb 0 n
            then byte_at (b ++ drop (length b) b0.entries) ((n - 1) * dir_entry_size + 21)
            else 0)
          ≡ byte_at b ((n - 1) * 23 + 21)
      more_is =
          ap
            (λ c.
              if c
              then byte_at (b ++ drop (length b) b0.entries) ((n - 1) * dir_entry_size + 21)
              else 0)
            not_empty
          ∙ get_or-append_lt b (drop (length b) b0.entries) ((n - 1) * 23 + 21) 0
              (omega (arith, whole))

  pub length-loaded : length loaded.entries ≡ length b0.entries
  length-loaded = omega (
    arith,
    length-append b (drop (length b) b0.entries),
    length-drop (length b) b0.entries,
    whole,
  )

  pub unread-loaded : unread loaded ≡ rows n b
  unfolding unread
  unread-loaded =
      ap (λ m. rows m (b ++ drop (length b) b0.entries)) minus_zero
      ∙ rows-append n b (drop (length b) b0.entries) (omega (arith, whole))
    where
      minus_zero : n - 0 ≡ n
      minus_zero = omega arith
