-- ===== src/Tools/Serdir/Listing.antt =====
-- What SERDIR lists.
use serial_dfs.Base.{
  ℕ, suc, ◌+◌, ◌-◌, ◌*◌, ◌<◌, ◌≤◌, ◌==◌, ltb, leb, true, false, Option, some, none, List, [], ◌∷◌,
  ◌++◌, map, byte_at, length, take, drop, replicate, overlay, overlay_fits, length-overlay,
  length-append, ◌≡◌, ◌≢◌, refl, ap, ap₂, ◌∙◌, arith,
}
use serial_dfs.Command.{cmd_list_dir, cmd_list_dir_next}
use serial_dfs.Rpc.{ok}
use serial_dfs.Tools.{Driver, Run, line, parse_line, replied}
use serial_dfs.Tools.Answers.{rpc-ok}
use serial_dfs.Tools.Serdir.{
  Entry, Said, entry, total, print_batch, last_more, count_entries, more_loop, list_dir,
  list_replies, main,
}
use serial_dfs.Tools.Serdir.Rounds.{
  entries, print_batch-entries, count-entries, map-append_entries, length-entries, first_flag,
  loop_more, loop_ends,
}

module _ {S : Type 0} (d : Driver S) (port hid n1 n2 : ℕ) (b1 b2 : List ℕ) (s1 s2 : S)
    (second : d.call port cmd_list_dir_next (hid ∷ []) s1 ≡ (ok 0 b2, s2)) (lo1 : 1 ≤ n1)
    (few1 : n1 ≤ 22) (whole1 : length b1 ≡ n1 * 23) (flagged : byte_at b1 ((n1 - 1) * 23 + 21) ≢ 0)
    (lo2 : 1 ≤ n2) (few2 : n2 ≤ 22) (whole2 : length b2 ≡ n2 * 23)
    (clear : (i : ℕ) → i < n2 → byte_at b2 (i * 23 + 22) ≡ 0) where
  two_runs :
      (fuel : ℕ) (path buf : List ℕ)
      → length buf ≡ 512
      → list_dir d port
          (suc (suc fuel))
          path
          (replied 0 (length (hid ∷ b1)) (overlay 0 (hid ∷ b1) buf), s1)
        ≡ some (record {
          exit = 0;
          said = map entry (entries n1 b1 ++ entries n2 b2) ++ total (n1 + n2) ∷ [];
          state = s2;
        })
  unfolding list_dir list_replies
  two_runs fuel path [] room = absurd (omega arith)
  two_runs fuel path (y ∷ ys) room =
      rw (list_dir, not_empty)
        (ap ended (
            loop_more d port (suc fuel) hid (suc (length b1)) buf' printed s1 long flag second
              (ground (arith, whole2, lo2))
            ∙ ap (λ said. more_loop d port (suc fuel) hid (length b2) (overlay 0 b2 buf') said s2)
                (ap₂ (λ x z. x ++ z) printed_is again_is
                  ∙ map-append_entries (entries n1 b1) (entries n2 b2))
            ∙ loop_ends d port fuel hid n2 b2 buf' (map entry both) s2 lo2 whole2 room' clear)
          ∙ ap (λ k. some (with_total k)) (count-entries both ∙ count_is))
    where
      buf' : List ℕ
      buf' = hid ∷ overlay 0 b1 ys

      both : List Entry
      both = entries n1 b1 ++ entries n2 b2

      with_total : ℕ → Run Said S
      with_total k = record { exit = 0; said = map entry both ++ total k ∷ []; state = s2 }

      ended : Option (List Said × S) → Option (Run Said S)
      ended none = none
      ended (some (said, s)) =
          some (record { exit = 0; said = said ++ total (count_entries said) ∷ []; state = s })

      printed : List Said
      printed = print_batch 22 1 (suc (length b1)) buf'

      room' : length b2 ≤ length buf'
      room' = omega (arith, room, whole2, length-overlay 0 b1 ys)

      not_empty : ltb (suc (length b1)) 1 ≡ false
      not_empty = ground arith

      long : leb 24 (suc (length b1)) ≡ true
      long = ground (arith, whole1, lo1)

      flag : (last_more (suc (length b1)) buf' == 0) ≡ false
      flag =
          ap (λ k. k == 0) (first_flag hid n1 b1 (y ∷ ys) lo1 whole1 (omega (arith, room, whole1)))
          ∙ ground (arith, flagged)

      printed_is : printed ≡ map entry (entries n1 b1)
      printed_is =
          ap (λ m. print_batch 22 1 m buf') (omega (arith, whole1))
          ∙ print_batch-entries 22 n1 1 buf' b1 (drop (length b1) ys) few1 whole1
              (overlay_fits b1 ys (omega (arith, room, whole1)))

      again_is : print_batch 22 0 (length b2) (overlay 0 b2 buf') ≡ map entry (entries n2 b2)
      again_is =
          ap (λ m. print_batch 22 0 m (overlay 0 b2 buf')) (omega (arith, whole2))
          ∙ print_batch-entries 22 n2 0 (overlay 0 b2 buf') b2 (drop (length b2) buf') few2 whole2
              (overlay_fits b2 buf' room')

      count_is : length both ≡ n1 + n2
      count_is = omega (
        arith,
        length-append (entries n1 b1) (entries n2 b2),
        length-entries n1 b1,
        length-entries n2 b2,
      )

-- SERDIR on a directory whose first reply has 1 to 22 entries and flags that more follow, and whose
-- second reply has 1 to 22 entries, with 0 in the byte after each one's flag: whatever the flags
-- of the second reply say, it prints the entries of these two replies and their number, asks for
-- no more, and ends with the exit code 0.
pub main-two_batches :
    {S : Type 0} (d : Driver S) (port baud path : List ℕ) (n div fuel hid n1 n2 : ℕ)
    (b1 b2 : List ℕ) (s s1 s2 : S)
    → parse_line port baud ≡ line n div
    → d.call n cmd_list_dir (b'X' ∷ take 509 path ++ 0 ∷ []) (d.drain n (d.init n div s))
      ≡ (ok 0 (hid ∷ b1), s1)
    → d.call n cmd_list_dir_next (hid ∷ []) s1 ≡ (ok 0 b2, s2)
    → 1 ≤ n1
    → n1 ≤ 22
    → length b1 ≡ n1 * 23
    → byte_at b1 ((n1 - 1) * 23 + 21) ≢ 0
    → 1 ≤ n2
    → n2 ≤ 22
    → length b2 ≡ n2 * 23
    → ((i : ℕ) → i < n2 → byte_at b2 (i * 23 + 22) ≡ 0)
    → main d (suc (suc fuel)) (port ∷ baud ∷ path ∷ []) s
      ≡ some (record {
        exit = 0;
        said = map entry (entries n1 b1 ++ entries n2 b2) ++ total (n1 + n2) ∷ [];
        state = s2;
      })
unfolding main
main-two_batches d port baud path n div fuel hid n1 n2 b1 b2 s s1 s2 here first second lo1 few1
      whole1 flagged lo2 few2 whole2 clear =
    rw (main, here)
      (ap (list_dir d n (suc (suc fuel)) path) (
          rpc-ok d n cmd_list_dir (b'X' ∷ take 509 path ++ 0 ∷ []) (replicate 512 0)
            (d.drain n (d.init n div s)) first)
        ∙ two_runs d n hid n1 n2 b1 b2 s1 s2 second lo1 few1 whole1 flagged lo2 few2 whole2 clear
            fuel path (replicate 512 0) refl)
