-- ===== src/Redirector/Find/Kept.antt =====
-- What FINDFIRST and FINDNEXT keep.
use serial_dfs.Base.{
  ℕ, suc, zero, ◌-◌, ◌≤◌, ◌==◌, ltb, ◌||◌, ◌&&◌, ◌+◌, not, Bool-cases, inl, inr, length-append,
  ◌++◌, u8, bit_or, byte_at, List, [], ◌∷◌, drop, length, take, length-take, length-drop, ◌/◌, ◌*◌,
  if◌then◌else◌, Bool, true, false, Option, some, none, ◌≡◌, arith,
}
use serial_dfs.Command.{cmd_list_dir, cmd_list_dir_next}
use serial_dfs.Redirector.State.{Call, Tsr, Sdb, Reply, DirBatch, ask, refused, fail, update, es_di}
use serial_dfs.Redirector.Names.{get_dir_path}
use serial_dfs.Redirector.State.Kept.{
  Follows, Kept, Kept-front, Kept-batch, Kept-same, Kept-then, Kept-ask, KeptSome, KeptSome-if,
}
use serial_dfs.Redirector.Find.{
  scan_batch, load_batch, find_loop, find_result, path_bytes, al_findfirst, al_findnext,
}

-- A batch is cut to the 22 entries that the cache has room for, so the copy stays within it.
length-load_batch :
    (len : ℕ) (reply : List ℕ) (b : DirBatch)
    → length b.entries ≡ 506
    → length (load_batch len reply b).entries ≡ 506
unfolding load_batch
length-load_batch len reply b size = omega (
  arith,
  length-append came (drop (length came) b.entries),
  length-drop (length came) b.entries,
  length-take (entry_count * 23) reply,
  few,
  size,
)
  where
    entry_count : ℕ
    entry_count = if ltb 22 (len / 23) then 22 else len / 23

    came : List ℕ
    came = take (entry_count * 23) reply

    few : entry_count ≤ 22
    few = ground arith

count-load_batch : (len : ℕ) (reply : List ℕ) (b : DirBatch) → (load_batch len reply b).count ≤ 22
unfolding load_batch
count-load_batch len reply b = ground arith

length-path_bytes : (i : ℕ) (path : List ℕ) → length (path_bytes i path) ≤ 63 - i
unfolding path_bytes
length-path_bytes i [] = omega arith
length-path_bytes i (c ∷ path) = elim (Bool-cases (not (c == 0) && ltb i 63)) [
  | inl e ↦ rw e (omega (arith, length-path_bytes (i + 1) path, below e))
  | inr e ↦ rw e (omega arith)
]
  where
    below : (not (c == 0) && ltb i 63) ≡ true → suc i ≤ 63
    below e = ground (arith, e)

module _ {S : Type 0} (call : Call S) (R : S → S → Type 0) (follows : Follows call R) where
  Kept-load :
      (len : ℕ) (reply : List ℕ) (t x : Tsr S)
      → Kept R t x
      → Kept R t (record x { batch = load_batch len reply x.batch })
  Kept-load len reply t x =
      Kept-batch x (load_batch len reply x.batch) (length-load_batch len reply x.batch)
        (λ h. count-load_batch len reply x.batch)

  KeptFound : Tsr S → Option (Option (List ℕ) × Tsr S) → Type 0
  KeptFound t none = Unit
  KeptFound t (some (e, t')) = Kept R t t'

  KeptFound-if :
      (b : Bool) (t : Tsr S) (x y : Option (Option (List ℕ) × Tsr S))
      → KeptFound t x
      → KeptFound t y
      → KeptFound t (if b then x else y)
  KeptFound-if true t x y h k = h
  KeptFound-if false t x y h k = k

  KeptFound-then :
      (t t' : Tsr S) (x : Option (Option (List ℕ) × Tsr S))
      → Kept R t t'
      → KeptFound t' x
      → KeptFound t x
  unfolding KeptFound
  KeptFound-then t t' none h k = tt
  KeptFound-then t t' (some (e, u)) h k = Kept-then call R follows t t' u h k

  Kept-find_loop :
      (fuel rstatus replylen : ℕ) (tmpl : List ℕ) (srch_attr : ℕ) (t : Tsr S)
      → KeptFound t (find_loop call fuel rstatus replylen tmpl srch_attr t)
  unfolding find_loop scan_batch KeptFound
  Kept-find_loop zero rstatus replylen tmpl srch_attr t = tt
  Kept-find_loop (suc fuel) rstatus replylen tmpl srch_attr t =
      by_scan (Kept-find_loop fuel r.rstatus r.replylen tmpl srch_attr t3)
        (scan_batch tmpl srch_attr t.batch).0
    where
      t1 : Tsr S
      t1 = record t { batch = (scan_batch tmpl srch_attr t.batch).1 }

      k1 : Kept R t t1
      k1 =
          Kept-batch t (scan_batch tmpl srch_attr t.batch).1 (λ h. h) (λ h. h)
            (Kept-same call R follows t)

      r : Reply
      r = (ask call rstatus replylen cmd_list_dir_next (t1.batch.hid ∷ []) t1).0

      t2 : Tsr S
      t2 = (ask call rstatus replylen cmd_list_dir_next (t1.batch.hid ∷ []) t1).1

      k2 : Kept R t t2
      k2 = Kept-then call R follows t t1 t2 k1 (
          Kept-ask call R follows rstatus replylen cmd_list_dir_next (t1.batch.hid ∷ []) t1
            (omega arith))

      t3 : Tsr S
      t3 = record t2 { batch = load_batch r.replylen t2.rep t2.batch }

      next : Option (Option (List ℕ) × Tsr S)
      next = find_loop call fuel r.rstatus r.replylen tmpl srch_attr t3

      empty : Option (Option (List ℕ) × Tsr S)
      empty = some (none, record t2 { batch = record (t2.batch) { more = 0 } })

      answered : Option (Option (List ℕ) × Tsr S)
      answered = if refused r then some (none, t2) else if r.replylen == 0 then empty else next

      searched : Option (Option (List ℕ) × Tsr S)
      searched = if t1.batch.more == 0 then some (none, t1) else answered

      by_scan :
          KeptFound t3 next
          → (found : Option (List ℕ))
          → KeptFound t (elim found [ some e ↦ some (some e, t1) | none ↦ searched ])
      by_scan ih (some e) = k1
      by_scan ih none = KeptFound-if (t1.batch.more == 0) t (some (none, t1)) answered k1 (
          KeptFound-if (refused r) t (some (none, t2)) (if r.replylen == 0 then empty else next) k2
            (KeptFound-if (r.replylen == 0) t empty next
              (Kept-batch t2 (record (t2.batch) { more = 0 }) (λ h. h) (λ h. h) k2)
              (KeptFound-then t t3 next (Kept-load r.replylen t2.rep t t2 k2) ih)))

  results : ℕ → ℕ → Option (Option (List ℕ) × Tsr S) → Option (Tsr S)
  results code dta none = none
  results code dta (some ended) = some (find_result call code dta ended)

  Kept-results :
      (code dta : ℕ) (t : Tsr S) (x : Option (Option (List ℕ) × Tsr S))
      → KeptFound t x
      → KeptSome R t (results code dta x)
  unfolding KeptFound results find_result
  Kept-results code dta t none k = tt
  Kept-results code dta t (some (none, t')) k = Kept-front t' k
  Kept-results code dta t (some (some e, t')) k = Kept-front t' k

  pub Kept-al_findfirst :
      (fuel undef : ℕ) (t : Tsr S) → KeptSome R t (al_findfirst call fuel undef t)
  unfolding al_findfirst results
  Kept-al_findfirst fuel undef t =
      let path = path_bytes 0 (get_dir_path t.sda.fn1) in
      let (r, t1) = ask call undef 0 cmd_list_dir (0 ∷ path ++ 0 ∷ []) t in
      let k = Kept-ask call R follows undef 0 cmd_list_dir (0 ∷ path ++ 0 ∷ []) t (
        omega (
          arith,
          length-append (0 ∷ path) (0 ∷ []),
          length-path_bytes 0 (get_dir_path t.sda.fn1),
        )) in
      let dta = t1.sda.curr_dta in
      let b0 : DirBatch = record (t1.batch) { hid = byte_at t1.rep 0 } in
      let b = load_batch (r.replylen - 1) (drop 1 t1.rep) b0 in
      let d : Sdb = record (t1.sdb dta) {
        drv_lett = bit_or t1.reqdrv 0x80;
        srch_tmpl = t1.sda.fcb_fn1;
        srch_attr = t1.sda.srch_attr;
      } in
      let t1' : Tsr S = record t1 { batch = b } in
      let t2 : Tsr S = record t1' { sdb = update t1.sdb dta d } in
      let found = find_loop call fuel r.rstatus r.replylen t2.sda.fcb_fn1 t2.sda.srch_attr t2 in
      let k' =
        Kept-batch t1 b (length-load_batch (r.replylen - 1) (drop 1 t1.rep) b0)
          (λ h. count-load_batch (r.replylen - 1) (drop 1 t1.rep) b0) k in
      KeptSome-if call R follows (refused r || ltb r.replylen 1) t (some (fail 2 t1))
        (results 2 dta found) (Kept-front t1 k)
        (Kept-results 2 dta t found (
          KeptFound-then t t2 found (Kept-front t1' k')
            (Kept-find_loop fuel r.rstatus r.replylen t2.sda.fcb_fn1 t2.sda.srch_attr t2)))

  pub Kept-al_findnext : (fuel undef : ℕ) (t : Tsr S) → KeptSome R t (al_findnext call fuel undef t)
  unfolding al_findnext results
  Kept-al_findnext fuel undef t =
      let dta = es_di t.regs in
      let d = t.sdb dta in
      let t1 : Tsr S = record t { batch = record (t.batch) { idx = u8 d.dir_entry } } in
      let found = find_loop call fuel undef 0 d.srch_tmpl d.srch_attr t1 in
      Kept-results 18 dta t found (
        KeptFound-then t t1 found
          (Kept-batch t (record (t.batch) { idx = u8 d.dir_entry }) (λ h. h) (λ h. h)
            (Kept-same call R follows t))
          (Kept-find_loop fuel undef 0 d.srch_tmpl d.srch_attr t1))
