-- ===== src/Redirector/Find.antt =====
-- dos/src/serdfs.c: `scan_batch`, `fill_found_file`, and AL_FINDFIRST and AL_FINDNEXT of `process2f`.
pub mod Kept
pub mod Scan
pub mod Load
pub mod Listing
pub mod Search
use serial_dfs.Base.{
  ℕ, zero, suc, ◌+◌, ◌-◌, ◌*◌, ◌/◌, ◌%◌, ◌^◌, ◌==◌, ltb, not, ◌&&◌, ◌||◌, if◌then◌else◌, Bool, true,
  false, Option, none, some, List, [], ◌∷◌, ◌++◌, byte_at, word_at, dword_at, u8, u16, bit_or,
  overlay, take, drop,
}
use serial_dfs.Command.{cmd_list_dir, cmd_list_dir_next}
use serial_dfs.Redirector.Names.{attr_match, name83_to_fcb, fcb_match, get_dir_path}
use serial_dfs.Redirector.State.{
  copybytes, Call, Tsr, Reply, Regs, Sda, Sdb, FoundFile, DirBatch, ask, refused, fail, update,
  es_di,
}

abbrev pub dir_entry_size : ℕ
dir_entry_size = 23

abbrev pub dir_batch_max : ℕ
dir_batch_max = 22

-- `dir_batch + idx * DIR_ENTRY_SIZE`: the bytes from that entry on.
abbrev pub entry_at : List ℕ → ℕ → List ℕ
entry_at entries idx = drop (idx * dir_entry_size) entries

-- The test of `scan_batch` on one entry.
pub entry_matches : List ℕ → ℕ → List ℕ → Bool
entry_matches tmpl srch_attr e =
    attr_match (byte_at e 12) srch_attr && fcb_match tmpl (name83_to_fcb e)

-- The loop of `scan_batch` with `left` entries from `idx` to the end: the entry, and `dir_batch_idx`.
pub scan_from : List ℕ → ℕ → List ℕ → ℕ → ℕ → Option (List ℕ) × ℕ
scan_from tmpl srch_attr entries zero idx = (none, idx)
scan_from tmpl srch_attr entries (suc left) idx =
    let rest = scan_from tmpl srch_attr entries left (idx + 1) in
    if entry_matches tmpl srch_attr (entry_at entries idx)
    then (some (entry_at entries idx), idx + 1)
    else rest

pub scan_batch : List ℕ → ℕ → DirBatch → Option (List ℕ) × DirBatch
scan_batch tmpl srch_attr b =
    let (e, idx) = scan_from tmpl srch_attr b.entries (b.count - b.idx) b.idx in
    (e, record b { idx = idx })

-- `fill_found_file`.
pub fill_found_file : List ℕ → FoundFile
fill_found_file e = record {
  fname = name83_to_fcb e;
  fattr = byte_at e 12;
  time_lstupd = word_at e 15;
  date_lstupd = word_at e 13;
  start_clstr = 0;
  fsize = dword_at e 17;
}

-- A reply of `len` bytes of entries, from `reply` on, into the cache.
pub load_batch : ℕ → List ℕ → DirBatch → DirBatch
load_batch len reply b =
    let n =
      if ltb dir_batch_max (len / dir_entry_size) then dir_batch_max else len / dir_entry_size in
    let entries = copybytes b.entries (take (n * dir_entry_size) reply) in
    record b {
      entries = entries;
      count = u8 n;
      idx = 0;
      more = if ltb 0 n then byte_at entries ((n - 1) * dir_entry_size + 21) else 0;
    }

-- `dir_path` up to its NUL, 63 bytes at most, as it goes to the request.
pub path_bytes : ℕ → List ℕ → List ℕ
path_bytes i [] = []
path_bytes i (c ∷ path) =
    let rest = path_bytes (i + 1) path in if not (c == 0) && ltb i 63 then c ∷ rest else []

module _ {S : Type 0} (call : Call S) where
  -- The loop that scans the cache and asks for the next batch, with fuel: `none` says that it ran
  -- out, and `some none` that there is no entry.
  pub find_loop : ℕ → ℕ → ℕ → List ℕ → ℕ → Tsr S → Option (Option (List ℕ) × Tsr S)
  find_loop zero rstatus replylen tmpl srch_attr t = none
  find_loop (suc fuel) rstatus replylen tmpl srch_attr t =
      let (found, b) = scan_batch tmpl srch_attr t.batch in
      let t1 = record t { batch = b } in
      let (r, t2) = ask call rstatus replylen cmd_list_dir_next (b.hid ∷ []) t1 in
      let t3 = record t2 { batch = load_batch r.replylen t2.rep t2.batch } in
      let next = find_loop fuel r.rstatus r.replylen tmpl srch_attr t3 in
      elim found [
        | some e ↦ some (some e, t1)
        | none ↦
            if b.more == 0
            then some (none, t1)
            else if refused r
            then some (none, t2)
            else if r.replylen == 0
            then some (none, record t2 { batch = record (t2.batch) { more = 0 } })
            else next
      ]

  -- What both calls do once the search has ended: `dta` is the address of the search record.
  pub find_result : ℕ → ℕ → Option (List ℕ) × Tsr S → Tsr S
  find_result code dta (none, t) = fail code t
  find_result code dta (some e, t) =
      let found = fill_found_file e in
      let d = t.sdb dta in
      record t {
        sda = record (t.sda) { found_file = found };
        sdb =
            update t.sdb dta
              (record d { par_clstr = t.batch.hid; dir_entry = t.batch.idx; found = found });
      }

  -- `case AL_FINDFIRST`.
  pub al_findfirst : ℕ → ℕ → Tsr S → Option (Tsr S)
  al_findfirst fuel undef t =
      let path = path_bytes 0 (get_dir_path t.sda.fn1) in
      let (r, t1) = ask call undef 0 cmd_list_dir (0 ∷ path ++ 0 ∷ []) t in
      if refused r || ltb r.replylen 1
      then some (fail 2 t1)
      else let dta = t1.sda.curr_dta in
        let b =
          load_batch (r.replylen - 1) (drop 1 t1.rep)
            (record (t1.batch) { hid = byte_at t1.rep 0 }) in
        let d = record (t1.sdb dta) {
          drv_lett = bit_or t1.reqdrv 0x80;
          srch_tmpl = t1.sda.fcb_fn1;
          srch_attr = t1.sda.srch_attr;
        } in
        let t2 = record t1 { batch = b; sdb = update t1.sdb dta d } in
        elim (find_loop fuel r.rstatus r.replylen t2.sda.fcb_fn1 t2.sda.srch_attr t2) [
          | none ↦ none
          | some ended ↦ some (find_result 2 dta ended)
        ]

  -- `case AL_FINDNEXT`: the position in the batch comes from the search record at ES:DI.
  pub al_findnext : ℕ → ℕ → Tsr S → Option (Tsr S)
  al_findnext fuel undef t =
      let dta = es_di t.regs in
      let d = t.sdb dta in
      let t1 = record t { batch = record (t.batch) { idx = u8 d.dir_entry } } in
      elim (find_loop fuel undef 0 d.srch_tmpl d.srch_attr t1) [
        | none ↦ none
        | some ended ↦ some (find_result 18 dta ended)
      ]
