-- ===== src/Redirector/Find/Search.antt =====
-- AL_FINDFIRST and AL_FINDNEXT as one search of a directory.
use serial_dfs.Base.{
  ℕ, ◌-◌, ◌*◌, ◌/◌, ◌<◌, ◌≤◌, ◌||◌, if◌then◌else◌, Bool, true, false, Option, none, some, List, [],
  ◌∷◌, ◌++◌, byte_at, length, take, drop, take-append, length-append, length-drop, overlay_fits,
  ◌≡◌, refl, ap, ap₂, sym, ◌∙◌, arith, u8, ltb, bit_or,
}
use mathlib.Core.Path.{subst}
use serial_dfs.Command.{cmd_list_dir}
use serial_dfs.Rpc.{ok}
use serial_dfs.Redirector.Names.{get_dir_path}
use serial_dfs.Redirector.State.{
  Call, Tsr, Reply, DirBatch, Regs, Sdb, refused, fail, update, es_di,
}
use serial_dfs.Redirector.State.Ask.{ask_ok}
use serial_dfs.Redirector.State.Update.{update_at}
use serial_dfs.Redirector.Find.{
  fill_found_file, load_batch, find_loop, find_result, path_bytes, al_findfirst, al_findnext,
  dir_entry_size,
}
use serial_dfs.Redirector.Find.Scan.{rows, matching, Scanned, fill_found_file-take}
use serial_dfs.Redirector.Find.Load.{loaded, load_batch_lem, unread-loaded, length-loaded}
use serial_dfs.Redirector.Find.Listing.{
  ServesListing, Cached, Ended, IsBatch, IsListing, coming, listed, find_loop_ends,
}

module _ {S : Type 0} (call : Call S) (port hid : ℕ) (Ready : List (List ℕ) → S → Type 0)
    (server : ServesListing call port hid Ready) (tmpl : List ℕ) (srch_attr : ℕ)
    (fuel dta : ℕ) where
  -- The search whose record stands at `dta` has still to find the entries `es`.
  pub record Searching (es : List (List ℕ)) (t : Tsr S) : Type 0 where
    pub bs : List (List ℕ)
    pub bounded : length bs < fuel
    pub cached : Cached call port hid Ready bs t
    pub to_come : matching tmpl srch_attr (coming call port hid Ready bs t) ≡ es
    pub template : (t.sdb dta).srch_tmpl ≡ tmpl
    pub attributes : (t.sdb dta).srch_attr ≡ srch_attr
    pub position : (t.sdb dta).dir_entry ≡ t.batch.idx

  -- What a call that has to find the first of `es` leaves: an error if there is none, and else the
  -- entry in both places, and a search for the others.
  pub Answer : ℕ → List (List ℕ) → Tsr S → Tsr S → Type 0
  Answer code [] t t' = t'.regs ≡ record (t.regs) { ax = code; carry = true }
  Answer code (e ∷ es) t t' =
      (t'.regs ≡ t.regs)
      × (t'.sda.found_file ≡ fill_found_file e)
      × ((t'.sdb dta).found ≡ fill_found_file e)
      × Searching es t'

  Answer-regs :
      (code : ℕ) (es : List (List ℕ)) (t u t' : Tsr S)
      → t.regs ≡ u.regs
      → Answer code es t t'
      → Answer code es u t'
  unfolding Answer
  Answer-regs code [] t u t' same h = h ∙ ap failed same
    where
      failed : Regs → Regs
      failed r = record r { ax = code; carry = true }
  Answer-regs code (e ∷ es) t u t' same h = (h.0 ∙ same, h.1, h.2, h.3)

  find_result-Answer :
      (code : ℕ) (before : List (List ℕ)) (bound : ℕ) (t : Tsr S) (o : Option (List ℕ)) (t' : Tsr S)
      → bound < fuel
      → (t.sdb dta).srch_tmpl ≡ tmpl
      → (t.sdb dta).srch_attr ≡ srch_attr
      → Ended call port hid Ready tmpl srch_attr before bound t o t'
      → Answer code (matching tmpl srch_attr before) t (find_result call code dta (o, t'))
  unfolding find_result Answer Scanned coming
  find_result-Answer code before bound t none t' small tm at ended =
      subst (λ es. Answer code es t (find_result call code dta (none, t'))) (sym ended.scanned.0)
        (ap failed ended.same_regs)
    where
      failed : Regs → Regs
      failed r = record r { ax = code; carry = true }
  find_result-Answer code before bound t (some e) t' small tm at ended =
      subst (λ es. Answer code es t (find_result call code dta (some e, t'))) (sym ended.scanned)
        (
          ended.same_regs,
          sym (fill_found_file-take e),
          ap (λ d. d.found) (update_at t'.sdb dta d') ∙ sym (fill_found_file-take e),
          record {
            bs = ended.bs;
            bounded = omega (arith, ended.bounded);
            cached = keep ended.cached;
            to_come = refl;
            template =
                ap (λ d. d.srch_tmpl) (update_at t'.sdb dta d')
                ∙ ap (λ m. (m dta).srch_tmpl) ended.same_sdb
                ∙ tm;
            attributes =
                ap (λ d. d.srch_attr) (update_at t'.sdb dta d')
                ∙ ap (λ m. (m dta).srch_attr) ended.same_sdb
                ∙ at;
            position = ap (λ d. d.dir_entry) (update_at t'.sdb dta d');
          },
        )
    where
      d' : Sdb
      d' = record (t'.sdb dta) {
        par_clstr = t'.batch.hid;
        dir_entry = t'.batch.idx;
        found = fill_found_file e;
      }

      -- The search does not depend on where its results go.
      keep :
          Cached call port hid Ready ended.bs t'
          → Cached call port hid Ready ended.bs (find_result call code dta (some e, t'))
      keep c = record {
        on_port = c.on_port;
        of_handle = c.of_handle;
        in_batch = c.in_batch;
        small_count = c.small_count;
        more_flag = c.more_flag;
        roomy = c.roomy;
        rep_room = c.rep_room;
        is_ready = c.is_ready;
        is_listing = c.is_listing;
      }

  -- Let a search be under way whose record stands at ES:DI and which has still to find the entries
  -- `es`. Then AL_FINDNEXT ends: with error 18 if `es` is empty, and else with the first of them in
  -- the SDA and in the search record, registers unchanged, and a search that has still to find the
  -- others, in their order.
  pub al_findnext-Answer :
      (undef : ℕ) (es : List (List ℕ)) (t : Tsr S)
      → es_di t.regs ≡ dta
      → Searching es t
      → (t' : Tsr S) × (al_findnext call fuel undef t ≡ some t') × Answer 18 es t t'
  unfolding al_findnext
  al_findnext-Answer undef es t at search =
      let c = search.cached in
      let (o, t', runs, ended) =
        find_loop_ends call port hid Ready server tmpl srch_attr fuel undef 0 search.bs t c
          search.bounded in
      (
        find_result call 18 dta (o, t'),
        ap with_dta at
            ∙ ap₂
                (λ tm a.
                  finish dta
                    (find_loop call fuel undef 0 tm a (restored (u8 (t.sdb dta).dir_entry))))
                search.template search.attributes
            ∙ ap (λ i. finish dta (find_loop call fuel undef 0 tmpl srch_attr (restored i)))
                same_place
            ∙ ap (finish dta) runs,
        subst (λ m. Answer 18 m t (find_result call 18 dta (o, t'))) search.to_come
            (find_result-Answer 18 (coming call port hid Ready search.bs t) (length search.bs) t o
              t' search.bounded search.template search.attributes ended),
      )
    where
      restored : ℕ → Tsr S
      restored i = record t { batch = record (t.batch) { idx = i } }

      finish : ℕ → Option (Option (List ℕ) × Tsr S) → Option (Tsr S)
      finish d x = elim x [ none ↦ none | some ended ↦ some (find_result call 18 d ended) ]

      with_dta : ℕ → Option (Tsr S)
      with_dta d = finish d (
          find_loop call fuel undef 0 (t.sdb d).srch_tmpl (t.sdb d).srch_attr
            (restored (u8 (t.sdb d).dir_entry)))

      same_place : u8 (t.sdb dta).dir_entry ≡ t.batch.idx
      same_place = omega (arith, search.position, search.cached.in_batch, search.cached.small_count)

module _ {S : Type 0} (call : Call S) (port hid : ℕ) (Ready : List (List ℕ) → S → Type 0)
    (server : ServesListing call port hid Ready) (b : List ℕ) (bs : List (List ℕ))
    (w : IsBatch b bs) (listing : IsListing bs) (t : Tsr S) (on_port : t.comport ≡ port)
    (rep_room : 512 ≤ length t.rep) (roomy : 506 ≤ length t.batch.entries) where
  -- The request of AL_FINDFIRST.
  abbrev pub open_request : List ℕ
  open_request = 0 ∷ path_bytes 0 (get_dir_path t.sda.fn1) ++ 0 ∷ []

  abbrev junk : List ℕ
  junk = drop (length (hid ∷ b)) t.rep

  abbrev b0 : DirBatch
  b0 = record (t.batch) { hid = hid }

  abbrev begun : S → DirBatch → Tsr S
  begun s batch =
      let d = record (t.sdb t.sda.curr_dta) {
        drv_lett = bit_or t.reqdrv 0x80;
        srch_tmpl = t.sda.fcb_fn1;
        srch_attr = t.sda.srch_attr;
      } in
      record t {
        rep = hid ∷ (b ++ junk);
        rpc = s;
        batch = batch;
        sdb = update t.sdb t.sda.curr_dta d;
      }

  count_is : length b / dir_entry_size ≡ w.entry_count
  count_is = omega (arith, w.whole)

  came_whole : take (w.entry_count * 23) (b ++ junk) ≡ b
  came_whole = ap (λ n. take n (b ++ junk)) (sym w.whole) ∙ take-append b junk

  abbrev in_cache : DirBatch
  in_cache =
      loaded w.entry_count (length b) b (b ++ junk) b0 w.whole w.fits w.not_none count_is came_whole
        roomy

  batch_is : load_batch (length b) (b ++ junk) b0 ≡ in_cache
  batch_is =
      load_batch_lem w.entry_count (length b) b (b ++ junk) b0 w.whole w.fits w.not_none count_is
        came_whole roomy

  coming_is : (s : S) → coming call port hid Ready bs (begun s in_cache) ≡ listed (b ∷ bs)
  unfolding coming listed
  coming_is s =
      ap (λ r. r ++ listed bs)
        (unread-loaded w.entry_count (length b) b (b ++ junk) b0 w.whole w.fits w.not_none count_is
            came_whole roomy
          ∙ ap (λ n. rows n b) (sym count_is))

  fits_rep : length (hid ∷ b) ≤ length t.rep
  fits_rep = omega (arith, w.whole, w.fits, rep_room)

  Cached-begun : (s : S) → Ready bs s → Cached call port hid Ready bs (begun s in_cache)
  Cached-begun s ready = record {
    on_port = on_port;
    of_handle = refl;
    in_batch = omega arith;
    small_count = w.fits;
    more_flag = w.more_flag;
    roomy = omega (
      arith,
      roomy,
      length-loaded w.entry_count (length b) b (b ++ junk) b0 w.whole w.fits w.not_none count_is
          came_whole roomy,
    );
    rep_room =
        omega
          (arith, rep_room, length-append b junk, length-drop (length (hid ∷ b)) t.rep, fits_rep);
    is_ready = ready;
    is_listing = listing;
  }

  -- Let the server answer the request to list the directory of the path with the handle `hid` and a
  -- batch of at least one entry, and let it have the batches `bs` still to send. Then AL_FINDFIRST
  -- ends: with error 2 if no entry of the listing matches the FCB template and the attributes of the
  -- SDA, and else with the first that does, and a search, at the DTA, that has still to find the
  -- others, in their order.
  pub al_findfirst-Answer :
      (fuel undef : ℕ)
      → (call port cmd_list_dir open_request t.rpc).0 ≡ ok 0 (hid ∷ b)
      → Ready bs (call port cmd_list_dir open_request t.rpc).1
      → length bs < fuel
      → (t' : Tsr S) × (al_findfirst call fuel undef t ≡ some t')
        × Answer call port hid Ready server t.sda.fcb_fn1 t.sda.srch_attr fuel t.sda.curr_dta 2
            (matching t.sda.fcb_fn1 t.sda.srch_attr (listed (b ∷ bs)))
            t
            t'
  unfolding al_findfirst
  al_findfirst-Answer fuel undef opened ready enough =
      let t2 : Tsr S = begun s in_cache in
      let (o, t', runs, ended) =
        find_loop_ends call port hid Ready server tmpl attrs fuel 0 (length (hid ∷ b)) bs t2
          (Cached-begun s here) enough in
      (
        find_result call 2 dta (o, t'),
        ap after (
              ask_ok call undef 0 cmd_list_dir open_request t
                (ap (λ p. (call p cmd_list_dir open_request t.rpc).0) on_port ∙ opened))
            ∙ ap₂ with_rep not_short (overlay_fits (hid ∷ b) t.rep fits_rep)
            ∙ ap₂ (λ n d. with_batch (load_batch n (b ++ junk) d)) minus_one refl
            ∙ ap with_batch batch_is
            ∙ ap (finish dta) runs,
        subst
            (λ m.
              Answer call port hid Ready server tmpl attrs fuel dta 2 (matching tmpl attrs m) t
                (find_result call 2 dta (o, t')))
            (coming_is s)
            (Answer-regs call port hid Ready server tmpl attrs fuel dta 2
              (matching tmpl attrs (coming call port hid Ready bs t2)) t2 t
              (find_result call 2 dta (o, t')) refl
              (find_result-Answer call port hid Ready server tmpl attrs fuel dta 2
                (coming call port hid Ready bs t2) (length bs) t2 o t' enough
                (ap (λ d. d.srch_tmpl) recorded) (ap (λ d. d.srch_attr) recorded) ended)),
      )
    where
      tmpl : List ℕ
      tmpl = t.sda.fcb_fn1

      attrs : ℕ
      attrs = t.sda.srch_attr

      dta : ℕ
      dta = t.sda.curr_dta

      recorded :
          (begun (call t.comport cmd_list_dir open_request t.rpc).1 in_cache).sdb dta
          ≡ record (t.sdb dta) {
            drv_lett = bit_or t.reqdrv 0x80;
            srch_tmpl = tmpl;
            srch_attr = attrs;
          }
      recorded = update_at t.sdb dta (record (t.sdb dta) {
        drv_lett = bit_or t.reqdrv 0x80;
        srch_tmpl = tmpl;
        srch_attr = attrs;
      })

      s : S
      s = (call t.comport cmd_list_dir open_request t.rpc).1

      here : Ready bs s
      here = subst (λ p. Ready bs (call p cmd_list_dir open_request t.rpc).1) (sym on_port) ready

      minus_one : length (hid ∷ b) - 1 ≡ length b
      minus_one = omega arith

      not_short : ltb (length (hid ∷ b)) 1 ≡ false
      not_short = ground arith

      finish : ℕ → Option (Option (List ℕ) × Tsr S) → Option (Tsr S)
      finish d x = elim x [ none ↦ none | some ended ↦ some (find_result call 2 d ended) ]

      with_batch : DirBatch → Option (Tsr S)
      with_batch d =
          finish dta
            (find_loop call fuel 0 (length (hid ∷ b)) t.sda.fcb_fn1 t.sda.srch_attr (begun s d))

      started : Reply → Tsr S → Tsr S
      started r t1 =
          let dta = t1.sda.curr_dta in
          let d = record (t1.sdb dta) {
            drv_lett = bit_or t1.reqdrv 0x80;
            srch_tmpl = t1.sda.fcb_fn1;
            srch_attr = t1.sda.srch_attr;
          } in
          record t1 {
            batch =
                load_batch (r.replylen - 1) (drop 1 t1.rep)
                  (record (t1.batch) { hid = byte_at t1.rep 0 });
            sdb = update t1.sdb dta d;
          }

      after : Reply × Tsr S → Option (Tsr S)
      after (r, t1) =
          if refused r || ltb r.replylen 1
          then some (fail 2 t1)
          else finish t1.sda.curr_dta (
              find_loop call fuel r.rstatus r.replylen t1.sda.fcb_fn1 t1.sda.srch_attr
                (started r t1))

      with_rep : Bool → List ℕ → Option (Tsr S)
      with_rep short rep =
          let t1 : Tsr S = record t { rep = rep; rpc = s } in
          let r : Reply = record { rpc_ok = true; rstatus = 0; replylen = length (hid ∷ b) } in
          if short
          then some (fail 2 t1)
          else finish dta (
              find_loop call fuel 0 (length (hid ∷ b)) t.sda.fcb_fn1 t.sda.srch_attr (started r t1))
