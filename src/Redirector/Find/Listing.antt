-- ===== src/Redirector/Find/Listing.antt =====
-- The loop of AL_FINDFIRST and AL_FINDNEXT against a server that lists a directory in batches.
use serial_dfs.Base.{
  ℕ, zero, suc, ◌+◌, ◌-◌, ◌*◌, ◌/◌, ◌<◌, ◌≤◌, ◌==◌, if◌then◌else◌, Bool, true, false, Option, none,
  some, List, [], ◌∷◌, ◌++◌, byte_at, length, overlay, take, length-overlay, take-overlay,
  append-nil, ◌≡◌, refl, ap, ap₂, sym, ◌∙◌, arith, ◌⊎◌, inl, inr,
}
use mathlib.Core.Path.{subst, subst₂}
use serial_dfs.Command.{cmd_list_dir_next}
use serial_dfs.Rpc.{ok}
use serial_dfs.Redirector.State.{Call, Tsr, Reply, DirBatch, ask, refused}
use serial_dfs.Redirector.State.Ask.{ask_ok}
use serial_dfs.Redirector.Find.{dir_entry_size, dir_batch_max, scan_batch, load_batch, find_loop}
use serial_dfs.Redirector.Find.Scan.{
  rows, unread, Scanned, scan_batch-Scanned, scan_batch_bound, scan_batch_only_idx, Scanned-append,
  Scanned-next,
}
use serial_dfs.Redirector.Find.Load.{loaded, load_batch_lem, unread-loaded, length-loaded}

Option-cases : {A : Type 0} (o : Option A) → ((a : A) × (o ≡ some a)) ⊎ (o ≡ none)
Option-cases none = inr refl
Option-cases (some a) = inl (a, refl)

abbrev pub is_empty : List (List ℕ) → Bool
is_empty [] = true
is_empty (b ∷ bs) = false

-- A batch as the server sends it, before the batches `bs`: 1 to 22 entries, and byte 21 of the last
-- one is 0 iff no batch follows.
pub record IsBatch (b : List ℕ) (bs : List (List ℕ)) : Type 0 where
  pub entry_count : ℕ
  pub not_none : 0 < entry_count
  pub fits : entry_count ≤ dir_batch_max
  pub whole : length b ≡ entry_count * 23
  pub more_flag : (byte_at b ((entry_count - 1) * 23 + 21) == 0) ≡ is_empty bs

pub data IsListing : List (List ℕ) → Type 0 where
  last : IsListing []
  next : (b : List ℕ) (bs : List (List ℕ)) → IsBatch b bs → IsListing bs → IsListing (b ∷ bs)

listing_head : {b : List ℕ} {bs : List (List ℕ)} → IsListing (b ∷ bs) → IsBatch b bs × IsListing bs
listing_head (next b bs w rest) = (w, rest)

-- The entries of some batches.
unfoldable pub listed : List (List ℕ) → List (List ℕ)
listed [] = []
listed (b ∷ bs) = rows (length b / dir_entry_size) b ++ listed bs

module _ {S : Type 0} (call : Call S) (port hid : ℕ) (Ready : List (List ℕ) → S → Type 0) where
  -- The server: in a state of `Ready bs` it has the batches `bs` still to send for the handle `hid`.
  pub record ServesListing : Type 0 where
    pub serves :
        (b : List ℕ) (bs : List (List ℕ)) (s : S)
        → Ready (b ∷ bs) s
        → ((call port cmd_list_dir_next (hid ∷ []) s).0 ≡ ok 0 b)
          × Ready bs (call port cmd_list_dir_next (hid ∷ []) s).1

  -- A search is under way: the cache holds the batch before `bs`.
  pub record Cached (bs : List (List ℕ)) (t : Tsr S) : Type 0 where
    pub on_port : t.comport ≡ port
    pub of_handle : t.batch.hid ≡ hid
    pub in_batch : t.batch.idx ≤ t.batch.count
    pub small_count : t.batch.count ≤ dir_batch_max
    pub more_flag : (t.batch.more == 0) ≡ is_empty bs
    pub roomy : 506 ≤ length t.batch.entries
    pub rep_room : 512 ≤ length t.rep
    pub is_ready : Ready bs t.rpc
    pub is_listing : IsListing bs

  -- The entries to come.
  unfoldable pub coming : List (List ℕ) → Tsr S → List (List ℕ)
  coming bs t = unread t.batch ++ listed bs

  -- What the loop ends with.
  pub record Ended (tmpl : List ℕ) (srch_attr : ℕ) (before : List (List ℕ)) (bound : ℕ) (t : Tsr S)
      (o : Option (List ℕ)) (t' : Tsr S) : Type 0 where
    pub bs : List (List ℕ)
    pub bounded : length bs ≤ bound
    pub scanned : Scanned tmpl srch_attr before o (coming bs t')
    pub cached : Cached bs t'
    pub same_regs : t'.regs ≡ t.regs
    pub same_sdb : t'.sdb ≡ t.sdb
    pub same_sda : t'.sda ≡ t.sda

  module _ (server : ServesListing) (tmpl : List ℕ) (srch_attr : ℕ) where
    -- The cache after a scan of it.
    abbrev scanned : Tsr S → DirBatch
    scanned t = (scan_batch tmpl srch_attr t.batch).1

    -- The search is still under way after the scan.
    Cached-scanned :
        (bs : List (List ℕ)) (t : Tsr S) → Cached bs t → Cached bs (record t { batch = scanned t })
    Cached-scanned bs t c =
        subst (λ b. Cached bs (record t { batch = b }))
          (sym (scan_batch_only_idx tmpl srch_attr t.batch))
          (record {
            on_port = c.on_port;
            of_handle = c.of_handle;
            in_batch = scan_batch_bound tmpl srch_attr t.batch c.in_batch;
            small_count = c.small_count;
            more_flag = c.more_flag;
            roomy = c.roomy;
            rep_room = c.rep_room;
            is_ready = c.is_ready;
            is_listing = c.is_listing;
          })

    module _ (b : List ℕ) (bs : List (List ℕ)) (t : Tsr S) (c : Cached (b ∷ bs) t)
        (w : IsBatch b bs) (listing : IsListing bs) where
      -- The state with the batch `b` in the cache.
      abbrev fetched : Tsr S
      fetched = record t {
        rep = overlay 0 b t.rep;
        rpc = (call t.comport cmd_list_dir_next (t.batch.hid ∷ []) t.rpc).1;
        batch = load_batch (length b) (overlay 0 b t.rep) t.batch;
      }

      answered :
          ((call t.comport cmd_list_dir_next (t.batch.hid ∷ []) t.rpc).0 ≡ ok 0 b)
          × Ready bs (call t.comport cmd_list_dir_next (t.batch.hid ∷ []) t.rpc).1
      answered =
          subst₂
            (λ p h.
              ((call p cmd_list_dir_next (h ∷ []) t.rpc).0 ≡ ok 0 b)
              × Ready bs (call p cmd_list_dir_next (h ∷ []) t.rpc).1)
            (sym c.on_port) (sym c.of_handle) (server.serves b bs t.rpc c.is_ready)

      small : length b ≤ 506
      small = omega (arith, w.whole, w.fits)

      count_is : length b / dir_entry_size ≡ w.entry_count
      count_is = omega (arith, w.whole)

      came_whole : take (w.entry_count * 23) (overlay 0 b t.rep) ≡ b
      came_whole =
          ap (λ n. take n (overlay 0 b t.rep)) (sym w.whole)
          ∙ take-overlay b t.rep (omega (arith, small, c.rep_room))

      abbrev in_cache : DirBatch
      in_cache =
          loaded w.entry_count (length b) b (overlay 0 b t.rep) t.batch w.whole w.fits w.not_none
            count_is came_whole c.roomy

      batch_is : load_batch (length b) (overlay 0 b t.rep) t.batch ≡ in_cache
      batch_is =
          load_batch_lem w.entry_count (length b) b (overlay 0 b t.rep) t.batch w.whole w.fits
            w.not_none count_is came_whole c.roomy

      in_cache_room : 506 ≤ length in_cache.entries
      in_cache_room = omega (
        arith,
        c.roomy,
        length-loaded w.entry_count (length b) b (overlay 0 b t.rep) t.batch w.whole w.fits
            w.not_none count_is came_whole c.roomy,
      )

      unread-in_cache : unread in_cache ≡ rows (length b / dir_entry_size) b
      unread-in_cache =
          unread-loaded w.entry_count (length b) b (overlay 0 b t.rep) t.batch w.whole w.fits
            w.not_none count_is came_whole c.roomy
          ∙ ap (λ n. rows n b) (sym count_is)

      Cached-fetched : Cached bs fetched
      Cached-fetched =
          subst (λ d. Cached bs (record fetched { batch = d })) (sym batch_is)
            (record {
              on_port = c.on_port;
              of_handle = c.of_handle;
              in_batch = omega arith;
              small_count = w.fits;
              more_flag = w.more_flag;
              roomy = in_cache_room;
              rep_room = omega (arith, length-overlay 0 b t.rep, c.rep_room);
              is_ready = answered.1;
              is_listing = listing;
            })

      coming-fetched : coming bs fetched ≡ listed (b ∷ bs)
      unfolding coming listed
      coming-fetched =
          ap (λ d. unread d ++ listed bs) batch_is ∙ ap (λ r. r ++ listed bs) unread-in_cache

      -- The code's call and what it makes of the answer.
      fetch :
          (rs rl : ℕ)
          → ask call rs rl cmd_list_dir_next (t.batch.hid ∷ []) t ≡ (
            record { rpc_ok = true; rstatus = 0; replylen = length b },
            record t {
              rep = overlay 0 b t.rep;
              rpc = (call t.comport cmd_list_dir_next (t.batch.hid ∷ []) t.rpc).1;
            },
          )
      fetch rs rl = ask_ok call rs rl cmd_list_dir_next (t.batch.hid ∷ []) t answered.0

    -- What the loop does after a scan: `o` is what the scan found, `r` and `t2` what the call answers.
    abbrev going_on : ℕ → Reply × Tsr S → Option (Option (List ℕ) × Tsr S)
    going_on fuel (r, t2) =
        if refused r
        then some (none, t2)
        else if r.replylen == 0
        then some (none, record t2 { batch = record (t2.batch) { more = 0 } })
        else find_loop call fuel r.rstatus r.replylen tmpl srch_attr
            (record t2 { batch = load_batch r.replylen t2.rep t2.batch })

    abbrev answer : ℕ → ℕ → ℕ → Tsr S → Option (List ℕ) → Bool → Option (Option (List ℕ) × Tsr S)
    answer fuel rs rl t1 o no_more = elim o [
      | some e ↦ some (some e, t1)
      | none ↦
          if no_more
          then some (none, t1)
          else going_on fuel (ask call rs rl cmd_list_dir_next (t1.batch.hid ∷ []) t1)
    ]

    find_loop_round :
        (fuel rs rl : ℕ) (t : Tsr S) {o : Option (List ℕ)} {no_more : Bool}
        → (scan_batch tmpl srch_attr t.batch).0 ≡ o
        → ((scanned t).more == 0) ≡ no_more
        → find_loop call (suc fuel) rs rl tmpl srch_attr t
          ≡ answer fuel rs rl (record t { batch = scanned t }) o no_more
    unfolding find_loop
    find_loop_round fuel rs rl t found flag =
        ap₂ (answer fuel rs rl (record t { batch = scanned t })) found flag

    Ended-hit :
        (bs : List (List ℕ)) (t : Tsr S) (e : List ℕ)
        → Cached bs t
        → (scan_batch tmpl srch_attr t.batch).0 ≡ some e
        → Ended tmpl srch_attr (coming bs t) (length bs) t (some e) (record t { batch = scanned t })
    unfolding coming
    Ended-hit bs t e c found = record {
      bs = bs;
      bounded = omega arith;
      scanned = Scanned-append tmpl srch_attr (unread t.batch) (unread (scanned t)) (listed bs) e (
          subst (λ o. Scanned tmpl srch_attr (unread t.batch) o (unread (scanned t))) found
            (scan_batch-Scanned tmpl srch_attr t.batch c.in_batch));
      cached = Cached-scanned bs t c;
      same_regs = refl;
      same_sdb = refl;
      same_sda = refl;
    }

    missed :
        (t : Tsr S)
        → t.batch.idx ≤ t.batch.count
        → (scan_batch tmpl srch_attr t.batch).0 ≡ none
        → Scanned tmpl srch_attr (unread t.batch) none (unread (scanned t))
    missed t h miss =
        subst (λ o. Scanned tmpl srch_attr (unread t.batch) o (unread (scanned t))) miss
          (scan_batch-Scanned tmpl srch_attr t.batch h)

    Ended-last :
        (t : Tsr S)
        → Cached [] t
        → (scan_batch tmpl srch_attr t.batch).0 ≡ none
        → Ended tmpl srch_attr (coming [] t) 0 t none (record t { batch = scanned t })
    unfolding coming listed
    Ended-last t c miss = record {
      bs = [];
      bounded = omega arith;
      scanned =
          subst₂ (λ b a. Scanned tmpl srch_attr b none a) (sym (append-nil (unread t.batch)))
            (sym (append-nil (unread (scanned t)))) (missed t c.in_batch miss);
      cached = Cached-scanned [] t c;
      same_regs = refl;
      same_sdb = refl;
      same_sda = refl;
    }

    -- The rounds of a loop that has to fetch the batch `b`.
    fetch_round :
        (fuel rs rl : ℕ) (b : List ℕ) (bs : List (List ℕ)) (t : Tsr S) (c : Cached (b ∷ bs) t)
        (w : IsBatch b bs) (listing : IsListing bs)
        → going_on fuel (ask call rs rl cmd_list_dir_next (t.batch.hid ∷ []) t)
          ≡ find_loop call fuel 0 (length b) tmpl srch_attr (fetched b bs t c w listing)
    fetch_round fuel rs rl b bs t c w listing =
        ap (going_on fuel) (fetch b bs t c w listing rs rl) ∙ ap with_test not_empty
      where
        not_empty : (length b == 0) ≡ false
        not_empty = ground (arith, w.whole, w.not_none)

        t2 : Tsr S
        t2 = record t {
          rep = overlay 0 b t.rep;
          rpc = (call t.comport cmd_list_dir_next (t.batch.hid ∷ []) t.rpc).1;
        }

        with_test : Bool → Option (Option (List ℕ) × Tsr S)
        with_test empty =
            if empty
            then some (none, record t2 { batch = record (t2.batch) { more = 0 } })
            else find_loop call fuel 0 (length b) tmpl srch_attr (fetched b bs t c w listing)

    Ended-next :
        (b : List ℕ) (bs : List (List ℕ)) (t : Tsr S) (c : Cached (b ∷ bs) t) (w : IsBatch b bs)
        (listing : IsListing bs) (o : Option (List ℕ)) (t' : Tsr S)
        → (scan_batch tmpl srch_attr t.batch).0 ≡ none
        → (let t1 : Tsr S = record t { batch = scanned t } in
            (c1 : Cached (b ∷ bs) t1)
            → Ended tmpl srch_attr
                (coming bs (fetched b bs t1 c1 w listing))
                (length bs)
                (fetched b bs t1 c1 w listing)
                o
                t'
            → Ended tmpl srch_attr (coming (b ∷ bs) t) (suc (length bs)) t o t')
    unfolding coming
    Ended-next b bs t c w listing o t' miss c1 ended = record {
      bs = ended.bs;
      bounded = omega (arith, ended.bounded);
      scanned =
          Scanned-next tmpl srch_attr (unread t.batch) (unread (scanned t)) (listed (b ∷ bs)) o
            (coming ended.bs t') (missed t c.in_batch miss)
            (subst (λ before. Scanned tmpl srch_attr before o (coming ended.bs t'))
              (coming-fetched b bs (record t { batch = scanned t }) c1 w listing) ended.scanned);
      cached = ended.cached;
      same_regs = ended.same_regs;
      same_sdb = ended.same_sdb;
      same_sda = ended.same_sda;
    }

    -- While a search is under way, the loop ends with the first of the entries to come that the
    -- template lets through, and the ones behind it are still to come; or with none if there is no
    -- such entry. One round more than the server has batches is enough.
    pub find_loop_ends :
        (fuel rs rl : ℕ) (bs : List (List ℕ)) (t : Tsr S)
        → Cached bs t
        → length bs < fuel
        → (o : Option (List ℕ)) × (t' : Tsr S) × (find_loop call fuel rs rl tmpl srch_attr t
            ≡ some (o, t'))
          × Ended tmpl srch_attr (coming bs t) (length bs) t o t'
    find_loop_ends zero rs rl bs t c enough = absurd (omega arith)
    find_loop_ends (suc fuel) rs rl [] t c enough =
        elim (Option-cases (scan_batch tmpl srch_attr t.batch).0) [
          | inl (e, found) ↦ (
            some e,
            record t { batch = scanned t },
            find_loop_round fuel rs rl t found refl,
            Ended-hit [] t e c found,
          )
          | inr miss ↦ (
            none,
            record t { batch = scanned t },
            find_loop_round fuel rs rl t miss (Cached-scanned [] t c).more_flag,
            Ended-last t c miss,
          )
        ]
    find_loop_ends (suc fuel) rs rl (b ∷ bs) t c enough =
        let t1 : Tsr S = record t { batch = scanned t } in
        let c1 : Cached (b ∷ bs) t1 = Cached-scanned (b ∷ bs) t c in
        let (w, listing) = listing_head c.is_listing in
        let (o, t', runs, ended) =
          find_loop_ends fuel 0 (length b) bs (fetched b bs t1 c1 w listing)
            (Cached-fetched b bs t1 c1 w listing) (omega arith) in
        elim (Option-cases (scan_batch tmpl srch_attr t.batch).0) [
          | inl (e, found) ↦
              (some e, t1, find_loop_round fuel rs rl t found refl, Ended-hit (b ∷ bs) t e c found)
          | inr miss ↦ (
            o,
            t',
            find_loop_round fuel rs rl t miss c1.more_flag
                ∙ fetch_round fuel rs rl b bs t1 c1 w listing
                ∙ runs,
            Ended-next b bs t c w listing o t' miss c1 ended,
          )
        ]
