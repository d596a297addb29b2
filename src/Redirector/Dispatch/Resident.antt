-- ===== src/Redirector/Dispatch/Resident.antt =====
-- The invariant of the resident program, through the handler of INT 2Fh.
use serial_dfs.Base.{
  ℕ, ◌/◌, ◌^◌, ◌==◌, ltb, not, ◌&&◌, ◌||◌, ◌≤◌, u8, byte_at, length, if◌then◌else◌, Bool, true,
  false, Option, some, none, ◌≡◌, refl, ◌∙◌,
}
use serial_dfs.Link.{Link}
use serial_dfs.Rpc.{Rpc, serial_rpc}
use serial_dfs.Rpc.Bounds.{IsBounded, serial_rpc-IsBounded}
use serial_dfs.Redirector.State.{Tsr, Regs}
use serial_dfs.Redirector.State.Kept.{Follows, Kept, KeptSome}
use serial_dfs.Redirector.Dispatch.{
  Outcome, chained, handled, running, supported, normalise_fcb, requested_drive, process2f,
  on_drive, inthandler,
}
use serial_dfs.Redirector.Dispatch.Kept.{Kept-process2f}

-- The cache is the 506 bytes of 22 entries, no more entries are counted, and the state of the remote
-- calls is within its widths.
pub record IsResident {W : Type 0} (t : Tsr (Rpc W)) : Type 0 where
  pub cache_size : length t.batch.entries ≡ 506
  pub few_entries : t.batch.count ≤ 22
  pub bounded : IsBounded t.rpc

-- The invariant, with the configuration of `t`.
pub record Stays {W : Type 0} (t u : Tsr (Rpc W)) : Type 0 where
  pub resident : IsResident u
  pub same_port : u.comport ≡ t.comport
  pub same_drives : u.ldrv ≡ t.ldrv
  pub same_multiplexid : u.multiplexid ≡ t.multiplexid

-- `Stays` of what a call of INT 2Fh leaves, if it returns.
pub OutcomeStays : {W : Type 0} → Tsr (Rpc W) → Outcome (Rpc W) → Type 0
OutcomeStays t (chained u) = Stays t u
OutcomeStays t (handled u) = Stays t u
OutcomeStays t running = Unit

BothBounded : {W : Type 0} → Rpc W → Rpc W → Type 0
BothBounded s s' = IsBounded s → IsBounded s'

follows : {W : Type 0} (io : Link W) → Follows (serial_rpc io) BothBounded
unfolding BothBounded
follows io = record {
  same = λ s h. h;
  joins = λ s s' s'' h k b. k (h b);
  calls = λ port cmd payload s fits. serial_rpc-IsBounded io port cmd payload s;
}

Kept-Stays : {W : Type 0} (t u : Tsr (Rpc W)) → IsResident t → Kept BothBounded t u → Stays t u
unfolding BothBounded
Kept-Stays t u h k = record {
  resident = record {
    cache_size = k.entries_kept h.cache_size;
    few_entries = k.few_entries h.few_entries;
    bounded = k.calls_made h.bounded;
  };
  same_port = k.port_kept;
  same_drives = k.drives_kept;
  same_multiplexid = k.multiplexid_kept;
}

module _ {W : Type 0} (io : Link W) where
  OutcomeStays-if :
      (b : Bool) (t : Tsr (Rpc W)) (x y : Outcome (Rpc W))
      → OutcomeStays t x
      → OutcomeStays t y
      → OutcomeStays t (if b then x else y)
  OutcomeStays-if true t x y h k = h
  OutcomeStays-if false t x y h k = k

  outcome : Option (Tsr (Rpc W)) → Outcome (Rpc W)
  outcome none = running
  outcome (some u) = handled u

  OutcomeStays-outcome :
      (t : Tsr (Rpc W)) (x : Option (Tsr (Rpc W)))
      → IsResident t
      → KeptSome BothBounded t x
      → OutcomeStays t (outcome x)
  unfolding OutcomeStays outcome
  OutcomeStays-outcome t none h k = tt
  OutcomeStays-outcome t (some u) h k = Kept-Stays t u h k

  -- `t` differs from `t0` in what `Stays` is not about.
  OutcomeStays-from :
      (t0 t : Tsr (Rpc W)) (x : Outcome (Rpc W))
      → t.comport ≡ t0.comport
      → t.ldrv ≡ t0.ldrv
      → t.multiplexid ≡ t0.multiplexid
      → OutcomeStays t x
      → OutcomeStays t0 x
  unfolding OutcomeStays
  OutcomeStays-from t0 t running a b c h = tt
  OutcomeStays-from t0 t (chained u) a b c h = record {
    resident = h.resident;
    same_port = h.same_port ∙ a;
    same_drives = h.same_drives ∙ b;
    same_multiplexid = h.same_multiplexid ∙ c;
  }
  OutcomeStays-from t0 t (handled u) a b c h = record {
    resident = h.resident;
    same_port = h.same_port ∙ a;
    same_drives = h.same_drives ∙ b;
    same_multiplexid = h.same_multiplexid ∙ c;
  }

  IsResident-Stays :
      (t : Tsr (Rpc W)) (regs : Regs) (word drv : ℕ)
      → IsResident t
      → Stays t (record t { regs = regs; reqstkword = word; reqdrv = drv })
  IsResident-Stays t regs word drv h = record {
    resident = record {
      cache_size = h.cache_size;
      few_entries = h.few_entries;
      bounded = h.bounded;
    };
    same_port = refl;
    same_drives = refl;
    same_multiplexid = refl;
  }

  on_drive-Stays :
      (fuel undef al : ℕ) (t : Tsr (Rpc W))
      → IsResident t
      → OutcomeStays t (on_drive (serial_rpc io) fuel undef al t)
  unfolding on_drive OutcomeStays outcome
  on_drive-Stays fuel undef al t h =
      OutcomeStays-if (ltb 25 t.reqdrv || byte_at t.ldrv t.reqdrv == 0xFF) t (chained t)
        (outcome (process2f (serial_rpc io) fuel undef (with_fcb (al == 0x0C))))
        (IsResident-Stays t t.regs t.reqstkword t.reqdrv h) (served (al == 0x0C))
    where
      named : Tsr (Rpc W)
      named = record t { sda = record (t.sda) { fcb_fn1 = normalise_fcb t.sda.fn1 } }

      with_fcb : Bool → Tsr (Rpc W)
      with_fcb b = if b then t else named

      named_IsResident : IsResident named
      named_IsResident = record {
        cache_size = h.cache_size;
        few_entries = h.few_entries;
        bounded = h.bounded;
      }

      served :
          (b : Bool) → OutcomeStays t (outcome (process2f (serial_rpc io) fuel undef (with_fcb b)))
      served true =
          OutcomeStays-outcome t (process2f (serial_rpc io) fuel undef t) h
            (Kept-process2f (serial_rpc io) BothBounded (follows io) fuel undef t)
      served false =
          OutcomeStays-from t named (outcome (process2f (serial_rpc io) fuel undef named)) refl refl
            refl
            (OutcomeStays-outcome named (process2f (serial_rpc io) fuel undef named)
              named_IsResident
              (Kept-process2f (serial_rpc io) BothBounded (follows io) fuel undef named))

  -- However the server and the line behave, and whatever the sizes of the replies, a call of INT 2Fh
  -- that returns, handled or passed to the previous handler, keeps the invariant: no batch of entries
  -- was copied past the end of the cache, at most 22 entries are counted, the sequence number is a
  -- byte and the counters are within their widths. The port, the drive map and the multiplex number
  -- are unchanged.
  pub inthandler-Stays :
      (fuel undef cds_path ds data_off stack_word : ℕ) (t : Tsr (Rpc W))
      → IsResident t
      → OutcomeStays t (inthandler (serial_rpc io) fuel undef cds_path ds data_off stack_word t)
  unfolding inthandler OutcomeStays
  inthandler-Stays fuel undef cds_path ds data_off stack_word t0 h =
      let t : Tsr (Rpc W) = record t0 { reqstkword = stack_word } in
      let ah = t.regs.ax / 2 ^ 8 in
      let al = u8 t.regs.ax in
      let drv = requested_drive cds_path al t in
      OutcomeStays-if (ah == t.multiplexid && al == 0) t0 _ _
        (IsResident-Stays t0 _ stack_word t0.reqdrv h)
        (OutcomeStays-if (ah == t.multiplexid && (al == 1 && t.regs.bx == 0x4453)) t0 _ _
          (IsResident-Stays t0 _ ds t0.reqdrv h)
          (OutcomeStays-if (not (ah == 0x11) || (al == 0x00 || (ltb 0x2E al || not (supported al))))
            t0 (chained t) _ (IsResident-Stays t0 t0.regs stack_word t0.reqdrv h)
            (OutcomeStays-from t0 (record t { reqdrv = drv }) _ refl refl refl
              (on_drive-Stays fuel undef al (record t { reqdrv = drv })
                (IsResident-Stays t0 t0.regs stack_word drv h).resident))))
