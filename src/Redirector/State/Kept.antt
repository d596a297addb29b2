-- ===== src/Redirector/State/Kept.antt =====
-- What no handler of `process2f` changes, and what all keep.
use serial_dfs.Base.{
  ℕ, ◌≤◌, List, length, if◌then◌else◌, Bool, true, false, ◌≡◌, refl, sym, ap, ◌∙◌, Option, some,
  none,
}
use mathlib.Core.Path.{subst}
use serial_dfs.Redirector.State.{Call, Tsr, Regs, Sda, Sft, Sdb, DirBatch, ask}
use serial_dfs.Redirector.State.Ask.{ask_keeps}

-- A relation between the states before and after remote calls whose payload fits a frame.
pub record Follows {S : Type 0} (call : Call S) (R : S → S → Type 0) : Type 0 where
  pub same : (s : S) → R s s
  pub joins : (s s' s'' : S) → R s s' → R s' s'' → R s s''
  pub calls :
      (port cmd : ℕ) (payload : List ℕ) (s : S)
      → length payload ≤ 512
      → R s (call port cmd payload s).1

-- From `t` to `t'` the configuration and the drive of the request are unchanged, the cache keeps its
-- size, the number of cached entries stays within the cache, and the states of the remote
-- calls are related.
pub record Kept {S : Type 0} (R : S → S → Type 0) (t t' : Tsr S) : Type 0 where
  pub port_kept : t'.comport ≡ t.comport
  pub drives_kept : t'.ldrv ≡ t.ldrv
  pub multiplexid_kept : t'.multiplexid ≡ t.multiplexid
  pub reqdrv_kept : t'.reqdrv ≡ t.reqdrv
  pub entries_kept : length t.batch.entries ≡ 506 → length t'.batch.entries ≡ 506
  pub few_entries : t.batch.count ≤ 22 → t'.batch.count ≤ 22
  pub calls_made : R t.rpc t'.rpc

module _ {S : Type 0} (call : Call S) (R : S → S → Type 0) (follows : Follows call R) where
  pub Kept-same : (t : Tsr S) → Kept R t t
  Kept-same t = record {
    port_kept = refl;
    drives_kept = refl;
    multiplexid_kept = refl;
    reqdrv_kept = refl;
    entries_kept = λ h. h;
    few_entries = λ h. h;
    calls_made = follows.same t.rpc;
  }

  pub Kept-then : (t t' t'' : Tsr S) → Kept R t t' → Kept R t' t'' → Kept R t t''
  Kept-then t t' t'' h k = record {
    port_kept = k.port_kept ∙ h.port_kept;
    drives_kept = k.drives_kept ∙ h.drives_kept;
    multiplexid_kept = k.multiplexid_kept ∙ h.multiplexid_kept;
    reqdrv_kept = k.reqdrv_kept ∙ h.reqdrv_kept;
    entries_kept = λ size. k.entries_kept (h.entries_kept size);
    few_entries = λ few. k.few_entries (h.few_entries few);
    calls_made = follows.joins t.rpc t'.rpc t''.rpc h.calls_made k.calls_made;
  }

  pub Kept-if : (b : Bool) (t x y : Tsr S) → Kept R t x → Kept R t y → Kept R t (if b then x else y)
  Kept-if true t x y h k = h
  Kept-if false t x y h k = k

  pub Kept-ask :
      (rs rl cmd : ℕ) (payload : List ℕ) (t : Tsr S)
      → length payload ≤ 512
      → Kept R t (ask call rs rl cmd payload t).1
  Kept-ask rs rl cmd payload t fits =
      let e = ask_keeps call rs rl cmd payload t in
      record {
        port_kept = ap (λ u. u.comport) e;
        drives_kept = ap (λ u. u.ldrv) e;
        multiplexid_kept = ap (λ u. u.multiplexid) e;
        reqdrv_kept = ap (λ u. u.reqdrv) e;
        entries_kept = λ size. ap (λ u. length u.batch.entries) e ∙ size;
        few_entries = λ few. subst (λ u. u.batch.count ≤ 22) (sym e) few;
        calls_made =
            subst (λ u. R t.rpc u.rpc) (sym e) (follows.calls t.comport cmd payload t.rpc fits);
      }

-- What `Kept` is not about.
pub Kept-front :
    {S : Type 0} {R : S → S → Type 0} {t : Tsr S} (x : Tsr S) {regs : Regs} {sda : Sda}
    {sft : ℕ → Sft} {sdb : ℕ → Sdb} {dta : List ℕ} {reqstkword : ℕ}
    → Kept R t x
    → Kept R t (record x {
      regs = regs;
      sda = sda;
      sft = sft;
      sdb = sdb;
      dta = dta;
      reqstkword = reqstkword;
    })
Kept-front x k = record {
  port_kept = k.port_kept;
  drives_kept = k.drives_kept;
  multiplexid_kept = k.multiplexid_kept;
  reqdrv_kept = k.reqdrv_kept;
  entries_kept = k.entries_kept;
  few_entries = k.few_entries;
  calls_made = k.calls_made;
}

-- Kept in the state that a call returns, if it returns one.
abbrev pub KeptSome : {S : Type 0} → (S → S → Type 0) → Tsr S → Option (Tsr S) → Type 0
KeptSome R t none = Unit
KeptSome R t (some t') = Kept R t t'

module _ {S : Type 0} (call : Call S) (R : S → S → Type 0) (follows : Follows call R) where
  pub KeptSome-if :
      (b : Bool) (t : Tsr S) (x y : Option (Tsr S))
      → KeptSome R t x
      → KeptSome R t y
      → KeptSome R t (if b then x else y)
  KeptSome-if true t x y h k = h
  KeptSome-if false t x y h k = k

  pub KeptSome-then :
      (t t' : Tsr S) (x : Option (Tsr S)) → Kept R t t' → KeptSome R t' x → KeptSome R t x
  KeptSome-then t t' none h k = tt
  KeptSome-then t t' (some u) h k = Kept-then call R follows t t' u h k

-- Another batch of entries in the cache, no larger than it.
pub Kept-batch :
    {S : Type 0} {R : S → S → Type 0} {t : Tsr S} (x : Tsr S) (b : DirBatch)
    → (length x.batch.entries ≡ 506 → length b.entries ≡ 506)
    → (x.batch.count ≤ 22 → b.count ≤ 22)
    → Kept R t x
    → Kept R t (record x { batch = b })
Kept-batch x b size few k = record {
  port_kept = k.port_kept;
  drives_kept = k.drives_kept;
  multiplexid_kept = k.multiplexid_kept;
  reqdrv_kept = k.reqdrv_kept;
  entries_kept = λ h. size (k.entries_kept h);
  few_entries = λ h. few (k.few_entries h);
  calls_made = k.calls_made;
}
