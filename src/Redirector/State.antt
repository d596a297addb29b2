-- ===== src/Redirector/State.antt =====
-- dos/src/globals.h and dos/src/dosstruc.h: the registers, the DOS structures and the globals that
-- the handlers read and write, and the macros SUCCESSFLAG and FAILFLAG of dos/src/serdfs.c.
-- An object behind a far pointer is looked up by the pointer, one map for each type of object.
-- `S` is the state of the remote calls: what `serial_rpc` changes.
pub mod Ask
pub mod Kept
pub mod Update
use serial_dfs.Base.{
  ℕ, zero, suc, ◌+◌, ◌*◌, ◌%◌, ◌/◌, ◌^◌, ◌==◌, not, ◌||◌, if◌then◌else◌, Bool, true, false, List,
  [], ◌∷◌, ◌++◌, drop, overlay, length,
}
use serial_dfs.Rpc.{RpcResult, ok, err_timeout, err_payload}

-- The 16-bit registers of `union INTPACK` that the code uses, and its carry flag.
pub record Regs : Type 0 where
  pub ax : ℕ
  pub bx : ℕ
  pub cx : ℕ
  pub dx : ℕ
  pub es : ℕ
  pub di : ℕ
  pub carry : Bool

-- `struct sftstruct`; `dev_drvr_ptr` is only ever set to NULL.
pub record Sft : Type 0 where
  pub handle_count : ℕ
  pub open_mode : ℕ
  pub file_attr : ℕ
  pub dev_info_word : ℕ
  pub dev_drvr_ptr : ℕ
  pub start_sector : ℕ
  pub file_time : ℕ
  pub file_size : ℕ
  pub file_pos : ℕ
  pub rel_sector : ℕ
  pub abs_sector : ℕ
  pub dir_sector : ℕ
  pub dir_entry_no : ℕ
  pub file_name : List ℕ

-- `struct foundfilestruct`.
pub record FoundFile : Type 0 where
  pub fname : List ℕ
  pub fattr : ℕ
  pub time_lstupd : ℕ
  pub date_lstupd : ℕ
  pub start_clstr : ℕ
  pub fsize : ℕ

-- `struct sdbstruct` and the found file that stands behind it, at offset 15h.
pub record Sdb : Type 0 where
  pub drv_lett : ℕ
  pub srch_tmpl : List ℕ
  pub srch_attr : ℕ
  pub dir_entry : ℕ
  pub par_clstr : ℕ
  pub found : FoundFile

-- The fields of `struct sdastruct` in use. `sdb` is the address of its member of that name.
pub record Sda : Type 0 where
  pub curr_dta : ℕ
  pub fn1 : List ℕ
  pub fn2 : List ℕ
  pub sdb : ℕ
  pub found_file : FoundFile
  pub fcb_fn1 : List ℕ
  pub srch_attr : ℕ
  pub spop_act : ℕ

-- The directory batch cache: `dir_batch`, `dir_batch_count`, `_idx`, `_more` and `dir_hid`.
pub record DirBatch : Type 0 where
  pub entries : List ℕ
  pub count : ℕ
  pub idx : ℕ
  pub more : ℕ
  pub hid : ℕ

pub record Tsr (S : Type 0) : Type 0 where
  pub regs : Regs
  pub sda : Sda
  pub sft : ℕ → Sft
  pub sdb : ℕ → Sdb
  -- The bytes from `curr_dta` on, where a read or a write moves its data.
  pub dta : List ℕ
  pub batch : DirBatch
  -- `glob_rep_payload`.
  pub rep : List ℕ
  pub reqdrv : ℕ
  pub reqstkword : ℕ
  pub comport : ℕ
  -- `glob_data.ldrv` and `glob_multiplexid`.
  pub ldrv : List ℕ
  pub multiplexid : ℕ
  pub rpc : S

-- MK_FP(seg, off), and its use on ES:DI.
abbrev pub mk_fp : ℕ → ℕ → ℕ
mk_fp seg off = seg * 2 ^ 16 + off

abbrev pub es_di : Regs → ℕ
es_di r = mk_fp r.es r.di

-- A map changed at one pointer.
abbrev pub update {ℓ} : {A : Type ℓ} → (ℕ → A) → ℕ → A → ℕ → A
update f p v q = if p == q then v else f q

-- The locals `rstatus` and `replylen` of `process2f`, and whether the call returned SERRPC_OK.
pub record Reply : Type 0 where
  pub rpc_ok : Bool
  pub rstatus : ℕ
  pub replylen : ℕ

module _ {S : Type 0} where
  -- SUCCESSFLAG and FAILFLAG(x).
  abbrev pub success : Tsr S → Tsr S
  success t = record t { regs = record (t.regs) { ax = 0; carry = false } }

  abbrev pub fail : ℕ → Tsr S → Tsr S
  fail x t = record t { regs = record (t.regs) { ax = x; carry = true } }

  abbrev pub set_cx : ℕ → Tsr S → Tsr S
  set_cx x t = record t { regs = record (t.regs) { cx = x } }

  abbrev pub set_sft : Sft → Tsr S → Tsr S
  set_sft f t = record t { sft = update t.sft (es_di t.regs) f }

  -- `sft` of a handler: the structure at ES:DI.
  abbrev pub sft_of : Tsr S → Sft
  sft_of t = t.sft (es_di t.regs)

-- `copybytes` of all of `src` to the start of the object `dst`. What goes past the object's end is
-- part of the result, so that an overflow shows in its length.
abbrev pub copybytes : List ℕ → List ℕ → List ℕ
copybytes dst src = src ++ drop (length src) dst

-- A remote call: port, command, payload.
abbrev pub Call : Type 0 → Type 0
Call S = ℕ → ℕ → List ℕ → S → RpcResult × S

-- `serial_rpc(...) != SERRPC_OK || rstatus != STATUS_OK`.
abbrev pub refused : Reply → Bool
refused r = not r.rpc_ok || not (r.rstatus == 0)

module _ {S : Type 0} (call : Call S) where
  -- The `serial_rpc` of a handler, whose locals hold `rstatus` and `replylen` before: the reply
  -- goes to `glob_rep_payload`, and on an error the locals keep their values.
  pub ask : ℕ → ℕ → ℕ → List ℕ → Tsr S → Reply × Tsr S
  ask rstatus replylen cmd payload t =
      let (result, s) = call t.comport cmd payload t.rpc in
      elim result [
        | ok st p ↦ (
          record { rpc_ok = true; rstatus = st; replylen = length p },
          record t { rep = overlay 0 p t.rep; rpc = s },
        )
        | err_timeout ↦ (
          record { rpc_ok = false; rstatus = rstatus; replylen = replylen },
          record t { rpc = s },
        )
        | err_payload ↦ (
          record { rpc_ok = false; rstatus = rstatus; replylen = replylen },
          record t { rpc = s },
        )
      ]
