-- ===== src/Install/Multiplex/Found.antt =====
-- The installer's search, answered by the resident program.
use serial_dfs.Base.{
  ℕ, zero, suc, ◌+◌, ◌*◌, ◌/◌, ◌^◌, ◌%◌, u8, ◌==◌, ltb, if◌then◌else◌, Bool-cases, true, false, ◌<◌,
  ◌≤◌, ◌≡◌, ◌≢◌, inl, inr, refl, ap, ◌∙◌, arith,
}
use serial_dfs.Redirector.State.{Call, Tsr}
use serial_dfs.Redirector.Dispatch.{Outcome, chained, handled, running, inthandler}
use serial_dfs.Install.Multiplex.{Mux, is_serdfs, check_ids, findfreemultiplex}

-- INT 2Fh where no handler is before the resident program that answers a multiplex number: what
-- comes to the end of the chain comes back as it is.
module _ {S : Type 0} (call : Call S) (fuel undef cds_path ds data_off stack_word : ℕ)
    (t : Tsr S) where
  registers : ℕ → Outcome S → Mux
  registers id (handled u) = record {
    ah = u.regs.ax / 2 ^ 8;
    al = u8 u.regs.ax;
    bx = u.regs.bx;
    cx = u.regs.cx;
  }
  registers id (chained u) = record {
    ah = u.regs.ax / 2 ^ 8;
    al = u8 u.regs.ax;
    bx = u.regs.bx;
    cx = u.regs.cx;
  }
  registers id running = record { ah = id; al = 0; bx = 0; cx = 0 }

  pub int2f : ℕ → Mux
  int2f id = registers id (
      inthandler call fuel undef cds_path ds data_off stack_word
        (record t { regs = record (t.regs) { ax = id * 2 ^ 8 } }))

  int2f_own : (id : ℕ) → id ≡ t.multiplexid → is_serdfs (int2f id) ≡ true
  unfolding int2f registers inthandler is_serdfs
  int2f_own id e =
      let hi : id * 2 ^ 8 / 2 ^ 8 ≡ id = omega arith in
      let lo : id * 2 ^ 8 % 2 ^ 8 ≡ 0 = omega arith in
      let own : (id == t.multiplexid) ≡ true = ground (arith, e) in
      let al : (id * 2 ^ 8 + 0xFF) % 2 ^ 8 ≡ 0xFF = omega arith in rw (hi, lo, own, al)

  int2f_other :
      (id : ℕ) → id ≢ t.multiplexid → id ≢ 0x11 → ((int2f id).al ≡ 0) × ((int2f id).ah ≡ id)
  unfolding int2f registers inthandler
  int2f_other id ne net =
      let hi : id * 2 ^ 8 / 2 ^ 8 ≡ id = omega arith in
      let lo : id * 2 ^ 8 % 2 ^ 8 ≡ 0 = omega arith in
      let other : (id == t.multiplexid) ≡ false = ground (arith, ne) in
      let not_net : (id == 0x11) ≡ false = ground (arith, net) in
      (rw (hi, lo, other, not_net) lo, rw (hi, lo, other, not_net) hi)

-- A search over numbers that all are free but one that SerialDFS answers, if it is among them.
check-found :
    (mux : ℕ → Mux) (m : ℕ)
    → is_serdfs (mux m) ≡ true
    → ((id : ℕ) → id ≢ m → 0xC0 ≤ id → (mux id).al ≡ 0)
    → (left id freeid : ℕ) → 0xC0 ≤ id
    → id ≤ m
    → m < id + left
    → check_ids mux left id freeid ≡ (m, 1)
unfolding check_ids is_serdfs
check-found mux m own free zero id freeid range lo hi = absurd (omega arith)
check-found mux m own free (suc left) id freeid range lo hi = elim (Bool-cases (id == m)) [
  | inl here ↦
      let same : id ≡ m = ground (arith, here) in
      let busy : ((mux id).al == 0) ≡ false =
        al_busy (mux id) (ap (λ i. is_serdfs (mux i)) same ∙ own) in
      let present : is_serdfs (mux id) ≡ true = ap (λ i. is_serdfs (mux i)) same ∙ own in
      rw (busy, present) (ap (λ i. (i, 1)) same)
  | inr later ↦
      let is_free : ((mux id).al == 0) ≡ true =
        ap (λ a. a == 0) (free id (ground (arith, later)) range) in
      rw is_free (
        check-found mux m own free left (id + 1) (mux id).ah (omega arith)
          (ground (arith, later, lo)) (omega (arith, hi)))
]
  where
    al_busy : (r : Mux) → is_serdfs r ≡ true → (r.al == 0) ≡ false
    al_busy r e = ground (arith, e)

-- No number answers: the last free one is taken.
check-free :
    (mux : ℕ → Mux)
    → ((id : ℕ) → 0xC0 ≤ id → ((mux id).al ≡ 0) × ((mux id).ah ≡ id))
    → (left id freeid : ℕ) → 0xC0 ≤ id
    → check_ids mux (suc left) id freeid ≡ (id + left, 0)
unfolding check_ids
check-free mux free zero id freeid range =
    let h = free id range in
    let is_free : ((mux id).al == 0) ≡ true = ap (λ a. a == 0) h.0 in
    rw is_free (ap (λ i. (i, 0)) (omega (arith, h.1)))
check-free mux free (suc left) id freeid range =
    let h = free id range in
    let is_free : ((mux id).al == 0) ≡ true = ap (λ a. a == 0) h.0 in
    rw is_free
      (check-free mux free left (id + 1) (mux id).ah (omega arith) ∙ ap (λ i. (i, 0)) (omega arith))

-- With the resident program on INT 2Fh and nothing else that answers there, the installer's search
-- finds it if its multiplex number is one of C0h to FFh, as that of an installed program is; if it
-- has another number than these, the search takes the number FFh as free.
pub findfreemultiplex-inthandler :
    {S : Type 0} (call : Call S) (fuel undef cds_path ds data_off stack_word : ℕ) (t : Tsr S)
    → t.multiplexid < 0x100
    → findfreemultiplex (int2f call fuel undef cds_path ds data_off stack_word t)
      ≡ (if ltb t.multiplexid 0xC0 then (0xFF, 0) else (t.multiplexid, 1))
unfolding findfreemultiplex
findfreemultiplex-inthandler call fuel undef cds_path ds data_off stack_word t range =
    elim (Bool-cases (ltb t.multiplexid 0xC0)) [
      | inl outside ↦ rw outside (
          check-free mux
            (λ id lo.
              int2f_other call fuel undef cds_path ds data_off stack_word t id
                (ground (arith, lo, outside)) (omega (arith, lo)))
            63 0xC0 0 (omega arith))
      | inr inside ↦ rw inside (
          check-found mux t.multiplexid
            (int2f_own call fuel undef cds_path ds data_off stack_word t t.multiplexid refl)
            (λ id ne lo.
              (int2f_other call fuel undef cds_path ds data_off stack_word t id ne
                (omega (arith, lo))).0)
            64 0xC0 0 (omega arith) (ground (arith, inside)) (omega (arith, range)))
    ]
  where
    mux : ℕ → Mux
    mux = int2f call fuel undef cds_path ds data_off stack_word t
