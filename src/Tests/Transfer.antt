-- ===== src/Tests/Transfer.antt =====
-- A file server, for AL_READFIL, AL_WRITEFIL and the handlers that open a file.
use serial_dfs.Base.{
  ℕ, ◌+◌, ◌*◌, ◌/◌, ◌%◌, ◌^◌, ◌<◌, ◌≤◌, ◌==◌, if◌then◌else◌, some, List, [], ◌∷◌, ◌++◌, take, drop,
  word_at, dword_at, replicate, ◌≡◌, refl, ap, ap₂, arith,
}
use serial_dfs.Command.{cmd_open, cmd_create, cmd_close}
use serial_dfs.Rpc.{ok}
use serial_dfs.Redirector.State.{Call, Tsr, update}
use serial_dfs.Redirector.Files.{al_readfil, al_writefil}
use serial_dfs.Redirector.Files.Read.{ServesReads, Done, al_readfil-Done}
use serial_dfs.Redirector.Files.Write.{TakesWrites, moved, al_writefil-TakesWrites}
use serial_dfs.Redirector.Open.{al_open, al_create, al_spopnfil}
use serial_dfs.Redirector.Open.Leak.{
  KeepsHandles, granted, Settled, al_open-Settled, al_create-Settled, al_spopnfil-Settled,
}
use serial_dfs.Tests.State.{state, open_file}

abbrev file : List ℕ
file = 1 ∷ 2 ∷ 3 ∷ 4 ∷ 5 ∷ 6 ∷ 7 ∷ 8 ∷ 9 ∷ []

abbrev reader : Call ℕ
reader port cmd payload s =
    (ok 0 (take (word_at payload 1) (drop (dword_at payload 3) file)), s + 1)

abbrev AnyState : ℕ → Type 0
AnyState s = 0 ≤ s

reads : ServesReads reader 1 7 file AnyState
reads = record {
  answers = λ n off s few small r.
      (ap₂ (λ i j. ok 0 (take i (drop j file))) (count n few) (offset off small), omega arith);
}
  where
    count : (n : ℕ) → n ≤ 512 → n % 2 ^ 8 + n / 2 ^ 8 % 2 ^ 8 * 2 ^ 8 ≡ n
    count n h = omega arith

    offset :
        (d : ℕ)
        → d < 2 ^ 32
        → d % 2 ^ 8
            + d / 2 ^ 8 % 2 ^ 8 * 2 ^ 8
            + (d / 2 ^ 16 % 2 ^ 8 + d / 2 ^ 24 % 2 ^ 8 * 2 ^ 8) * 2 ^ 16
          ≡ d
    offset d h = omega arith

al_readfil-Done_example :
    (t' : Tsr ℕ) × (al_readfil reader 0 (state 0 [] 0) ≡ some t')
    × Done reader 1 7 file AnyState reads 2 4
        (omega arith)
        (omega arith)
        (11 ∷ 12 ∷ 13 ∷ 14 ∷ 15 ∷ [])
        (state 0 [] 0)
        t'
al_readfil-Done_example =
    al_readfil-Done reader 1 7 file AnyState reads 2 4 (omega arith) (omega arith) 0 (state 0 [] 0)
      refl refl refl refl refl (omega arith) (omega arith) (omega arith)

abbrev writer : Call (List ℕ)
writer port cmd payload s = (ok 0 [], s ++ drop 1 payload)

abbrev Holds : List ℕ → List ℕ → Type 0
Holds w s = s ≡ w

writes : TakesWrites writer 1 7 Holds
writes = record { takes = λ w d s few now. ([], refl, ap (λ x. x ++ d) now) }

abbrev w0 : Tsr (List ℕ)
w0 = state 1 [] (99 ∷ [])

al_writefil-TakesWrites_example :
    (t' : Tsr (List ℕ)) × (al_writefil writer 0 w0 ≡ some t')
    × (t'.rpc ≡ 99 ∷ 11 ∷ 12 ∷ 13 ∷ 14 ∷ [])
    × (t'.regs ≡ w0.regs)
    × (t'.dta ≡ 11 ∷ 12 ∷ 13 ∷ 14 ∷ 15 ∷ [])
    × (t'.sft
        ≡ update
            (λ p. open_file 1)
            64
            (moved writer 1 7 Holds writes w0
              (99 ∷ [])
              refl
              refl
              (omega arith)
              (omega arith)
              (omega arith)
              4))
al_writefil-TakesWrites_example =
    al_writefil-TakesWrites writer 1 7 Holds writes w0 (99 ∷ []) refl refl (omega arith)
      (omega arith) (omega arith) 0 (omega arith) (omega arith) refl

-- Handles are given out from 5 on; a close takes the last one back.
abbrev opener : Call (List ℕ)
opener port cmd payload s =
    if cmd == cmd_open
    then (ok 0 (5 ∷ []), 5 ∷ s)
    else if cmd == cmd_create
    then (ok 0 (6 ∷ []), 6 ∷ s)
    else if cmd == cmd_close
    then (ok 0 [], drop 1 s)
    else (ok 0 (replicate 9 0), s)

handles : KeepsHandles opener 1 Holds
handles = record {
  opens = λ hs payload s now. granted 5 [] (5 ∷ s) (ap (λ x. 5 ∷ x) now);
  creates = λ hs payload s now. granted 6 [] (6 ∷ s) (ap (λ x. 6 ∷ x) now);
  closes = λ hs hid s now. ap (drop 1) now;
  asks = λ hs payload s now. now;
}

al_open-Settled_example :
    Settled opener 1 Holds handles (4 ∷ []) (al_open opener 0 (state 0 [] (4 ∷ [])))
al_open-Settled_example =
    al_open-Settled opener 1 Holds handles (4 ∷ []) 0 (state 0 [] (4 ∷ [])) refl refl (omega arith)
      refl

al_create-Settled_example :
    Settled opener 1 Holds handles (4 ∷ []) (al_create opener 0 (state 0 [] (4 ∷ [])))
al_create-Settled_example =
    al_create-Settled opener 1 Holds handles (4 ∷ []) 0 (state 0 [] (4 ∷ [])) refl refl
      (omega arith) refl

al_spopnfil-Settled_example :
    Settled opener 1 Holds handles (4 ∷ []) (al_spopnfil opener 0 (state 0 [] (4 ∷ [])))
al_spopnfil-Settled_example =
    al_spopnfil-Settled opener 1 Holds handles (4 ∷ []) 0 (state 0 [] (4 ∷ [])) refl refl
      (omega arith) refl
