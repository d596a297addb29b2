-- ===== src/Tools/Serren/Request.antt =====
-- The request of SERREN, taken apart.
use serial_dfs.Base.{
  ℕ, ◌+◌, ◌≤◌, ◌==◌, ltb, if◌then◌else◌, false, Bool-cases, inl, inr, List, [], ◌∷◌, ◌++◌, length,
  overlay, length-append, append_assoc, replicate, ◌≡◌, ◌≢◌, refl, ap, ◌∙◌, arith,
}
use serial_dfs.Command.{cmd_rename}
use serial_dfs.Rpc.{ok}
use serial_dfs.Tools.{Driver, line, parse_line, replied}
use serial_dfs.Tools.Answers.{rpc-ok}
use serial_dfs.Tools.Serren.{request, report, main}

-- The bytes up to the first NUL, and those behind it.
pub first_path : List ℕ → List ℕ
first_path [] = []
first_path (c ∷ s) = let rest = first_path s in if c == 0 then [] else c ∷ rest

pub second_part : List ℕ → List ℕ
second_part [] = []
second_part (c ∷ s) = let rest = second_part s in if c == 0 then s else rest

abbrev pub NoNul : List ℕ → Type 0
NoNul [] = Unit
NoNul (c ∷ s) = (c ≢ 0) × NoNul s

first_path-append : (s rest : List ℕ) → NoNul s → first_path (s ++ 0 ∷ rest) ≡ s
unfolding first_path
first_path-append [] rest h = refl
first_path-append (c ∷ s) rest h =
    let e : (c == 0) ≡ false = ground (arith, h.0) in
    rw e (ap (λ t. c ∷ t) (first_path-append s rest h.1))

second_part-append : (s rest : List ℕ) → NoNul s → second_part (s ++ 0 ∷ rest) ≡ rest
unfolding second_part
second_part-append [] rest h = refl
second_part-append (c ∷ s) rest h =
    let e : (c == 0) ≡ false = ground (arith, h.0) in rw e (second_part-append s rest h.1)

request_is : (old new : List ℕ) → request old new ≡ old ++ 0 ∷ (new ++ 0 ∷ [])
unfolding request
request_is old new = append_assoc old (0 ∷ new) (0 ∷ [])

report_run :
    {S : Type 0} (old new : List ℕ) (st len : ℕ) (buf : List ℕ) (s : S)
    → ((report old new (replied st len buf, s)).exit ≡ (if st == 0 then 0 else 1))
      × ((report old new (replied st len buf, s)).state ≡ s)
unfolding report
report_run old new st len buf s = elim (Bool-cases (st == 0)) [
  | inl e ↦ (rw e, rw e)
  | inr e ↦ (rw e, rw e)
]

-- SERREN on two paths without NUL that fit: the one request that it sends is at most 512 bytes,
-- its text up to the first NUL is the old path, and the text behind that is the new path. The exit
-- code is 0 if the answer's status is 0, and 1 otherwise.
pub main-request :
    {S : Type 0} (d : Driver S) (port baud old new : List ℕ) (n div st : ℕ) (p : List ℕ) (s s' : S)
    → parse_line port baud ≡ line n div
    → NoNul old
    → NoNul new
    → length old + length new ≤ 510
    → d.call n cmd_rename (request old new) (d.drain n (d.init n div s)) ≡ (ok st p, s')
    → (length (request old new) ≤ 512)
      × (first_path (request old new) ≡ old)
      × (first_path (second_part (request old new)) ≡ new)
      × ((main d (port ∷ baud ∷ old ∷ new ∷ []) s).exit ≡ (if st == 0 then 0 else 1))
      × ((main d (port ∷ baud ∷ old ∷ new ∷ []) s).state ≡ s')
unfolding main
main-request d port baud old new n div st p s s' here no_nul no_nul' fits answered = (
  omega (
    arith,
    ap length (request_is old new),
    length-append old (0 ∷ (new ++ 0 ∷ [])),
    length-append new (0 ∷ []),
  ),
  ap first_path (request_is old new) ∙ first_path-append old (new ++ 0 ∷ []) no_nul,
  ap (λ r. first_path (second_part r)) (request_is old new)
      ∙ ap first_path (second_part-append old (new ++ 0 ∷ []) no_nul)
      ∙ first_path-append new [] no_nul',
  ap (λ r. r.exit) run ∙ (report_run old new st (length p) (overlay 0 p (replicate 512 0)) s').0,
  ap (λ r. r.state) run ∙ (report_run old new st (length p) (overlay 0 p (replicate 512 0)) s').1,
)
  where
    short_enough : ltb 512 (length old + length new + 2) ≡ false
    short_enough = ground (arith, fits)

    run :
        main d (port ∷ baud ∷ old ∷ new ∷ []) s
        ≡ report old new (replied st (length p) (overlay 0 p (replicate 512 0)), s')
    run =
        rw (main, here, short_enough)
          (ap (report old new) (
            rpc-ok d n cmd_rename (request old new) (replicate 512 0) (d.drain n (d.init n div s))
              answered))
