-- ===== src/Redirector/State/Update.antt =====
-- The map of a far pointer's object, changed.
use serial_dfs.Base.{ℕ, ◌==◌, ==_iff, if◌then◌else◌, Bool, true, false, ◌≡◌, refl, ap, sym, arith}
use mathlib.Core.Path.{fun_ext}
use serial_dfs.Redirector.State.{update}

choice_same : {A : Type 0} (b : Bool) (x y : A) → (b ≡ true → x ≡ y) → y ≡ (if b then x else y)
choice_same true x y h = sym (h refl)
choice_same false x y h = refl

choice_twice :
    {A : Type 0} (b : Bool) (x y z : A)
    → (if b then x else if b then y else z) ≡ (if b then x else z)
choice_twice true x y z = refl
choice_twice false x y z = refl

pub update_same : {A : Type 0} (f : ℕ → A) (p : ℕ) → f ≡ update f p (f p)
update_same f p = fun_ext λ q. choice_same (p == q) (f p) (f q) λ same. ap f ((==_iff p q).0 same)

pub update_twice :
    {A : Type 0} (f : ℕ → A) (p : ℕ) (a b : A) → update (update f p a) p b ≡ update f p b
update_twice f p a b = fun_ext λ q. choice_twice (p == q) b a (f q)

pub self_test : (p : ℕ) → (p == p) ≡ true
self_test p = ground arith

pub update_at : {A : Type 0} (f : ℕ → A) (p : ℕ) (a : A) → update f p a p ≡ a
update_at f p a = rw (self_test p)
