-- ===== src/Redirector/Names/Fcb.antt =====
-- The FCB form of a name: which bytes it depends on.
use serial_dfs.Base.{ℕ, ◌≤◌, List, take, ◌≡◌, ap, replicate, take-take}
use serial_dfs.Redirector.Names.{name_part, after_name, name83_to_fcb}

-- Only the 12 bytes of the name field count.
pub name83_to_fcb-take : (n : ℕ) (e : List ℕ) → 12 ≤ n → name83_to_fcb (take n e) ≡ name83_to_fcb e
unfolding name83_to_fcb
name83_to_fcb-take n e h = ap (λ name. name83_to_fcb_of name) (take-take 12 n e h)
  where
    name83_to_fcb_of : List ℕ → List ℕ
    name83_to_fcb_of name =
        let (fcb, rest) = name_part name 0 (replicate 11 b' ') in after_name rest fcb
