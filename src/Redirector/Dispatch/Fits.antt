-- ===== src/Redirector/Dispatch/Fits.antt =====
-- The requests of the redirector fit a frame.
use serial_dfs.Base.{ℕ, leb, ◌&&◌, length, Bool, true, Option, some, none, ◌≡◌, ap₂, arith}
use serial_dfs.Redirector.State.{Call, Tsr}
use serial_dfs.Redirector.State.Kept.{Follows, KeptSome}
use serial_dfs.Redirector.Dispatch.{process2f}
use serial_dfs.Redirector.Dispatch.Kept.{Kept-process2f}

-- The same calls, and whether all of them had a payload of 512 bytes at most.
pub watched : {S : Type 0} → Call S → Call (S × Bool)
watched call port cmd payload (s, fits) =
    let (result, s') = call port cmd payload s in (result, (s', fits && leb (length payload) 512))

-- In the state that a handler leaves, if it ends, no call was too large.
pub AllFit : {S : Type 0} → Option (Tsr (S × Bool)) → Type 0
AllFit none = Unit
AllFit (some t) = t.rpc.1 ≡ true

StillFits : {S : Type 0} → S × Bool → S × Bool → Type 0
StillFits s s' = s.1 ≡ true → s'.1 ≡ true

watched-Follows : {S : Type 0} (call : Call S) → Follows (watched call) StillFits
unfolding watched StillFits
watched-Follows call = record {
  same = λ s h. h;
  joins = λ s s' s'' h k fits. k (h fits);
  calls = λ port cmd payload s small fits.
      let e : leb (length payload) 512 ≡ true = ground (arith, small) in ap₂ (λ a b. a && b) fits e;
}

-- Whatever function the redirector is called for and however the server answers, no request that
-- it sends has a payload of more than 512 bytes: a call that starts with none too large sent ends
-- with none too large sent, so `serial_rpc` never refuses one for its size.
pub process2f-AllFit :
    {S : Type 0} (call : Call S) (fuel undef : ℕ) (t : Tsr (S × Bool))
    → t.rpc.1 ≡ true
    → AllFit (process2f (watched call) fuel undef t)
unfolding AllFit StillFits
process2f-AllFit {S} call fuel undef t h =
    ended (process2f (watched call) fuel undef t)
      (Kept-process2f (watched call) StillFits (watched-Follows call) fuel undef t)
  where
    ended : (x : Option (Tsr (S × Bool))) → KeptSome StillFits t x → AllFit x
    ended none k = tt
    ended (some u) k = k.calls_made h
