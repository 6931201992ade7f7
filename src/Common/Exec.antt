-- ===== src/Common/Exec.antt =====
-- Methods that change an object and may throw: what was changed before a throw stays changed, so
-- the state comes back in every case.
use mathlib.Core.Path.{◌≡◌, refl}
use mathlib.Core.Bool.{Bool, true, false}
use tiny_kv.Common.Tests.{if◌then◌else◌}
use tiny_kv.Common.Outcome.{Outcome, ok, throws, fault}

abbrev pub Exec : Type 0 → Type 0 → Type 0
Exec S A = S → Outcome A × S

abbrev pub continue : {S A B : Type 0} → Outcome A → (A → Exec S B) → Exec S B
continue (ok a) f s = f a s
continue (throws x) f s = (throws x, s)
continue fault f s = (fault, s)

infixl 5 ◌>>=◌ ◌>>◌
abbrev pub ◌>>=◌ : {S A B : Type 0} → Exec S A → (A → Exec S B) → Exec S B
◌>>=◌ m f s = let (r, s') = m s in continue r f s'

abbrev pub ◌>>◌ : {S B : Type 0} → Exec S (Unit {0}) → Exec S B → Exec S B
m >> k = m >>= λ _. k

abbrev pub pure : {S A : Type 0} → A → Exec S A
pure a s = (ok a, s)

abbrev pub modify : {S : Type 0} → (S → S) → Exec S (Unit {0})
modify f s = (ok tt, f s)

abbrev pub gets : {S A : Type 0} → (S → A) → Exec S A
gets f s = (ok (f s), s)

-- under a guard that holds, a call whose result is dropped
pub guarded_call :
    {S A B : Type 0} (b : Bool) (call : Exec S A) (go : Exec S B) (s : S)
    → b ≡ true
    → ((if b then (call >>= λ _. pure tt) else pure tt) >> go) s
      ≡ continue (call s).0 (λ _. go) (call s).1
guarded_call false call go s h = cc
guarded_call {S = S} {A = A} {B = B} true call go s h = at (call s)
  where
    at :
        (r : Outcome A × S)
        → continue
            (continue r.0 (λ _. pure (tt {0})) r.1).0
            (λ _. go)
            (continue r.0 (λ _. pure (tt {0})) r.1).1
          ≡ continue r.0 (λ _. go) r.1
    at (ok a, s') = refl
    at (throws x, s') = refl
    at (fault, s') = refl
