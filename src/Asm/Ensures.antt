-- ===== src/Asm/Ensures.antt =====
-- Runs that never lack fuel, and that end in a postcondition where they end normally.
use mathlib.Core.Path.{subst}
use amalgam_asm.Base.{refl, Bool, true, false, if◌then◌else◌, ◌≡◌, ◌≢◌}
use amalgam_asm.Asm.State.{Run, ok, fault, out_of_fuel, ◌>>=◌}

pub data Ensures {ℓ κ} {A : Type ℓ} (P : A → Type κ) : Run A → Type (ℓ ⊔ κ) where
  done : {a : A} → P a → Ensures P (ok a)
  fails : Ensures P fault

-- The postcondition of a run that ended normally.
pub post {ℓ κ} : {A : Type ℓ} {P : A → Type κ} {r : Run A} {a : A} → Ensures P r → r ≡ ok a → P a
post {P} (done p) e = subst P (cc) p
post fails e = cc

module _ {ℓ κ} {A : Type ℓ} {P : A → Type κ} where
  pub bind {ι μ} :
      {B : Type ι} {Q : B → Type μ} {r : Run A} {k : A → Run B}
      → Ensures P r
      → ((a : A) → P a → Ensures Q (k a))
      → Ensures Q (r >>= k)
  bind (done p) next = next _ p
  bind fails next = fails

  pub mono {μ} : {Q : A → Type μ} {r : Run A} → Ensures P r → ((a : A) → P a → Q a) → Ensures Q r
  mono (done p) weaken = done (weaken _ p)
  mono fails weaken = fails

  pub both {μ} :
      {Q : A → Type μ} {r : Run A} → Ensures P r → Ensures Q r → Ensures (λ a. P a × Q a) r
  both {Q} (done {a} p) q = done (p, post q refl)
  both fails q = fails

  pub branch : (b : Bool) {x y : Run A} → Ensures P x → Ensures P y → Ensures P (if b then x else y)
  branch true p q = p
  branch false p q = q

  pub fuelled : {r : Run A} → Ensures P r → r ≢ out_of_fuel
  fuelled (done p) e = cc
  fuelled fails e = cc
