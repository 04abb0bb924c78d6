-- ===== src/Run.antt =====
-- Runs of code with loops on fuel, pointers and semaphores: `fault` is an access outside live
-- memory, `blocked` a `sem_wait` that nobody can end, `out_of_fuel` a loop that has not ended yet.
use catchb.Base.{◌≡◌, refl, ap}

pub data Run {ℓ} (A : Type ℓ) : Type ℓ where
  done : A → Run A
  fault : Run A
  blocked : Run A
  out_of_fuel : Run A

infixl 5 ◌>>=◌
abbrev pub ◌>>=◌ {ℓ κ} : {A : Type ℓ} {B : Type κ} → Run A → (A → Run B) → Run B
done a >>= f = f a
fault >>= f = fault
blocked >>= f = blocked
out_of_fuel >>= f = out_of_fuel

-- The run ends with a result.
abbrev pub IsDone {ℓ} : {A : Type ℓ} → Run A → Type ℓ
IsDone {A = A} r = (a : A) × (r ≡ done a)

pub bind-IsDone {ℓ κ} :
    {A : Type ℓ} {B : Type κ} (r : Run A) (f : A → Run B)
    → IsDone r
    → ((a : A) → IsDone (f a))
    → IsDone (r >>= f)
bind-IsDone r f (a, e) next = let (b, e') = next a in (b, rw e e')

-- What a chain that ended went through.
pub bind-eq-done {ℓ κ} :
    {A : Type ℓ} {B : Type κ} (r : Run A) (f : A → Run B) {b : B}
    → (r >>= f) ≡ done b
    → (a : A) × (r ≡ done a) × (f a ≡ done b)
bind-eq-done (done a) f h = (a, refl, h)
bind-eq-done fault f h = cc
bind-eq-done blocked f h = cc
bind-eq-done out_of_fuel f h = cc

abbrev value {ℓ} : {A : Type ℓ} → A → Run A → A
value a (done b) = b
value a fault = a
value a blocked = a
value a out_of_fuel = a

pub done-injective {ℓ} : {A : Type ℓ} {a b : A} → done a ≡ done b → a ≡ b
done-injective {a = a} h = ap (value a) h
