-- ===== src/Common/Run.antt =====
-- Code that may return `None`, panic, or recurse without end: a run stops with the reason, where
-- `out_of_fuel` stands for a recursion deeper than the given fuel.
use mathlib.Core.Path.{◌≡◌, refl, subst}
use mathlib.Core.Logic.{◌≢◌}
use mathlib.Core.Option.{Option, none, some}

pub data Stop : Type 0 where
  rejected panicked out_of_fuel : Stop

pub data Run {ℓ} (A : Type ℓ) : Type ℓ where
  done : A → Run A
  stop : Stop → Run A

infixl 10 ◌>>=◌ ◌>>◌
abbrev pub ◌>>=◌ {ℓ κ} : {A : Type ℓ} {B : Type κ} → Run A → (A → Run B) → Run B
done a >>= f = f a
stop s >>= f = stop s

abbrev pub ◌>>◌ {ℓ κ} : {A : Type ℓ} {B : Type κ} → Run A → Run B → Run B
m >> k = m >>= λ _. k

-- `option?`
abbrev pub lift {ℓ} : {A : Type ℓ} → Option A → Run A
lift none = stop rejected
lift (some a) = done a

-- `option.unwrap()`
abbrev pub unwrap {ℓ} : {A : Type ℓ} → Option A → Run A
unwrap none = stop panicked
unwrap (some a) = done a

pub >>=-eq-done {ℓ κ} :
    {A : Type ℓ} {B : Type κ} (m : Run A) (f : A → Run B) {b : B}
    → (m >>= f) ≡ done b
    → (a : A) × (m ≡ done a) × (f a ≡ done b)
>>=-eq-done (done a) f h = (a, refl, h)
>>=-eq-done (stop s) f h = cc

-- A run that the fuel is enough for.
abbrev pub Ends {ℓ} : {A : Type ℓ} → Run A → Type ℓ
Ends m = m ≢ stop out_of_fuel

pub >>=-Ends {ℓ} :
    {A B : Type ℓ} (m : Run A) (f : A → Run B)
    → Ends m
    → ((a : A) → m ≡ done a → Ends (f a))
    → Ends (m >>= f)
>>=-Ends (done a) f h k e = k a refl e
>>=-Ends (stop rejected) f h k e = cc
>>=-Ends (stop panicked) f h k e = cc
>>=-Ends (stop out_of_fuel) f h k e = h refl

pub done-Ends {ℓ} : {A : Type ℓ} (a : A) → Ends (done a)
done-Ends a e = cc

pub lift-Ends {ℓ} : {A : Type ℓ} (o : Option A) → Ends (lift o)
lift-Ends none e = cc
lift-Ends (some a) e = cc

-- The run is done, with a result of which `P` holds.
abbrev pub Yields {ℓ κ} : {A : Type ℓ} → (A → Type κ) → Run A → Type (ℓ ⊔ κ)
Yields P m = (a : _) × (m ≡ done a) × P a

pub >>=-Yields {ℓ κ ι ρ} :
    {A : Type ℓ} {B : Type κ} (P : A → Type ι) (Q : B → Type ρ) (m : Run A) (f : A → Run B)
    → Yields P m
    → ((a : A) → P a → Yields Q (f a))
    → Yields Q (m >>= f)
>>=-Yields P Q m f (a, e, p) k = let (b, e', q) = k a p in (b, rw e e', q)

-- The run ends, and what it gives meets the condition.
abbrev pub Meets {ℓ} : {A : Type 0} → (A → Type ℓ) → Run A → Type ℓ
Meets P m = Ends m × ((a : _) → m ≡ done a → P a)

pub done_inj : {A : Type 0} {a a' : A} → done a ≡ done a' → a ≡ a'
done_inj h = cc

pub done-Meets {ℓ} : {A : Type 0} (P : A → Type ℓ) (a : A) → P a → Meets P (done a)
done-Meets P a p = (λ e. cc, λ b e. subst P (done_inj e) p)

pub >>=-Meets {ℓ κ} :
    {A B : Type 0} (P : A → Type ℓ) (Q : B → Type κ) (m : Run A) (f : A → Run B)
    → Meets P m
    → ((a : A) → P a → Meets Q (f a))
    → Meets Q (m >>= f)
>>=-Meets P Q m f (ends, holds) k = (
  >>=-Ends m f ends (λ a e. (k a (holds a e)).0),
  λ b e. let (a, e1, e2) = >>=-eq-done m f e in (k a (holds a e1)).1 b e2,
)

pub Ends-Meets : {A : Type 0} (m : Run A) → Ends m → Meets {0} (λ a. Unit) m
Ends-Meets m h = (h, λ a e. tt)
