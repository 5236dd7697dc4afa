-- ===== src/Shared/Results.antt =====
-- Go code that may panic returns a `Result`.
use mathlib.Core.Path.{◌≡◌, refl}
use mathlib.Core.Bool.{Bool, true, false}
use trixorm.Shared.Tests.{if◌then◌else◌}

-- What a panic is about. `bad_index` and `bad_length` are run-time errors of Go, the others are
-- raised by the program.
pub data Panic : Type 0 where
  bad_index bad_length unknown_enum empty_enum wrong_hash no_cache not_loaded : Panic
  track_limit short_words unknown_field wrong_field_type not_searchable missing_pager pager_limit
        missing_prefix page_exceeded not_registered nil_parameter :
      Panic

pub data Result {ℓ} (A : Type ℓ) : Type ℓ where
  ok : A → Result A
  panic : Panic → Result A

abbrev pub then_do {ℓ κ} : {A : Type ℓ} {B : Type κ} → Result A → (A → Result B) → Result B
then_do (ok a) f = f a
then_do (panic p) f = panic p

pub then_do_assoc {ℓ κ μ} :
    {A : Type ℓ} {B : Type κ} {C : Type μ} (r : Result A) (f : A → Result B) (g : B → Result C)
    → then_do (then_do r f) g ≡ then_do r (λ a. then_do (f a) g)
then_do_assoc (ok a) f g = refl
then_do_assoc (panic p) f g = refl

-- A computation that returns went through its first step.
pub then_do_ok {ℓ κ} :
    {A : Type ℓ} {B : Type κ} (r : Result A) (f : A → Result B) (b : B)
    → then_do r f ≡ ok b
    → (a : A) × (r ≡ ok a) × (f a ≡ ok b)
then_do_ok (ok a) f b h = (a, refl, h)
then_do_ok (panic p) f b h = cc

pub ok_inj {ℓ} : {A : Type ℓ} {a b : A} → ok a ≡ ok b → a ≡ b
ok_inj h = cc

-- A guard that did not panic.
pub if_ok {ℓ} :
    {A : Type ℓ} (b : Bool) (r : Result A) (p : Panic) (a : A)
    → (if b then r else panic p) ≡ ok a
    → (b ≡ true) × (r ≡ ok a)
if_ok true r p a h = (refl, h)
if_ok false r p a h = cc
