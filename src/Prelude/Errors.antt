-- ===== src/Prelude/Errors.antt =====
-- Python's exceptions as values, and code that changes a state and may raise.
use gridpulse.Prelude.Tests.{if◌then◌else◌}
use mathlib.Core.Bool.{Bool, true, false}
use mathlib.Core.Option.{Option, none, some}
use mathlib.Core.Path.{◌≡◌, refl}
use mathlib.Core.Logic.{◌⊎◌, inl, inr}
use Prim.Native.Nat.{ℕ}

-- The exceptions that the program raises, catches, or lets through. `http_exception` is FastAPI's,
-- with its status; `http_status_error` and `transport_error` are httpx's, `namespace_exists` and
-- `table_exists` PyIceberg's `…AlreadyExistsError`; `other` stands for any
-- further subclass of `Exception`, and `base_exception` for what `except Exception` lets through.
pub data Exc : Type 0 where
  value_error type_error runtime_error key_error overflow_error : Exc
  validation_error transient_http_error transport_error http_status_error : Exc
  integrity_error data_error undefined_table namespace_exists table_exists os_error : Exc
  http_exception : ℕ → Exc
  other : ℕ → Exc
  base_exception : ℕ → Exc

-- `except Exception` catches it.
abbrev pub is_exception : Exc → Bool
is_exception (base_exception n) = false
is_exception e = true

pub data Result {ℓ} (A : Type ℓ) : Type ℓ where
  ok : A → Result A
  raise : Exc → Result A

infixl 10 ◌>>=◌ ◌>>◌
abbrev pub ◌>>=◌ {ℓ κ} : {A : Type ℓ} {B : Type κ} → Result A → (A → Result B) → Result B
ok a >>= f = f a
raise e >>= f = raise e

abbrev pub ◌>>◌ {ℓ κ} : {A : Type ℓ} {B : Type κ} → Result A → Result B → Result B
m >> k = m >>= λ _. k

-- `os.environ[name]`, of what the environment has for the name.
abbrev pub required {ℓ} : {A : Type ℓ} → Option A → Result A
required none = raise key_error
required (some v) = ok v

-- What was written before a raise stays written.
abbrev pub Exec {ℓ} : Type ℓ → Type ℓ → Type ℓ
Exec S A = S → Result A × S

module _ {ℓ} {S A B : Type ℓ} where
  -- One statement after another.
  abbrev pub continue : Result A × S → (A → Exec S B) → Result B × S
  continue (ok a, s) f = f a s
  continue (raise e, s) f = (raise e, s)

  abbrev pub after : Exec S A → (A → Exec S B) → Exec S B
  after m f s = continue (m s) f

-- A chain that returned went through each of its steps.
pub >>=-eq-ok {ℓ κ} :
    {A : Type ℓ} {B : Type κ} (first : Result A) (next : A → Result B) {end : B}
    → (first >>= next) ≡ ok end
    → (mid : A) × (first ≡ ok mid) × (next mid ≡ ok end)
>>=-eq-ok (ok mid) next e = (mid, refl, e)
>>=-eq-ok (raise x) next e = cc

pub Result-cases {ℓ} :
    {A : Type ℓ} (m : Result A) → ((a : A) × (m ≡ ok a)) ⊎ ((e : Exc) × (m ≡ raise e))
Result-cases (ok a) = inl (a, refl)
Result-cases (raise e) = inr (e, refl)

pub ok-injective {ℓ} : {A : Type ℓ} {a b : A} → ok a ≡ ok b → a ≡ b
ok-injective h = cc

pub ok-ne-raise {ℓ} : {A : Type ℓ} {a : A} {e : Exc} → ok a ≡ raise e → ⊥
ok-ne-raise h = cc

-- Two guards in a row, each with its exception.
pub guards-ok {ℓ} :
    {A : Type ℓ} (b c : Bool) (e f : Exc) {x y : A}
    → (if b then if c then ok x else raise e else raise f) ≡ ok y
    → (b ≡ true) × (c ≡ true) × (x ≡ y)
guards-ok true true e f h = (refl, refl, ok-injective h)
guards-ok true false e f h = cc
guards-ok false c e f h = cc

-- What the `main` of a script returns, which catches `Exception`.
abbrev pub exit_code {ℓ} : {A : Type ℓ} → Result A → Result ℕ
exit_code (ok a) = ok 0
exit_code (raise e) = if is_exception e then ok 1 else raise e
