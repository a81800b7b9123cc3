-- ===== src/Api/Result.antt =====
-- A Python call that may raise an application error.
use nextballup.Prelude.{Bool, true, false, not, ◌≡◌, refl, ap, ◌⊎◌, inl, inr}
use nextballup.Core.Errors.{AppError, ErrorClass, ErrorCode}

-- What a call returns, or the error that it raises.
pub data Result {κ} (T : Type κ) : Type κ where
  err : AppError → Result T
  ok : T → Result T

infixl 6 ◌>>=◌
-- The rest of a handler is skipped once a call has raised.
abbrev pub ◌>>=◌ {κ μ} : {T : Type κ} → {S : Type μ} → Result T → (T → Result S) → Result S
err error >>= _ = err error
ok value >>= next = next value

infixl 6 ◌>>◌
-- A check before the rest of a handler.
abbrev pub ◌>>◌ {μ} : {S : Type μ} → Result (Unit {0}) → Result S → Result S
check >> rest = check >>= λ _. rest

abbrev pub app_error : ErrorClass → ErrorCode → AppError
app_error c e = record { error_class = c; code = e }

-- `if condition: raise error`
abbrev pub raise_if : Bool → ErrorClass → ErrorCode → Result (Unit {0})
raise_if true c e = err (app_error c e)
raise_if false c e = ok tt

pub raise_if-not :
    (condition : Bool) (c : ErrorClass) (e : ErrorCode) {done : Unit {0}}
    → raise_if (not condition) c e ≡ ok done
    → condition ≡ true
raise_if-not true c e h = refl
raise_if-not false c e h = absurd (cc h)

pub ok-injective {κ} : {T : Type κ} {a b : T} → ok a ≡ ok b → a ≡ b
ok-injective {T} {a} {b} h = ap (λ (r : Result T). elim r [ ok x ↦ x | err _ ↦ a ]) h

-- What a chain of calls returned is what its last call returned on what the first one returned.
pub bind_ok :
    {T : Type 0} {S : Type 0} (call : Result T) (rest : T → Result S) {last : S}
    → (call >>= rest) ≡ ok last
    → (value : T) × ((call ≡ ok value) × (rest value ≡ ok last))
bind_ok (err error) rest e = absurd (cc e)
bind_ok (ok value) rest e = (value, (refl, e))

pub Result-cases {ℓ} :
    {A : Type ℓ} (r : Result A) → ((a : A) × (r ≡ ok a)) ⊎ ((e : AppError) × (r ≡ err e))
Result-cases (ok a) = inl (a, refl)
Result-cases (err e) = inr (e, refl)
