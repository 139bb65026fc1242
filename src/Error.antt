-- ===== src/Error.antt =====
-- src/core/error.rs, and the `Result` that fallible functions return.
use pidag.Base.{◌≡◌, refl, ap, subst, Bool, true, false, List, [], ◌∷◌, arith, All}
use pidag.Text.{Text}

pub data PidagError : Type 0 where
  parse : Text → PidagError
  cycle unknown_dependency no_eligible_model : PidagError
  validation : Text → PidagError
  worker_failed : PidagError
  worker_spawn : Text → PidagError
  timeout : PidagError
  store : Text → PidagError

pub data Result {ℓ} (T : Type ℓ) : Type ℓ where
  ok : T → Result T
  err : PidagError → Result T

infixl 5 ◌>>=◌ ◌>>◌
abbrev pub ◌>>=◌ {ℓ κ} : {T : Type ℓ} {U : Type κ} → Result T → (T → Result U) → Result U
ok t >>= next = next t
err failure >>= next = err failure

abbrev pub ◌>>◌ {ℓ} : {U : Type ℓ} → Result (Unit {0}) → Result U → Result U
first >> then_do = first >>= λ _. then_do

-- `if b { return Err(e) }`.
abbrev pub fail_if : Bool → PidagError → Result (Unit {0})
fail_if true e = err e
fail_if false e = ok tt

-- A `for` loop whose body may return an error.
abbrev pub for_each_ok {ℓ} : {T : Type ℓ} → (T → Result (Unit {0})) → List T → Result (Unit {0})
for_each_ok f [] = ok tt
for_each_ok f (x ∷ xs) = f x >> for_each_ok f xs

pub >>=-eq-ok {ℓ κ} :
    {T : Type ℓ} {U : Type κ} (r : Result T) (next : T → Result U) {u : U}
    → (r >>= next) ≡ ok u
    → (t : T) × (r ≡ ok t) × (next t ≡ ok u)
>>=-eq-ok (ok t) next h = (t, refl, h)
>>=-eq-ok (err failure) next h = cc

pub >>-eq-ok {ℓ} :
    {U : Type ℓ} (m : Result (Unit {0})) (k : Result U) {b : U}
    → (m >> k) ≡ ok b
    → (m ≡ ok tt) × (k ≡ ok b)
>>-eq-ok (ok a) k h = (refl, h)
>>-eq-ok (err e) k h = cc

pub fail_if-eq-ok : (b : Bool) (e : PidagError) → fail_if b e ≡ ok tt → b ≡ false
fail_if-eq-ok b e h = ground arith

pub for_each_ok-All {ℓ} :
    {T : Type ℓ} (f : T → Result (Unit {0})) (xs : List T)
    → for_each_ok f xs ≡ ok tt
    → All (λ x. f x ≡ ok tt) xs
for_each_ok-All f [] h = tt
for_each_ok-All f (x ∷ xs) h =
    let (first, rest) = >>-eq-ok (f x) (for_each_ok f xs) h in (first, for_each_ok-All f xs rest)

pub for_each_ok_of_All {ℓ} :
    {T : Type ℓ} (f : T → Result (Unit {0})) (xs : List T)
    → All (λ x. f x ≡ ok tt) xs
    → for_each_ok f xs ≡ ok tt
for_each_ok_of_All f [] h = refl
for_each_ok_of_All f (x ∷ xs) h = rw (h.0, for_each_ok_of_All f xs h.1)

-- `P` holds of the value, if there is one.
abbrev pub OnOk {ℓ κ} : {T : Type ℓ} → (T → Type κ) → Result T → Type κ
OnOk P (ok a) = P a
OnOk P (err e) = Unit

pub OnOk->>= {ℓ κ μ ν} :
    {T : Type ℓ} {U : Type κ} (P : T → Type μ) (Q : U → Type ν) (m : Result T) (f : T → Result U)
    → OnOk P m
    → ((a : T) → P a → OnOk Q (f a))
    → OnOk Q (m >>= f)
OnOk->>= P Q (ok a) f p k = k a p
OnOk->>= P Q (err e) f p k = tt

pub OnOk->> {ℓ κ} :
    {U : Type ℓ} (Q : U → Type κ) (m : Result (Unit {0})) (k : Result U)
    → (m ≡ ok tt → OnOk Q k)
    → OnOk Q (m >> k)
OnOk->> Q (ok a) k q = q refl
OnOk->> Q (err e) k q = tt

pub OnOk-ok {ℓ κ} : {T : Type ℓ} (P : T → Type κ) (m : Result T) {a : T} → OnOk P m → m ≡ ok a → P a
OnOk-ok {T} P (ok b) p e = subst P (ok-injective e) p
  where
    value : Result T → T
    value (ok c) = c
    value (err c) = b

    ok-injective : {a : T} → ok b ≡ ok a → b ≡ a
    ok-injective e = ap value e
OnOk-ok P (err c) p e = cc
