-- ===== src/Shard/Message/Ends.antt =====
-- How a handling ends: with a result, or in a panic.
use binance_feed_handler.Base.{
  ℕ, zero, suc, ◌≤◌, ◌≡◌, refl, Bool, true, false, List, [], ◌∷◌, Option, none, some, arith, length,
}
use binance_feed_handler.Shard.State.{modify_at}

-- What holds of the result, or of the panic.
abbrev pub Ends {ℓ κ} : {A : Type ℓ} → (A → Type κ) → Type κ → Option A → Type κ
Ends P Z none = Z
Ends P Z (some a) = P a

pub Ends-bind {ℓ κ μ} :
    {A : Type ℓ} {B : Type κ} (Q : A → Type μ) (P : B → Type μ) (Z : Type μ) (o : Option A)
    (k : A → Option B)
    → Ends Q Z o
    → ((a : A) → Q a → Ends P Z (k a))
    → Ends P Z (elim o [ none ↦ none | some a ↦ k a ])
Ends-bind Q P Z none k q f = q
Ends-bind Q P Z (some a) k q f = f a q

pub Ends-test {ℓ κ} :
    {A : Type ℓ} (P : A → Type κ) (Z : Type κ) (b : Bool) (x y : Option A)
    → (b ≡ true → Ends P Z x)
    → (b ≡ false → Ends P Z y)
    → Ends P Z (elim b [ true ↦ x | false ↦ y ])
Ends-test P Z true x y f g = f refl
Ends-test P Z false x y f g = g refl

pub Ends-elim {ℓ κ μ} :
    {A : Type ℓ} {B : Type κ} (P : B → Type μ) (Z : Type μ) (o : Option A) (x : Option B)
    (k : A → Option B)
    → (o ≡ none → Ends P Z x)
    → ((a : A) → o ≡ some a → Ends P Z (k a))
    → Ends P Z (elim o [ none ↦ x | some a ↦ k a ])
Ends-elim P Z none x k f g = f refl
Ends-elim P Z (some a) x k f g = g a refl

pub Ends-imp {ℓ κ} :
    {A : Type ℓ} {P Q : A → Type κ} (Z : Type κ) (o : Option A)
    → ((a : A) → P a → Q a)
    → Ends P Z o
    → Ends Q Z o
Ends-imp Z none f h = h
Ends-imp Z (some a) f h = f a h

pub Ends-self {ℓ} :
    {A : Type ℓ} (Z : Type ℓ) (o : Option A) → (o ≡ none → Z) → Ends (λ a. o ≡ some a) Z o
Ends-self Z none f = f refl
Ends-self Z (some a) f = refl

pub Ends-both {ℓ κ} :
    {A : Type ℓ} (P Q : A → Type κ) (Z : Type κ) (o : Option A)
    → Ends P Z o
    → Ends Q Z o
    → Ends (λ a. P a × Q a) Z o
Ends-both P Q Z none p q = p
Ends-both P Q Z (some a) p q = (p, q)

pub Ends-fail {ℓ κ} :
    {A : Type ℓ} (P : A → Type κ) {Z : Type κ} {W : Type κ}
    → (Z → W)
    → (o : Option A) → Ends P Z o
    → Ends P W o
Ends-fail P f none h = f h
Ends-fail P f (some a) h = h

module _ {ℓ} {A : Type ℓ} where
  -- A write through an index panics past the end, and keeps the length.
  pub modify_at-Ends :
      {Z : Type 0} (i : ℕ) (f : A → A) (xs : List A)
      → (length xs ≤ i → Z)
      → Ends (λ ys. length ys ≡ length xs) Z (modify_at i f xs)
  unfolding modify_at
  modify_at-Ends i f [] z = z (omega arith)
  modify_at-Ends zero f (x ∷ xs) z = refl
  modify_at-Ends {Z} (suc i) f (x ∷ xs) z =
      Ends-bind (λ ys. length ys ≡ length xs) (λ ys. length ys ≡ suc (length xs)) Z
        (modify_at i f xs) _ (modify_at-Ends i f xs λ h. z (omega (arith, h)))
        λ ys e. omega (arith, e)
