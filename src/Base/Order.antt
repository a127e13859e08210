-- ===== src/Base/Order.antt =====
-- Strict orders given by a Boolean test, and the comparison by a key before another comparison.
use mathlib.Core.Path.{◌≡◌}
use mathlib.Core.Bool.{Bool, true, false}
use mathlib.Core.Logic.{ite}
use native.Mathlib.Omega.{arith}

module _ {ℓ} {A : Type ℓ} where
  pub record IsStrict (lt : A → A → Bool) : Type ℓ where
    pub irrefl : (a : A) → lt a a ≡ false
    pub trans : (a b c : A) → lt a b ≡ true → lt b c ≡ true → lt a c ≡ true

  -- Two values of which neither is below the other are equal.
  abbrev pub IsConnected : (A → A → Bool) → Type ℓ
  IsConnected lt = (a b : A) → lt a b ≡ false → lt b a ≡ false → a ≡ b

module _ {ℓ} {A B : Type ℓ} (key : A → B) (same : Discrete B) (below : B → B → Bool)
    (rest : A → A → Bool) where
  abbrev pub by_key : A → A → Bool
  by_key a b = ite (same (key a) (key b)) (rest a b) (below (key a) (key b))

  pub by_key-IsStrict : IsStrict below → IsStrict rest → IsStrict by_key
  by_key-IsStrict hb hr = record {
    irrefl = λ a. ground (arith, hr.irrefl a);
    trans = λ a b c p q. ground (
      arith,
      hr.trans a b c,
      hb.trans (key a) (key b) (key c),
      hb.trans (key b) (key a) (key b),
      hb.irrefl (key b),
      hb.irrefl (key a),
    );
  }

  -- Incomparable values have one key, and are incomparable by the second test.
  pub by_key_incomparable :
      IsConnected below
      → (a b : A) → by_key a b ≡ false
      → by_key b a ≡ false
      → (key a ≡ key b) × (rest a b ≡ false) × (rest b a ≡ false)
  by_key_incomparable connected a b p q = ground (arith, connected (key a) (key b))
