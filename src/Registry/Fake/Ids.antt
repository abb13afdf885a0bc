-- ===== src/Registry/Fake/Ids.antt =====
-- The ids of the in-memory registry: a new id is one that no row has.
use Prim.Native.Char.{code}
use native.Mathlib.Nat.{pow-suc}
use eudi_api_management.Base.{
  ℕ, zero, suc, ◌+◌, ◌-◌, ◌*◌, ◌/◌, ◌%◌, ◌^◌, ◌<◌, String, ◌≡◌, refl, ap, ◌∙◌, arith,
}
use eudi_api_management.Text.{append}
use eudi_api_management.Registry.Fake.{Fake, digit, decimal, next_id}

-- the number that digits stand for, behind a number
abbrev number_of : ℕ → String → ℕ
number_of n String.[] = n
number_of n (String.◌∷◌ c s) = number_of (n * 10 + (code c - 48)) s

number_of-append : (n : ℕ) (s t : String) → number_of n (append s t) ≡ number_of (number_of n s) t
number_of-append n String.[] t = refl
number_of-append n (String.◌∷◌ c s) t = number_of-append (n * 10 + (code c - 48)) s t

number_of-digit : (n d : ℕ) → d < 10 → number_of n (digit d) ≡ n * 10 + d
number_of-digit n zero h = omega arith
number_of-digit n (suc zero) h = omega arith
number_of-digit n (suc (suc zero)) h = omega arith
number_of-digit n (suc (suc (suc zero))) h = omega arith
number_of-digit n (suc (suc (suc (suc zero)))) h = omega arith
number_of-digit n (suc (suc (suc (suc (suc zero))))) h = omega arith
number_of-digit n (suc (suc (suc (suc (suc (suc zero)))))) h = omega arith
number_of-digit n (suc (suc (suc (suc (suc (suc (suc zero))))))) h = omega arith
number_of-digit n (suc (suc (suc (suc (suc (suc (suc (suc zero)))))))) h = omega arith
number_of-digit n (suc (suc (suc (suc (suc (suc (suc (suc (suc zero))))))))) h = omega arith
number_of-digit n (suc (suc (suc (suc (suc (suc (suc (suc (suc (suc d)))))))))) h =
    absurd (omega arith)

-- Digits read back as the number that they were written for, if there is room for it.
number_of-decimal :
    (width n m : ℕ) → m < 10 ^ width → number_of n (decimal width m) ≡ n * 10 ^ width + m
unfolding decimal
number_of-decimal zero n m h = omega arith
number_of-decimal (suc width) n m h =
    number_of-append n (decimal width (m / 10)) (digit (m % 10))
    ∙ number_of-digit _ (m % 10) (omega arith)
    ∙ omega (
      arith,
      number_of-decimal width n (m / 10) (omega (arith, pow-suc 10 width)),
      ap (λ (t : ℕ). n * t) (pow-suc 10 width),
    )

-- the id with a number
abbrev pub id_of : ℕ → String
id_of k = append "01JZXFAKE" (decimal 17 k)

next_id_lem : (f : Fake) → next_id f ≡ (id_of (suc f.seq), record f { seq = suc f.seq })
unfolding next_id
next_id_lem f = refl

-- the number of an id
abbrev number_in : String → ℕ
number_in
      (String.◌∷◌ _ (
        String.◌∷◌ _ (
          String.◌∷◌ _ (
            String.◌∷◌ _
              (String.◌∷◌ _ (String.◌∷◌ _ (String.◌∷◌ _ (String.◌∷◌ _ (String.◌∷◌ _ s))))))))) =
    number_of 0 s
number_in _ = 0

pub id_of-inj : (j k : ℕ) → j < 10 ^ 17 → k < 10 ^ 17 → id_of j ≡ id_of k → j ≡ k
id_of-inj j k hj hk h =
    omega (arith, ap number_in h, number_of-decimal 17 0 j hj, number_of-decimal 17 0 k hk)
