-- ===== src/Base/Keys.antt =====
-- Decidable equality as an interface, with the instances for texts and tuples of keys.
use Prim.Native.Nat.{ℕ}
use Prim.Native.Char.{code}
use Prim.Native.String.{String}
use mathlib.Core.Path.{◌≡◌}
use mathlib.Core.Logic.{◌↔◌}
use mathlib.Core.Bool.{Bool, true, false, ◌&&◌}
use mathlib.Core.Option.{Option, none, some}
use mathlib.Core.List.{List, [], ◌∷◌}
use native.Mathlib.Omega.{arith}
use wallet_daemon.Base.Tests.{◌==◌}

pub record Eq {ℓ} (A : Type ℓ) : Type ℓ where
  pub beq : A → A → Bool
  pub beq_iff : (a b : A) → (beq a b ≡ true) ↔ (a ≡ b)

abbrev pub equals {ℓ} : {A : Type ℓ} ⦃e : Eq A⦄ → A → A → Bool
equals ⦃e⦄ = e.beq

-- A text is the list of its characters' codes; for ASCII these are its bytes.
abbrev pub Text : Type 0
Text = List ℕ

abbrev pub text : String → Text
text String.[] = []
text (String.◌∷◌ c s) = code c ∷ text s

unfoldable pub text_beq : Text → Text → Bool
text_beq [] [] = true
text_beq [] (_ ∷ _) = false
text_beq (_ ∷ _) [] = false
text_beq (a ∷ s) (b ∷ t) = (a == b) && text_beq s t

pub text_beq_iff : (s t : Text) → (text_beq s t ≡ true) ↔ (s ≡ t)
unfolding text_beq
text_beq_iff [] [] = ground arith
text_beq_iff [] (b ∷ t) = ground arith
text_beq_iff (a ∷ s) [] = ground arith
text_beq_iff (a ∷ s) (b ∷ t) = ground (arith, text_beq_iff s t)

instance abbrev pub text_key : Eq Text
text_key = record { beq = text_beq; beq_iff = text_beq_iff }

abbrev pub option_text_beq : Option Text → Option Text → Bool
option_text_beq none none = true
option_text_beq (some s) (some t) = text_beq s t
option_text_beq _ _ = false

pub option_text_beq_iff : (s t : Option Text) → (option_text_beq s t ≡ true) ↔ (s ≡ t)
option_text_beq_iff none none = ground arith
option_text_beq_iff none (some t) = ground arith
option_text_beq_iff (some s) none = ground arith
option_text_beq_iff (some s) (some t) = ground (arith, text_beq_iff s t)
