-- ===== src/Reaggregate/Hashing.antt =====
-- hashAttributes of reaggregation.go does not depend on the order of the attributes.
use Prim.Native.Nat.{bit_xor}
use otel_cardinality_process.Base.{ℕ, ◌≡◌, refl, ap, ◌∙◌}
use mathlib.Core.List.{Permᴰ, Perm}
use mathlib.Core.Logic.{∥∥₁_elim}
use native.Mathlib.Nat.{ℕ_set}
use otel_cardinality_process.Base.Bits.{xor_right_comm}
use otel_cardinality_process.External.{Env, Attrs}
use otel_cardinality_process.Reaggregate.{pair_hash, hash_range, hash_attributes}

module _ (env : Env) where
  open env use {Value}

  hash-Permᴰ : {a b : Attrs Value} (n : ℕ) → Permᴰ a b → hash_range env a n ≡ hash_range env b n
  unfolding hash_range
  hash-Permᴰ n Permᴰ.nil = refl
  hash-Permᴰ n (Permᴰ.cons {l₂ = t} e p) =
      hash-Permᴰ _ p ∙ ap (λ x. hash_range env t (bit_xor n (pair_hash env x))) e
  hash-Permᴰ n (Permᴰ.swap {a = a} {b = b} {a' = c} {l = l} e f) =
      ap (hash_range env l) (xor_right_comm n (pair_hash env a) (pair_hash env b))
      ∙ ap (λ x. hash_range env l (bit_xor (bit_xor n (pair_hash env x)) (pair_hash env a))) f
      ∙ ap (λ x. hash_range env l (bit_xor (bit_xor n (pair_hash env c)) (pair_hash env x))) e
  hash-Permᴰ n (Permᴰ.trans p q) = hash-Permᴰ n p ∙ hash-Permᴰ n q

  -- Two attribute maps with the same pairs have the same hash, in whatever order they hold them.
  pub hash_attributes-perm :
      (a b : Attrs Value) → Perm a b → hash_attributes env a ≡ hash_attributes env b
  unfolding hash_attributes
  hash_attributes-perm a b p = ∥∥₁_elim p (ℕ_set _ _) (λ d. hash-Permᴰ 0 d)
