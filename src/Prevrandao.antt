-- ===== src/Prevrandao.antt =====
-- src/lib.rs: the fixed PREVRANDAO value, and the comparison of a 32-byte hash with it.
-- A `B256` is the list of its bytes, most significant first.
use load_reth.Common.{
  ℕ, ◌≡◌, refl, ◌↔◌, Bool, true, false, ◌&&◌, List, [], ◌∷◌, ◌++◌, arith, ◌==◌, replicate,
}

abbrev pub B256 : Type 0
B256 = List ℕ

-- `a.as_slice() == b`
unfoldable pub slice_eq : List ℕ → List ℕ → Bool
slice_eq [] [] = true
slice_eq [] (y ∷ ys) = false
slice_eq (x ∷ xs) [] = false
slice_eq (x ∷ xs) (y ∷ ys) = (x == y) && slice_eq xs ys

-- `let mut bytes = [0u8; 32]; bytes[31] = 1`
unfoldable pub load_prevrandao : B256
load_prevrandao = replicate 31 0 ++ 1 ∷ []

pub slice_eq_iff : (xs ys : List ℕ) → (slice_eq xs ys ≡ true) ↔ (xs ≡ ys)
unfolding slice_eq
slice_eq_iff [] [] = ground arith
slice_eq_iff [] (y ∷ ys) = ground arith
slice_eq_iff (x ∷ xs) [] = ground arith
slice_eq_iff (x ∷ xs) (y ∷ ys) = ground (arith, slice_eq_iff xs ys)

-- The test that every guard of the program makes.
unfoldable pub is_load_prev_randao : B256 → Bool
is_load_prev_randao b = slice_eq b load_prevrandao

pub is_load_prev_randao_iff : (b : B256) → (is_load_prev_randao b ≡ true) ↔ (b ≡ load_prevrandao)
unfolding is_load_prev_randao
is_load_prev_randao_iff b = slice_eq_iff b load_prevrandao

pub is_load_prev_randao_self : is_load_prev_randao load_prevrandao ≡ true
is_load_prev_randao_self = (is_load_prev_randao_iff load_prevrandao).1 refl
