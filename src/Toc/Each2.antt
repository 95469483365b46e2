-- ===== src/Toc/Each2.antt =====
-- Relations between two tables of contents, entry by entry.
use fast_page.Prelude.{ℕ, zero, suc, ◌+◌, ◌≡◌, List, [], ◌∷◌, modify_at, arith}
use fast_page.Toc.Entries.{Entry}

-- A relation between the elements at each position
abbrev pub Each2 : (ℕ → Entry → Entry → Type 0) → ℕ → List Entry → List Entry → Type 0
Each2 R i [] [] = Unit
Each2 R i [] (b ∷ ys) = ⊥
Each2 R i (a ∷ xs) [] = ⊥
Each2 R i (a ∷ xs) (b ∷ ys) = R i a b × Each2 R (suc i) xs ys

pub Each2-refl :
    (R : ℕ → Entry → Entry → Type 0) (i : ℕ) (xs : List Entry)
    → ((j : ℕ) (a : Entry) → R j a a)
    → Each2 R i xs xs
Each2-refl R i [] same = tt
Each2-refl R i (a ∷ xs) same = (same i a, Each2-refl R (suc i) xs same)

pub Each2-trans :
    (R : ℕ → Entry → Entry → Type 0) (i : ℕ) (xs ys zs : List Entry)
    → ((j : ℕ) (a b c : Entry) → R j a b → R j b c → R j a c)
    → Each2 R i xs ys
    → Each2 R i ys zs
    → Each2 R i xs zs
Each2-trans R i [] [] [] trans h k = tt
Each2-trans R i [] [] (c ∷ zs) trans h k = k
Each2-trans R i [] (b ∷ ys) zs trans h k = absurd h
Each2-trans R i (a ∷ xs) [] zs trans h k = absurd h
Each2-trans R i (a ∷ xs) (b ∷ ys) [] trans h k = absurd k
Each2-trans R i (a ∷ xs) (b ∷ ys) (c ∷ zs) trans h k =
    (trans i a b c h.0 k.0, Each2-trans R (suc i) xs ys zs trans h.1 k.1)

pub Each2-modify_at :
    (R : ℕ → Entry → Entry → Type 0) (i j : ℕ) (f : Entry → Entry) (xs : List Entry)
    → ((k : ℕ) (a : Entry) → R k a a)
    → ((k : ℕ) (a : Entry) → k ≡ i + j → R k a (f a))
    → Each2 R i xs (modify_at j f xs)
Each2-modify_at R i j f [] same changed = tt
Each2-modify_at R i zero f (a ∷ xs) same changed =
    (changed i a (omega arith), Each2-refl R (suc i) xs same)
Each2-modify_at R i (suc j) f (a ∷ xs) same changed =
    (same i a, Each2-modify_at R (suc i) j f xs same (λ k b e. changed k b (omega (arith, e))))
