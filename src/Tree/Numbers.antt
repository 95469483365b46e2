-- ===== src/Tree/Numbers.antt =====
-- The number of a node is read back from its id.
use fast_page.Prelude.{
  ℕ, zero, suc, ◌+◌, ◌-◌, ◌*◌, ◌/◌, ◌%◌, ◌<◌, ◌≡◌, refl, ap, ◌∙◌, inl, inr, [], ◌∷◌, arith, ◌==◌,
  length, Bool-cases,
}
use fast_page.Chars.{Text}
use fast_page.Markdown.Build.{decimal_from, decimal, zeros, zfill}
use fast_page.Tree.Nodes.{id_text}

-- The number that decimal digits stand for, after others
abbrev pub read_digits : ℕ → Text → ℕ
read_digits n [] = n
read_digits n (c ∷ cs) = read_digits (n * 10 + (c - 48)) cs

read-decimal_from :
    (fuel n : ℕ) (digits : Text)
    → n < fuel
    → read_digits 0 (decimal_from fuel n digits) ≡ read_digits n digits
unfolding decimal_from
read-decimal_from zero n digits h = absurd (omega arith)
read-decimal_from (suc fuel) n digits h = elim (Bool-cases (n / 10 == 0)) [
  | inl small ↦ rw small (ap (λ k. read_digits k digits) (ground (arith, small)))
  | inr large ↦ rw large (
      read-decimal_from fuel (n / 10) ((48 + n % 10) ∷ digits) (ground (arith, large, h))
      ∙ ap (λ k. read_digits k digits) (omega arith))
]

read-zeros : (k : ℕ) (t : Text) → read_digits 0 (zeros k t) ≡ read_digits 0 t
read-zeros zero t = refl
read-zeros (suc k) t = read-zeros k t

pub read-id_text : (n : ℕ) → read_digits 0 (id_text n) ≡ n
unfolding zfill decimal
read-id_text n =
    read-zeros (4 - length (decimal n)) (decimal n) ∙ read-decimal_from (n + 1) n [] (omega arith)
