-- ===== src/Toc/Items.antt =====
-- The entries of a table of contents: the dictionaries that the model answers with, by the keys
-- that pageindex/page_index.py reads.
use fast_page.Prelude.{String, Bool, true, false, Option, none, some, ◌==◌, ◌&&◌, str_eq}
use fast_page.Prelude.Int.{ℤ, pos_part, neg_part}

-- What stands under a key: nothing, `None`, an integer or a text
pub data Slot : Type 0 where
  absent : Slot
  null : Slot
  int : ℤ → Slot
  text : String → Slot

pub record TocItem : Type 0 where
  pub structure : Option String
  pub title : Option String
  pub page : Slot
  pub physical_index : Slot

abbrev pub title_eq : Option String → Option String → Bool
title_eq none none = true
title_eq (some s) (some t) = str_eq s t
title_eq _ _ = false

abbrev pub eq_ℤ : ℤ → ℤ → Bool
eq_ℤ a b = pos_part a == pos_part b && neg_part a == neg_part b
