-- ===== src/Pager/Samples.antt =====
-- The second page of five items.
use smartlibs.Prelude.{ℕ, [], ◌∷◌, ◌≡◌, refl, false}
use smartlibs.Pager.{page}

second_page : (page {A = ℕ} 2 2 false (5 ∷ 6 ∷ 7 ∷ 8 ∷ 9 ∷ [])).0 ≡ 7 ∷ 8 ∷ []
unfolding page
second_page = refl
