-- ===== src/Notification/Paging/Tests.antt =====
-- Pages of a short list.
use edge_sphere_self_hosted.Prelude.{ℕ, ◌≡◌, refl, List, [], ◌∷◌, some}
use edge_sphere_self_hosted.Notification.Paging.{num, text, get_page, plus, query_page, digits}

abbrev six : List ℕ
six = 1 ∷ 2 ∷ 3 ∷ 4 ∷ 5 ∷ 6 ∷ []

-- The second page of two: as numbers, and as the texts of a query.
second_page : (get_page six (num 2) (num 2)).items ≡ 3 ∷ 4 ∷ []
unfolding get_page plus
second_page = refl

second_page_of_texts : (query_page six (some (text 2)) (some (text 2))).items ≡ 3 ∷ 4 ∷ 5 ∷ 6 ∷ []
unfolding query_page plus digits
second_page_of_texts = refl
