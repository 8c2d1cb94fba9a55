-- ===== src/Shared/Parts/Tests.antt =====
-- An upload of one byte more than two parts.
use edge_sphere_self_hosted.Prelude.{◌≡◌, refl}
use edge_sphere_self_hosted.Shared.Parts.{compute_part_count, get_part_range}

three_parts : compute_part_count 10485761 ≡ 3
unfolding compute_part_count
three_parts = refl

last_part : (get_part_range 3 10485761).size ≡ 1
unfolding get_part_range
last_part = refl
