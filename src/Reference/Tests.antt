-- ===== src/Reference/Tests.antt =====
-- Runs of reference.ts, and its theorem at concrete paths.
use varar.Base.{◌≡◌, refl, inr}
use varar.Text.{codes}
use varar.Reference.{dir_segments, join_posix}
use varar.Reference.Paths.{IsNormal, join_posix-IsNormal}

siblings_join : join_posix (codes "docs/a") (codes "../shared/./b.md") ≡ codes "docs/shared/b.md"
unfolding join_posix
siblings_join = refl

-- Nothing is left to climb out of.
outside : join_posix (codes "docs") (codes "../../b.md") ≡ codes "../b.md"
unfolding join_posix
outside = refl

docs-IsNormal : IsNormal (dir_segments (codes "docs"))
unfolding dir_segments
docs-IsNormal = inr (((λ e. cc), (λ e. cc), (λ e. cc)), tt)

join_posix-IsNormal_example :
    IsNormal (dir_segments (join_posix (codes "docs") (codes "../b/./c/../d.md")))
join_posix-IsNormal_example =
    join_posix-IsNormal (codes "docs") (codes "../b/./c/../d.md") docs-IsNormal
