-- ===== src/Scanner/Rounds.antt =====
-- What holds of every block that a round pushes and of the lines behind it, from the recognisers.
use mathlib.Core.Option
use varar.Base.{List, Option, none, some, All}
use varar.Text.{Text}
use varar.Ast.{Block}
use varar.Scanner.{RawLine}
use varar.Scanner.Blocks.{
  try_fence, try_table, try_thematic, try_blockquote, try_heading, try_list_item, consume_paragraph,
}
use varar.Scanner.Scan.{and_then, or_try, next_block, push, scanned}

-- The result of a recogniser, if it has one, satisfies the predicate.
abbrev pub Holds {ℓ} : {A : Type ℓ} → (A → Type 0) → Option A → Type 0
Holds P none = Unit
Holds P (some a) = P a

module _ (source : Text) (P : Block × List RawLine → Type 0) where
  or_try-Holds :
      (o : Option (Block × List RawLine)) (x : Block × List RawLine)
      → Holds P o
      → P x
      → P (or_try o x)
  or_try-Holds none x h k = k
  or_try-Holds (some y) x h k = h

  and_then-Holds :
      (o : Option Block) (lines : List RawLine) (x : Block × List RawLine)
      → Holds (λ b. P (b, lines)) o
      → P x
      → P (and_then o lines x)
  and_then-Holds none lines x h k = k
  and_then-Holds (some b) lines x h k = h

  pub next_block-Holds :
      (line : RawLine) (lines : List RawLine)
      → Holds P (try_fence source line lines)
      → Holds P (try_table source line lines)
      → Holds (λ b. P (b, lines)) (try_thematic source line)
      → Holds P (try_blockquote source line lines)
      → Holds (λ b. P (b, lines)) (try_heading source line)
      → Holds (λ b. P (b, lines)) (try_list_item source line)
      → P (consume_paragraph source line lines)
      → P (next_block source line lines)
  unfolding next_block
  next_block-Holds line lines f t b q h l p = or_try-Holds _ _ f (
      or_try-Holds _ _ t (
        and_then-Holds _ lines _ b
          (or_try-Holds _ _ q (and_then-Holds _ lines _ h (and_then-Holds _ lines _ l p)))))

pub scanned-All :
    (source : Text) (P : Block → Type 0) (x : Option Block) (o : Option (List Block))
    → Holds P x
    → All P (scanned o)
    → All P (scanned (Option.map (push source x) o))
scanned-All source P x none p a = tt
scanned-All source P none (some blocks) p a = a
scanned-All source P (some b) (some blocks) p a = (p, a)
