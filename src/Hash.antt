-- ===== src/Hash.antt =====
-- typescript/packages/core/src/hash.ts: the change detector of the baseline, FNV-1a on 32 bits.
use varar.Base.{
  ℕ, zero, suc, ◌+◌, ◌-◌, ◌≡◌, refl, ◌*◌, ◌/◌, ◌%◌, ◌^◌, [], ◌∷◌, ◌++◌, ◌==◌, if◌then◌else◌, ltb,
}
use varar.Text.{Text, codes}

-- the exclusive or of the lowest bits
unfoldable pub bit_xor : (bits : ℕ) → ℕ → ℕ → ℕ
bit_xor zero a b = 0
bit_xor (suc bits) a b = (if a % 2 == b % 2 then 0 else 1) + 2 * bit_xor bits (a / 2) (b / 2)

-- the loop; `Math.imul` keeps the lowest 32 bits, and `h >>> 0` reads them without a sign
unfoldable pub hash_from : ℕ → Text → ℕ
unfolding bit_xor
hash_from h [] = h
hash_from h (c ∷ source) = hash_from (bit_xor 32 h c * 0x01000193 % 2 ^ 32) source

abbrev hex_digit : ℕ → ℕ
hex_digit d = if ltb d 10 then b'0' + d else b'a' + (d - 10)

-- `toString(16).padStart(8, '0')` of a number below 2 ^ 32
unfoldable pub hex : (digits : ℕ) → ℕ → Text
hex zero n = []
hex (suc digits) n = hex digits (n / 16) ++ hex_digit (n % 16) ∷ []

unfoldable pub hash_source : Text → Text
unfolding hash_from hex
hash_source source = codes "fnv1a:" ++ hex 8 (hash_from 0x811c9dc5 source)

-- the published value for "foobar"
foobar_hash : hash_source (codes "foobar") ≡ codes "fnv1a:bf9cf968"
unfolding hash_source
foobar_hash = refl
