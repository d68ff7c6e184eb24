-- ===== src/Promotion/Reference.antt =====
-- `require_digest_reference` of scripts/pipeline/artifacts/image_reference.py, on code points.
use alric_containers_image_b.Base.{
  ℕ, String, Bool, false, not, ◌&&◌, ◌||◌, List, [], ◌∷◌, ◌++◌, length, all, leb, ◌==◌,
  if◌then◌else◌,
}
use alric_containers_image_b.Base.Decimal.{codes, is_digit}

abbrev at_sign : ℕ
at_sign = b'@'

-- `\s` of Python on texts.
unfoldable pub is_space : ℕ → Bool
is_space c =
    (leb 9 c && leb c 13)
    || (leb 28 c && leb c 32)
    || c == 133
    || c == 160
    || c == 5760
    || (leb 8192 c && leb c 8202)
    || c == 8232
    || c == 8233
    || c == 8239
    || c == 8287
    || c == 12288

unfoldable pub is_hex : ℕ → Bool
is_hex c = is_digit c || (leb b'a' c && leb c b'f')

-- The characters before the first at sign, and the rest from there.
unfoldable pub until_at : List ℕ → List ℕ × List ℕ
until_at [] = ([], [])
until_at (c ∷ cs) =
    let (image, rest) = until_at cs in if c == at_sign then ([], c ∷ cs) else (c ∷ image, rest)

unfoldable pub is_image : List ℕ → Bool
unfolding is_space
is_image [] = false
is_image (c ∷ cs) = not (c == b'-') && all (λ d. not (is_space d)) (c ∷ cs)

-- The at sign, `sha256:` and the 64 characters of the digest.
unfoldable pub is_digest_part : List ℕ → Bool
unfolding is_hex
is_digest_part (a ∷ s ∷ h ∷ x ∷ two ∷ five ∷ six ∷ colon ∷ digest) =
    a == at_sign
    && s == b's'
    && h == b'h'
    && x == b'a'
    && two == b'2'
    && five == b'5'
    && six == b'6'
    && colon == b':'
    && length digest == 64
    && all is_hex digest
is_digest_part _ = false

unfoldable pub is_digest_reference : List ℕ → Bool
unfolding until_at is_image is_digest_part
is_digest_reference cs = let (image, rest) = until_at cs in is_image image && is_digest_part rest

-- `f'{registry}/image-base-{name}@{digest}'`
unfoldable pub is_reference : String → String → String → Bool
unfolding is_digest_reference
is_reference registry name digest =
    is_digest_reference
      (codes registry ++ (codes "/image-base-" ++ (codes name ++ at_sign ∷ codes digest)))
