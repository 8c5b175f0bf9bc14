-- ===== src/Tokens/Bearer.antt =====
-- `extractBearerToken` of backend/src/utils/tokens.js, over code points.
use transactguard.Prelude.{
  ℕ, ◌+◌, ◌≡◌, ◌≢◌, refl, Bool, false, ◌&&◌, ◌||◌, Option, none, some, List, [], ◌∷◌, ◌++◌, leb,
  ◌==◌, if◌then◌else◌, All, arith,
}

-- `s.split(' ')`: the first part, and the second if there is one.
first_part : List ℕ → List ℕ
first_part [] = []
first_part (c ∷ s) = if c == 32 then [] else c ∷ first_part s

-- What stands behind the first space.
second_on : List ℕ → Option (List ℕ)
second_on [] = none
second_on (c ∷ s) = if c == 32 then some s else second_on s

-- The characters that `trim` takes off.
unfoldable pub is_space : ℕ → Bool
is_space c =
    (leb 9 c && leb c 13)
    || c == 32
    || c == 160
    || c == 5760
    || (leb 8192 c && leb c 8202)
    || c == 8232
    || c == 8233
    || c == 8239
    || c == 8287
    || c == 12288
    || c == 65279

trim_start : List ℕ → List ℕ
trim_start [] = []
trim_start (c ∷ s) = if is_space c then trim_start s else c ∷ s

-- The text without the spaces at its end.
before : ℕ → List ℕ → List ℕ
before c [] = if is_space c then [] else c ∷ []
before c (d ∷ s) = c ∷ d ∷ s

trim_end : List ℕ → List ℕ
unfolding before
trim_end [] = []
trim_end (c ∷ s) = before c (trim_end s)

lower : ℕ → ℕ
lower c = if leb b'A' c && leb c b'Z' then c + 32 else c

-- The scheme, lower-cased, is "bearer".
pub is_bearer : List ℕ → Bool
unfolding lower
is_bearer (b ∷ e ∷ a ∷ r ∷ e' ∷ r' ∷ []) =
    lower b == b'b'
    && lower e == b'e'
    && lower a == b'a'
    && lower r == b'r'
    && lower e' == b'e'
    && lower r' == b'r'
is_bearer _ = false

non_empty : List ℕ → Option (List ℕ)
non_empty [] = none
non_empty (c ∷ s) = some (c ∷ s)

second_part : Option (List ℕ) → List ℕ
second_part none = []
second_part (some s) = first_part s

-- The header is a string; an absent one is `none`.
pub extract_bearer_token : Option (List ℕ) → Option (List ℕ)
unfolding non_empty second_part
extract_bearer_token none = none
extract_bearer_token (some header) =
    if is_bearer (first_part header)
    then non_empty (trim_end (trim_start (second_part (second_on header))))
    else none

-- A character that may stand in a token.
abbrev pub IsPlain : ℕ → Type 0
IsPlain c = is_space c ≡ false

first_part-plain : (s : List ℕ) → All IsPlain s → first_part s ≡ s
unfolding first_part is_space
first_part-plain [] h = refl
first_part-plain (c ∷ s) h = ground (arith, first_part-plain s h.1)

trim_end-plain : (s : List ℕ) → All IsPlain s → trim_end s ≡ s
unfolding trim_end
trim_end-plain [] h = refl
trim_end-plain (c ∷ []) h = rw h.0
trim_end-plain (c ∷ d ∷ s) h = ground (arith, trim_end-plain (d ∷ s) h.1)

trim_start-plain : (s : List ℕ) → All IsPlain s → trim_start s ≡ s
unfolding trim_start
trim_start-plain [] h = refl
trim_start-plain (c ∷ s) h = rw h.0

first_part-split : (s rest : List ℕ) → All IsPlain s → first_part (s ++ (32 ∷ rest)) ≡ s
unfolding first_part is_space
first_part-split [] rest h = refl
first_part-split (c ∷ s) rest h = ground (arith, first_part-split s rest h.1)

second_on-split : (s rest : List ℕ) → All IsPlain s → second_on (s ++ (32 ∷ rest)) ≡ some rest
unfolding second_on is_space
second_on-split [] rest h = refl
second_on-split (c ∷ s) rest h = ground (arith, second_on-split s rest h.1)

non_empty-some : (s : List ℕ) → s ≢ [] → non_empty s ≡ some s
unfolding non_empty
non_empty-some [] h = absurd (h refl)
non_empty-some (c ∷ s) h = refl

-- A token of plain characters, not empty, behind a scheme that reads "bearer" in any case, is found
-- as it is; behind any other plain scheme nothing is found.
pub extract_bearer_token_finds :
    (scheme token : List ℕ)
    → All IsPlain scheme
    → All IsPlain token
    → token ≢ []
    → extract_bearer_token (some (scheme ++ (32 ∷ token)))
      ≡ (if is_bearer scheme then some token else none)
unfolding extract_bearer_token
extract_bearer_token_finds scheme token hs ht ne =
    rw (first_part-split scheme token hs, second_on-split scheme token hs)
      (rw (first_part-plain token ht) (
        rw (trim_start-plain token ht)
          (rw (trim_end-plain token ht) (rw (non_empty-some token ne)))))

second_on-plain : (s : List ℕ) → All IsPlain s → second_on s ≡ none
unfolding second_on is_space
second_on-plain [] h = refl
second_on-plain (c ∷ s) h = ground (arith, second_on-plain s h.1)

-- A text of plain characters, with no scheme before it, carries none.
pub extract_bearer_token_bare :
    (token : List ℕ) → All IsPlain token → extract_bearer_token (some token) ≡ none
unfolding extract_bearer_token second_part trim_start trim_end non_empty first_part
extract_bearer_token_bare token h = rw (second_on-plain token h) (ground arith)

pub extract_bearer_token-none : extract_bearer_token none ≡ none
unfolding extract_bearer_token
extract_bearer_token-none = refl
