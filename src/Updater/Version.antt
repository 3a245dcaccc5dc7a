-- ===== src/Updater/Version.antt =====
-- cli/src/lib/updater.ts: `isNewerVersion`. Versions are read exactly; `Number` rounds from 2^53 on.
use hisohiso.Prelude.{
  ℕ, Bool, true, false, Option, none, some, List, [], ◌∷◌, all, ltb, ◌==◌, if◌then◌else◌, ◌≡◌,
  arith,
}
use hisohiso.Text.{Text, is_digit, split_on, decimal}

pub record Version : Type 0 where
  pub major : ℕ
  pub minor : ℕ
  pub patch : ℕ

-- `\d+`
abbrev pub number_of : Text → Option ℕ
number_of [] = none
number_of (c ∷ cs) = if all is_digit (c ∷ cs) then some (decimal (c ∷ cs)) else none

abbrev pub version : Option ℕ → Option ℕ → Option ℕ → Option Version
version (some a) (some b) (some c) = some (record { major = a; minor = b; patch = c })
version a b c = none

-- `s.replace(/^v/, '')`
abbrev pub without_v : Text → Text
without_v [] = []
without_v (c ∷ cs) = if c == 118 then cs else c ∷ cs

abbrev pub of_parts : List Text → Option Version
of_parts (a ∷ b ∷ c ∷ []) = version (number_of a) (number_of b) (number_of c)
of_parts parts = none

unfoldable pub parse_version : Text → Option Version
parse_version s = of_parts (split_on 46 (without_v s))

-- The loop over the three numbers.
abbrev pub newer : Version → Version → Bool
newer a b =
    if ltb b.major a.major
    then true
    else if ltb a.major b.major
    then false
    else if ltb b.minor a.minor
    then true
    else if ltb a.minor b.minor
    then false
    else ltb b.patch a.patch

abbrev pub compared : Option Version → Option Version → Bool
compared (some a) (some b) = newer a b
compared a b = false

-- `isNewerVersion`
unfoldable pub is_newer_version : Text → Text → Bool
unfolding parse_version
is_newer_version remote_tag current = compared (parse_version remote_tag) (parse_version current)

compared_asym : (a b : Option Version) → compared a b ≡ true → compared b a ≡ false
compared_asym none b h = absurd (cc h)
compared_asym (some a) none h = absurd (cc h)
compared_asym (some a) (some b) h = ground arith

-- No two versions are each newer than the other, so two releases never replace each other in turn.
pub is_newer_version_asym :
    (a b : Text) → is_newer_version a b ≡ true → is_newer_version b a ≡ false
unfolding is_newer_version
is_newer_version_asym a b h = compared_asym (parse_version a) (parse_version b) h

compared_trans :
    (a b c : Option Version) → compared a b ≡ true → compared b c ≡ true → compared a c ≡ true
compared_trans none b c h k = absurd (cc h)
compared_trans (some a) none c h k = absurd (cc h)
compared_trans (some a) (some b) none h k = absurd (cc k)
compared_trans (some a) (some b) (some c) h k = ground arith

-- A release newer than one newer than the current version is newer than the current version.
pub is_newer_version_trans :
    (a b c : Text)
    → is_newer_version a b ≡ true
    → is_newer_version b c ≡ true
    → is_newer_version a c ≡ true
unfolding is_newer_version
is_newer_version_trans a b c h k =
    compared_trans (parse_version a) (parse_version b) (parse_version c) h k
