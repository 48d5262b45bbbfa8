-- ===== src/Config/Env.antt =====
-- The values that internal/bootstrap/config/base.go reads from the environment.
use polaris_sidecar.Prelude.{
  Bool, List, Option, [], false, if◌then◌else◌, is_empty, leb, none, some, suc, true, zero, ℕ, ◌&&◌,
  ◌*◌, ◌+◌, ◌-◌, ◌==◌, ◌^◌, ◌∷◌,
}
use polaris_sidecar.Prelude.Int.{negsuc, pos, ℤ}
use polaris_sidecar.Prelude.Sets.{member}
use polaris_sidecar.Prelude.Text.{Str, codes, split}

-- `os.Getenv`: empty if the variable is not set.
abbrev pub Env : Type 0
Env = Str → Str

-- `strconv.Atoi` for an `int` of 64 bits: a sign, which may be missing, and one digit or more.
unfoldable pub digits_value : ℕ → Str → Option ℕ
digits_value acc [] = some acc
digits_value acc (c ∷ s) =
    let rest = digits_value (10 * acc + (c - 48)) s in if leb 48 c && leb c 57 then rest else none

abbrev unsigned : Str → Option ℕ
unsigned [] = none
unsigned (c ∷ s) = digits_value 0 (c ∷ s)

in_range : ℕ → ℕ → (ℕ → ℤ) → Option ℤ
in_range limit n f = if leb n limit then some (f n) else none

abbrev negated : ℕ → ℤ
negated zero = pos 0
negated (suc n) = negsuc n

signed : ℕ → (ℕ → ℤ) → Option ℕ → Option ℤ
unfolding in_range
signed limit f none = none
signed limit f (some n) = in_range limit n f

unfoldable pub atoi : Str → Option ℤ
unfolding digits_value signed
atoi [] = none
atoi (c ∷ s) =
    if c == b'-'
    then signed (2 ^ 63) negated (unsigned s)
    else if c == b'+'
    then signed (2 ^ 63 - 1) pos (unsigned s)
    else signed (2 ^ 63 - 1) pos (unsigned (c ∷ s))

abbrev true_words : List Str
true_words = codes "1" ∷ codes "t" ∷ codes "T" ∷ codes "true" ∷ codes "TRUE" ∷ codes "True" ∷ []

abbrev false_words : List Str
false_words = codes "0" ∷ codes "f" ∷ codes "F" ∷ codes "false" ∷ codes "FALSE" ∷ codes "False" ∷ []

-- `strconv.ParseBool`
unfoldable pub parse_bool : Str → Option Bool
unfolding member
parse_bool s =
    if member s true_words then some true else if member s false_words then some false else none

-- A value that cannot be read is only logged.
abbrev pub or_default {ℓ} : {A : Type ℓ} → Option A → A → A
or_default none a = a
or_default (some b) a = b

module _ (env : Env) where
  unfoldable pub get_env_string_value : Str → Str → Str
  get_env_string_value env_name default_value =
      if is_empty (env env_name) then default_value else env env_name

  unfoldable pub get_env_strings_value : Str → List Str → List Str
  get_env_strings_value env_name default_values =
      if is_empty (env env_name) then default_values else split b',' (env env_name)

  unfoldable pub get_env_int_value : Str → ℤ → ℤ
  get_env_int_value env_name default_value =
      if is_empty (env env_name)
      then default_value
      else or_default (atoi (env env_name)) default_value

  unfoldable pub get_env_bool_value : Str → Bool → Bool
  get_env_bool_value env_name default_value =
      if is_empty (env env_name)
      then default_value
      else or_default (parse_bool (env env_name)) default_value
