-- ===== src/Store/Names.antt =====
-- Keys and file names of the strategy store (src/integrations/strategy_store.py): `strategy_key`,
-- `_key_segments`, `_object_name` and the keys that the bucket's objects have. A text is its list of
-- code points.
use mqs_backtest_visualizer.Prelude.{
  ℕ, ◌-◌, ◌==◌, ltb, leb, Bool, true, false, List, [], ◌∷◌, ◌++◌, ◌&&◌, ◌||◌, not, Result, ok, err,
  ◌>>=◌, if◌then◌else◌,
}
use mqs_backtest_visualizer.Prelude.Text.{Text, codes, same_text}

-- what the store raises: a `ValueError`, a `KeyError`, a `StrategyStoreError`, or a programming error
-- that it lets through
pub data Trouble : Type 0 where
  empty_key : Trouble
  invalid_name : Text → Trouble
  missing_object : Text → Trouble
  store_error : Text → Trouble
  programming_error : Trouble

abbrev pub slash : ℕ
slash = 47

abbrev pub is_slash : ℕ → Bool
is_slash c = c == slash

-- the characters that `str.strip` takes off
abbrev pub is_space : ℕ → Bool
is_space c =
    (leb 9 c && leb c 13)
    || (leb 28 c && leb c 32)
    || (c == 133)
    || (c == 160)
    || (c == 5760)
    || (leb 8192 c && leb c 8202)
    || (c == 8232)
    || (c == 8233)
    || (c == 8239)
    || (c == 8287)
    || (c == 12288)

abbrev pub lstrip : (ℕ → Bool) → Text → Text
lstrip test [] = []
lstrip test (c ∷ cs) = if test c then lstrip test cs else c ∷ cs

abbrev pub cons_unless : Bool → ℕ → Text → Text
cons_unless true c [] = []
cons_unless _ c cs = c ∷ cs

abbrev pub rstrip : (ℕ → Bool) → Text → Text
rstrip test [] = []
rstrip test (c ∷ cs) = cons_unless (test c) c (rstrip test cs)

abbrev pub strip : (ℕ → Bool) → Text → Text
strip test t = rstrip test (lstrip test t)

abbrev pub onto_first : ℕ → List Text → List Text
onto_first c [] = (c ∷ []) ∷ []
onto_first c (t ∷ ts) = (c ∷ t) ∷ ts

-- `split("/")`
abbrev pub split : Text → List Text
split [] = [] ∷ []
split (c ∷ cs) = if is_slash c then [] ∷ split cs else onto_first c (split cs)

abbrev pub keep_nonempty : List Text → List Text
keep_nonempty [] = []
keep_nonempty ([] ∷ ts) = keep_nonempty ts
keep_nonempty ((c ∷ cs) ∷ ts) = (c ∷ cs) ∷ keep_nonempty ts

-- `'/\\<>:"|?*'` and the control characters
abbrev pub is_forbidden : ℕ → Bool
is_forbidden c =
    is_slash c
    || (c == 92)
    || (c == 60)
    || (c == 62)
    || (c == 58)
    || (c == 34)
    || (c == 124)
    || (c == 63)
    || (c == 42)
    || ltb c 32

abbrev pub any_code : (ℕ → Bool) → Text → Bool
any_code test [] = false
any_code test (c ∷ cs) = test c || any_code test cs

abbrev pub dot : ℕ
dot = 46

abbrev pub ends_with_dot : Text → Bool
ends_with_dot [] = false
ends_with_dot (c ∷ []) = c == dot
ends_with_dot (c ∷ d ∷ cs) = ends_with_dot (d ∷ cs)

-- `split(".", 1)[0]`
abbrev pub before_dot : Text → Text
before_dot [] = []
before_dot (c ∷ cs) = if c == dot then [] else c ∷ before_dot cs

-- Of what `upper` does, what gives a letter of ASCII: to the small letters, the dotless i and the
-- long s. Another character becomes one that no device's name has, and is left as it is.
abbrev pub upper_code : ℕ → ℕ
upper_code c =
    if leb 97 c && leb c 122 then c - 32 else if c == 305 then 73 else if c == 383 then 83 else c

abbrev pub upper : Text → Text
upper [] = []
upper (c ∷ cs) = upper_code c ∷ upper cs

abbrev pub has_text : Text → List Text → Bool
has_text t [] = false
has_text t (u ∷ us) = same_text u t || has_text t us

-- "123456789¹²³"
abbrev pub device_digits : Text
device_digits = codes "123456789" ++ (185 ∷ 178 ∷ 179 ∷ [])

abbrev pub numbered : Text → Text → List Text
numbered prefix [] = []
numbered prefix (d ∷ ds) = (prefix ++ (d ∷ [])) ∷ numbered prefix ds

-- `_WINDOWS_DEVICES`
abbrev pub windows_devices : List Text
windows_devices =
    (codes "CON" ∷ codes "PRN" ∷ codes "AUX" ∷ codes "NUL" ∷ codes "CONIN$" ∷ codes "CONOUT$" ∷ [])
    ++ numbered (codes "COM") device_digits
    ++ numbered (codes "LPT") device_digits

abbrev pub is_blank : ℕ → Bool
is_blank c = c == 32

abbrev pub device_of : Text → Text
device_of t = upper (rstrip is_blank (before_dot t))

abbrev pub is_empty : Text → Bool
is_empty [] = true
is_empty (c ∷ cs) = false

abbrev pub is_unsafe : Text → Bool
is_unsafe t =
    is_empty t
    || not (same_text t (strip is_space t))
    || ends_with_dot t
    || any_code is_forbidden t
    || has_text (device_of t) windows_devices

-- `_object_name`
unfoldable pub object_name : Text → Result Trouble Text
object_name t = if is_unsafe t then err (invalid_name t) else ok t

abbrev pub check_names : List Text → List Text → Result Trouble (List Text)
check_names parts [] = ok parts
check_names parts (t ∷ ts) = elim (object_name t) [ err e ↦ err e | ok name ↦ check_names parts ts ]

abbrev pub some_parts : List Text → Result Trouble (List Text)
some_parts [] = err empty_key
some_parts (p ∷ ps) = check_names (p ∷ ps) (p ∷ ps)

-- `_key_segments`
unfoldable pub key_segments : Text → Result Trouble (List Text)
key_segments key = some_parts (keep_nonempty (split (strip is_slash key)))

-- `strategy_key`
abbrev pub strategy_key : Text → Text
strategy_key id = codes "strategies/" ++ strip is_slash id ++ (slash ∷ [])

-- `"/".join(parts) + "/"`
abbrev pub directory : List Text → Text
directory [] = []
directory (p ∷ ps) = p ++ (slash ∷ directory ps)

-- `_prefix_for`
abbrev pub prefix_for : Text → Text → Result Trouble Text
prefix_for prefix key = do parts ← key_segments key; ok (prefix ++ directory parts)

-- `_object_key`
abbrev pub object_key : Text → Text → Text → Result Trouble Text
object_key prefix key filename = do
  under ← prefix_for prefix key
  name ← object_name filename
  ok (under ++ name)
