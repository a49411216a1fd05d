-- ===== src/Search/Sample.antt =====
-- An engine on which the definitions of a search run: a number is written in strokes, a pair of
-- texts with a mark before each character of the first one, and base64 leaves a text as it is.
use Prim.Native.Char.{Char, code}
use Prim.Native.String.{[] as empty, ◌∷◌ as char_cons}
use text.Mathlib.Text.{◌==◌ as str_eq}
use text.Mathlib.TextEquality.{eq_iff}
use sd_online_auction_backen.Common.{
  ℕ, zero, suc, ◌≡◌, refl, ap, inl, inr, String, Bool, true, false, Option, none, some, leb,
  Bool-cases, ◌==◌, ◌*◌, if◌then◌else◌,
}
use sd_online_auction_backen.Platform.Exact.{exact}
use sd_online_auction_backen.Models.{Auction}
use sd_online_auction_backen.Search.{Engine, key, key_lt}

pub data Json : Type 0 where
  string : String → Json
  pair : String → String → Json

pub strokes : ℕ → String
strokes zero = ""
strokes (suc n) = char_cons "|" (strokes n)

pub size : String → ℕ
size empty = 0
size (char_cons c s) = suc (size s)

pub joined : String → String → String
joined empty b = char_cons "," b
joined (char_cons c a) b = char_cons "+" (char_cons c (joined a b))

pub put_first : Char → Option (String × String) → Option (String × String)
put_first c none = none
put_first c (some (a, b)) = some (char_cons c a, b)

pub parted : String → Option (String × String)
parted empty = none
parted (char_cons m empty) = if code m == 44 then some ("", "") else none
parted (char_cons m (char_cons c s)) =
    let rest = parted s in if code m == 44 then some ("", char_cons c s) else put_first c rest

pub parted-joined : (a b : String) → parted (joined a b) ≡ some (a, b)
unfolding parted joined put_first
parted-joined empty empty = refl
parted-joined empty (char_cons c b) = refl
parted-joined (char_cons c a) b = rw (parted-joined a b) refl

pub joined_empty : (a b : String) → str_eq (joined a b) "" ≡ false
unfolding joined
joined_empty a b = elim (Bool-cases (str_eq (joined a b) "")) [
  | inl same ↦ absurd (never a ((eq_iff (joined a b) "").0 same))
  | inr other ↦ other
]
  where
    never : (s : String) → joined s b ≡ "" → ⊥
    never empty q = cc
    never (char_cons c s) q = cc

pub dumps : Json → String
dumps (string s) = s
dumps (pair a b) = joined a b

pub as_pair : Option (String × String) → Option Json
as_pair none = none
as_pair (some (a, b)) = some (pair a b)

pub compares : Json → Json → Option (Auction → Bool)
compares (string a) (string b) = some (λ x. key_lt (key x) (size a, size b))
compares _ _ = none

pub first_or_second : Json → ℕ → Option Json
first_or_second (pair a b) n = if n == 0 then some (string a) else some (string b)
first_or_second (string s) n = none

unfoldable pub sample : Engine exact
unfolding joined parted dumps as_pair compares first_or_second strokes size
sample = record {
  isoformat = strokes;
  uuid_text = strokes;
  Json = Json;
  text = string;
  pair = pair;
  dumps = dumps;
  loads = λ s. as_pair (parted s);
  b64encode = λ s. s;
  b64decode = λ s. some s;
  len = λ j. elim j [ string s ↦ none | pair a b ↦ some 2 ];
  index = first_or_second;
  loads_dumps = λ a b. ap as_pair (parted-joined a b);
  b64decode_b64encode = λ s. refl;
  len_pair = λ a b. refl;
  index_pair = λ a b. (refl, refl);
  b64encode_pair = joined_empty;
  is_blank = λ s. str_eq s "";
  matches = λ document q. true;
  price_at_least = λ n x. leb x (10 * n);
  price_at_most = λ n x. leb (10 * n) x;
  row_less = compares;
}
