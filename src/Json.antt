-- ===== src/Json.antt =====
-- Values of Python's `json` module and the builtins that the program applies to them: truth,
-- `or`, `dict.get`, `len` and iteration. `null` is also what `.get` returns for a missing key.
use decision_maker_flow.Prelude.{
  zero, suc, String, Bool, true, false, List, [], ◌∷◌, str_eq, if◌then◌else◌, Outcome, ok, raised,
}
use decision_maker_flow.Prelude.Int.{ℤ, pos, negsuc}

-- What `int(x)` gives for a float.
pub data Whole : Type 0 where
  whole : ℤ → Whole
  nan inf : Whole

-- A float, by what the program observes of it.
pub record Float : Type 0 where
  pub nonzero : Bool
  pub truncated : Whole

mutual
  pub data Json : Type 0 where
    null : Json
    bool : Bool → Json
    int : ℤ → Json
    float : Float → Json
    str : String → Json
    arr : Items → Json
    obj : Fields → Json

  pub data Items : Type 0 where
    nil : Items
    cons : Json → Items → Items

  pub data Fields : Type 0 where
    end : Fields
    field : String → Json → Fields → Fields

abbrev pub items : Items → List Json
items nil = []
items (cons v vs) = v ∷ items vs

-- `bool(s)` of a text.
abbrev pub nonempty : String → Bool
nonempty String.[] = false
nonempty (String.◌∷◌ c s) = true

abbrev nonzero : ℤ → Bool
nonzero (pos zero) = false
nonzero (pos (suc n)) = true
nonzero (negsuc n) = true

-- `bool(v)`
unfoldable pub truthy : Json → Bool
truthy null = false
truthy (bool b) = b
truthy (int z) = nonzero z
truthy (float f) = f.nonzero
truthy (str s) = nonempty s
truthy (arr nil) = false
truthy (arr (cons v vs)) = true
truthy (obj end) = false
truthy (obj (field k v fs)) = true

-- `v or d`
abbrev pub or_default : Json → Json → Json
or_default v d = if truthy v then v else d

-- `d.get(key)`; the decoder keeps the last of two equal keys, and puts it where the first stood.
unfoldable pub get : String → Fields → Json
get key end = null
get key (field k v fs) = if str_eq k key then v else get key fs

-- `d.get(key, default)`, which keeps a stored `None`.
unfoldable pub get_or : String → Fields → Json → Json
get_or key end d = d
get_or key (field k v fs) d = if str_eq k key then v else get_or key fs d

pub data TypeError : Type 0 where
  not_sized not_iterable : TypeError

abbrev chars : String → List Json
chars String.[] = []
chars (String.◌∷◌ c s) = str (String.◌∷◌ c String.[]) ∷ chars s

abbrev keys : Fields → List Json
keys end = []
keys (field k v fs) = str k ∷ keys fs

-- `list(v)`: a text gives its characters and a dict its keys.
unfoldable pub iterate : Json → Outcome TypeError (List Json)
iterate (arr vs) = ok (items vs)
iterate (str s) = ok (chars s)
iterate (obj fs) = ok (keys fs)
iterate _ = raised not_iterable

-- `len(v) > 0`
unfoldable pub len_positive : Json → Outcome TypeError Bool
len_positive (arr vs) = ok (truthy (arr vs))
len_positive (str s) = ok (truthy (str s))
len_positive (obj fs) = ok (truthy (obj fs))
len_positive _ = raised not_sized
