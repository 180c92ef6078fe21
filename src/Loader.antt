-- ===== src/Loader.antt =====
-- packages/tf_core/io/config_loader.py: YAML as `safe_load` reads it, and how the loader looks at it. A float
-- is a whole number of thousandths; keys of mappings are texts. An error is its text, without the values that it
-- quotes.
pub mod Sections
pub mod Settings
pub mod Lines
pub mod Load
pub mod Defaults
pub mod Filled
pub mod Stages
pub mod Accepts
pub mod Trail
pub mod Again
pub mod Windows
use traffic_lane_counter.Prelude.{
  ℕ, zero, suc, ◌+◌, ◌*◌, ◌≡◌, Bool, true, false, ◌&&◌, ◌||◌, not, Option, none, some, List, [],
  ◌∷◌, String, ◌==◌, string_eq, if◌then◌else◌, leb, ltb, Result, failed, done,
}
use traffic_lane_counter.Prelude.Int.{ℤ, pos, negsuc, ltb_ℤ, scale}

mutual
  pub data Value : Type 0 where
    null : Value
    bool : Bool → Value
    int : ℤ → Value
    float : ℤ → Value
    text : String → Value
    list : Values → Value
    dict : Entries → Value

  pub data Values : Type 0 where
    end : Values
    item : Value → Values → Values

  pub data Entries : Type 0 where
    no_entry : Entries
    entry : String → Value → Entries → Entries

infixl 5 ◌>>=◌ ◌>>◌
abbrev pub ◌>>=◌ : {A B : Type 0} → Result String A → (A → Result String B) → Result String B
done a >>= f = f a
failed e >>= f = failed e

abbrev pub ◌>>◌ : {B : Type 0} → Result String (Unit {0}) → Result String B → Result String B
m >> k = m >>= λ _. k

-- `if not ...: raise ValueError(...)`
abbrev pub require : Bool → String → Result String (Unit {0})
require true e = done tt
require false e = failed e

-- `d.get(k)`, with the difference between a missing key and `None`
unfoldable pub get : String → Entries → Option Value
get k no_entry = none
get k (entry j v d) = if j == k then some v else get k d

-- `d[k] = v`
unfoldable pub put : String → Value → Entries → Entries
put k v no_entry = entry k v no_entry
put k v (entry j w d) = if j == k then entry j v d else entry j w (put k v d)

-- `d.setdefault(k, v)`
unfoldable pub setdefault : String → Value → Entries → Entries
unfolding get put
setdefault k v d = elim (get k d) [ none ↦ put k v d | some _ ↦ d ]

unfoldable pub setdefaults : List (String × Value) → Entries → Entries
unfolding setdefault
setdefaults [] d = d
setdefaults ((k, v) ∷ kvs) d = setdefaults kvs (setdefault k v d)

-- `d[k]`, which is there
unfoldable pub at : String → Entries → Value
unfolding get
at k d = elim (get k d) [ none ↦ null | some v ↦ v ]

-- `isinstance(v, int)`, where `True` is 1
unfoldable pub as_int : Value → Option ℤ
as_int (bool b) = some (if b then pos 1 else pos 0)
as_int (int n) = some n
as_int v = none

-- `isinstance(v, (int, float))`, in thousandths
unfoldable pub as_number : Value → Option ℤ
as_number (bool b) = some (if b then pos 1000 else pos 0)
as_number (int n) = some (scale n 1000)
as_number (float x) = some x
as_number v = none

unfoldable pub is_positive_int : Value → Bool
unfolding as_int
is_positive_int v = elim (as_int v) [ none ↦ false | some n ↦ ltb_ℤ (pos 0) n ]

unfoldable pub is_natural_int : Value → Bool
unfolding as_int
is_natural_int v = elim (as_int v) [ none ↦ false | some n ↦ not (ltb_ℤ n (pos 0)) ]

-- Is it a number from `low` to `high`, in thousandths?
unfoldable pub is_between : ℤ → ℤ → Value → Bool
unfolding as_number
is_between low high v = elim (as_number v) [
  | none ↦ false
  | some x ↦ not (ltb_ℤ x low) && not (ltb_ℤ high x)
]

unfoldable pub is_text : Value → Bool
is_text (text s) = true
is_text v = false

unfoldable pub is_nonempty_text : Value → Bool
is_nonempty_text (text s) = not (s == "")
is_nonempty_text v = false

unfoldable pub is_one_of : List String → Value → Bool
is_one_of [] v = false
is_one_of (s ∷ ss) (text t) = t == s || is_one_of ss (text t)
is_one_of (s ∷ ss) v = false

unfoldable pub all_items : (Value → Bool) → Values → Bool
all_items p end = true
all_items p (item v vs) = p v && all_items p vs

unfoldable pub is_list_of : (Value → Bool) → Value → Bool
unfolding all_items
is_list_of p (list vs) = all_items p vs
is_list_of p v = false

unfoldable pub count_items : Values → ℕ
count_items end = 0
count_items (item v vs) = suc (count_items vs)

unfoldable pub to_entries : String → Value → Result String Entries
to_entries e (dict d) = done d
to_entries e v = failed e

-- A section that has to be there
unfoldable pub section : String → String → String → Entries → Result String Entries
unfolding get to_entries
section k missing wrong c = elim (get k c) [ none ↦ failed missing | some v ↦ to_entries wrong v ]
