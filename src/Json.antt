-- ===== src/Json.antt =====
-- The values of Python's `json` module that messages are made of. Numbers are natural; the
-- router only passes them on.
use foris_controller.Prelude.{ℕ, String, ◌==◌, Bool, Option, none, some, if◌then◌else◌}

mutual
  pub data Value : Type 0 where
    dict_of : Fields → Value
    list_of : Items → Value
    str : String → Value
    num : ℕ → Value
    bool : Bool → Value
    null : Value

  pub data Items : Type 0 where
    no_item : Items
    item : Value → Items → Items

  pub data Fields : Type 0 where
    no_field : Fields
    field : String → Value → Fields → Fields

-- d.get(k); `none` is also the KeyError of d[k]
unfoldable pub get : Fields → String → Option Value
get no_field k = none
get (field j v d) k = if j == k then some v else get d k

-- d.get(k, default)
unfoldable pub get_or : Fields → String → Value → Value
unfolding get
get_or d k v = elim (get d k) [ none ↦ v | some w ↦ w ]
