-- ===== src/Loader/Defaults.antt =====
-- Defaults fill in what is missing, and nothing else.
use traffic_lane_counter.Prelude.{
  ◌≡◌, refl, inl, inr, none, some, List, [], ◌∷◌, String, ◌==◌, string_eq, arith, if◌then◌else◌,
  Option-cases, All,
}
use traffic_lane_counter.Prelude.Dict.{lookup}
use traffic_lane_counter.Loader.{Value, Entries, no_entry, entry, get, put, setdefault, setdefaults}

pub get-put :
    (k j : String) (v : Value) (d : Entries)
    → get j (put k v d) ≡ (if k == j then some v else get j d)
unfolding get put
get-put k j v no_entry = ground arith
get-put k j v (entry i w d) = ground (arith, get-put k j v d)

-- `d[k] = d[k]` changes nothing.
pub put_same : (k : String) (v : Value) (d : Entries) → get k d ≡ some v → put k v d ≡ d
unfolding get put
put_same k v no_entry e = cc
put_same k v (entry i w d) e = ground (arith, put_same k v d)

pub get-setdefault :
    (k j : String) (v : Value) (d : Entries)
    → get j (setdefault k v d)
      ≡ elim (get j d) [ none ↦ (if k == j then some v else none) | some w ↦ some w ]
unfolding setdefault
get-setdefault k j v d = elim (Option-cases (get k d)) [
  | inl e ↦ elim (Option-cases (get j d)) [
    | inl n ↦ ground (arith, e, n, get-put k j v d)
    | inr (w, n) ↦ ground (arith, e, n, get-put k j v d)
  ]
  | inr (x, e) ↦ elim (Option-cases (get j d)) [
    | inl n ↦ ground (arith, e, n)
    | inr (w, n) ↦ ground (arith, e, n)
  ]
]

-- A key that is there keeps its value; a missing one has the value of the first default for it.
pub get-setdefaults :
    (kvs : List (String × Value)) (j : String) (d : Entries)
    → get j (setdefaults kvs d) ≡ elim (get j d) [ none ↦ lookup j kvs | some w ↦ some w ]
unfolding setdefaults lookup
get-setdefaults [] j d = elim (Option-cases (get j d)) [
  | inl n ↦ ground (arith, n)
  | inr (w, n) ↦ ground (arith, n)
]
get-setdefaults ((k, v) ∷ kvs) j d = elim (Option-cases (get j d)) [
  | inl n ↦ ground (arith, n, get-setdefaults kvs j (setdefault k v d), get-setdefault k j v d)
  | inr (w, n) ↦ ground (arith, n, get-setdefaults kvs j (setdefault k v d), get-setdefault k j v d)
]

-- Every default is there already.
abbrev pub HasAll : List (String × Value) → Entries → Type 0
HasAll kvs d = All (λ x. (v : Value) × (get x.0 d ≡ some v)) kvs

pub setdefaults_same :
    (kvs : List (String × Value)) (d : Entries) → HasAll kvs d → setdefaults kvs d ≡ d
unfolding setdefaults setdefault
setdefaults_same [] d h = refl
setdefaults_same ((k, v) ∷ kvs) d ((w, e), h) = rw (e, setdefault) (setdefaults_same kvs d h)

has_default :
    (k : String) (v : Value) (kvs : List (String × Value)) (d : Entries)
    → (w : Value) × (get k (setdefaults ((k, v) ∷ kvs) d) ≡ some w)
unfolding lookup
has_default k v kvs d = elim (Option-cases (get k d)) [
  | inl n ↦ (v, ground (arith, n, get-setdefaults ((k, v) ∷ kvs) k d))
  | inr (w, n) ↦ (w, ground (arith, n, get-setdefaults ((k, v) ∷ kvs) k d))
]

pub HasAll-setdefaults :
    (kvs : List (String × Value)) (d : Entries) → HasAll kvs (setdefaults kvs d)
unfolding setdefaults
HasAll-setdefaults [] d = tt
HasAll-setdefaults ((k, v) ∷ kvs) d =
    (has_default k v kvs d, HasAll-setdefaults kvs (setdefault k v d))
