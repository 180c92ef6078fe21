-- ===== src/Loader/Stages.antt =====
-- One section of the configuration at a time: what loading it does, and that a loaded one stays as it is.
use traffic_lane_counter.Prelude.{
  ◌≡◌, refl, ◌∙◌, subst, ap, inl, inr, false, some, String, ◌==◌, string_eq, arith, Result, done,
  Option-cases,
}
use traffic_lane_counter.Loader.{
  Value, dict, Entries, no_entry, ◌>>=◌, get, put, at, setdefault, to_entries, section,
}
use traffic_lane_counter.Loader.Load.{load_section, load_option}
use traffic_lane_counter.Loader.Defaults.{get-put, put_same, get-setdefault}
use traffic_lane_counter.Loader.Filled.{>>=-eq-done}

-- The section `d` stands under its key.
abbrev pub Has : String → Entries → Entries → Type 0
Has k d c = get k c ≡ some (dict d)

-- Only this key may have changed.
abbrev pub Keeps : String → Entries → Entries → Type 0
Keeps k c e = (j : String) → (k == j) ≡ false → get j e ≡ get j c

put-Has : (k : String) (d c : Entries) → Has k d (put k (dict d) c)
put-Has k d c = ground (arith, get-put k k (dict d) c)

pub put-Keeps : (k : String) (v : Value) (c : Entries) → Keeps k c (put k v c)
put-Keeps k v c j n = ground (arith, n, get-put k j v c)

pub setdefault-Keeps : (k : String) (v : Value) (c : Entries) → Keeps k c (setdefault k v c)
setdefault-Keeps k v c j n = elim (Option-cases (get j c)) [
  | inl e ↦ ground (arith, n, e, get-setdefault k j v c)
  | inr (w, e) ↦ ground (arith, n, e, get-setdefault k j v c)
]

module _ (load : Entries → Result String Entries) where
  -- What a loaded section is: `load` has made it of something, it stands under its key, and nothing else changed.
  abbrev pub Stage : String → Entries → Entries → Type 0
  Stage k c e = (d : Entries) × (g : Entries) × (load g ≡ done d) × Has k d e × Keeps k c e

  pub load_section-Stage :
      (k missing wrong : String) (c : Entries) {e : Entries}
      → load_section k missing wrong load c ≡ done e
      → Stage k c e
  unfolding load_section
  load_section-Stage k missing wrong c {e} h =
      let (g, found, rest) =
        >>=-eq-done (section k missing wrong c)
          (λ (g : Entries). load g >>= λ d. done (put k (dict d) c)) h in
      let (d, loaded, end) = >>=-eq-done (load g) (λ (d : Entries). done (put k (dict d) c)) rest in
      let same : put k (dict d) c ≡ e = cc end in
      (
        d,
        g,
        loaded,
        subst (Has k d) same (put-Has k d c),
        subst (Keeps k c) same (put-Keeps k (dict d) c),
      )

  pub load_option-Stage :
      (k wrong : String) (c : Entries) {e : Entries}
      → load_option k wrong load c ≡ done e
      → Stage k c e
  unfolding load_option
  load_option-Stage k wrong c {e} h =
      let c1 = setdefault k (dict no_entry) c in
      let (g, found, rest) =
        >>=-eq-done (to_entries wrong (at k c1))
          (λ (g : Entries). load g >>= λ d. done (put k (dict d) c1)) h in
      let (d, loaded, end) =
        >>=-eq-done (load g) (λ (d : Entries). done (put k (dict d) c1)) rest in
      let same : put k (dict d) c1 ≡ e = cc end in
      (
        d,
        g,
        loaded,
        subst (Has k d) same (put-Has k d c1),
        subst (Keeps k c) same
            (λ j n. put-Keeps k (dict d) c1 j n ∙ setdefault-Keeps k (dict no_entry) c j n),
      )

  -- A section that stands there and loads as it is changes nothing.
  pub load_section_again :
      (k missing wrong : String) (d c : Entries)
      → Has k d c
      → load d ≡ done d
      → load_section k missing wrong load c ≡ done c
  unfolding load_section section to_entries
  load_section_again k missing wrong d c h l =
      let found : section k missing wrong c ≡ done d = rw (h, section) refl in
      rw (found, load_section) (rw l (ap done (put_same k (dict d) c h)))

  pub load_option_again :
      (k wrong : String) (d c : Entries)
      → Has k d c
      → load d ≡ done d
      → load_option k wrong load c ≡ done c
  unfolding load_option setdefault at to_entries
  load_option_again k wrong d c h l =
      let same : setdefault k (dict no_entry) c ≡ c = rw (h, setdefault) refl in
      let found : to_entries wrong (at k c) ≡ done d = rw (h, at) refl in
      rw (same, load_option) (rw found (rw l (ap done (put_same k (dict d) c h))))
