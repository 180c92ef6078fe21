-- ===== src/Loader/Trail.antt =====
-- The steps that a successful loading took, and the keys that they left alone.
use traffic_lane_counter.Prelude.{
  ◌≡◌, refl, ◌∙◌, ap, Bool, true, false, ◌&&◌, not, List, [], ◌∷◌, String, ◌==◌, string_eq, done,
}
use traffic_lane_counter.Loader.{Value, Entries, ◌>>=◌, get}
use traffic_lane_counter.Loader.Sections.{load_detector, filled}
use traffic_lane_counter.Loader.Settings.{
  load_tracking, load_lane_assignment, load_smoothing, load_input, load_counting, output_defaults,
}
use traffic_lane_counter.Loader.Lines.{Size}
use traffic_lane_counter.Loader.Load.{
  thousandths, load_section, from_smoothing, from_assignment, from_tracking, load_required,
  load_option, no_check, load_output, load_optional, check_lane_list, load_lanes, load_rest,
}
use traffic_lane_counter.Loader.Filled.{>>=-eq-done}
use traffic_lane_counter.Loader.Stages.{Keeps, Stage, load_section-Stage, load_option-Stage}

-- From one configuration to another, one key after the other
abbrev pub Trail : List String → Entries → Entries → Type 0
Trail [] c e = e ≡ c
Trail (k ∷ ks) c e = (d : Entries) × Keeps k c d × Trail ks d e

abbrev pub is_fresh : List String → String → Bool
is_fresh [] j = true
is_fresh (k ∷ ks) j = not (k == j) && is_fresh ks j

fresh_head : (a b : Bool) → (not a && b) ≡ true → (a ≡ false) × (b ≡ true)
fresh_head true b h = cc
fresh_head false b h = (refl, h)

pub get-Trail :
    (ks : List String) (j : String) (c e : Entries)
    → Trail ks c e
    → is_fresh ks j ≡ true
    → get j e ≡ get j c
get-Trail [] j c e t f = ap (get j) t
get-Trail (k ∷ ks) j c e (d, keeps, t) f =
    let (differs, fresh) = fresh_head (k == j) (is_fresh ks j) f in
    get-Trail ks j d e t fresh ∙ keeps j differs

pub lanes_same :
    (size : Size) (c e : Entries)
    → get "lanes" e ≡ get "lanes" c
    → check_lane_list size e ≡ check_lane_list size c
unfolding check_lane_list
lanes_same size c e h = rw (h, check_lane_list) refl

pub required_inv :
    (modes c e : Entries)
    → load_required modes c ≡ done e
    → (c1 : Entries) × (c2 : Entries) × (c3 : Entries) × Stage (load_detector modes) "detector" c c1
      × Stage load_tracking "tracking" c1 c2
      × Stage load_lane_assignment "lane_assignment" c2 c3
      × Stage load_smoothing "smoothing" c3 e
unfolding load_required from_tracking from_assignment from_smoothing
required_inv modes c e h =
    let (c1, h1, r1) =
      >>=-eq-done
        (load_section "detector" "Missing 'detector' section in configuration."
          "'detector' section must be a dictionary." (load_detector modes) c)
        from_tracking h in
    let (c2, h2, r2) =
      >>=-eq-done
        (load_section "tracking" "Missing 'tracking' section in configuration."
          "'tracking' section must be a dictionary." load_tracking c1)
        from_assignment r1 in
    let (c3, h3, h4) =
      >>=-eq-done
        (load_section "lane_assignment" "Missing 'lane_assignment' section in configuration."
          "'lane_assignment' section must be a dictionary." load_lane_assignment c2)
        from_smoothing r2 in
    (
      c1,
      c2,
      c3,
      load_section-Stage (load_detector modes) "detector" _ _ c h1,
      load_section-Stage load_tracking "tracking" _ _ c1 h2,
      load_section-Stage load_lane_assignment "lane_assignment" _ _ c2 h3,
      load_section-Stage load_smoothing "smoothing" _ _ c3 h4,
    )

pub rest_inv :
    (size : Value × Value) (c modes e : Entries)
    → load_rest size (c, modes) ≡ done e
    → (c1 : Entries) × (c2 : Entries) × (c3 : Entries) × (load_required modes c ≡ done c1)
      × Stage load_input "input" c1 c2
      × Stage (filled output_defaults no_check) "output" c2 c3
      × (check_lane_list (thousandths size.0, thousandths size.1) c3 ≡ done tt)
      × Stage load_counting "counting" c3 e
unfolding load_rest load_optional load_output load_lanes
rest_inv size c modes e h =
    let frame : Size = (thousandths size.0, thousandths size.1) in
    let (c1, h1, r1) =
      >>=-eq-done (load_required modes c) (λ c1. load_optional c1 >>= load_lanes frame) h in
    let (c3, h3, r3) = >>=-eq-done (load_optional c1) (load_lanes frame) r1 in
    let (c2, h2, r2) =
      >>=-eq-done (load_option "input" "'input' section must be a dictionary." load_input c1)
        load_output h3 in
    let (u, h4, h5) =
      >>=-eq-done (check_lane_list frame c3)
        (λ _. load_option "counting" "'counting' section must be a dictionary." load_counting c3)
        r3 in
    (
      c1,
      c2,
      c3,
      h1,
      load_option-Stage load_input "input" _ c1 h2,
      load_option-Stage (filled output_defaults no_check) "output" _ c2 r2,
      h4,
      load_option-Stage load_counting "counting" _ c3 h5,
    )
