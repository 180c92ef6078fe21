-- ===== src/Live/Idle.antt =====
-- What the cleaner of idle streams takes away.
use traffic_lane_counter.Prelude.{
  ℕ, ◌+◌, ◌≡◌, refl, subst, str_dec, inl, inr, Bool, false, ◌&&◌, not, none, some, List, [], ◌∷◌,
  String, string_eq, nat_eq, arith, if◌then◌else◌, ◌==◌, ltb, Option-cases,
}
use traffic_lane_counter.Prelude.Dict.{Dict, lookup, lookup-remove, Distinct, Absent, lookup-Absent}
use traffic_lane_counter.Live.{
  Stream, Fleet, has_camera, is_stale, stale_cameras, cleanup_stream, cleanup_all,
  cleanup_stale_streams,
}

pub lookup-cleanup_stream :
    (c k : String) (f : Fleet)
    → lookup k (cleanup_stream c f).1.streams ≡ (if c == k then none else lookup k f.streams)
unfolding cleanup_stream
lookup-cleanup_stream c k f = elim (Option-cases (lookup c f.streams)) [
  | inl e ↦ ground (arith, e)
  | inr (s, e) ↦ ground (arith, e, lookup-remove c k f.streams)
]

pub lookup-cleanup_all :
    (cs : List String) (k : String) (f : Fleet)
    → lookup k (cleanup_all cs f).streams ≡ (if has_camera k cs then none else lookup k f.streams)
unfolding cleanup_all has_camera
lookup-cleanup_all [] k f = refl
lookup-cleanup_all (c ∷ cs) k f =
    ground (arith, lookup-cleanup_all cs k (cleanup_stream c f).1, lookup-cleanup_stream c k f)

-- Which cameras are stale, if each has one stream.
has_camera-stale :
    (now : ℕ) (k : String) (d : Dict String Stream)
    → Distinct d
    → has_camera k (stale_cameras now d)
      ≡ elim (lookup k d) [ none ↦ false | some s ↦ is_stale now s ]
unfolding has_camera stale_cameras lookup
has_camera-stale now k [] u = refl
has_camera-stale now k ((c, s) ∷ d) u =
    let rest = has_camera-stale now k d u.1 in
    elim (str_dec c k) [
      | yes p ↦
          let gone : lookup k d ≡ none = lookup-Absent k d (subst (λ j. Absent j d) p u.0) in
          ground (arith, p, gone, rest)
      | no n ↦ ground (arith, n, rest)
    ]

-- A round of the cleaner, if each camera has one stream: a stream is taken away exactly if it is not always on,
-- has no viewer and was last used more than 20 seconds ago; every other stream stays as it is. Nothing happens
-- if the last round was less than 10 seconds ago and the round is not forced.
pub lookup-cleanup_stale_streams :
    (now : ℕ) (force : Bool) (k : String) (f : Fleet)
    → Distinct f.streams
    → lookup k (cleanup_stale_streams now force f).streams ≡ (
        if not force && ltb now (f.last_cleanup + 10)
        then lookup k f.streams
        else elim (lookup k f.streams) [
          | none ↦ none
          | some s ↦
              if not s.always_on && (s.connections == 0 && ltb (s.last_access + 20) now)
              then none
              else some s
        ])
unfolding cleanup_stale_streams is_stale
lookup-cleanup_stale_streams now force k f u =
    let g : Fleet = record f { last_cleanup = now } in
    let taken = has_camera-stale now k f.streams u in
    let after = lookup-cleanup_all (stale_cameras now f.streams) k g in
    elim (Option-cases (lookup k f.streams)) [
      | inl e ↦ ground (arith, e, taken, after)
      | inr (s, e) ↦ ground (arith, e, taken, after)
    ]
